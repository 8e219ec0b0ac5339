-- ===== src/Planning.antt =====
-- Route planning (src/jobtology_be/planning): activity templates and candidates, the calendar, the
-- planning problem, and the planner around the external CP-SAT solver.
pub mod Effort
pub mod Templates
pub mod Catalog
pub mod Graph
pub mod Cycles
pub mod Expand
pub mod Generator
pub mod Calendar
pub mod Problem
pub mod Route
pub mod Hint
pub mod Results
pub mod Planner
mod Examples
mod RouteExamples
mod FoldExamples
