-- ===== src/Lib.antt =====
-- Jobtology BE: models and theorems of the backend's deterministic core.
--
-- The program's parts and their models. An analysis compares a person's normalized profile with a
-- reviewed baseline of requirements; the candidate generator makes learning activities of what is
-- open; the calendar offers the hours to plan them in; recomputations of analyses run in the
-- background, under leases and quotas.
--
-- - Common: shared tests, lists, sorting and results. `Result` is a call that may raise, `Outcome`
--   one that may also run out of fuel, which stands for a recursion without end.
-- - Editorial: the gap analysis (src/jobtology_be/modules/analyses/editorial.py: `evaluate`,
--   `_evaluate_requirement`, `_coverage`) and the checks of a baseline (editorial_models.py,
--   `EditorialBaseline.__post_init__`).
-- - Planning.Templates, Planning.Catalog, Planning.Cycles, Planning.Expand, Planning.Generator: the
--   candidate generator (src/jobtology_be/planning/candidates.py and candidate_models.py): the checks
--   of templates, `_catalog`, `_validate_dependencies` with its search for cycles, `_expand` and
--   `_build_ready`. It takes the evaluations of Editorial.
-- - Planning.Effort: `_remaining_effort` (src/jobtology_be/product_roles/planning.py) over
--   src/jobtology_be/planning/effort.py, which shortens the templates before the generator reads them.
-- - Planning.Calendar: `slot_is_available` and `flexible_weekly_slots`
--   (src/jobtology_be/planning/calendar.py).
-- - Planning.Problem: the planning problem with its checks and weights
--   (src/jobtology_be/planning/solver_models.py, contracts.py). Planning.Route: the CP-SAT model of a
--   route (cp_sat_model.py), its constraints as the predicate `Satisfies` on the values of its
--   variables and its objective as a function of them; Planning.Hint: `_add_schedule_hint`, the list
--   schedule that seeds the search. Planning.Results and Planning.Planner: the steps of a route
--   (cp_sat_results.py) and `CpSatRoutePlanner.plan` (cp_sat_planner.py), with the solver's answers as
--   a parameter.
-- - Quota: the budgets of analyses (src/jobtology_be/infrastructure/persistence/compute_budget.py) and
--   the chat quota (rate_limit.py).
-- - Recompute: the store of the recompute work, `claim_recompute_work`
--   (src/jobtology_be/infrastructure/persistence/outbox.py, in Recompute.Claim) and the worker's
--   `load_recompute_context`, `finalize_recompute` and `fail_recompute` (worker.py, in
--   Recompute.Worker). A claim reserves its runs in Quota.
-- - Idempotency: `prune_idempotency_records`, `acquire_idempotency` and `complete_idempotency`
--   (src/jobtology_be/infrastructure/persistence/idempotency.py).
-- - Roadmap: `mutate_step_state` of the steps of a roadmap
--   (src/jobtology_be/infrastructure/persistence/roadmap_steps.py) and `canonical_completion_outcomes`
--   (completion_outcomes.py). The insertion of the recompute work that follows a change is a parameter.
-- - NextActions: `select_next_actions` (src/jobtology_be/modules/dashboard/next_actions.py), which
--   recommends steps of a roadmap.
--
-- Correspondence. A Python name stays the name of its model. Identifiers and texts are numbers in the
-- order of the texts, credits and scores are hundredths, instants are microseconds from a fixed
-- start, and numbers that the source refuses below 0 start there. A row of a table is found by its
-- key; a transaction that raises returns no store. Sets are lists, of which the code reads the
-- elements or a sorted copy. What is not under src/ is a parameter: the rules of a time zone (also the
-- instant that a clock time stands for), the test of a blank text, Python's arithmetic of floats,
-- PostgreSQL's `date_trunc`, the tokens of `uuid4`, the answers of the CP-SAT solver, and the rows that
-- other transactions hold locked.
--
-- Fuel. The search for cycles and the expansion recurse at most once for each template on a path, so
-- that one more than the number of templates is enough; the calendar's loops take one hour a round,
-- so that two more than the whole hours that are left when they begin are enough; the list schedule
-- takes a pending candidate a round. The theorems show that the calls end.
--
-- Not modelled. The statements of one claim read one instant of the database's clock. Foreign keys,
-- logging and the rendering of texts are left out, as are the solver's time budget and telemetry, the
-- HTTP handlers, the readers of the corpus, the chat, the resume import and the document processor (a
-- copy of another library).
pub mod Common
pub mod Editorial
pub mod Planning
pub mod Quota
pub mod Recompute
pub mod Roadmap
pub mod NextActions
pub mod Idempotency
