-- ===== src/Lib.antt =====
-- autonomous-development: a verification library for the core of the delivery controller.
--
-- The program takes a change from a diagnosed problem to a released version. A development cycle
-- moves through a lifecycle of states, each with the evidence that it requires; a candidate is
-- tried as a canary in stages of growing traffic weight; each stage is decided from what was
-- observed; a complete history of decisions makes the cycle promotion-ready, and a promotion
-- decision is made from it and from the verification gates. Services keep cycles, experiments,
-- decisions and routes in stores, and file the receipt of an effect under its operation id.
--
-- What each file models, with paths from the repository's root:
--   Domain.Enums, Domain.Models    src/autonomous_development/domain/enums.py and models.py: enums
--     and validated dataclasses. `X_post_init` is the check of the constructor of X and returns
--     the checked value.
--   Domain.Transitions             src/autonomous_development/domain/transitions.py: `_ALLOWED`
--     (Table), `transition_cycle` and `_validate_required_reference` (Guard); Accepts, Lifecycle,
--     Promotion and Keeps hold theorems on one transition and on runs of them.
--   Domain.Promotion               `decide_promotion` of the same file.
--   Domain.Canary                  src/autonomous_development/domain/canary.py and soak.py.
--   Domain.Policies                src/autonomous_development/domain/policies.py.
--   Cycles                         src/autonomous_development/application/cycles.py (Service) over
--     the `CycleRepository` protocol of ports/persistence.py (Repository), and its implementation
--     in adapters/postgres/cycles.py (Rows, Sql; Constraints, Sound and Commit hold theorems on
--     it). The laws `IsLawful` are what the service's theorems take of a repository.
--   Experiments                    src/autonomous_development/application/experiments.py and
--     adapters/postgres/experiments.py.
--   Traffic                        src/autonomous_development/ports/traffic.py and
--     adapters/traffic/file.py.
--   Rollout                        src/autonomous_development/application/canary.py, over any
--     traffic director and observer.
--   Proxy                          `_WeightedSelector` of
--     src/autonomous_development/adapters/canary_proxy/router.py, with the digest as a parameter.
--   Releases                       src/autonomous_development/application/releases.py and
--     adapters/postgres/release_decisions.py, over any cycle repository.
--   Catalog                        src/autonomous_development/application/release_catalog.py and
--     release_finalization.py over adapters/postgres/releases.py: the releases and, for each target,
--     a pointer to the one that serves it.
--   Soak                           src/autonomous_development/application/soak.py with the services
--     that it calls, release_runtime.py and source_promotion.py, and
--     adapters/postgres/soak_decisions.py, over ports/deployment.py and ports/repository.py.
--   Operator                       src/autonomous_development/application/operator.py and
--     adapters/postgres/operator.py: requests, interventions and events. `prepare` is left out.
--   Feedback                       src/autonomous_development/application/feedback.py over
--     adapters/postgres/feedback.py and request_attributions.py, and over the release catalogue.
--   Targets                        src/autonomous_development/application/target_registry.py and
--     adapters/postgres/target_registry.py.
--   Proposals                      src/autonomous_development/application/proposals.py and
--     adapters/postgres/proposals.py, over the scope policy.
--   Windows                        src/autonomous_development/application/evidence_windows.py and
--     adapters/postgres/evidence_windows.py, with the telemetry provider as a parameter.
--   Diagnoses                      src/autonomous_development/application/diagnosis.py and
--     adapters/postgres/diagnoses.py over ports/codex.py, with any Codex provider.
--   Iteration                      src/autonomous_development/application/iteration.py, over any
--     cycle repository: a cycle goes from new to change-proposed, or is blocked.
--   Scheduler                      src/autonomous_development/application/iteration_scheduler.py over
--     adapters/postgres/feedback_triggers.py and the services above.
--   Records                        the `add` and `get` that the SQL repositories of feedback,
--     attributions, targets, objectives, proposals, windows and diagnoses repeat, over the class of the
--     values; Dataclass compares the fields of a dataclass.
--   Prelude                        lists, texts, equality, exceptions (`Raise`) and methods that
--     change a store (`Action`).  Tests holds concrete runs.
--
-- Conventions. An exception is its class, without its message. A method that changes a store is a
-- function from the store to a result and a store, and what was written before a raise stays
-- written; a SQL transaction is one step and is rolled back when it fails. Integers are natural
-- numbers, since the constructors refuse negative ones, so that a test for a negative value has no
-- counterpart; the cursor and the limit of `list_events`, which no constructor checks, are integers
-- `ℤ`. Dates are numbers. Floats are an interface without laws, so NaN and rounding are
-- allowed. `math.ceil(n / 100)` is the exact quotient rounded up, which the float division gives
-- for n below 2 ^ 53. A frozenset is a list. Every loop is structural recursion on a list; only
-- the digits of a number are counted down by fuel, for which the number itself is enough
-- (`decimal-fuel` in Prelude.Text). The clock is an argument `now`; `submit_request`,
-- which reads it once more for its event, has a second one.
--
-- Interference: another process may change a store between two calls. The theorems on a commit
-- hold for whatever store it meets; those on a service method take its calls together.
--
-- Not modelled: message texts of exceptions, lengths of text columns, JSON columns and malformed
-- rows of experiments and decisions, the digest under which a traffic receipt is filed, the parse
-- of a URL and the evidence store (parameters of Traffic.File), measurements of a verification
-- check; `OperatorService.prepare`; the HTTP, command-line and Prefect workflow modules; and the
-- services and adapters for requirements, engineering, the feedback controller, the rest of the proxy,
-- git, docker and codex, most of which are I/O.
pub mod Prelude
pub mod Domain
pub mod Cycles
pub mod Experiments
pub mod Traffic
pub mod Rollout
pub mod Proxy
pub mod Releases
pub mod Catalog
pub mod Soak
pub mod Operator
pub mod Records
pub mod Feedback
pub mod Targets
pub mod Proposals
pub mod Windows
pub mod Diagnoses
pub mod Iteration
pub mod Scheduler
pub mod Tests
