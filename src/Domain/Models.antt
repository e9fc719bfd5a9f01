-- ===== src/Domain/Models.antt =====
-- The value types of src/autonomous_development/domain/models.py, with their `__post_init__`
-- checks. Integer fields are natural numbers, so a test for a negative value has no counterpart;
-- a `datetime` is the number of its instant. A frozen dataclass runs its check in `replace` too.
mod Fields
mod Cycle
mod Experiments
mod Verification
mod Proposal
unfoldable pub use Fields.*
unfoldable pub use Cycle.*
unfoldable pub use Experiments.*
unfoldable pub use Verification.*
unfoldable pub use Proposal.*
mod Releases
mod Feedback
mod Requests
mod Targets
mod Diagnoses
unfoldable pub use Releases.*
unfoldable pub use Feedback.*
unfoldable pub use Requests.*
unfoldable pub use Targets.*
unfoldable pub use Diagnoses.*
