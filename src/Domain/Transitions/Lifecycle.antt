-- ===== src/Domain/Transitions/Lifecycle.antt =====
-- Sequences of accepted transitions: how long they can be, and what a promoted cycle has behind it.
use autonomous_development.Prelude.{
  ℕ, ◌+◌, ◌*◌, ◌≤◌, ◌≡◌, ap, ◌∙◌, refl, List, [], ◌∷◌, true, length, arith,
}
use autonomous_development.Prelude.Raise.{Result, ok, ◌>>=◌, >>=-eq-ok}
use autonomous_development.Domain.Enums.{CycleState}
use autonomous_development.Domain.Models.{DevelopmentCycle, cycle_post_init}
use autonomous_development.Domain.Transitions.Table.{rank, is_retry, permits-rank, rank-le}
use autonomous_development.Domain.Transitions.Guard.{Evidence, merged, transition_cycle}
use autonomous_development.Domain.Transitions.Accepts.{
  HasEvidence, transition_cycle_iff, permits-eq-diagram, diagram, merged-valid,
}

pub record Request : Type 0 where
  pub to_state : CycleState
  pub expected_version : ℕ
  pub evidence : Evidence

-- The calls of `transition_cycle` on one cycle, each on the result of the one before.
unfoldable pub transition_all : DevelopmentCycle → List Request → Result DevelopmentCycle
transition_all c [] = ok c
transition_all c (r ∷ rs) = do
  c' ← transition_cycle c r.to_state r.expected_version r.evidence
  transition_all c' rs

-- How many of the requests record a failed attempt.
abbrev pub retries : List Request → ℕ
retries [] = 0
retries (r ∷ rs) = is_retry r.to_state + retries rs

-- An invariant of single steps holds after any number of them.
module _ {ℓ} {P : DevelopmentCycle → Type ℓ}
    (keep : (c : DevelopmentCycle) (r : Request)
      → cycle_post_init c ≡ ok c
      → P c
      → diagram c.state r.to_state ≡ true
      → HasEvidence (merged c r.to_state r.evidence)
      → P (merged c r.to_state r.evidence)) where
  pub transition_all_induction :
      (c : DevelopmentCycle) (rs : List Request) (c' : DevelopmentCycle)
      → cycle_post_init c ≡ ok c
      → P c
      → transition_all c rs ≡ ok c'
      → P c'
  unfolding transition_all
  transition_all_induction c [] c' v p h = ground arith
  transition_all_induction c (r ∷ rs) c' v p h =
      let (d, e, rest) =
        >>=-eq-ok (transition_cycle c r.to_state r.expected_version r.evidence)
          (λ d. transition_all d rs) h in
      let (known, edge, complete, q) =
        (transition_cycle_iff c r.to_state r.expected_version r.evidence d v).0 e in
      transition_all_induction (merged c r.to_state r.evidence) rs c'
        (merged-valid c r.to_state r.evidence v) (keep c r v p edge complete) (rw q at rest)

diagram-rank :
    (from to : CycleState) → diagram from to ≡ true → rank from + 1 ≤ rank to + 4 * is_retry to
diagram-rank from to h = omega (arith, permits-rank from to (permits-eq-diagram from to ∙ h))

version-merged :
    (c : DevelopmentCycle) (to : CycleState) (e : Evidence)
    → (merged c to e).version ≡ c.version + 1
unfolding merged
version-merged c to e = refl

state-merged : (c : DevelopmentCycle) (to : CycleState) (e : Evidence) → (merged c to e).state ≡ to
unfolding merged
state-merged c to e = refl

-- A run of accepted transitions counts them in the version, and each of them but a recorded failure
-- brings the cycle at least one rank further; a failure costs three ranks at most.
pub transition_all-rank :
    (c : DevelopmentCycle) (rs : List Request) (c' : DevelopmentCycle)
    → cycle_post_init c ≡ ok c
    → transition_all c rs ≡ ok c'
    → (c'.version ≡ c.version + length rs)
      × (rank c.state + length rs ≤ rank c'.state + 4 * retries rs)
unfolding transition_all
transition_all-rank c [] c' v h = ground arith
transition_all-rank c (r ∷ rs) c' v h =
    let (d, e, rest) =
      >>=-eq-ok (transition_cycle c r.to_state r.expected_version r.evidence)
        (λ d. transition_all d rs) h in
    let (known, edge, complete, q) =
      (transition_cycle_iff c r.to_state r.expected_version r.evidence d v).0 e in
    let next : DevelopmentCycle = merged c r.to_state r.evidence in
    let (count, far) =
      transition_all-rank next rs c' (merged-valid c r.to_state r.evidence v) (rw q at rest) in
    let a = version-merged c r.to_state r.evidence in
    let b = state-merged c r.to_state r.evidence in
    (omega arith, omega (arith, diagram-rank c.state r.to_state edge, ap rank b))

-- A run ends: a well-formed cycle that records k failed attempts makes at most 15 + 4 k
-- transitions.
pub transition_all-length :
    (c : DevelopmentCycle) (rs : List Request) (c' : DevelopmentCycle)
    → cycle_post_init c ≡ ok c
    → transition_all c rs ≡ ok c'
    → length rs ≤ 15 + 4 * retries rs
transition_all-length c rs c' v h = omega (arith, transition_all-rank c rs c' v h, rank-le c'.state)
