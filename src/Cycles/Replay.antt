-- ===== src/Cycles/Replay.antt =====
-- `transition` of application/cycles.py over a lawful repository, called once and called again.
use autonomous_development.Prelude.{
  ℕ, String, none, some, ◌≡◌, refl, sym, ap, subst, subst₂, ◌∙◌, true, ◌==◌, nat_eq, string_eq,
  arith, ◌⊎◌, inl, inr, Bool-cases,
}
use autonomous_development.Prelude.Raise.{
  Error, Result, ok, err, cycle_not_found, stale_cycle, Result-cases,
}
use autonomous_development.Domain.Enums.{CycleState, cycle_state_eq}
use autonomous_development.Domain.Models.{DevelopmentCycle, cycle_post_init}
use autonomous_development.Domain.Transitions.Guard.{Evidence, merged, transition_cycle}
use autonomous_development.Domain.Transitions.Accepts.{
  HasEvidence, diagram, transition_cycle_iff, merged-valid,
}
use autonomous_development.Cycles.Repository.{
  TransitionReceipt, receipt_of, CycleRepository, IsLawful,
}
use autonomous_development.Cycles.Service.{replay, perform, transition}

merged_id : (c : DevelopmentCycle) (to : CycleState) (e : Evidence) → (merged c to e).id ≡ c.id
unfolding merged
merged_id c to e = refl

module _ {S : Type 0} (R : CycleRepository S) where
  -- A repeated operation only reads.
  replay_reads :
      (r : TransitionReceipt) (id : String) (to : CycleState) (v : ℕ) (s : S)
      → (replay R r id to v s).1 ≡ s
  unfolding replay
  replay_reads r id to v s = ground arith

  -- How a first call ends: it is refused and writes nothing, or it commits an accepted transition
  -- of the cycle that was stored at the expected version.
  abbrev committed : DevelopmentCycle → ℕ → String → CycleState → S → Result DevelopmentCycle × S
  committed c v op to s =
      let (r, t) = R.commit_transition c v op to s in
      elim r [ ok a ↦ (ok c, t) | err x ↦ (err x, t) ]

  committed_split :
      (r : Result TransitionReceipt) (t : S) (c : DevelopmentCycle)
      → let q : Result DevelopmentCycle × S = elim r [ ok a ↦ (ok c, t) | err x ↦ (err x, t) ] in
        (q.1 ≡ t)
        × (((x : Error) × (q.0 ≡ err x) × (r ≡ err x))
            ⊎ ((a : TransitionReceipt) × (q.0 ≡ ok c) × (r ≡ ok a)))
  committed_split (ok a) t c = (refl, inr (a, refl, refl))
  committed_split (err x) t c = (refl, inl (x, refl, refl))

  IsRefused : Result DevelopmentCycle × S → S → Type 0
  IsRefused (r, t) s = (t ≡ s) × ((x : Error) × (r ≡ err x))

  record IsCommitted (id : String) (to : CycleState) (v : ℕ) (op : String) (e : Evidence) (s : S)
      : Type 0 where
    before : DevelopmentCycle
    after : DevelopmentCycle
    found : R.get id s ≡ ok (some before)
    known : before.version ≡ v
    accepted : transition_cycle before to v e ≡ ok after
    result : perform R id to v op e s ≡ committed after v op to s

  perform_outcome :
      (id : String) (to : CycleState) (v : ℕ) (op : String) (e : Evidence) (s : S)
      → IsRefused (perform R id to v op e s) s ⊎ IsCommitted id to v op e s
  unfolding perform IsRefused
  perform_outcome id to v op e s = elim (Result-cases (R.get id s)) [
    | inr (x, broken) ↦ inl (ground arith, (x, ground arith))
    | inl (none, missing) ↦ inl (ground arith, (cycle_not_found, ground arith))
    | inl (some c0, found) ↦ elim (Bool-cases (c0.version == v)) [
      | inr stale ↦ inl (ground arith, (stale_cycle, ground arith))
      | inl known ↦ elim (Result-cases (transition_cycle c0 to v e)) [
        | inr (x, refused) ↦ inl (ground arith, (x, ground arith))
        | inl (c, accepted) ↦ inr (record {
          before = c0;
          after = c;
          found = found;
          known = (nat_eq.beq_iff c0.version v).0 known;
          accepted = accepted;
          result = ground arith;
        })
      ]
    ]
  ]

  module _ (Valid : S → Type 0) (L : IsLawful R Valid) where
    committed_err :
        (c : DevelopmentCycle) (v : ℕ) (op : String) (to : CycleState) (s : S) (x : Error)
        → (committed c v op to s).0 ≡ err x
        → (committed c v op to s).1 ≡ s
    committed_err c v op to s x h =
        let (r, t) = R.commit_transition c v op to s in
        let (kept, cases) = committed_split r t c in
        elim cases [
          | inl (y, q, e) ↦ kept ∙ L.commit-err c v op to s t y (λ i. (e i, t))
          | inr (a, q, e) ↦ absurd (cc)
        ]

    perform_error_unchanged :
        (id : String) (to : CycleState) (v : ℕ) (op : String) (e : Evidence) (s : S) (x : Error)
        → (perform R id to v op e s).0 ≡ err x
        → (perform R id to v op e s).1 ≡ s
    unfolding IsRefused
    perform_error_unchanged id to v op e s x h = elim (perform_outcome id to v op e s) [
      | inl (same, q) ↦ same
      | inr k ↦
          ap (λ p. p.1) k.result
          ∙ committed_err k.after v op to s x (sym (ap (λ p. p.0) k.result) ∙ h)
    ]

    -- Over a lawful repository, a transition that raises leaves the store as it was.
    pub transition_error_unchanged :
        (id : String) (to : CycleState) (v : ℕ) (op : String) (e : Evidence) (s : S) (x : Error)
        → (transition R id to v op e s).0 ≡ err x
        → (transition R id to v op e s).1 ≡ s
    unfolding transition
    transition_error_unchanged id to v op e s x h = elim (Result-cases (R.get_transition op s)) [
      | inr (y, broken) ↦ rw broken refl
      | inl (none, fresh) ↦ rw fresh (perform_error_unchanged id to v op e s x (rw fresh at h))
      | inl (some r, there) ↦ rw there (replay_reads r id to v s)
    ]

    -- What a first call that returns has found and left.
    pub record HasEffect (id : String) (to : CycleState) (v : ℕ) (op : String) (e : Evidence)
        (s s' : S) (c : DevelopmentCycle) : Type 0 where
      pub before : DevelopmentCycle
      pub found : R.get id s ≡ ok (some before)
      pub known : before.version ≡ v
      pub edge : diagram before.state to ≡ true
      pub complete : HasEvidence c
      pub update : c ≡ merged before to e
      pub stored : R.get id s' ≡ ok (some c)
      pub receipt : R.get_transition op s' ≡ ok (some (receipt_of c v op to))

    committed_ok :
        (c : DevelopmentCycle) (v : ℕ) (op : String) (to : CycleState) (s s' : S)
        (c' : DevelopmentCycle)
        → committed c v op to s ≡ (ok c', s')
        → (c' ≡ c) × ((r : TransitionReceipt) × (R.commit_transition c v op to s ≡ (ok r, s')))
    committed_ok c v op to s s' c' h =
        let (r, t) = R.commit_transition c v op to s in
        let (kept, cases) = committed_split r t c in
        elim cases [
          | inl (y, q, e) ↦ absurd (cc (ap (λ p. p.0) h))
          | inr (a, q, e) ↦
              (ground (arith, ap (λ p. p.0) h), (a, λ i. (e i, (sym kept ∙ ap (λ p. p.1) h) i)))
        ]

    perform_effect :
        (id : String) (to : CycleState) (v : ℕ) (op : String) (e : Evidence) (s s' : S)
        (c : DevelopmentCycle)
        → Valid s
        → R.get_transition op s ≡ ok none
        → perform R id to v op e s ≡ (ok c, s')
        → HasEffect id to v op e s s' c
    unfolding IsRefused
    perform_effect id to v op e s s' c valid fresh h = elim (perform_outcome id to v op e s) [
      | inl (same, (x, q)) ↦ absurd (cc (ap (λ p. p.0) h))
      | inr k ↦
          let (same, (r, written)) = committed_ok k.after v op to s s' c (sym k.result ∙ h) in
          let (own, formed) = L.get-ok id s k.before k.found in
          let (version, edge, complete, update) =
            (transition_cycle_iff k.before to v e k.after formed).0 k.accepted in
          let after_formed : cycle_post_init k.after ≡ ok k.after =
            rw update (merged-valid k.before to e formed) in
          let (receipt, stored) =
            L.commit-ok k.after v op to s s' r valid after_formed fresh written in
          let named : k.after.id ≡ id = ap (λ d. d.id) update ∙ merged_id k.before to e ∙ own in
          record {
            before = k.before;
            found = k.found;
            known = k.known;
            edge = edge;
            complete = rw (same, update) complete;
            update = same ∙ update;
            stored = subst₂ (λ i d. R.get i s' ≡ ok (some d)) named (sym same) stored;
            receipt =
                subst (λ d. R.get_transition op s' ≡ ok (some (receipt_of d v op to))) (sym same)
                  receipt;
          }
    ]

    -- Over a lawful repository and a valid store, a transition under a new operation id that
    -- returns has found the cycle stored at the expected version, with an edge of the lifecycle
    -- to the new state, and leaves stored exactly the updated cycle, complete with its evidence,
    -- beside the receipt of the operation.
    pub transition_effect :
        (id : String) (to : CycleState) (v : ℕ) (op : String) (e : Evidence) (s s' : S)
        (c : DevelopmentCycle)
        → Valid s
        → R.get_transition op s ≡ ok none
        → transition R id to v op e s ≡ (ok c, s')
        → HasEffect id to v op e s s' c
    unfolding transition
    transition_effect id to v op e s s' c valid fresh h =
        perform_effect id to v op e s s' c valid fresh (rw fresh at h)

    replay_own :
        (id : String) (to : CycleState) (v : ℕ) (op : String) (s : S) (c : DevelopmentCycle)
        → c.id ≡ id
        → R.get id s ≡ ok (some c)
        → replay R (receipt_of c v op to) id to v s ≡ (ok c, s)
    unfolding replay
    replay_own id to v op s c own stored =
        ground (arith, string_eq.beq_iff c.id id, nat_eq.beq_iff v v, cycle_state_eq.beq_iff to to)

    -- Over a lawful repository and a valid store, a transition that returned can be repeated
    -- under its operation id, whatever evidence the repetition carries: it returns the same cycle
    -- and changes nothing.
    pub transition_idempotent :
        (id : String) (to : CycleState) (v : ℕ) (op : String) (e e' : Evidence) (s s' : S)
        (c : DevelopmentCycle)
        → Valid s
        → transition R id to v op e s ≡ (ok c, s')
        → transition R id to v op e' s' ≡ (ok c, s')
    unfolding transition
    transition_idempotent id to v op e e' s s' c valid h =
        elim (Result-cases (R.get_transition op s)) [
          | inr (x, broken) ↦ absurd (cc (ap (λ p. p.0) (rw broken at h)))
          | inl (some r, there) ↦
              let again : replay R r id to v s ≡ (ok c, s') = rw there at h in
              let same : s' ≡ s = sym (ap (λ p. p.1) again) ∙ replay_reads r id to v s in
              subst (λ t. transition R id to v op e' t ≡ (ok c, t)) (sym same)
                (unfold transition in rw there (again ∙ (λ i. (ok c, same i))))
          | inl (none, fresh) ↦
              let k = perform_effect id to v op e s s' c valid fresh (rw fresh at h) in
              rw k.receipt (replay_own id to v op s' c (L.get-ok id s' c k.stored).0 k.stored)
        ]
