-- ===== src/Releases/Promote.antt =====
-- What `decide_and_apply_promotion` and `apply_canary_decision` have seen when they return.
use autonomous_development.Prelude.{
  ℕ, String, List, Option, none, some, ◌≡◌, sym, ap, subst, subst₂, ◌∙◌, inl, inr, false, is_blank,
  concat, arith, Bool-cases, Option-cases, nat_eq,
}
use autonomous_development.Prelude.Raise.{ok, Result-cases}
use autonomous_development.Domain.Enums.{CycleState, ReleaseDecisionKind, release_kind_value}
use autonomous_development.Domain.Models.{
  DevelopmentCycle, cycle_post_init, VerificationRun, ReleaseDecision,
}
use autonomous_development.Domain.Promotion.Requirements.{MayPromote, decide_promotion-promote_iff}
use autonomous_development.Experiments.Receipts.{decision_eq}
use autonomous_development.Cycles.Repository.{CycleRepository, IsLawful}
use autonomous_development.Cycles.Service as Cycles
use autonomous_development.Releases.Decisions.{
  release_decision_eq, get, record_release, record_release-own,
}
use autonomous_development.Releases.Recompute.{
  decision_cycle, recompute, IsRecomputed, recompute-IsRecomputed,
}
use autonomous_development.Releases.Service.{
  ReleaseStore, decision_state, apply_target, settle_decision, apply_decision,
  decide_and_apply_promotion, decided,
}

module _ {S : Type 0} (R : CycleRepository S) where
  settle_decision-ok :
      (cycle : DevelopmentCycle) (wanted d : ReleaseDecision) (version : ℕ) (op : String)
      (s s' : ReleaseStore S)
      → settle_decision R cycle wanted version op s ≡ (ok d, s')
      → (d ≡ wanted) × (s'.cycles ≡ s.cycles)
  unfolding settle_decision
  settle_decision-ok cycle wanted d version op s s' h = elim (Option-cases (get op s.decisions)) [
    | inr (r, there) ↦ ground (arith, release_decision_eq.beq_iff r.decision wanted)
    | inl fresh ↦ elim (Result-cases (record_release op wanted s.decisions).0) [
      | inr (e, bad) ↦ absurd (ground arith)
      | inl (r, made) ↦
          let own =
            record_release-own op wanted s.decisions (record_release op wanted s.decisions).1 r
              (λ i. (made i, (record_release op wanted s.decisions).1)) in
          ground arith
    ]
  ]

  -- What lies behind a promotion that was applied.
  pub record IsPromotion (id : String) (v : VerificationRun) (gates : List String) (version : ℕ)
      (op : String) (s s' : ReleaseStore S) (after : DevelopmentCycle) : Type 0 where
    pub cycle : DevelopmentCycle
    pub found : R.get id s.cycles ≡ ok (some cycle)
    pub decision : ReleaseDecision
    pub source : IsRecomputed cycle v gates version s.experiments decision
    pub requirements : MayPromote source.before v source.experiment source.history gates
    pub effect :
        Cycles.transition R id CycleState.promoted version
          (concat op ":effect:promote")
          (decided ReleaseDecisionKind.promote)
          s.cycles
        ≡ (ok after, s'.cycles)

  pub get_found :
      (id : String) (s : S) (c : DevelopmentCycle)
      → (Cycles.get R id s).0 ≡ ok c
      → R.get id s ≡ ok (some c)
  unfolding Cycles.get
  get_found id s c h = elim (Result-cases (R.get id s)) [
    | inr (e, bad) ↦ absurd (ground arith)
    | inl (none, gone) ↦ absurd (ground arith)
    | inl (some x, there) ↦ ground arith
  ]

  pub get_reads : (id : String) (s : S) → (Cycles.get R id s).1 ≡ s
  unfolding Cycles.get
  get_reads id s = ground arith

  apply_target-own :
      (to : Option CycleState) (cycle after : DevelopmentCycle) (d : ReleaseDecision)
      (o : Option ReleaseDecision) (id : String) (version : ℕ) (op : String) (s s' : ReleaseStore S)
      → apply_target R to cycle d id version op s
        ≡ (ok (record { decision = o; cycle = after }), s')
      → o ≡ some d
  unfolding apply_target
  apply_target-own none cycle after d o id version op s s' h = ground arith
  apply_target-own (some to) cycle after d o id version op s s' h =
      let effect_id = concat op (concat ":effect:" (release_kind_value d.kind)) in
      elim (Result-cases
        (Cycles.transition R id to version effect_id (decided d.kind) s.cycles).0) [
          | inr (e, bad) ↦ absurd (ground arith)
          | inl (c, made) ↦ ground arith
        ]

  apply_target-effect :
      (to : CycleState) (cycle after : DevelopmentCycle) (d : ReleaseDecision)
      (o : Option ReleaseDecision) (id : String) (version : ℕ) (op : String) (s s' : ReleaseStore S)
      → apply_target R (some to) cycle d id version op s
        ≡ (ok (record { decision = o; cycle = after }), s')
      → Cycles.transition R id to version
          (concat op (concat ":effect:" (release_kind_value d.kind)))
          (decided d.kind)
          s.cycles
        ≡ (ok after, s'.cycles)
  unfolding apply_target
  apply_target-effect to cycle after d o id version op s s' h =
      let effect_id = concat op (concat ":effect:" (release_kind_value d.kind)) in
      elim (Result-cases
        (Cycles.transition R id to version effect_id (decided d.kind) s.cycles).0) [
          | inr (e, bad) ↦ absurd (ground arith)
          | inl (c, made) ↦ ground arith
        ]

  before_named :
      (cycle before : DevelopmentCycle) (version : ℕ)
      → cycle_post_init cycle ≡ ok cycle
      → decision_cycle cycle version ≡ ok before
      → is_blank before.id ≡ false
  unfolding cycle_post_init decision_cycle
  before_named cycle before version formed h = ground arith

  promoted_target :
      (cycle : DevelopmentCycle) (d : ReleaseDecision) (id : String) (version : ℕ) (op : String)
      (s : ReleaseStore S)
      → d.kind ≡ ReleaseDecisionKind.promote
      → apply_target R (some CycleState.promoted) cycle d id version op s
        ≡ apply_decision R cycle d id version op s
  unfolding apply_decision decision_state
  promoted_target cycle d id version op s k =
      ap (λ kind. apply_target R (decision_state kind) cycle d id version op s) (sym k)

  IsPromotion-made :
      (Valid : S → Type 0) (L : IsLawful R Valid) (id : String) (v : VerificationRun)
      (gates : List String) (version : ℕ) (op : String) (s s' u : ReleaseStore S)
      (cycle : DevelopmentCycle) (d : ReleaseDecision) (after : DevelopmentCycle)
      → R.get id s.cycles ≡ ok (some cycle)
      → IsRecomputed cycle v gates version s.experiments d
      → u.cycles ≡ s.cycles
      → d.kind ≡ ReleaseDecisionKind.promote
      → apply_decision R cycle d id version op u
        ≡ (ok (record { decision = some d; cycle = after }), s')
      → IsPromotion id v gates version op s s' after
  unfolding release_kind_value
  IsPromotion-made Valid L id v gates version op s s' u cycle d after found m same k h =
      let (own, formed) = L.get-ok id s.cycles cycle found in
      record {
        cycle = cycle;
        found = found;
        decision = d;
        source = m;
        requirements =
            (decide_promotion-promote_iff m.before v m.experiment m.history gates
                (before_named cycle m.before version formed m.rewound)).0
              (d, m.decides, k);
        effect =
            subst₂
              (λ kind t.
                Cycles.transition R id CycleState.promoted version
                  (concat op (concat ":effect:" (release_kind_value kind))) (decided kind) t
                ≡ (ok after, s'.cycles))
              k same
              (apply_target-effect CycleState.promoted cycle after d (some d) id version op u s'
                (promoted_target cycle d id version op u k ∙ h));
      }

  -- A promotion that is applied was earned: over a lawful cycle repository, a call that returns a
  -- promote decision has found the cycle, its experiment and the experiment's history stored, the
  -- requirements of a promotion met by them and by the verification run at the expected version,
  -- and made the transition to `PROMOTED` under the operation's effect id.
  pub decide_and_apply_promotion-IsPromotion :
      (Valid : S → Type 0) (L : IsLawful R Valid) (id : String) (v : VerificationRun)
      (gates : List String) (version : ℕ) (op : String) (s s' : ReleaseStore S)
      (d : ReleaseDecision) (after : DevelopmentCycle)
      → d.kind ≡ ReleaseDecisionKind.promote
      → decide_and_apply_promotion R id v gates version op s
        ≡ (ok (record { decision = some d; cycle = after }), s')
      → IsPromotion id v gates version op s s' after
  unfolding decide_and_apply_promotion apply_decision
  decide_and_apply_promotion-IsPromotion Valid L id v gates version op s s' d after k h =
      elim (Bool-cases (is_blank op)) [
        | inl blank ↦ absurd (ground arith)
        | inr named ↦ elim (Result-cases (Cycles.get R id s.cycles).0) [
          | inr (e, bad) ↦ absurd (ground arith)
          | inl (cycle, there) ↦
              elim (Result-cases (recompute cycle v gates version s.experiments)) [
                | inr (e, bad) ↦ absurd (ground arith)
                | inl (wanted, made) ↦
                    let t = record s { cycles = (Cycles.get R id s.cycles).1 } in
                    elim (Result-cases (settle_decision R cycle wanted version op t).0) [
                      | inr (e, bad) ↦ absurd (ground arith)
                      | inl (d', settled) ↦
                          let u = (settle_decision R cycle wanted version op t).1 in
                          let (same, kept) =
                            settle_decision-ok cycle wanted d' version op t u
                              (λ i. (settled i, u)) in
                          let applied : apply_decision R cycle d' id version op u
                              ≡ (ok (record { decision = some d; cycle = after }), s') =
                            ground arith in
                          let own : some d ≡ some d' =
                            apply_target-own (decision_state d'.kind) cycle after d' (some d) id
                              version op u s' applied in
                          let same_decision : d ≡ d' = ground arith in
                          let found = get_found id s.cycles cycle there in
                          IsPromotion-made Valid L id v gates version op s s' u cycle d' after found
                            (recompute-IsRecomputed cycle v gates version s.experiments d'
                              (rw same made))
                            (kept ∙ get_reads id s.cycles)
                            (ap (λ x. x.kind) (sym same_decision) ∙ k)
                            (subst
                              (λ x.
                                apply_decision R cycle d' id version op u
                                ≡ (ok (record { decision = some x; cycle = after }), s'))
                              same_decision applied)
                    ]
              ]
        ]
      ]
