-- ===== src/Domain/Promotion/Requirements.antt =====
-- When `decide_promotion` promotes.
use autonomous_development.Prelude.{
  ℕ, ◌+◌, String, List, [], ◌∷◌, some, Bool, true, false, not, ◌&&◌, any, elem, All, length,
  is_empty, is_blank, get_last?, ◌==◌, string_eq, option_eq, ◌≡◌, ◌↔◌, refl, arith, ap, sym, ◌∙◌,
}
use autonomous_development.Prelude.Raise.{Result, ok, err, require, index_error, >>=-eq-ok}
use autonomous_development.Domain.Enums.{
  CycleState, cycle_state_eq, verification_status_eq, CanaryDecisionKind, canary_kind_eq,
  ReleaseDecisionKind,
}
use autonomous_development.Domain.Models.{
  DevelopmentCycle, Experiment, VerificationCheck, VerificationRun, check_passed, gates_passed,
  passed_gates, ReleaseDecision, release_decision_post_init, required_all,
}
use autonomous_development.Domain.Canary.Evidence.{CanaryStageDecision}
use autonomous_development.Domain.Canary.Evaluate.{promotion_evidence_refs}
use autonomous_development.Domain.Canary.History.{IsHistory, all_refs, promotion_evidence_refs_iff}
use autonomous_development.Domain.Promotion.{
  release_decision, cited, gates_unsatisfied, final_outcome, history_outcome, decide_promotion,
}

-- Some check of this gate passed.
abbrev pub passes_gate : List VerificationCheck → String → Bool
passes_gate checks gate = any (λ k. check_passed k && gate == k.gate) checks

elem-gates_passed :
    (gate : String) (checks : List VerificationCheck)
    → elem gate (gates_passed checks) ≡ passes_gate checks gate
unfolding gates_passed
elem-gates_passed gate [] = refl
elem-gates_passed gate (c ∷ checks) = ground (
  arith,
  elem-gates_passed gate checks,
  elem-gates_passed c.gate checks,
  string_eq.beq_iff gate c.gate,
)

any-not_iff {ℓ} :
    {A : Type ℓ} (p : A → Bool) (xs : List A)
    → (any (λ x. not (p x)) xs ≡ false) ↔ All (λ x. p x ≡ true) xs
any-not_iff p [] = ground arith
any-not_iff p (x ∷ xs) = ground (arith, any-not_iff p xs)

All-passes-gates :
    (v : VerificationRun) (gates : List String)
    → (any (λ gate. not (elem gate (passed_gates v))) gates ≡ false)
      ↔ All (λ gate. passes_gate v.checks gate ≡ true) gates
unfolding passed_gates
All-passes-gates v [] = ground arith
All-passes-gates v (g ∷ gates) =
    ground (arith, All-passes-gates v gates, elem-gates_passed g v.checks)

-- What a promotion requires.
pub record MayPromote (c : DevelopmentCycle) (v : VerificationRun) (x : Experiment)
    (ds : List CanaryStageDecision) (mandatory_gates : List String) : Type 0 where
  pub state : c.state ≡ CycleState.promotion_ready
  pub run : c.verification_run_id ≡ some v.id
  pub experiment : c.experiment_id ≡ some x.id
  pub every_stage : length ds ≡ length x.stages
  pub ordered : IsHistory x.id 0 ds
  pub cites : is_empty (all_refs ds) ≡ false
  pub checks : All (λ k. check_passed k ≡ true) v.checks
  pub gates : All (λ gate. passes_gate v.checks gate ≡ true) mandatory_gates

unsatisfied_iff :
    (v : VerificationRun) (gates : List String)
    → (gates_unsatisfied v gates ≡ false) ↔ (
        All (λ k. check_passed k ≡ true) v.checks
        × All (λ gate. passes_gate v.checks gate ≡ true) gates)
unfolding gates_unsatisfied
unsatisfied_iff v gates =
    let a = any-not_iff check_passed v.checks in let b = All-passes-gates v gates in ground arith

last_finishes :
    (id : String) (i : ℕ) (d : CanaryStageDecision) (ds : List CanaryStageDecision)
    → IsHistory id i (d ∷ ds)
    → (e : CanaryStageDecision) × (get_last? (d ∷ ds) ≡ some e)
      × (e.kind ≡ CanaryDecisionKind.promotion_ready)
last_finishes id i d [] h = (d, refl, h.2)
last_finishes id i d (e ∷ ds) h = last_finishes id (i + 1) e ds h.3

-- Any decision that is returned was valid as a value.
release_valid : (d d' : ReleaseDecision) → release_decision_post_init d ≡ ok d' → d' ≡ d
unfolding release_decision_post_init
release_valid d d' h = ground arith

release_made :
    (c : DevelopmentCycle) (v : VerificationRun) (gates refs : List String)
    (f : CanaryStageDecision)
    → is_blank c.id ≡ false
    → release_decision_post_init (final_outcome c v gates refs f)
      ≡ ok (final_outcome c v gates refs f)
unfolding release_decision_post_init final_outcome required_all
release_made c v gates refs f b =
    let p : is_blank "final canary decision is not promotion-ready" ≡ false =
      unfold is_blank in refl in
    let q : is_blank "mandatory verification gates are not all satisfied" ≡ false =
      unfold is_blank in refl in
    let r : is_blank "all mandatory gates passed and complete canary history is promotion-ready"
        ≡ false =
      unfold is_blank in refl in
    ground arith

guards_passed :
    (c : DevelopmentCycle) (v : VerificationRun) (x : Experiment) (ds : List CanaryStageDecision)
    (gates : List String) (d : ReleaseDecision)
    → decide_promotion c v x ds gates ≡ ok d
    → (c.state ≡ CycleState.promotion_ready)
      × (c.verification_run_id ≡ some v.id)
      × (c.experiment_id ≡ some x.id)
      × (history_outcome c v ds gates (promotion_evidence_refs x ds) ≡ ok d)
unfolding decide_promotion
guards_passed c v x ds gates d h =
    let a = cycle_state_eq.beq_iff c.state CycleState.promotion_ready in
    let b = (option_eq {A = String}).beq_iff (some v.id) c.verification_run_id in
    let e = (option_eq {A = String}).beq_iff (some x.id) c.experiment_id in ground arith

decided :
    (c : DevelopmentCycle) (v : VerificationRun) (x : Experiment) (ds : List CanaryStageDecision)
    (gates : List String) (d : ReleaseDecision)
    → MayPromote c v x ds gates
    → (refs : List String) → promotion_evidence_refs x ds ≡ ok refs
    → history_outcome c v ds gates (ok refs) ≡ ok d
    → decide_promotion c v x ds gates ≡ ok d
unfolding decide_promotion
decided c v x ds gates d m refs e h =
    let b = string_eq.beq_iff v.id v.id in
    let k = string_eq.beq_iff x.id x.id in
    let r = m.run in let s = m.experiment in let t = m.state in ground arith

final_promotes :
    (c : DevelopmentCycle) (v : VerificationRun) (gates refs : List String)
    (f : CanaryStageDecision)
    → (final_outcome c v gates refs f).kind ≡ ReleaseDecisionKind.promote
    → gates_unsatisfied v gates ≡ false
unfolding final_outcome
final_promotes c v gates refs f h = ground arith

history_promotes :
    (c : DevelopmentCycle) (v : VerificationRun) (ds : List CanaryStageDecision)
    (gates : List String) (r : Result (List String)) (d : ReleaseDecision)
    → history_outcome c v ds gates r ≡ ok d
    → d.kind ≡ ReleaseDecisionKind.promote
    → (refs : List String) × (r ≡ ok refs) × (gates_unsatisfied v gates ≡ false)
unfolding history_outcome
history_promotes c v ds gates (ok refs) d h k =
    let (f, last, made) =
      >>=-eq-ok (require (get_last? ds) index_error)
        (λ f. release_decision_post_init (final_outcome c v gates refs f)) h in
    (
      refs,
      refl,
      final_promotes c v gates refs f
          (ap (λ r. r.kind) (sym (release_valid (final_outcome c v gates refs f) d made)) ∙ k),
    )
history_promotes c v ds gates (err e) d h k =
    let blocked =
      release_decision c v ReleaseDecisionKind.blocked (cited ds)
        "canary history is not promotion-complete: " in
    let made = release_valid blocked d in absurd (ground arith)

promotes :
    (c : DevelopmentCycle) (v : VerificationRun) (gates refs : List String)
    (f : CanaryStageDecision)
    → f.kind ≡ CanaryDecisionKind.promotion_ready
    → gates_unsatisfied v gates ≡ false
    → (final_outcome c v gates refs f).kind ≡ ReleaseDecisionKind.promote
unfolding final_outcome
promotes c v gates refs f k u = ground arith

history_made :
    (c : DevelopmentCycle) (v : VerificationRun) (x : Experiment) (ds : List CanaryStageDecision)
    (gates : List String)
    → is_blank c.id ≡ false
    → MayPromote c v x ds gates
    → (d : ReleaseDecision) × (history_outcome c v ds gates (ok (all_refs ds)) ≡ ok d)
      × (d.kind ≡ ReleaseDecisionKind.promote)
unfolding history_outcome
history_made c v x [] gates b m = absurd (cc m.cites)
history_made c v x (d ∷ ds) gates b m =
    let (f, last, finishes) = last_finishes x.id 0 d ds m.ordered in
    let refs : List String = all_refs (d ∷ ds) in
    (
      final_outcome c v gates refs f,
      rw last (release_made c v gates refs f b),
      promotes c v gates refs f finishes ((unsatisfied_iff v gates).1 (m.checks, m.gates)),
    )

-- A cycle with an id is promoted exactly when it is promotion-ready, the verification run and the
-- experiment are its own, the canary history is complete and cites evidence, every check of the
-- run passed and every mandatory gate has a check that passed.
pub decide_promotion-promote_iff :
    (c : DevelopmentCycle) (v : VerificationRun) (x : Experiment) (ds : List CanaryStageDecision)
    (gates : List String)
    → is_blank c.id ≡ false
    → ((d : ReleaseDecision) × (decide_promotion c v x ds gates ≡ ok d)
        × (d.kind ≡ ReleaseDecisionKind.promote))
      ↔ MayPromote c v x ds gates
decide_promotion-promote_iff c v x ds gates b = (
  λ p.
      let (d, h, k) = p in
      let (state, run, experiment, outcome) = guards_passed c v x ds gates d h in
      let (refs, complete, satisfied) =
        history_promotes c v ds gates (promotion_evidence_refs x ds) d outcome k in
      let (every_stage, ordered, gathered, cites) =
        (promotion_evidence_refs_iff x ds refs).0 complete in
      let (checks, passed) = (unsatisfied_iff v gates).0 satisfied in
      record {
        state = state;
        run = run;
        experiment = experiment;
        every_stage = every_stage;
        ordered = ordered;
        cites = rw gathered at cites;
        checks = checks;
        gates = passed;
      },
  λ m.
      let (d, made, k) = history_made c v x ds gates b m in
      (
        d,
        decided c v x ds gates d m (all_refs ds)
            ((promotion_evidence_refs_iff x ds (all_refs ds)).1
              (m.every_stage, m.ordered, refl, m.cites))
            made,
        k,
      ),
)
