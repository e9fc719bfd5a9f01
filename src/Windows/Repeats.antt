-- ===== src/Windows/Repeats.antt =====
-- `close` of application/evidence_windows.py called again with the same request.
use autonomous_development.Prelude.{
  String, List, [], ◌∷◌, Option, none, some, false, map, nat_eq, string_eq, option_eq, list_eq, ◌≡◌,
  refl, sym, ap, subst, ◌∙◌, arith, inl, inr,
}
use autonomous_development.Prelude.Raise.{ok, Result-cases}
use autonomous_development.Domain.Models.{
  ReleasedVersion, UserFeedback, feedback_post_init, EvidenceWindow, window_post_init,
}
use autonomous_development.Catalog.Service as Catalog
use autonomous_development.Records.{IsCheck, add-get, get-key}
use autonomous_development.Feedback.Sql.{feedback_eq, feedback_id, get_feedback}
use autonomous_development.Windows.Sql.{window_eq, window_id_of, add_window, get_window}
use autonomous_development.Windows.Service.{
  TelemetryEvidence, WindowSources, WindowRequest, id_ref, feedback_ref, check_request,
  is_other_feedback, validate_existing_window, check_item, explicit_feedback, window_feedback,
  window_telemetry, window_of, new_window, store_window, close_found, close_checked, close,
}

feedback-IsCheck : IsCheck feedback_id feedback_post_init
unfolding feedback_post_init
feedback-IsCheck f g h = ground arith

item-own :
    (request : WindowRequest) (serving : ReleasedVersion) (item checked : UserFeedback)
    → check_item request serving item ≡ ok checked
    → checked ≡ item
unfolding check_item
item-own request serving item checked h = ground arith

read-id :
    (id : String) (rows : List UserFeedback) (f : UserFeedback)
    → get_feedback id rows ≡ ok (some f)
    → f.id ≡ id
unfolding get_feedback
read-id id rows f h = get-key feedback_id feedback_post_init feedback-IsCheck id rows f h

explicit-refs :
    (request : WindowRequest) (serving : ReleasedVersion) (ids : List String)
    (rows items : List UserFeedback)
    → explicit_feedback request serving ids rows ≡ ok items
    → map feedback_ref items ≡ map id_ref ids
unfolding explicit_feedback
explicit-refs request serving [] rows [] h = refl
explicit-refs request serving [] rows (i ∷ items) h = absurd (ground arith)
explicit-refs request serving (id ∷ ids) rows items h = elim (Result-cases (get_feedback id rows)) [
  | inr (e, bad) ↦ absurd (ground arith)
  | inl (none, gone) ↦ absurd (ground arith)
  | inl (some f, found) ↦ elim (Result-cases (check_item request serving f)) [
    | inr (e, bad) ↦ absurd (ground arith)
    | inl (g, checked) ↦ elim (Result-cases (explicit_feedback request serving ids rows)) [
      | inr (e, bad) ↦ absurd (ground arith)
      | inl (rest, later) ↦
          let own = item-own request serving f g checked in
          let named = read-id id rows f found in
          let all : g ∷ rest ≡ items = ground arith in
          let first : feedback_ref g ≡ id_ref id = ap feedback_ref own ∙ ap id_ref named in
          ap (map feedback_ref) (sym all)
          ∙ ap (λ r. r ∷ map feedback_ref rest) first
          ∙ ap (λ rs. id_ref id ∷ rs) (explicit-refs request serving ids rows rest later)
    ]
  ]
]

same_feedback :
    (request : WindowRequest) (serving : ReleasedVersion) (ids : Option (List String))
    (rows items : List UserFeedback) (t : TelemetryEvidence)
    → window_feedback request serving ids rows ≡ ok items
    → is_other_feedback (window_of request serving items t) ids ≡ false
unfolding window_feedback is_other_feedback window_of
same_feedback request serving none rows items t h = refl
same_feedback request serving (some ids) rows items t h =
    let refs = explicit-refs request serving ids rows items h in
    let s = (list_eq {A = String}).beq_iff (map feedback_ref items) (map id_ref ids) in ground arith

-- The window is the one that the request asks for.
pub record IsRequested (request : WindowRequest) (window : EvidenceWindow) : Type 0 where
  pub accepted : validate_existing_window request window ≡ ok window
  pub named : window.id ≡ request.window_id
  pub valid : window_post_init window ≡ ok window

post_init-own :
    (w v : EvidenceWindow) → window_post_init w ≡ ok v → (v ≡ w) × (window_post_init w ≡ ok w)
unfolding window_post_init
post_init-own w v h = (ground arith, ground arith)

window_of-accepted :
    (request : WindowRequest) (serving : ReleasedVersion) (items : List UserFeedback)
    (t : TelemetryEvidence)
    → is_other_feedback (window_of request serving items t) request.feedback_ids ≡ false
    → validate_existing_window request (window_of request serving items t)
      ≡ ok (window_of request serving items t)
unfolding validate_existing_window window_of
window_of-accepted request serving items t same =
    let a = string_eq.beq_iff request.target_id request.target_id in
    let o = nat_eq.beq_iff request.opened_at request.opened_at in
    let c = nat_eq.beq_iff request.closed_at request.closed_at in ground arith

window_of-named :
    (request : WindowRequest) (serving : ReleasedVersion) (items : List UserFeedback)
    (t : TelemetryEvidence)
    → (window_of request serving items t).id ≡ request.window_id
unfolding window_of
window_of-named request serving items t = refl

new_window-IsRequested :
    (request : WindowRequest) (sources : WindowSources) (window : EvidenceWindow)
    → new_window request sources ≡ ok window
    → IsRequested request window
unfolding new_window
new_window-IsRequested request sources window h =
    elim (Result-cases (Catalog.serving request.target_id sources.catalog).0) [
      | inr (e, bad) ↦ absurd (ground arith)
      | inl (none, gone) ↦ absurd (ground arith)
      | inl (some serving, serves) ↦
          elim (Result-cases
            (window_feedback request serving request.feedback_ids sources.feedback)) [
              | inr (e, bad) ↦ absurd (ground arith)
              | inl (items, read) ↦
                  elim (Result-cases (window_telemetry request serving sources.collect)) [
                    | inr (e, bad) ↦ absurd (ground arith)
                    | inl (t, collected) ↦
                        let made : window_post_init (window_of request serving items t)
                            ≡ ok window =
                          ground arith in
                        let (own, valid) =
                          post_init-own (window_of request serving items t) window made in
                        let same =
                          same_feedback request serving request.feedback_ids sources.feedback items
                            t read in
                        let asked : IsRequested request (window_of request serving items t) =
                          record {
                            accepted = window_of-accepted request serving items t same;
                            named = window_of-named request serving items t;
                            valid = valid;
                          } in
                        subst (λ w. IsRequested request w) (sym own) asked
                  ]
            ]
    ]

accepted-own :
    (request : WindowRequest) (existing window : EvidenceWindow)
    → validate_existing_window request existing ≡ ok window
    → window ≡ existing
unfolding validate_existing_window
accepted-own request existing window h = ground arith

-- What a successful `close` leaves behind.
closed-found :
    (request : WindowRequest) (sources : WindowSources) (rows rows' : List EvidenceWindow)
    (window : EvidenceWindow)
    → close request sources rows ≡ (ok window, rows')
    → (check_request request ≡ ok tt)
      × (get_window request.window_id rows' ≡ ok (some window))
      × (validate_existing_window request window ≡ ok window)
unfolding close close_checked close_found store_window add_window get_window
closed-found request sources rows rows' window h = elim (Result-cases (check_request request)) [
  | inr (e, bad) ↦ absurd (ground arith)
  | inl (tt, good) ↦ elim (Result-cases (get_window request.window_id rows)) [
    | inr (e, bad) ↦ absurd (ground arith)
    | inl (some existing, there) ↦
        let accepted : validate_existing_window request existing ≡ ok window = ground arith in
        let own = accepted-own request existing window accepted in
        let last : rows ≡ rows' = ground arith in
        (
          good,
          subst (λ r. get_window request.window_id r ≡ ok (some window)) last
              (there ∙ ap (λ w. ok (some w)) (sym own)),
          subst (λ w. validate_existing_window request w ≡ ok window) (sym own) accepted,
        )
    | inl (none, fresh) ↦ elim (Result-cases (new_window request sources)) [
      | inr (e, bad) ↦ absurd (ground arith)
      | inl (w, made) ↦
          let asked = new_window-IsRequested request sources w made in
          let stored : add_window w rows ≡ (ok window, rows') = ground arith in
          let (same, back) =
            add-get window_id_of window_post_init w window rows rows' asked.valid stored in
          (
            good,
            subst (λ i. get_window i rows' ≡ ok (some window)) asked.named
                (back ∙ ap (λ v. ok (some v)) (sym same)),
            subst (λ v. validate_existing_window request v ≡ ok v) (sym same) asked.accepted,
          )
    ]
  ]
]

-- Closing a window again with the same request returns the window that was closed and stores
-- nothing, whatever the serving release, the feedback and the telemetry have become; in particular
-- the window that was stored for explicit feedback ids is accepted for them.
pub close-repeat :
    (request : WindowRequest) (sources later : WindowSources) (rows rows' : List EvidenceWindow)
    (window : EvidenceWindow)
    → close request sources rows ≡ (ok window, rows')
    → close request later rows' ≡ (ok window, rows')
unfolding close close_checked close_found
close-repeat request sources later rows rows' window h =
    let (good, found, accepted) = closed-found request sources rows rows' window h in ground arith
