-- ===== src/CodexTaskService/Review/Reviewed.antt =====
-- services/codex_task_service.go: what ReviewSession leaves of a session.
use wakapi.Base.{
  ◌≡◌, refl, ◌∙◌, ap, Bool, true, false, not, ◌&&◌, ◌||◌, [], ◌∷◌, none, some, Option-cases, Text,
  codes, text_eq, text_eq→eq, is_empty, if◌then◌else◌, arith, Bool-cases, inl, inr,
}
use wakapi.Table.{Table, get, get-put}
use wakapi.CodexTaskService.{CodexTaskSession, CodexText}
use wakapi.CodexTaskService.Review.{
  ReviewInput, ReviewResult, refused, reviewed, needs_review, first_useful, stored,
  reviewed_session, review_session,
}
use wakapi.CodexTaskService.Review.Settled.{
  IsSettled, Settles, KnowsStatuses, reviewed_session-Settles, IsSettled-needs_review,
}

-- What a review comes to: if it is refused nothing changes; otherwise the session, which is settled and
-- needs no review, is put in its place, and no other changes.
abbrev pub Reviews :
    CodexText → Table CodexTaskSession → ReviewResult → Table CodexTaskSession → Type 0
Reviews x sessions (refused e) t = t ≡ sessions
Reviews x sessions (reviewed s) t =
    IsSettled x s
    × (needs_review x s ≡ false)
    × ((key : Text) → get key t ≡ (if text_eq s.external_key key then some s else get key sessions))

stored_Reviews :
    (x : CodexText) (saves : Bool) (sessions : Table CodexTaskSession) (r : ReviewResult)
    (s : CodexTaskSession)
    → KnowsStatuses x
    → Settles x s r
    → Reviews x sessions (stored saves sessions r).0 (stored saves sessions r).1
unfolding stored
stored_Reviews x saves sessions (refused e) s k h = refl
stored_Reviews x true sessions (reviewed s') s k h =
    (h.0, IsSettled-needs_review x s' k h.0, λ key. get-put key s'.external_key s' sessions)
stored_Reviews x false sessions (reviewed s') s k h = refl

abbrev pub is_reviewed : ReviewResult → Bool
is_reviewed (reviewed s) = true
is_reviewed (refused e) = false

abbrev pub is_message : CodexText → Text → Bool
is_message x m = not (is_empty m) && not (x.is_generic m)

-- The actions that are accepted: with a message that can be shown, or without one.
abbrev pub accepts : CodexText → ReviewInput → CodexTaskSession → Bool
accepts x input s =
    let action = x.trim (x.to_lower input.action) in
    text_eq action (codes "approve")
      && is_message x (
          first_useful x (
            input.client_message_hr ∷ s.client_message_hr ∷ s.summary_hr_normalized
            ∷ s.summary_hr_original ∷ []))
    || text_eq action (codes "edit") && is_message x (x.useful 220 input.client_message_hr)
    || text_eq action (codes "reject")
    || text_eq action (codes "internal")

other_action : (a b c : Text) → text_eq b c ≡ false → text_eq a b ≡ true → text_eq a c ≡ false
other_action a b c h e = rw (text_eq→eq a b e) h

is_reviewed-reviewed_session :
    (x : CodexText) (input : ReviewInput) (s : CodexTaskSession)
    → is_reviewed (reviewed_session x input s) ≡ accepts x input s
unfolding reviewed_session text_eq
is_reviewed-reviewed_session x input s =
    let action = x.trim (x.to_lower input.action) in
    let message = first_useful x (
      input.client_message_hr ∷ s.client_message_hr ∷ s.summary_hr_normalized
      ∷ s.summary_hr_original ∷ []) in
    let edited = x.useful 220 input.client_message_hr in
    elim (Bool-cases (text_eq action (codes "approve"))) [
      | inl e ↦
          let a = other_action action (codes "approve") (codes "edit") refl e in
          let b = other_action action (codes "approve") (codes "reject") refl e in
          let c = other_action action (codes "approve") (codes "internal") refl e in
          elim (Bool-cases (is_empty message || x.is_generic message)) [
            | inl f ↦ rw (e, a, b, c, f) (ground (arith, f))
            | inr f ↦ rw (e, a, b, c, f) (ground (arith, f))
          ]
      | inr e ↦ elim (Bool-cases (text_eq action (codes "edit"))) [
        | inl e' ↦
            let b = other_action action (codes "edit") (codes "reject") refl e' in
            let c = other_action action (codes "edit") (codes "internal") refl e' in
            elim (Bool-cases (is_empty edited || x.is_generic edited)) [
              | inl f ↦ rw (e, e', b, c, f) (ground (arith, f))
              | inr f ↦ rw (e, e', b, c, f) (ground (arith, f))
            ]
        | inr e' ↦ elim (Bool-cases (text_eq action (codes "reject"))) [
          | inl f ↦ rw (e, e', f) refl
          | inr f ↦ elim (Bool-cases (text_eq action (codes "internal"))) [
            | inl g ↦ rw (e, e', f, g) refl
            | inr g ↦ rw (e, e', f, g) refl
          ]
        ]
      ]
    ]

is_reviewed-stored :
    (saves : Bool) (sessions : Table CodexTaskSession) (r : ReviewResult)
    → is_reviewed (stored saves sessions r).0 ≡ (saves && is_reviewed r)
unfolding stored
is_reviewed-stored saves sessions (refused e) = ground arith
is_reviewed-stored saves sessions (reviewed s) = ground arith

-- A review goes through exactly when there is a key, under which there is a session that can be read
-- and saved, and the action is accepted. A review that is refused changes nothing; after any other
-- the session is settled, is not in the queue of those that need a review, and only it has changed.
pub review_session-Reviews :
    (x : CodexText) (reads saves : Bool) (input : ReviewInput) (sessions : Table CodexTaskSession)
    → KnowsStatuses x
    → Reviews x sessions
        (review_session x reads saves input sessions).0
        (review_session x reads saves input sessions).1
      × (is_reviewed (review_session x reads saves input sessions).0 ≡ (
          not (is_empty (x.trim input.external_key))
          && (reads && elim (get (x.trim (x.trim input.external_key)) sessions) as (λ o. Bool) [
            | none ↦ false
            | some s ↦ saves && accepts x input s
          ])))
unfolding review_session
review_session-Reviews x reads saves input sessions k =
    let key = x.trim input.external_key in
    elim (Bool-cases (is_empty key)) [
      | inl e ↦ rw (e, review_session) (refl, refl)
      | inr e ↦ elim (Bool-cases reads) [
        | inr r ↦ rw (e, r, review_session) (refl, refl)
        | inl r ↦ elim (Option-cases (get (x.trim key) sessions)) [
          | inl f ↦ rw (e, r, f, review_session) (refl, refl)
          | inr (s, f) ↦
              rw (e, r, f, review_session)
                (
                  stored_Reviews x saves sessions (reviewed_session x input s) s k
                      (reviewed_session-Settles x input s),
                  is_reviewed-stored saves sessions (reviewed_session x input s)
                      ∙ ap (λ b. saves && b) (is_reviewed-reviewed_session x input s),
                )
        ]
      ]
    ]
