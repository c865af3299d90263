-- ===== src/CodexTaskService/Review/Settled.antt =====
-- services/codex_task_service.go: the session that a review makes of another.
use wakapi.Base.{
  ◌≡◌, refl, true, false, not, ◌&&◌, ◌||◌, List, [], ◌∷◌, Text, codes, text_eq, text_eq_refl,
  text_eq→eq, is_empty, any, All, arith, Bool-cases, inl, inr,
}
use wakapi.CodexTaskService.{CodexTaskSession, CodexText}
use wakapi.CodexTaskService.Review.{
  ReviewInput, ReviewResult, refused, reviewed, approved, rejected, internal_only, settled,
  needs_review, plain_status, approve, edit, withhold, first_useful, rejected_summary,
  rejected_note, internal_summary, internal_note, reviewed_session,
}

-- The status is one of those that end a review, and the client is told something, which is not generic
-- and is the summary, exactly when it is `approved`.
pub record IsSettled (x : CodexText) (s : CodexTaskSession) : Type 0 where
  pub ends : any (text_eq s.review_status) settled ≡ true
  pub told : text_eq s.review_status approved ≡ not (is_empty s.client_message_hr)
  pub specific : (text_eq s.review_status approved && x.is_generic s.client_message_hr) ≡ false
  pub shown :
      (text_eq s.review_status approved && not (text_eq s.summary_hr s.client_message_hr)) ≡ false

-- A review that is not refused settles the session.
abbrev pub Settles : CodexText → CodexTaskSession → ReviewResult → Type 0
Settles x s (refused e) = Unit
Settles x s (reviewed s') = IsSettled x s' × (s'.external_key ≡ s.external_key)

approve-IsSettled :
    (x : CodexText) (input : ReviewInput) (m : Text) (s : CodexTaskSession)
    → (is_empty m || x.is_generic m) ≡ false
    → IsSettled x (approve x input m s)
unfolding approve any text_eq
approve-IsSettled x input m s h = record {
  ends = refl;
  told = ground (arith, h);
  specific = ground (arith, h);
  shown = rw (text_eq_refl m) refl;
}

edit-IsSettled :
    (x : CodexText) (input : ReviewInput) (m : Text) (s : CodexTaskSession)
    → (is_empty m || x.is_generic m) ≡ false
    → IsSettled x (edit x input m s)
unfolding edit any text_eq
edit-IsSettled x input m s h = record {
  ends = refl;
  told = ground (arith, h);
  specific = ground (arith, h);
  shown = rw (text_eq_refl m) refl;
}

withhold-IsSettled :
    (x : CodexText) (input : ReviewInput) (status summary note : Text) (s : CodexTaskSession)
    → any (text_eq status) settled ≡ true
    → text_eq status approved ≡ false
    → IsSettled x (withhold x input status summary note s)
unfolding withhold
withhold-IsSettled x input status summary note s h k = record {
  ends = h;
  told = k;
  specific = rw k refl;
  shown = rw k refl;
}

rejected_ends : any (text_eq rejected) settled ≡ true
unfolding any text_eq
rejected_ends = refl

internal_only_ends : any (text_eq internal_only) settled ≡ true
unfolding any text_eq
internal_only_ends = refl

pub reviewed_session-Settles :
    (x : CodexText) (input : ReviewInput) (s : CodexTaskSession)
    → Settles x s (reviewed_session x input s)
unfolding reviewed_session text_eq
reviewed_session-Settles x input s =
    let action = x.trim (x.to_lower input.action) in
    let message = first_useful x (
      input.client_message_hr ∷ s.client_message_hr ∷ s.summary_hr_normalized
      ∷ s.summary_hr_original ∷ []) in
    let edited = x.useful 220 input.client_message_hr in
    elim (Bool-cases (text_eq action (codes "approve"))) [
      | inl e ↦ elim (Bool-cases (is_empty message || x.is_generic message)) [
        | inl f ↦ rw (e, f) tt
        | inr f ↦ rw (e, f) (approve-IsSettled x input message s f, refl)
      ]
      | inr e ↦ elim (Bool-cases (text_eq action (codes "edit"))) [
        | inl e' ↦ elim (Bool-cases (is_empty edited || x.is_generic edited)) [
          | inl f ↦ rw (e, e', f) tt
          | inr f ↦ rw (e, e', f) (edit-IsSettled x input edited s f, refl)
        ]
        | inr e' ↦ elim (Bool-cases (text_eq action (codes "reject"))) [
          | inl f ↦
              rw (e, e', f)
                (
                  withhold-IsSettled x input rejected rejected_summary rejected_note s rejected_ends
                      refl,
                  refl,
                )
          | inr f ↦ elim (Bool-cases (text_eq action (codes "internal"))) [
            | inl g ↦
                rw (e, e', f, g)
                  (
                    withhold-IsSettled x input internal_only internal_summary internal_note s
                        internal_only_ends refl,
                    refl,
                  )
            | inr g ↦ rw (e, e', f, g) tt
          ]
        ]
      ]
    ]

-- A settled status is in small letters and has no space around it.
abbrev pub KnowsStatuses : CodexText → Type 0
KnowsStatuses x = All (λ t. x.trim (x.to_lower t) ≡ t) settled

fixed_one :
    (f : Text → Text) (a : Text) (ts : List Text)
    → All (λ t. f t ≡ t) ts
    → any (text_eq a) ts ≡ true
    → f a ≡ a
unfolding any
fixed_one f a [] h k = cc
fixed_one f a (t ∷ ts) h k = elim (Bool-cases (text_eq a t)) [
  | inl e ↦ rw (text_eq→eq a t e) h.0
  | inr e ↦ fixed_one f a ts h.1 (rw e at k)
]

pub IsSettled-needs_review :
    (x : CodexText) (s : CodexTaskSession)
    → KnowsStatuses x
    → IsSettled x s
    → needs_review x s ≡ false
unfolding needs_review plain_status
IsSettled-needs_review x s k h =
    let plain = fixed_one (λ t. x.trim (x.to_lower t)) s.review_status settled k h.ends in
    rw (plain, h.ends) refl
