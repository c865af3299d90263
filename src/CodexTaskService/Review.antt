-- ===== src/CodexTaskService/Review.antt =====
-- services/codex_task_service.go: ListReviewQueue, ReviewSession and UpsertMany.
pub mod Settled
pub mod Reviewed
use wakapi.Base.{
  ℕ, Bool, true, false, not, ◌&&◌, ◌||◌, List, [], ◌∷◌, ◌++◌, Option, none, some, Text, codes,
  text_eq, is_empty, if◌then◌else◌, ℤ, pos, ltb_ℤ, keep, any,
}
use wakapi.Table.{Table, get, put}
use wakapi.CodexTaskService.{CodexTaskSession, CodexText}

abbrev pub approved : Text
approved = codes "approved"

abbrev pub rejected : Text
rejected = codes "rejected"

abbrev pub internal_only : Text
internal_only = codes "internal_only"

abbrev pub auto_ok : Text
auto_ok = codes "auto_ok"

-- A status in small letters, as it is compared.
unfoldable pub plain_status : CodexText → CodexTaskSession → Text
plain_status x s = x.trim (x.to_lower s.review_status)

abbrev pub settled : List Text
settled = approved ∷ auto_ok ∷ rejected ∷ internal_only ∷ []

abbrev pub unsettled : List Text
unsettled = codes "needs_review" ∷ codes "needs_grouping" ∷ codes "pending_review" ∷ []

unfoldable pub is_blank_or_generic : CodexText → Text → Bool
is_blank_or_generic x t = let m = x.normalize 220 t in is_empty m || x.is_generic m

-- The least confidence is 0.60.
unfoldable pub needs_review : CodexText → CodexTaskSession → Bool
unfolding plain_status is_blank_or_generic any text_eq
needs_review x s =
    let status = plain_status x s in
    if any (text_eq status) settled
    then false
    else if any (text_eq status) unsettled
    then true
    else is_blank_or_generic x s.client_message_hr
      || is_blank_or_generic x s.summary_hr_normalized
      || ltb_ℤ s.summary_confidence (pos 60)

unfoldable pub is_queued : CodexText → (status : Text) → CodexTaskSession → Bool
unfolding needs_review
is_queued x status s =
    let given = x.trim (x.to_lower status) in
    let filter = if is_empty given then codes "pending" else given in
    if text_eq filter (codes "all")
    then true
    else if text_eq filter (codes "pending")
    then needs_review x s
    else text_eq (plain_status x s) filter

-- The repository limits the number of sessions, and is none on an error.
unfoldable pub list_review_queue :
    CodexText → (status : Text) → Option (List CodexTaskSession) → Option (List CodexTaskSession)
unfolding is_queued
list_review_queue x status none = none
list_review_queue x status (some sessions) = some (keep (is_queued x status) sessions)

pub data ReviewError : Type 0 where
  key_required not_found message_required unsupported_action repository_failed : ReviewError

pub data ReviewResult : Type 0 where
  reviewed : CodexTaskSession → ReviewResult
  refused : ReviewError → ReviewResult

pub record ReviewInput : Type 0 where
  pub external_key : Text
  pub action : Text
  pub client_message_hr : Text
  pub internal_message_hr : Text

-- The first of some texts that is useful.
unfoldable pub first_useful : CodexText → List Text → Text
first_useful x [] = []
first_useful x (t ∷ ts) =
    let rest = first_useful x ts in if is_empty (x.useful 220 t) then rest else x.useful 220 t

-- The note that was given, or else the text.
unfoldable pub note_or : CodexText → (note otherwise : Text) → Text
note_or x note otherwise =
    let given = x.normalize 280 note in if is_empty given then otherwise else given

unfoldable pub approve :
    CodexText → ReviewInput → (candidate : Text) → CodexTaskSession → CodexTaskSession
unfolding note_or
approve x input candidate s =
    let source = x.trim s.summary_source in
    record s {
      client_message_hr = candidate;
      summary_hr = candidate;
      review_status = approved;
      summary_confidence =
          if ltb_ℤ s.summary_confidence (pos 85) then pos 85 else s.summary_confidence;
      summary_source =
          if is_empty source || text_eq (x.to_lower s.summary_source) (codes "fallback")
          then codes "human_review"
          else s.summary_source;
      internal_message_hr =
          note_or x input.internal_message_hr
            (x.normalize 280 (codes "Odobreno za klijentsku sinkronizaciju: " ++ candidate));
    }

unfoldable pub edit :
    CodexText → ReviewInput → (candidate : Text) → CodexTaskSession → CodexTaskSession
unfolding note_or
edit x input candidate s = record s {
  client_message_hr = candidate;
  summary_hr = candidate;
  review_status = approved;
  summary_confidence = pos 90;
  summary_source = codes "human_review";
  internal_message_hr = note_or x input.internal_message_hr (
      x.normalize 280 (
        codes "Ru"
        ++ (196 ∷ 141 ∷ codes "no ure"
            ++ (196 ∷ 145 ∷ codes "en sa" ++ (197 ∷ 190 ∷ codes "etak: " ++ candidate)))));
}

-- `reject` and `internal` keep the session from the client.
unfoldable pub withhold :
    CodexText → ReviewInput → (status summary note : Text) → CodexTaskSession → CodexTaskSession
unfolding note_or
withhold x input status summary note s = record s {
  client_message_hr = [];
  review_status = status;
  summary_hr = summary;
  internal_message_hr = note_or x input.internal_message_hr note;
}

abbrev rejected_summary : Text
rejected_summary = codes "Codex aktivnost je odbijena za klijentsku sinkronizaciju."

abbrev rejected_note : Text
rejected_note =
    codes "Odbijeno za klijentsku sinkronizaciju nakon ru" ++ (196 ∷ 141 ∷ codes "nog pregleda.")

abbrev internal_summary : Text
internal_summary =
    codes "Codex aktivnost je zadr" ++ (197 ∷ 190 ∷ codes "ana samo za internu evidenciju.")

abbrev internal_note : Text
internal_note =
    codes "Zadr" ++ (197 ∷ 190 ∷ codes "ano za internu evidenciju; bez klijentske sinkronizacije.")

-- The session that a review makes of the one that is stored, or the error.
unfoldable pub reviewed_session : CodexText → ReviewInput → CodexTaskSession → ReviewResult
unfolding approve edit withhold first_useful text_eq
reviewed_session x input s =
    let action = x.trim (x.to_lower input.action) in
    let message = first_useful x (
      input.client_message_hr ∷ s.client_message_hr ∷ s.summary_hr_normalized
      ∷ s.summary_hr_original ∷ []) in
    let edited = x.useful 220 input.client_message_hr in
    if text_eq action (codes "approve")
    then if is_empty message || x.is_generic message
      then refused message_required
      else reviewed (approve x input message s)
    else if text_eq action (codes "edit")
    then if is_empty edited || x.is_generic edited
      then refused message_required
      else reviewed (edit x input edited s)
    else if text_eq action (codes "reject")
    then reviewed (withhold x input rejected rejected_summary rejected_note s)
    else if text_eq action (codes "internal")
    then reviewed (withhold x input internal_only internal_summary internal_note s)
    else refused unsupported_action

-- The session is saved, unless the review is refused.
unfoldable pub stored :
    (saves : Bool) → Table CodexTaskSession → ReviewResult → ReviewResult × Table CodexTaskSession
stored saves sessions (refused e) = (refused e, sessions)
stored saves sessions (reviewed s) =
    if saves
    then (reviewed s, put s.external_key s sessions)
    else (refused repository_failed, sessions)

-- The user's sessions under their keys; whether they can be read and saved.
unfoldable pub review_session :
    CodexText
    → (reads saves : Bool) → ReviewInput
    → Table CodexTaskSession
    → ReviewResult × Table CodexTaskSession
unfolding reviewed_session stored
review_session x reads saves input sessions =
    let key = x.trim input.external_key in
    if is_empty key
    then (refused key_required, sessions)
    else if not reads
    then (refused repository_failed, sessions)
    else elim (get (x.trim key) sessions) [
      | none ↦ (refused not_found, sessions)
      | some s ↦ stored saves sessions (reviewed_session x input s)
    ]
