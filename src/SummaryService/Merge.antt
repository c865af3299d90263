-- ===== src/SummaryService/Merge.antt =====
-- services/summary.go: mergeSummaries. Its log output is left out.
use wakapi.Base.{
  ℕ, ◌==◌, ◌≡◌, refl, ap, ◌∙◌, Bool, true, false, ◌&&◌, List, [], ◌∷◌, Text, text_eq, text_eq_refl,
  if◌then◌else◌, Bool-cases, inl, inr, ℤ, pos, ◌+ℤ◌, ltb_ℤ, eqb_ℤ, sum_by, any, All, int_laws,
  parts_of_eq,
}
use mathlib.Core.List.{Pairwise}
use wakapi.Runtime.{Runtime}
use wakapi.Entity.{SummaryType, project}
use wakapi.Summary.{Summary, get_by_type, total_time}
use wakapi.Summary.Aliases.{picked}
use wakapi.SummaryService.Items.{merge_summary_items, IsDistinct}
use wakapi.SummaryService.MergeItems.{merge_summary_items-picked}

pub data MergeError : Type 0 where
  no_summaries users_dont_match : MergeError

pub data Merged (A : Type 0) : Type 0 where
  ok : A → Merged A
  err : MergeError → Merged A

-- A start as a key of the map: the instant, and the address of the *Location.
abbrev pub StartKey : Type 0
StartKey = ℤ × ℕ

abbrev pub start_key : Summary → StartKey
start_key s = (s.from_time, s.location)

-- The variables of the loop. Of the map `processed` only the keys are read, but for a log message.
pub record Merging : Type 0 where
  pub final : Summary
  pub min_time : ℤ
  pub max_time : ℤ
  pub processed : List StartKey

unfoldable pub is_processed : StartKey → List StartKey → Bool
unfolding any
is_processed t ts = any (λ u. eqb_ℤ u.0 t.0 && (u.1 == t.1)) ts

unfoldable pub add_summary : Runtime → Summary → Summary → Summary
add_summary rt final s = record final {
  projects = merge_summary_items rt final.projects s.projects;
  languages = merge_summary_items rt final.languages s.languages;
  editors = merge_summary_items rt final.editors s.editors;
  operating_systems = merge_summary_items rt final.operating_systems s.operating_systems;
  machines = merge_summary_items rt final.machines s.machines;
  labels = merge_summary_items rt final.labels s.labels;
  branches = merge_summary_items rt final.branches s.branches;
  entities = merge_summary_items rt final.entities s.entities;
  categories = merge_summary_items rt final.categories s.categories;
  num_heartbeats = final.num_heartbeats +ℤ s.num_heartbeats;
}

-- Only summaries with some time move the ends.
unfoldable pub merge_round : Runtime → Merging → Summary → Merging
unfolding add_summary
merge_round rt m s =
    let some_time = ltb_ℤ (pos 0) (total_time s) in
    record {
      final = add_summary rt m.final s;
      min_time = if ltb_ℤ s.from_time m.min_time && some_time then s.from_time else m.min_time;
      max_time = if ltb_ℤ m.max_time s.to_time && some_time then s.to_time else m.max_time;
      processed = start_key s ∷ m.processed;
    }

unfoldable pub merge_loop : Runtime → Merging → List Summary → Merged Merging
merge_loop rt m [] = ok m
merge_loop rt m (s ∷ ss) = elim (is_processed (start_key s) m.processed) [
  | true ↦ merge_loop rt m ss
  | false ↦ elim (text_eq s.user_id m.final.user_id) [
    | false ↦ err users_dont_match
    | true ↦ merge_loop rt (merge_round rt m s) ss
  ]
]

-- `finalSummary` before the loop. The zero time, in `ToTime` and `maxTime`, is 0. The *Location of a
-- merged summary is left out, since no start is compared with its own.
abbrev pub initial : Text → Summary
initial user_id = record {
  id = 0;
  user_id = user_id;
  from_time = pos 0;
  to_time = pos 0;
  location = 0;
  projects = [];
  languages = [];
  editors = [];
  operating_systems = [];
  machines = [];
  labels = [];
  branches = [];
  entities = [];
  categories = [];
  num_heartbeats = pos 0;
}

abbrev pub finished : Merged Merging → Merged Summary
finished (err e) = err e
finished (ok m) = ok (record (m.final) {
  from_time = m.min_time;
  to_time = if ltb_ℤ m.max_time m.min_time then m.min_time else m.max_time;
})

abbrev pub start : (now : ℤ) → Text → Merging
start now user_id = record {
  final = initial user_id;
  min_time = now;
  max_time = pos 0;
  processed = [];
}

unfoldable pub merge_summaries : Runtime → (now : ℤ) → List Summary → Merged Summary
unfolding merge_loop merge_round is_processed
merge_summaries rt now [] = err no_summaries
merge_summaries rt now (s ∷ ss) = finished (merge_loop rt (start now s.user_id) (s ∷ ss))

-- A start is among the given ones if the instant is, with the same *Location.
abbrev pub is_among : Summary → List StartKey → Bool
is_among s = any (λ k. eqb_ℤ k.0 s.from_time && (k.1 == s.location))

-- The summaries that count: the first for each start time with one *Location.
abbrev pub first_starts : List StartKey → List Summary → List Summary
first_starts seen [] = []
first_starts seen (s ∷ ss) =
    if is_among s seen then first_starts seen ss else s ∷ first_starts (start_key s ∷ seen) ss

-- The time that a summary has in one type under the keys that `f` picks.
abbrev pub time_in : SummaryType → (Text → Bool) → Summary → ℤ
time_in t f s = sum_by (picked f) (get_by_type t s)

abbrev HasDistinct : Summary → Type 0
HasDistinct s = (t : SummaryType) → IsDistinct (get_by_type t s)

initial-HasDistinct : (user_id : Text) → HasDistinct (initial user_id)
unfolding get_by_type
initial-HasDistinct user_id project = Pairwise.nil
initial-HasDistinct user_id _ = Pairwise.nil

time_in-initial :
    (t : SummaryType) (f : Text → Bool) (user_id : Text) → time_in t f (initial user_id) ≡ pos 0
unfolding get_by_type sum_by
time_in-initial project f user_id = refl
time_in-initial _ f user_id = refl

get_by_type_at :
    (t : SummaryType) (s : Summary) (from to : ℤ)
    → get_by_type t (record s { from_time = from; to_time = to }) ≡ get_by_type t s
unfolding get_by_type
get_by_type_at project s from to = refl
get_by_type_at _ s from to = refl

get_by_type-add_summary :
    (rt : Runtime) (t : SummaryType) (final s : Summary)
    → get_by_type t (add_summary rt final s)
      ≡ merge_summary_items rt (get_by_type t final) (get_by_type t s)
unfolding get_by_type add_summary
get_by_type-add_summary rt project final s = refl
get_by_type-add_summary rt _ final s = refl

add_summary-HasDistinct :
    (rt : Runtime) (final s : Summary) → HasDistinct final → HasDistinct (add_summary rt final s)
add_summary-HasDistinct rt final s h t =
    rw (get_by_type-add_summary rt t final s)
      ((merge_summary_items-picked rt _ _ (λ k. true) (h t)).1)

time_in-add_summary :
    (rt : Runtime) (t : SummaryType) (f : Text → Bool) (final s : Summary)
    → HasDistinct final
    → time_in t f (add_summary rt final s) ≡ time_in t f final +ℤ time_in t f s
time_in-add_summary rt t f final s h =
    rw (get_by_type-add_summary rt t final s) ((merge_summary_items-picked rt _ _ f (h t)).0)

-- What the loop returns when all summaries are of one user, and the given ones count.
abbrev Sums : SummaryType → (Text → Bool) → Merging → List Summary → Merged Merging → Type 0
Sums t f m counted (err e) = ⊥
Sums t f m counted (ok r) =
    (time_in t f r.final ≡ time_in t f m.final +ℤ sum_by (time_in t f) counted)
    × (r.final.num_heartbeats ≡ m.final.num_heartbeats +ℤ sum_by (λ s. s.num_heartbeats) counted)

Sums-cons :
    (rt : Runtime) (t : SummaryType) (f : Text → Bool) (m : Merging) (s : Summary)
    (counted : List Summary) (r : Merged Merging)
    → HasDistinct m.final
    → Sums t f (merge_round rt m s) counted r
    → Sums t f m (s ∷ counted) r
unfolding merge_round sum_by
Sums-cons rt t f m s counted (err e) d h = h
Sums-cons rt t f m s counted (ok r) d h = (
  omega (int_laws, parts_of_eq _ _ h.0, parts_of_eq _ _ (time_in-add_summary rt t f m.final s d)),
  (unfold add_summary in omega (int_laws, parts_of_eq _ _ h.1)),
)

is_processed_among :
    (s : Summary) (seen : List StartKey) → is_processed (start_key s) seen ≡ is_among s seen
unfolding is_processed
is_processed_among s seen = refl

merge_loop-Sums :
    (rt : Runtime) (t : SummaryType) (f : Text → Bool) (ss : List Summary) (m : Merging)
    → HasDistinct m.final
    → All (λ s. text_eq s.user_id m.final.user_id ≡ true) ss
    → Sums t f m (first_starts m.processed ss) (merge_loop rt m ss)
unfolding merge_loop merge_round
merge_loop-Sums rt t f [] m d h = unfold sum_by in (omega int_laws, omega int_laws)
merge_loop-Sums rt t f (s ∷ ss) m d h = elim (Bool-cases (is_among s m.processed)) [
  | inl e ↦
      rw (e, is_processed_among s m.processed ∙ e, merge_loop) (merge_loop-Sums rt t f ss m d h.1)
  | inr e ↦
      rw (e, is_processed_among s m.processed ∙ e, merge_loop)
        (rw (h.0, merge_loop)
          (Sums-cons rt t f m s _ _ d (
            merge_loop-Sums rt t f ss (merge_round rt m s) (add_summary-HasDistinct rt m.final s d)
              (unfold add_summary in h.1))))
]

-- Summaries of one user are always merged. For each type and keys, the merged summary has the time
-- that the first summary for each start time with one *Location has, added up, and likewise their
-- heartbeats; later summaries for these do not count, but one whose *Location is another does.
pub merge_summaries-total :
    (rt : Runtime) (now : ℤ) (s : Summary) (ss : List Summary) (t : SummaryType) (f : Text → Bool)
    → All (λ u. text_eq u.user_id s.user_id ≡ true) ss
    → (m : Summary) × (merge_summaries rt now (s ∷ ss) ≡ ok m)
      × (time_in t f m ≡ sum_by (time_in t f) (first_starts [] (s ∷ ss)))
      × (m.num_heartbeats ≡ sum_by (λ u. u.num_heartbeats) (first_starts [] (s ∷ ss)))
unfolding merge_summaries
merge_summaries-total rt now s ss t f h = from_Sums _ (
    merge_loop-Sums rt t f (s ∷ ss) (start now s.user_id) (initial-HasDistinct s.user_id)
      (text_eq_refl s.user_id, h))
  where
    from_Sums :
        (r : Merged Merging)
        → Sums t f (start now s.user_id) (first_starts [] (s ∷ ss)) r
        → (m : Summary) × (finished r ≡ ok m)
          × (time_in t f m ≡ sum_by (time_in t f) (first_starts [] (s ∷ ss)))
          × (m.num_heartbeats ≡ sum_by (λ u. u.num_heartbeats) (first_starts [] (s ∷ ss)))
    from_Sums (err e) sums = absurd sums
    from_Sums (ok r) sums = (
      _,
      refl,
      ap (sum_by (picked f)) (get_by_type_at t r.final _ _)
          ∙ sums.0
          ∙ rw (time_in-initial t f s.user_id) (omega int_laws),
      sums.1 ∙ omega int_laws,
    )
