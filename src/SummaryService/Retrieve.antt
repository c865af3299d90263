-- ===== src/SummaryService/Retrieve.antt =====
-- services/summary.go: Retrieve, which puts a summary together from the stored ones and from those
-- of the intervals that are missing.
pub mod Pieces
pub mod Outcomes
pub mod Recomputed
use wakapi.Base.{
  ℕ, ◌≡◌, Bool, true, false, not, ◌&&◌, ◌||◌, List, [], ◌∷◌, ◌++◌, Option, none, some, ◌>>=◌,
  if◌then◌else◌, ℤ, pos, ltb_ℤ, eqb_ℤ, ltb, length, ◌==◌,
}
use wakapi.Runtime.{Runtime}
use wakapi.User.{User, heartbeats_timeout}
use wakapi.Filters.{Filters, is_empty_filters, count_distinct_types, one_or_empty}
use wakapi.Summary.{Summary, sorted, total_time, keep_only}
use wakapi.Summary.Apply.{apply_filter, by_from}
use wakapi.DurationService.Get.{Reads}
use wakapi.DurationService.Merge.{get_effective_timeout}
use wakapi.SummaryService.Merge.{Merged, ok, err, merge_summaries}
use wakapi.SummaryService.Intervals.{Calendar, Interval, get_missing_intervals, fix_zero_duration}
use wakapi.SummaryService.Summarize.{summarize}

-- A summary, an error, or a panic.
pub data Outcome : Type 0 where
  retrieved : Summary → Outcome
  failed crashed : Outcome

-- What Retrieve reads: the clock, the calendar of the user's time zone, the summaries stored for
-- the user between two times, and what durations are made of.
pub record Source : Type 1 where
  pub runtime : Runtime
  pub now : ℤ
  pub calendar : Calendar
  pub stored : ℤ → ℤ → Option (List Summary)
  pub reads : Reads

unfoldable pub requires_filtering : Option Filters → Bool
requires_filtering none = false
requires_filtering (some f) =
    not (is_empty_filters f) && (ltb 1 (count_distinct_types f) || not f.select_filtered_only)

unfoldable pub must_recompute : User → Option Filters → Option ℤ → Bool
unfolding requires_filtering
must_recompute user filters custom_timeout =
    requires_filtering filters
    || not (eqb_ℤ (get_effective_timeout user custom_timeout) (heartbeats_timeout user))

unfoldable pub existing :
    Source → User → Option Filters → Option ℤ → (from to : ℤ) → Option (List Summary)
existing src user filters custom_timeout from to =
    if must_recompute user filters custom_timeout
    then some []
    else do result ← src.stored from to; some (fix_zero_duration result)

-- The loop over `count` missing intervals. Behind more than two an empty summary is left out.
unfoldable pub generate :
    Source → User → Option Filters → Option ℤ → (count : ℕ) → List Interval → Option (List Summary)
generate src user filters custom_timeout count [] = some []
generate src user filters custom_timeout count (i ∷ is) = do
  s ← summarize src.runtime src.reads user filters custom_timeout i.start i.end
  rest ← generate src user filters custom_timeout count is
  some (if ltb 2 count && eqb_ℤ s.from_time s.to_time then rest else s ∷ rest)

unfoldable pub pieces :
    Source → User → Option Filters → Option ℤ → (from to : ℤ) → Option (List Summary)
pieces src user filters custom_timeout from to = do
  found ← existing src user filters custom_timeout from to
  let missing = get_missing_intervals src.calendar from to found false
  generated ← generate src user filters custom_timeout (length missing) missing
  some (found ++ generated)

-- The ends of the summary, which keep within the range.
unfoldable pub with_range : (from to : ℤ) → Summary → Summary
with_range from to m =
    let m' = record m { from_time = if ltb_ℤ m.from_time from then from else m.from_time } in
    if eqb_ℤ (total_time m') (pos 0) then record m' { from_time = from; to_time = to } else m'

abbrev pub is_selective : Option Filters → Bool
is_selective none = false
is_selective (some f) = (count_distinct_types f == 1) && f.select_filtered_only

unfoldable pub with_selection : Option Filters → Summary → Option Summary
with_selection none s = some s
with_selection (some f) s =
    let filter = one_or_empty f in
    if is_selective (some f) then apply_filter filter (keep_only (filter.entity ∷ []) s) else some s

unfoldable pub put_together : Source → Option Filters → (from to : ℤ) → List Summary → Outcome
put_together src filters from to summaries =
    elim (merge_summaries src.runtime src.now (src.runtime.sort Summary by_from summaries)) [
      | err e ↦ failed
      | ok m ↦ elim (with_selection filters (with_range from to m)) [
        | none ↦ crashed
        | some s ↦ retrieved (sorted src.runtime s)
      ]
    ]

unfoldable pub retrieve : Source → User → Option Filters → Option ℤ → (from to : ℤ) → Outcome
retrieve src user filters custom_timeout from to =
    elim (pieces src user filters custom_timeout from to) [
      | none ↦ failed
      | some summaries ↦ put_together src filters from to summaries
    ]
