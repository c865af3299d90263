-- ===== src/Tests/Services.antt =====
-- services/summary.go, run on samples.
use mathlib.Core.List.{Pairwise, not-mem-nil}
use wakapi.Base.{
  ◌≡◌, refl, true, List, [], ◌∷◌, codes, text_eq, ℤ, pos, length, ◌+ℤ◌, ltb_ℤ, quot_ℤ, sum_by,
  arith,
}
use wakapi.Runtime.{IsOrdered}
use wakapi.Entity.{project}
use wakapi.Summary.{Item, Summary, by_total, second}
use wakapi.Summary.Aliases.{picked}
use wakapi.SummaryService.Items.{aggregate_by, IsDistinct}
use wakapi.SummaryService.Aggregate.{time_under, aggregate_by-keyed}
use wakapi.SummaryService.Merge.{ok, merge_summaries, first_starts, time_in, merge_summaries-total}
use wakapi.SummaryService.Intervals.{Calendar, get_missing_intervals, between, gaps, HasMidnights}
use wakapi.Tests.Samples.{item, summary_of, monday, tuesday, duration}
use wakapi.Tests.Sorting.{sample_runtime}

-- A clock without days: each instant begins one, of 24 hours.
abbrev pub one_day : ℤ
one_day = pos 86400000000000

pub one_day-lt : (t : ℤ) → ltb_ℤ t (t +ℤ one_day) ≡ true
unfolding ◌+ℤ◌
one_day-lt t = ground arith

abbrev pub calendar : Calendar
calendar = record {
  begin_of_day = λ t. t;
  next_day = λ t. t +ℤ one_day;
  begin_of_day-le = λ t. omega arith;
}

pub calendar-HasMidnights : HasMidnights calendar
calendar-HasMidnights = record { next_day-lt = one_day-lt; next_begin-lt = one_day-lt }

merge_summaries-total_example :
    (m : Summary) × (merge_summaries sample_runtime (pos 1000) (monday ∷ tuesday ∷ monday ∷ [])
      ≡ ok m)
    × (time_in project (λ k. text_eq k (codes "wakapi")) m
        ≡ sum_by
            (time_in project (λ k. text_eq k (codes "wakapi")))
            (first_starts [] (monday ∷ tuesday ∷ monday ∷ [])))
    × (m.num_heartbeats
        ≡ sum_by (λ u. u.num_heartbeats) (first_starts [] (monday ∷ tuesday ∷ monday ∷ [])))
unfolding text_eq
merge_summaries-total_example =
    merge_summaries-total sample_runtime (pos 1000) monday (tuesday ∷ monday ∷ []) project
      (λ k. text_eq k (codes "wakapi")) (refl, (refl, tt))

abbrev one_item : List Item
one_item = item project (codes "wakapi") (pos 60) ∷ []

one_item-IsDistinct : IsDistinct one_item
one_item-IsDistinct = Pairwise.cons (λ i there. absurd (not-mem-nil there)) Pairwise.nil

aggregate_by-keyed_example :
    (sum_by (picked (λ j. text_eq j (codes "wakapi"))) (
        aggregate_by sample_runtime
          (duration (codes "wakapi") (pos 0) (pos 5000000000) (pos 2) ∷ [])
          project)
      ≡ quot_ℤ
          (sum_by
            (time_under project (codes "wakapi"))
            (duration (codes "wakapi") (pos 0) (pos 5000000000) (pos 2) ∷ []))
          second)
    × IsOrdered by_total (
        aggregate_by sample_runtime
          (duration (codes "wakapi") (pos 0) (pos 5000000000) (pos 2) ∷ [])
          project)
aggregate_by-keyed_example =
    aggregate_by-keyed sample_runtime
      (duration (codes "wakapi") (pos 0) (pos 5000000000) (pos 2) ∷ []) project (codes "wakapi")

-- Before Monday's summary, between the two, and after Tuesday's.
three_gaps :
    length (get_missing_intervals calendar (pos 50) (pos 500) (monday ∷ tuesday ∷ []) true) ≡ 3
unfolding get_missing_intervals gaps between
three_gaps = refl

abbrev at_once : List Summary
at_once = summary_of (pos 100) (pos 100) [] [] ∷ tuesday ∷ []
