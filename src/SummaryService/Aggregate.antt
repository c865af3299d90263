-- ===== src/SummaryService/Aggregate.antt =====
-- services/summary.go: what aggregateBy makes of durations.
use wakapi.Base.{
  ◌≡◌, refl, ap, ◌∙◌, List, [], ◌∷◌, Option, none, some, Text, text_eq, text_eq→eq, if◌then◌else◌,
  Bool-cases, inl, inr, ℤ, pos, ◌+ℤ◌, quot_ℤ, sum_by, int_laws,
}
use wakapi.Runtime.{Runtime, IsOrdered, gtb_ℤ-IsLess}
use wakapi.Table
use wakapi.Table.{Table, IsTable, Fresh, measure}
use wakapi.Entity.{SummaryType, summary}
use wakapi.Duration.{Duration, get_key}
use wakapi.Summary.{Item, by_total, second}
use wakapi.Summary.Aliases.{picked}
use wakapi.SummaryService.Items.{tally, aggregated, aggregate_by, sum_by-sorted}

-- The durations under a key add up in the map.
abbrev pub time_under : SummaryType → Text → Duration → ℤ
time_under t k d = if text_eq (get_key (summary t) d) k then d.duration else pos 0

at-tally :
    (t : SummaryType) (k : Text) (ds : List Duration) (m : Table ℤ)
    → Table.at (λ n. n) k (tally t ds m) ≡ Table.at (λ n. n) k m +ℤ sum_by (time_under t k) ds
unfolding tally sum_by
at-tally t k [] m = omega int_laws
at-tally t k (d ∷ ds) m =
    let key = get_key (summary t) d in
    let time = measure (λ n. n) (Table.get key m) +ℤ d.duration in
    rw (at-tally t k ds (Table.put key time m)) (
      rw (Table.get-put k key time m) (elim (Bool-cases (text_eq key k)) [
        | inl e ↦ rw e (rw (text_eq→eq key k e) (omega int_laws))
        | inr e ↦ rw e (omega int_laws)
      ]))

tally-IsTable :
    (t : SummaryType) (ds : List Duration) (m : Table ℤ) → IsTable m → IsTable (tally t ds m)
unfolding tally
tally-IsTable t [] m h = h
tally-IsTable t (d ∷ ds) m h = tally-IsTable t ds _ (Table.put-IsTable _ _ m h)

at-tally_nil :
    (t : SummaryType) (k : Text) (ds : List Duration)
    → Table.at (λ n. n) k (tally t ds []) ≡ sum_by (time_under t k) ds
unfolding Table.get
at-tally_nil t k ds = at-tally t k ds [] ∙ omega int_laws

quot-measure :
    (o : Option ℤ) → measure (λ n. quot_ℤ n second) o ≡ quot_ℤ (measure (λ n. n) o) second
quot-measure none = refl
quot-measure (some n) = refl

-- For every key the aggregated items hold the whole seconds of all durations under it, and the
-- items stand in descending order of their totals.
pub aggregate_by-keyed :
    (rt : Runtime) (ds : List Duration) (t : SummaryType) (k : Text)
    → (sum_by (picked (λ j. text_eq j k)) (aggregate_by rt ds t)
        ≡ quot_ℤ (sum_by (time_under t k) ds) second)
      × IsOrdered by_total (aggregate_by rt ds t)
unfolding aggregate_by
aggregate_by-keyed rt ds t k = (
  sum_by-sorted rt _ (aggregated t) (tally t ds [])
      ∙ Table.sum_by-when (λ n. quot_ℤ n second) k (tally t ds []) (tally-IsTable t ds [] tt)
      ∙ quot-measure (Table.get k (tally t ds []))
      ∙ ap (λ n. quot_ℤ n second) (at-tally_nil t k ds),
  rt.sort-IsOrdered Item by_total _ (gtb_ℤ-IsLess (λ i. i.total)),
)
