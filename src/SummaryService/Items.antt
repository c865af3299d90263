-- ===== src/SummaryService/Items.antt =====
-- services/summary.go: aggregateBy and mergeSummaryItems, which gather items under their keys.
use mathlib.Core.List.{Pairwise}
use wakapi.Base.{
  ◌≡◌, refl, ◌∙◌, false, List, [], ◌∷◌, none, some, Text, text_eq, ℤ, ◌+ℤ◌, quot_ℤ, sum_by,
  sum_by-perm, map,
}
use wakapi.Runtime.{Runtime}
use wakapi.Table
use wakapi.Table.{Table, IsTable, Fresh, measure}
use wakapi.Entity.{SummaryType, summary}
use wakapi.Duration.{Duration, get_key}
use wakapi.Summary.{Item, by_total, second}

-- `mapping[d.GetKey(summaryType)] += d.Duration`
unfoldable pub tally : SummaryType → List Duration → Table ℤ → Table ℤ
tally t [] m = m
tally t (d ∷ ds) m =
    let key = get_key (summary t) d in
    tally t ds (Table.put key (measure (λ n. n) (Table.get key m) +ℤ d.duration) m)

unfoldable pub aggregated : SummaryType → Text × ℤ → Item
aggregated t (k, v) = record { id = 0; summary_id = 0; type = t; key = k; total = quot_ℤ v second }

unfoldable pub aggregate_by : Runtime → List Duration → SummaryType → List Item
unfolding tally aggregated
aggregate_by rt ds t =
    rt.sort Item by_total (map (aggregated t) (rt.map_order (Text × ℤ) (tally t ds [])))

-- `items[item.Key] = item`
unfoldable pub existing_items : List Item → Table Item → Table Item
existing_items [] m = m
existing_items (i ∷ is) m = existing_items is (Table.put i.key i m)

unfoldable pub add_item : Item → Table Item → Table Item
add_item i m = elim (Table.get i.key m) [
  | none ↦ Table.put i.key i m
  | some it ↦ Table.put i.key (record it { total = it.total +ℤ i.total }) m
]

unfoldable pub add_items : List Item → Table Item → Table Item
add_items [] m = m
add_items (i ∷ is) m = add_items is (add_item i m)

unfoldable pub merged_item : Text × Item → Item
merged_item (k, v) = record { id = 0; summary_id = 0; type = v.type; key = k; total = v.total }

unfoldable pub merge_summary_items : Runtime → List Item → List Item → List Item
unfolding existing_items add_items add_item merged_item
merge_summary_items rt existing new =
    rt.sort Item by_total
      (map merged_item (rt.map_order (Text × Item) (add_items new (existing_items existing []))))

-- No key stands twice.
abbrev pub IsDistinct : List Item → Type 0
IsDistinct items = Pairwise (λ (a b : Item). text_eq a.key b.key ≡ false) items

-- Sums through a map and a permutation.
pub sum_by-map :
    {A B : Type 0} (f : B → ℤ) (g : A → B) (xs : List A)
    → sum_by f (map g xs) ≡ sum_by (λ x. f (g x)) xs
unfolding sum_by
sum_by-map f g [] = refl
sum_by-map f g (x ∷ xs) = rw (sum_by-map f g xs)

pub sum_by-sorted :
    {A : Type 0} (rt : Runtime) (f : Item → ℤ) (g : A → Item) (xs : List A)
    → sum_by f (rt.sort Item by_total (map g (rt.map_order A xs))) ≡ sum_by (λ x. f (g x)) xs
sum_by-sorted {A} rt f g xs =
    sum_by-perm f (rt.sort-perm Item by_total _)
    ∙ sum_by-map f g (rt.map_order A xs)
    ∙ sum_by-perm (λ x. f (g x)) (rt.map_order-perm A xs)
