-- ===== src/Tests/Sorting.antt =====
-- A Go runtime to run the tests with: maps are walked in the order of their lists, and sorting is
-- stable.
use mathlib.Core.List.Perm
use wakapi.Runtime.{Runtime}
use wakapi.Stable.{stable_sort, stable_sort-Permᴰ, stable_sort-IsSorted, IsSorted-Pairwise}

abbrev pub sample_runtime : Runtime
sample_runtime = record {
  map_order = λ A xs. xs;
  map_order-perm = λ A xs. Perm.refl xs;
  location = λ from to. 0;
  sort = λ A less xs. stable_sort less xs;
  sort-perm = λ A less xs. ∣ stable_sort-Permᴰ less xs ∣₁;
  sort-IsOrdered =
      λ A less xs l. IsSorted-Pairwise less (stable_sort less xs) (stable_sort-IsSorted less l xs);
}
