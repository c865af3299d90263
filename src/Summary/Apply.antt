-- ===== src/Summary/Apply.antt =====
-- models/summary.go: ApplyFilter and TotalTimeByFilter, which take a filter on one type. A filter on
-- the AI model, or on no type, has no items: the code follows a nil pointer there, which is none.
use wakapi.Base.{Bool, List, [], ◌∷◌, Option, none, some, Text, ℤ, pos, ◌+ℤ◌, ltb_ℤ, keep, ◌>>=◌}
use wakapi.Entity.{Entity, summary}
use wakapi.Filters.{FilterElement, match_any}
use wakapi.Summary.{Summary, get_by_type, set_by_type, total_time_by_key}

unfoldable pub apply_filter : FilterElement → Summary → Option Summary
apply_filter e s = elim e.entity [
  | summary t ↦ some (set_by_type t (keep (λ i. match_any e.filter i.key) (get_by_type t s)) s)
  | _ ↦ none
]

unfoldable pub sum_keys : Entity → List Text → Summary → Option ℤ
sum_keys t [] s = some (pos 0)
sum_keys (summary t) (k ∷ ks) s = do
  rest ← sum_keys (summary t) ks s
  some (total_time_by_key t k s +ℤ rest)
sum_keys _ (k ∷ ks) s = none

unfoldable pub total_time_by_filter : FilterElement → Summary → Option ℤ
unfolding sum_keys
total_time_by_filter e s = sum_keys e.entity e.filter s

-- `Summaries`, sorted by their starts, and the greatest total, which lancet's `Max` gives.
abbrev pub by_from : Summary → Summary → Bool
by_from a b = ltb_ℤ a.from_time b.from_time
