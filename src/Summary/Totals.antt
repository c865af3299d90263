-- ===== src/Summary/Totals.antt =====
-- models/summary.go: the nine lists of a summary as a store, and totals in seconds and nanoseconds.
use wakapi.Base.{
  ℕ, ◌+◌, ◌*◌, ◌≡◌, refl, sym, ap, ◌∙◌, Bool, true, false, List, [], ◌∷◌, if◌then◌else◌, Bool-cases,
  inl, inr, ℤ, pos, negsuc, pos_part, neg_part, ◌+ℤ◌, ◌*ℤ◌, ◌≤ℤ◌, ◌-ℤ◌, ltb_ℤ, quot_ℤ, sum_by,
  int_laws, eq_of_parts, +ℤ_parts, -ℤ_parts, Text, text_eq, arith, not,
}
use wakapi.Entity.{SummaryType, project, same_type}
use wakapi.Summary.{
  Item, Summary, seconds, second, get_by_type, set_by_type, total_time_by, total_time_by_key,
}

pub get_by_type-set_by_type :
    (u t : SummaryType) (items : List Item) (s : Summary)
    → get_by_type u (set_by_type t items s) ≡ (if same_type t u then items else get_by_type u s)
unfolding get_by_type set_by_type same_type
get_by_type-set_by_type project t items s = ground arith
get_by_type-set_by_type _ t items s = ground arith

-- Scaling by a second, read by `omega` through the parts of an integer.
pub seconds_parts :
    (a : ℤ)
    → pos_part (seconds a) + second * neg_part a ≡ neg_part (seconds a) + second * pos_part a
unfolding seconds
seconds_parts (pos n) = ground arith
seconds_parts (negsuc n) = ground arith

pub ruleset second_laws = (int_laws, seconds_parts)

pub quot-seconds : (a : ℤ) → quot_ℤ (seconds a) second ≡ a
unfolding seconds
quot-seconds (pos n) = ground arith
quot-seconds (negsuc n) = ground arith

pub seconds-add : (a b : ℤ) → seconds (a +ℤ b) ≡ seconds a +ℤ seconds b
seconds-add a b = omega second_laws

pub seconds-sub : (a b : ℤ) → seconds (a -ℤ b) ≡ seconds a -ℤ seconds b
seconds-sub a b = omega second_laws

pub sum_by-seconds :
    {A : Type 0} (f : A → ℤ) (xs : List A) → sum_by (λ x. seconds (f x)) xs ≡ seconds (sum_by f xs)
unfolding sum_by
sum_by-seconds f [] = omega second_laws
sum_by-seconds f (x ∷ xs) = rw (sum_by-seconds f xs) (omega second_laws)

-- The seconds of a list of items.
abbrev pub total_of : List Item → ℤ
total_of items = sum_by (λ i. i.total) items

-- The seconds of the items under a key.
abbrev pub keyed : Text → Item → ℤ
keyed k i = if text_eq i.key k then i.total else pos 0

pub total_time_by-seconds :
    (t : SummaryType) (s : Summary) → total_time_by t s ≡ seconds (total_of (get_by_type t s))
unfolding total_time_by
total_time_by-seconds t s = sum_by-seconds (λ i. i.total) (get_by_type t s)

keyed-seconds :
    (k : Text) (items : List Item)
    → sum_by (λ i. if not (text_eq i.key k) then pos 0 else seconds i.total) items
      ≡ seconds (sum_by (keyed k) items)
unfolding sum_by
keyed-seconds k [] = omega second_laws
keyed-seconds k (i ∷ is) = elim (Bool-cases (text_eq i.key k)) [
  | inl e ↦ rw (e, keyed-seconds k is) (omega second_laws)
  | inr e ↦ rw (e, keyed-seconds k is) (omega second_laws)
]

pub total_time_by_key-seconds :
    (t : SummaryType) (k : Text) (s : Summary)
    → total_time_by_key t k s ≡ seconds (sum_by (keyed k) (get_by_type t s))
unfolding total_time_by_key
total_time_by_key-seconds t k s = keyed-seconds k (get_by_type t s)
