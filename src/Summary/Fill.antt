-- ===== src/Summary/Fill.antt =====
-- models/summary.go: FillBy and FillMissing, which account for time under a placeholder key.
use wakapi.Base.{
  ◌≡◌, Bool, true, false, List, [], ◌∷◌, ◌++◌, Option, none, some, Text, text_eq, if◌then◌else◌,
  Bool-cases, inl, inr, ℤ, pos, ◌+ℤ◌, ◌-ℤ◌, ltb_ℤ, quot_ℤ, sum_by, sum_by-append, any, keep, null,
  length, ◌==◌, arith, int_laws, -ℤ_parts, parts_of_eq, some_inj,
}
use wakapi.Entity.{
  SummaryType, label, same_type, summary_types, unknown_summary_key, default_project_label,
  same_type_refl,
}
use wakapi.Summary.{
  Item, Summary, seconds, second, get_by_type, set_by_type, total_time_by, find_first_present_type,
}
use wakapi.Summary.Totals.{
  get_by_type-set_by_type, total_of, total_time_by-seconds, quot-seconds, seconds-sub, second_laws,
  seconds_parts,
}

abbrev pub fill_key : SummaryType → Text
fill_key t = if same_type t label then default_project_label else unknown_summary_key

unfoldable pub has_key : Text → List Item → Bool
unfolding any
has_key key items = any (λ i. text_eq i.key key) items

-- `(*typeItems[toType])[existingEntryIdx].Total = total`, at the first item of the key.
unfoldable pub set_total : Text → ℤ → List Item → List Item
set_total key total [] = []
set_total key total (i ∷ is) =
    if text_eq i.key key then record i { total = total } ∷ is else i ∷ set_total key total is

-- The total of the item at `existingEntryIdx`.
unfoldable pub first_total : Text → List Item → Option ℤ
first_total key [] = none
first_total key (i ∷ is) = if text_eq i.key key then some i.total else first_total key is

unfoldable pub fill_items : SummaryType → ℤ → List Item → List Item
unfolding has_key set_total
fill_items t total items =
    if has_key (fill_key t) items
    then set_total (fill_key t) total items
    else items ++ record { id = 0; summary_id = 0; type = t; key = fill_key t; total = total } ∷ []

unfoldable pub fill_by : SummaryType → SummaryType → Summary → Summary
unfolding total_time_by
fill_by from_type to_type s =
    let total = quot_ℤ (total_time_by from_type s -ℤ total_time_by to_type s) second in
    if ltb_ℤ (pos 0) total
    then set_by_type to_type (fill_items to_type total (get_by_type to_type s)) s
    else s

unfoldable pub missing_types : Summary → List SummaryType
unfolding keep get_by_type
missing_types s = keep (λ t. null (get_by_type t s)) summary_types

unfoldable pub fill_all : SummaryType → List SummaryType → Summary → Summary
unfolding fill_by
fill_all present [] s = s
fill_all present (t ∷ ts) s = fill_all present ts (fill_by present t s)

unfoldable pub fill_missing : Summary → Summary
unfolding fill_all missing_types find_first_present_type
fill_missing s =
    if length (missing_types s) == length summary_types
    then s
    else (elim (find_first_present_type s) [
      | none ↦ s
      | some present ↦ fill_all present (missing_types s) s
    ])

-- The seconds that are missing.
abbrev pub gap : (f t : SummaryType) (s : Summary) → ℤ
gap f t s = total_of (get_by_type f s) -ℤ total_of (get_by_type t s)

quot-gap :
    (f t : SummaryType) (s : Summary)
    → quot_ℤ (total_time_by f s -ℤ total_time_by t s) second ≡ gap f t s
quot-gap f t s =
    rw (total_time_by-seconds f s, total_time_by-seconds t s) (rw (← seconds-sub) (quot-seconds _))

ltb-gap : (a b : ℤ) → ltb_ℤ (pos 0) (a -ℤ b) ≡ ltb_ℤ (seconds b) (seconds a)
ltb-gap a b = ground (arith, seconds_parts a, seconds_parts b, -ℤ_parts a b)

-- `FillBy` changes the one list, and that one if time is missing from it.
pub fill_by-eq :
    (f t : SummaryType) (s : Summary)
    → fill_by f t s ≡ (
        if ltb_ℤ (total_time_by t s) (total_time_by f s)
        then set_by_type t (fill_items t (gap f t s) (get_by_type t s)) s
        else s)
unfolding fill_by
fill_by-eq f t s =
    rw (quot-gap f t s) (rw (total_time_by-seconds t s, total_time_by-seconds f s) (rw (← ltb-gap)))

has_key_first :
    (k : Text) (u : ℤ) (items : List Item) → first_total k items ≡ some u → has_key k items ≡ true
unfolding has_key first_total
has_key_first k u [] h = cc
has_key_first k u (i ∷ is) h = ground (arith, has_key_first k u is)

total_of-set_total :
    (k : Text) (n u : ℤ) (items : List Item)
    → first_total k items ≡ some u
    → total_of (set_total k n items) +ℤ u ≡ total_of items +ℤ n
unfolding set_total sum_by first_total
total_of-set_total k n u [] h = cc
total_of-set_total k n u (i ∷ is) h = elim (Bool-cases (text_eq i.key k)) [
  | inl e ↦ rw e (omega (int_laws, parts_of_eq i.total u (some_inj (rw e at h))))
  | inr e ↦ rw e (omega (int_laws, parts_of_eq _ _ (total_of-set_total k n u is (rw e at h))))
]

total_of-fill_items :
    (t : SummaryType) (n : ℤ) (items : List Item)
    → has_key (fill_key t) items ≡ false
    → total_of (fill_items t n items) ≡ total_of items +ℤ n
unfolding fill_items sum_by
total_of-fill_items t n items h = rw h (rw (sum_by-append (λ i. i.total) items _) (omega int_laws))

total_of-fill_items_present :
    (t : SummaryType) (n u : ℤ) (items : List Item)
    → first_total (fill_key t) items ≡ some u
    → total_of (fill_items t n items) ≡ total_of items +ℤ n -ℤ u
unfolding fill_items
total_of-fill_items_present t n u items h =
    rw (has_key_first (fill_key t) u items h)
      (omega (int_laws, parts_of_eq _ _ (total_of-set_total (fill_key t) n u items h)))

-- With no placeholder item yet, the time of the type that is filled becomes the greater of its own
-- and the other's.
pub fill_by-total :
    (f t : SummaryType) (s : Summary)
    → has_key (fill_key t) (get_by_type t s) ≡ false
    → total_time_by t (fill_by f t s) ≡ (
        if ltb_ℤ (total_time_by t s) (total_time_by f s)
        then total_time_by f s
        else total_time_by t s)
fill_by-total f t s h = elim (Bool-cases (ltb_ℤ (total_time_by t s) (total_time_by f s))) [
  | inl e ↦ rw (fill_by-eq f t s) (
      rw e (
        rw (total_time_by-seconds t _, get_by_type-set_by_type t t _ s, same_type_refl t)
          (rw (total_of-fill_items t _ _ h, total_time_by-seconds f s) (omega second_laws))))
  | inr e ↦ rw (fill_by-eq f t s) (rw e)
]

-- With a placeholder item of total `u`, of a type that has less time than the other, the type falls
-- short of the other's time by `u` seconds: the item is overwritten.
pub fill_by-total_present :
    (f t : SummaryType) (s : Summary) (u : ℤ)
    → first_total (fill_key t) (get_by_type t s) ≡ some u
    → ltb_ℤ (total_time_by t s) (total_time_by f s) ≡ true
    → total_time_by t (fill_by f t s) ≡ total_time_by f s -ℤ seconds u
fill_by-total_present f t s u h e = rw (fill_by-eq f t s) (
    rw e (
      rw (total_time_by-seconds t _, get_by_type-set_by_type t t _ s, same_type_refl t)
        (rw (total_of-fill_items_present t _ u _ h, total_time_by-seconds f s)
          (omega second_laws))))

pub fill_by_ne :
    (f t u : SummaryType) (s : Summary)
    → same_type t u ≡ false
    → get_by_type u (fill_by f t s) ≡ get_by_type u s
fill_by_ne f t u s h = elim (Bool-cases (ltb_ℤ (total_time_by t s) (total_time_by f s))) [
  | inl e ↦ rw (fill_by-eq f t s) (rw e (rw (get_by_type-set_by_type u t _ s, h)))
  | inr e ↦ rw (fill_by-eq f t s) (rw e)
]
