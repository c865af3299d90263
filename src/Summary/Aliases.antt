-- ===== src/Summary/Aliases.antt =====
-- models/summary.go: WithResolvedAliases merges the items whose keys resolve to one name.
use wakapi.Base.{
  ◌≡◌, refl, ap, ◌∙◌, Bool, true, false, List, [], ◌∷◌, ◌++◌, Text, text_eq, text_eq→eq,
  if◌then◌else◌, Bool-cases, inl, inr, ℤ, pos, ◌+ℤ◌, sum_by, sum_by-append, keep, int_laws,
  parts_of_eq,
}
use wakapi.Entity.{SummaryType, entity, same_type, same_type→eq}
use wakapi.Summary.{Item, Summary, get_by_type, seconds, total_time_by, total_time_by_key}
use wakapi.Summary.Totals.{total_time_by_key-seconds, total_time_by-seconds}
use wakapi.Summary.Fill.{has_key}

-- models/alias.go
abbrev pub AliasResolver : Type 0
AliasResolver = SummaryType → Text → Text

abbrev pub resolved : AliasResolver → Item → Text
resolved resolve i = resolve i.type i.key

-- Items that are no alias of another.
unfoldable pub top_level : AliasResolver → List Item → List Item
unfolding keep
top_level resolve items = keep (λ i. text_eq (resolved resolve i) i.key) items

-- `targetItem.Total += item.Total`, at the first item of the key.
unfoldable pub add_total : Text → ℤ → List Item → List Item
add_total key n [] = []
add_total key n (i ∷ is) =
    if text_eq i.key key then record i { total = i.total +ℤ n } ∷ is else i ∷ add_total key n is

-- One round of the second loop.
unfoldable pub merge_alias : AliasResolver → List Item → Item → List Item
merge_alias resolve acc i =
    let key = resolved resolve i in
    if text_eq key i.key
    then acc
    else if has_key key acc
    then add_total key i.total acc
    else acc
      ++ record { id = i.id; summary_id = i.summary_id; type = i.type; key = key; total = i.total }
        ∷ []

unfoldable pub merge_aliases : AliasResolver → List Item → List Item → List Item
merge_aliases resolve acc [] = acc
merge_aliases resolve acc (i ∷ is) = merge_aliases resolve (merge_alias resolve acc i) is

unfoldable pub process_aliases : AliasResolver → List Item → List Item
process_aliases resolve items = merge_aliases resolve (top_level resolve items) items

-- No aliases for entities.
unfoldable pub with_resolved_aliases : AliasResolver → Summary → Summary
with_resolved_aliases resolve s = record s {
  projects = process_aliases resolve s.projects;
  editors = process_aliases resolve s.editors;
  languages = process_aliases resolve s.languages;
  operating_systems = process_aliases resolve s.operating_systems;
  machines = process_aliases resolve s.machines;
  labels = process_aliases resolve s.labels;
  branches = process_aliases resolve s.branches;
  categories = process_aliases resolve s.categories;
}

-- The seconds of an item whose key, or whose resolved key, is one of those that `f` picks.
abbrev pub picked : (Text → Bool) → Item → ℤ
picked f i = if f i.key then i.total else pos 0

abbrev pub resolved_to : AliasResolver → (Text → Bool) → Item → ℤ
resolved_to resolve f i = if f (resolved resolve i) then i.total else pos 0

abbrev sum_key : (Text → Bool) → List Item → ℤ
sum_key f items = sum_by (picked f) items

sum_key-add_total :
    (f : Text → Bool) (key : Text) (n : ℤ) (items : List Item)
    → has_key key items ≡ true
    → sum_key f (add_total key n items) ≡ sum_key f items +ℤ (if f key then n else pos 0)
unfolding sum_by add_total has_key
sum_key-add_total f key n [] h = cc
sum_key-add_total f key n (i ∷ is) h = elim (Bool-cases (text_eq i.key key)) [
  | inl e ↦ rw e (
      rw (text_eq→eq i.key key e) (elim (Bool-cases (f key)) [
        | inl g ↦ rw g (omega int_laws)
        | inr g ↦ rw g (omega int_laws)
      ]))
  | inr e ↦ rw e (rw (sum_key-add_total f key n is (rw e at h)) (omega int_laws))
]

-- What an item that is an alias adds, and what one that is not has added already.
abbrev alias_part : AliasResolver → (Text → Bool) → Item → ℤ
alias_part resolve f i =
    if text_eq (resolved resolve i) i.key then pos 0 else resolved_to resolve f i

sum_key-merge_alias :
    (resolve : AliasResolver) (f : Text → Bool) (acc : List Item) (i : Item)
    → sum_key f (merge_alias resolve acc i) ≡ sum_key f acc +ℤ alias_part resolve f i
unfolding merge_alias
sum_key-merge_alias resolve f acc i =
    let key = resolved resolve i in
    elim (Bool-cases (text_eq key i.key)) [
      | inl e ↦ rw e (omega int_laws)
      | inr e ↦ elim (Bool-cases (has_key key acc)) [
        | inl h ↦ rw (e, h) (sum_key-add_total f key i.total acc h)
        | inr h ↦ rw (e, h) (rw (sum_by-append (picked f) acc _) (unfold sum_by in omega int_laws))
      ]
    ]

sum_key-merge_aliases :
    (resolve : AliasResolver) (f : Text → Bool) (acc items : List Item)
    → sum_key f (merge_aliases resolve acc items)
      ≡ sum_key f acc +ℤ sum_by (alias_part resolve f) items
unfolding merge_aliases sum_by
sum_key-merge_aliases resolve f acc [] = omega int_laws
sum_key-merge_aliases resolve f acc (i ∷ is) =
    rw
      (
        sum_key-merge_aliases resolve f (merge_alias resolve acc i) is,
        sum_key-merge_alias resolve f acc i,
      )
      (omega int_laws)

sum_key-top_level :
    (resolve : AliasResolver) (f : Text → Bool) (items : List Item)
    → sum_key f (top_level resolve items) +ℤ sum_by (alias_part resolve f) items
      ≡ sum_by (resolved_to resolve f) items
unfolding top_level sum_by
sum_key-top_level resolve f [] = omega int_laws
sum_key-top_level resolve f (i ∷ is) =
    let ih = parts_of_eq _ _ (sum_key-top_level resolve f is) in
    elim (Bool-cases (text_eq (resolved resolve i) i.key)) [
      | inl e ↦ rw e (rw (text_eq→eq _ _ e) (omega (int_laws, ih)))
      | inr e ↦ rw e (omega (int_laws, ih))
    ]

-- The time under some keys afterwards is the time of all the items that resolve to one of them.
process_aliases-picked :
    (resolve : AliasResolver) (f : Text → Bool) (items : List Item)
    → sum_by (picked f) (process_aliases resolve items) ≡ sum_by (resolved_to resolve f) items
unfolding process_aliases
process_aliases-picked resolve f items =
    sum_key-merge_aliases resolve f (top_level resolve items) items
    ∙ sum_key-top_level resolve f items

get_by_type-with_resolved_aliases :
    (resolve : AliasResolver) (t : SummaryType) (s : Summary)
    → same_type t entity ≡ false
    → get_by_type t (with_resolved_aliases resolve s) ≡ process_aliases resolve (get_by_type t s)
unfolding get_by_type with_resolved_aliases same_type
get_by_type-with_resolved_aliases resolve entity s h = cc
get_by_type-with_resolved_aliases resolve _ s h = refl

-- For each type but entities, the time under a key `k` of the aliased summary is the time of all
-- items of that type in the summary given whose keys resolve to `k`.
pub with_resolved_aliases-total_time_by_key :
    (resolve : AliasResolver) (t : SummaryType) (k : Text) (s : Summary)
    → same_type t entity ≡ false
    → total_time_by_key t k (with_resolved_aliases resolve s)
      ≡ seconds (sum_by (resolved_to resolve (λ j. text_eq j k)) (get_by_type t s))
with_resolved_aliases-total_time_by_key resolve t k s h =
    rw (total_time_by_key-seconds t k (with_resolved_aliases resolve s)) (
      rw (get_by_type-with_resolved_aliases resolve t s h)
        (rw (process_aliases-picked resolve (λ j. text_eq j k) (get_by_type t s))))

entities-with_resolved_aliases :
    (resolve : AliasResolver) (s : Summary)
    → get_by_type entity (with_resolved_aliases resolve s) ≡ get_by_type entity s
unfolding get_by_type with_resolved_aliases
entities-with_resolved_aliases resolve s = refl

-- Resolving aliases neither adds nor loses time, whatever the aliases are, in any type.
pub with_resolved_aliases-total_time_by :
    (resolve : AliasResolver) (t : SummaryType) (s : Summary)
    → total_time_by t (with_resolved_aliases resolve s) ≡ total_time_by t s
with_resolved_aliases-total_time_by resolve t s =
    rw (total_time_by-seconds t (with_resolved_aliases resolve s), total_time_by-seconds t s)
      (elim (Bool-cases (same_type t entity)) [
        | inl e ↦ rw (same_type→eq t entity e) (rw (entities-with_resolved_aliases resolve s))
        | inr e ↦
            rw (get_by_type-with_resolved_aliases resolve t s e)
              (ap seconds (process_aliases-picked resolve (λ _. true) (get_by_type t s)))
      ])
