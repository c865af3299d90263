-- ===== src/SummaryService/MergeItems.antt =====
-- services/summary.go: what mergeSummaryItems makes of two lists of items.
use mathlib.Core.List.{Mem, Pairwise, mem-cons, mem-cons_self, mem-cons_of_mem, not-mem-nil}
use mathlib.Core.List.Pairwise
use mathlib.Core.List.Perm
use mathlib.Core.Logic.Or
use wakapi.Base.{
  ◌≡◌, refl, ap, ◌∙◌, Bool, true, false, List, [], ◌∷◌, none, some, Option-cases, some_inj,
  some_ne_none, Text, text_eq, text_eq_comm, text_eq→eq, if◌then◌else◌, Bool-cases, inl, inr, ℤ,
  pos, ◌+ℤ◌, sum_by, map, int_laws, parts_of_eq,
}
use wakapi.Runtime.{Runtime, IsOrdered, gtb_ℤ-IsLess}
use wakapi.Table
use wakapi.Table.{Table, IsTable, Fresh, measure}
use wakapi.Summary.{Item, by_total}
use wakapi.Summary.Aliases.{picked}
use wakapi.SummaryService.Items.{
  existing_items, add_item, add_items, merged_item, merge_summary_items, IsDistinct, sum_by-sorted,
}

-- The time of the entries that `f` picks.
abbrev weight : (Text → Bool) → Table Item → ℤ
weight f m = sum_by (λ (e : Text × Item). if f e.0 then e.1.total else pos 0) m

weight-put-Fresh :
    (f : Text → Bool) (i : Item) (m : Table Item)
    → Fresh i.key m
    → weight f (Table.put i.key i m) ≡ weight f m +ℤ picked f i
unfolding sum_by Table.put
weight-put-Fresh f i [] h = omega int_laws
weight-put-Fresh f i ((j, v) ∷ m) h = rw h.0 (rw (weight-put-Fresh f i m h.1) (omega int_laws))

weight-put_known :
    (f : Text → Bool) (k : Text) (old new : Item) (m : Table Item)
    → Table.get k m ≡ some old
    → weight f (Table.put k new m) +ℤ (if f k then old.total else pos 0)
      ≡ weight f m +ℤ (if f k then new.total else pos 0)
unfolding sum_by Table.put Table.get
weight-put_known f k old new [] h = cc
weight-put_known f k old new ((j, v) ∷ m) h = elim (Bool-cases (text_eq j k)) [
  | inl e ↦
      let same : v ≡ old = some_inj (rw e at h) in
      rw e (rw (text_eq→eq j k e) (rw same (omega int_laws)))
  | inr e ↦ rw e (omega (int_laws, parts_of_eq _ _ (weight-put_known f k old new m (rw e at h))))
]

if_add :
    (b : Bool) (x y : ℤ)
    → (if b then x +ℤ y else pos 0) ≡ (if b then x else pos 0) +ℤ (if b then y else pos 0)
if_add true x y = refl
if_add false x y = omega int_laws

get-none-Fresh : (k : Text) (m : Table Item) → Table.get k m ≡ none → Fresh k m
unfolding Table.get
get-none-Fresh k [] h = tt
get-none-Fresh k ((j, v) ∷ m) h = elim (Bool-cases (text_eq j k)) [
  | inl e ↦ absurd (some_ne_none (rw e at h))
  | inr e ↦ (e, get-none-Fresh k m (rw e at h))
]

weight-add_item :
    (f : Text → Bool) (i : Item) (m : Table Item)
    → weight f (add_item i m) ≡ weight f m +ℤ picked f i
unfolding add_item
weight-add_item f i m = elim (Option-cases (Table.get i.key m)) [
  | inl e ↦ rw (e, add_item) (weight-put-Fresh f i m (get-none-Fresh i.key m e))
  | inr (it, e) ↦
      let grown = record it { total = it.total +ℤ i.total } in
      rw (e, add_item)
        (omega (
          int_laws,
          parts_of_eq _ _ (weight-put_known f i.key it grown m e),
          parts_of_eq _ _ (if_add (f i.key) it.total i.total),
        ))
]

weight-add_items :
    (f : Text → Bool) (is : List Item) (m : Table Item)
    → weight f (add_items is m) ≡ weight f m +ℤ sum_by (picked f) is
unfolding add_items sum_by
weight-add_items f [] m = omega int_laws
weight-add_items f (i ∷ is) m =
    rw (weight-add_items f is (add_item i m)) (rw (weight-add_item f i m) (omega int_laws))

weight-existing_items :
    (f : Text → Bool) (is : List Item) (m : Table Item)
    → IsDistinct is
    → ((i : Item) → Mem i is → Fresh i.key m)
    → weight f (existing_items is m) ≡ weight f m +ℤ sum_by (picked f) is
unfolding existing_items sum_by
weight-existing_items f [] m d h = omega int_laws
weight-existing_items f (i ∷ is) m (Pairwise.cons apart d) h =
    let later = λ (j : Item) (there : Mem j is).
      Table.Fresh-put j.key i.key i m (apart j there) (h j (mem-cons_of_mem i there)) in
    rw (weight-existing_items f is (Table.put i.key i m) d later)
      (rw (weight-put-Fresh f i m (h i mem-cons_self)) (omega int_laws))

existing_items-IsTable :
    (is : List Item) (m : Table Item) → IsTable m → IsTable (existing_items is m)
unfolding existing_items
existing_items-IsTable [] m h = h
existing_items-IsTable (i ∷ is) m h = existing_items-IsTable is _ (Table.put-IsTable i.key i m h)

add_item-IsTable : (i : Item) (m : Table Item) → IsTable m → IsTable (add_item i m)
unfolding add_item
add_item-IsTable i m h = elim (Option-cases (Table.get i.key m)) [
  | inl e ↦ rw (e, add_item) (Table.put-IsTable i.key _ m h)
  | inr (it, e) ↦ rw (e, add_item) (Table.put-IsTable i.key _ m h)
]

add_items-IsTable : (is : List Item) (m : Table Item) → IsTable m → IsTable (add_items is m)
unfolding add_items
add_items-IsTable [] m h = h
add_items-IsTable (i ∷ is) m h = add_items-IsTable is _ (add_item-IsTable i m h)

abbrev Apart : {V : Type 0} → Text × V → Text × V → Type 0
Apart a b = text_eq a.0 b.0 ≡ false

Fresh-Mem :
    {V : Type 0} (k : Text) (m : Table V) (e : Text × V)
    → Fresh k m
    → Mem e m
    → text_eq k e.0 ≡ false
Fresh-Mem k [] e h there = absurd (not-mem-nil there)
Fresh-Mem k ((j, v) ∷ m) e h there =
    Or.elim (hlevel) (mem-cons.0 there) (λ here. rw here (text_eq_comm k j ∙ h.0))
      (Fresh-Mem k m e h.1)

IsTable-Pairwise : {V : Type 0} (m : Table V) → IsTable m → Pairwise Apart m
IsTable-Pairwise [] h = Pairwise.nil
IsTable-Pairwise ((k, v) ∷ m) h =
    Pairwise.cons (λ e there. Fresh-Mem k m e h.0 there) (IsTable-Pairwise m h.1)

Apart-comm : (a b : Text) → text_eq a b ≡ false → text_eq b a ≡ false
Apart-comm a b h = text_eq_comm b a ∙ h

Apart-prop : (a b : Text) → IsProp (text_eq a b ≡ false)
Apart-prop a b = hlevel

IsTable-IsDistinct :
    (rt : Runtime) (m : Table Item)
    → IsTable m
    → IsDistinct (rt.sort Item by_total (map merged_item (rt.map_order (Text × Item) m)))
unfolding merged_item
IsTable-IsDistinct rt m h =
    Perm.pairwise (λ a b. Apart-prop a.key b.key) (λ a b. Apart-comm a.key b.key)
      (Perm.symm (rt.sort-perm Item by_total _))
      (Pairwise.map (λ a b. Apart-prop a.key b.key) merged_item (λ a b apart. apart)
        (Perm.pairwise (λ a b. Apart-prop a.0 b.0) (λ a b. Apart-comm a.0 b.0)
          (Perm.symm (rt.map_order-perm (Text × Item) m)) (IsTable-Pairwise m h)))

-- Merging items adds up the time under each key, in whatever order the map is walked; no key stands
-- twice in the result, which descends by total. The existing items have distinct keys.
pub merge_summary_items-picked :
    (rt : Runtime) (existing new : List Item) (f : Text → Bool)
    → IsDistinct existing
    → (sum_by (picked f) (merge_summary_items rt existing new)
        ≡ sum_by (picked f) existing +ℤ sum_by (picked f) new)
      × IsDistinct (merge_summary_items rt existing new)
      × IsOrdered by_total (merge_summary_items rt existing new)
unfolding merge_summary_items
merge_summary_items-picked rt existing new f distinct =
    let known = existing_items existing [] in
    let m = add_items new known in
    (
      sum_by-sorted rt (picked f) merged_item m
          ∙ (unfold merged_item in weight-add_items f new known)
          ∙ ap (λ n. n +ℤ sum_by (picked f) new)
              (weight-existing_items f existing [] distinct (λ i there. tt)
                ∙ (unfold sum_by in omega int_laws)),
      IsTable-IsDistinct rt m (add_items-IsTable new known (existing_items-IsTable existing [] tt)),
      rt.sort-IsOrdered Item by_total _ (gtb_ℤ-IsLess (λ i. i.total)),
    )
