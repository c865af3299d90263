-- ===== src/Stable.antt =====
-- What `sort.SliceStable` and `slices.SortStableFunc` give: the elements in order, and those that compare
-- equal in the order in which they stand.
use mathlib.Core.List.{Mem, Pairwise, mem-cons, not-mem-nil}
use mathlib.Core.Logic.Or
use wakapi.Base.{
  ◌≡◌, refl, Bool, false, List, [], ◌∷◌, Permᴰ, if◌then◌else◌, Bool-cases, inl, inr, All,
}
use wakapi.Runtime.{IsLess, IsOrdered}

module _ {A : Type 0} (less : A → A → Bool) where
  unfoldable pub insert : A → List A → List A
  insert x [] = x ∷ []
  insert x (y ∷ ys) = let rest = insert x ys in if less y x then y ∷ rest else x ∷ y ∷ ys

  unfoldable pub stable_sort : List A → List A
  stable_sort [] = []
  stable_sort (x ∷ xs) = insert x (stable_sort xs)

  same-Permᴰ : (xs : List A) → Permᴰ xs xs
  same-Permᴰ [] = Permᴰ.nil
  same-Permᴰ (x ∷ xs) = Permᴰ.cons refl (same-Permᴰ xs)

  insert-Permᴰ : (x : A) (xs : List A) → Permᴰ (insert x xs) (x ∷ xs)
  unfolding insert
  insert-Permᴰ x [] = same-Permᴰ (x ∷ [])
  insert-Permᴰ x (y ∷ ys) = elim (Bool-cases (less y x)) [
    | inr e ↦ rw e (same-Permᴰ (x ∷ y ∷ ys))
    | inl e ↦ rw e (Permᴰ.trans (Permᴰ.cons refl (insert-Permᴰ x ys)) (Permᴰ.swap refl refl))
  ]

  pub stable_sort-Permᴰ : (xs : List A) → Permᴰ (stable_sort xs) xs
  unfolding stable_sort
  stable_sort-Permᴰ [] = Permᴰ.nil
  stable_sort-Permᴰ (x ∷ xs) =
      Permᴰ.trans (insert-Permᴰ x (stable_sort xs)) (Permᴰ.cons refl (stable_sort-Permᴰ xs))

  -- What holds of all elements holds of those of the list with one inserted.
  All-insert : (P : A → Type 0) (x : A) (xs : List A) → P x → All P xs → All P (insert x xs)
  unfolding insert
  All-insert P x [] h k = (h, tt)
  All-insert P x (y ∷ ys) h (k, ks) = elim (Bool-cases (less y x)) [
    | inr e ↦ rw e (h, (k, ks))
    | inl e ↦ rw e (k, All-insert P x ys h ks)
  ]

  -- Ordered, by recursion.
  abbrev pub IsSorted : List A → Type 0
  IsSorted [] = Unit
  IsSorted (x ∷ xs) = All (λ y. less y x ≡ false) xs × IsSorted xs

  pub All-map : (P Q : A → Type 0) (xs : List A) → ((x : A) → P x → Q x) → All P xs → All Q xs
  All-map P Q [] f h = tt
  All-map P Q (x ∷ xs) f (h, hs) = (f x h, All-map P Q xs f hs)

  module _ (l : IsLess less) where
    insert-IsSorted : (x : A) (xs : List A) → IsSorted xs → IsSorted (insert x xs)
    unfolding insert
    insert-IsSorted x [] h = (tt, tt)
    insert-IsSorted x (y ∷ ys) (h, hs) = elim (Bool-cases (less y x)) [
      | inr e ↦ rw e ((e, All-map _ _ ys (λ z k. l.transitive x y z e k) h), (h, hs))
      | inl e ↦ rw e (All-insert _ x ys (l.asymmetric y x e) h, insert-IsSorted x ys hs)
    ]

    pub stable_sort-IsSorted : (xs : List A) → IsSorted (stable_sort xs)
    unfolding stable_sort
    stable_sort-IsSorted [] = tt
    stable_sort-IsSorted (x ∷ xs) = insert-IsSorted x (stable_sort xs) (stable_sort-IsSorted xs)

All-Mem :
    {A : Type 0} (x : A) (less : A → A → Bool) (xs : List A) (y : A)
    → All (λ z. less z x ≡ false) xs
    → Mem y xs
    → less y x ≡ false
All-Mem x less [] y h there = absurd (not-mem-nil there)
All-Mem x less (z ∷ zs) y (h, hs) there =
    Or.elim (hlevel) (mem-cons.0 there) (λ here. rw here h) (All-Mem x less zs y hs)

pub IsSorted-Pairwise :
    {A : Type 0} (less : A → A → Bool) (xs : List A) → IsSorted less xs → IsOrdered less xs
IsSorted-Pairwise less [] h = Pairwise.nil
IsSorted-Pairwise less (x ∷ xs) (h, hs) =
    Pairwise.cons (λ y there. All-Mem x less xs y h there) (IsSorted-Pairwise less xs hs)
