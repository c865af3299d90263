-- ===== src/Runtime.antt =====
-- What the Go runtime leaves open: the order in which `range` walks a map, and the order in which
-- `sort.Sort` and `sort.Slice`, which are not stable, leave elements that compare equal, and the address
-- of the *Location that is loaded for the summary of a range, which `InTZ` gives its start.
-- The program is verified for every such choice.
use mathlib.Core.List.{Pairwise}
use wakapi.Base.{ℕ, ◌≡◌, Bool, true, false, List, Perm, ℤ, ltb_ℤ, arith}

-- A comparison that orders by some key: `less` is a strict weak order.
pub record IsLess {A : Type 0} (less : A → A → Bool) : Type 0 where
  pub asymmetric : (a b : A) → less a b ≡ true → less b a ≡ false
  pub transitive : (a b c : A) → less b a ≡ false → less c b ≡ false → less c a ≡ false

-- No element is less than one that stands before it.
abbrev pub IsOrdered : {A : Type 0} → (A → A → Bool) → List A → Type 0
IsOrdered less xs = Pairwise (λ a b. less b a ≡ false) xs

pub record Runtime : Type 1 where
  pub map_order : (A : Type 0) → List A → List A
  pub map_order-perm : (A : Type 0) (xs : List A) → Perm (map_order A xs) xs
  pub sort : (A : Type 0) → (A → A → Bool) → List A → List A
  pub sort-perm : (A : Type 0) (less : A → A → Bool) (xs : List A) → Perm (sort A less xs) xs
  pub sort-IsOrdered :
      (A : Type 0) (less : A → A → Bool) (xs : List A)
      → IsLess less
      → IsOrdered less (sort A less xs)
  pub location : (from to : ℤ) → ℕ

-- Ascending and descending by an integer key.
pub ltb_ℤ-IsLess : {A : Type 0} (key : A → ℤ) → IsLess (λ a b. ltb_ℤ (key a) (key b))
ltb_ℤ-IsLess key = record {
  asymmetric = λ a b h. ground arith;
  transitive = λ a b c h k. ground arith;
}

pub gtb_ℤ-IsLess : {A : Type 0} (key : A → ℤ) → IsLess (λ a b. ltb_ℤ (key b) (key a))
gtb_ℤ-IsLess key = record {
  asymmetric = λ a b h. ground arith;
  transitive = λ a b c h k. ground arith;
}
