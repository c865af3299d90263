-- ===== src/Base/Lists.antt =====
-- Lists: Boolean tests over them, and integer sums, which no permutation changes.
use Prim.Native.Nat.{ℕ, suc, ◌+◌, ◌≤◌, ◌<◌}
use mathlib.Core.Path.{◌≡◌, refl, ap, subst, ◌∙◌}
use mathlib.Core.Logic.{∥∥₁_elim}
use mathlib.Core.Bool.{Bool, true, false, not, ◌||◌}
use mathlib.Core.List.{List, [], ◌∷◌, ◌++◌, Perm, Permᴰ}
use native.Mathlib.Omega.{arith}
use wakapi.Base.Bools.{if◌then◌else◌}
use wakapi.Base.Int.{ℤ, pos, ◌+ℤ◌, int_laws, ℤ-set}

module _ {ℓ} {A : Type ℓ} where
  abbrev pub length : List A → ℕ
  length [] = 0
  length (x ∷ xs) = suc (length xs)

  abbrev pub null : List A → Bool
  null [] = true
  null (x ∷ xs) = false

  -- Some element passes the test; all do; those that do, in order.
  unfoldable pub any : (A → Bool) → List A → Bool
  any p [] = false
  any p (x ∷ xs) = p x || any p xs

  unfoldable pub keep : (A → Bool) → List A → List A
  keep p [] = []
  keep p (x ∷ xs) = let rest = keep p xs in if p x then x ∷ rest else rest

  abbrev pub All {κ} : (A → Type κ) → List A → Type κ
  All P [] = Unit
  All P (x ∷ xs) = P x × All P xs

  pub length-append : (xs ys : List A) → length (xs ++ ys) ≡ length xs + length ys
  length-append [] ys = omega arith
  length-append (x ∷ xs) ys = omega (arith, length-append xs ys)

  pub length-keep-le : (p : A → Bool) (xs : List A) → length (keep p xs) ≤ length xs
  unfolding keep
  length-keep-le p [] = omega arith
  length-keep-le p (x ∷ xs) = ground (arith, length-keep-le p xs)

  -- Where one element fails the test, the rest is shorter.
  pub length-keep-lt :
      (p : A → Bool) (xs : List A) → any (λ x. not (p x)) xs ≡ true → length (keep p xs) < length xs
  unfolding keep any
  length-keep-lt p [] h = cc
  length-keep-lt p (x ∷ xs) h = ground (arith, length-keep-le p xs, length-keep-lt p xs)

  pub any-append : (p : A → Bool) (xs ys : List A) → any p (xs ++ ys) ≡ (any p xs || any p ys)
  unfolding any
  any-append p [] ys = refl
  any-append p (x ∷ xs) ys = ground (arith, any-append p xs ys)

  -- A test that holds of fewer elements, and fewer elements.
  pub any_weaken :
      (p q : A → Bool) (xs : List A)
      → ((x : A) → p x ≡ false → q x ≡ false)
      → any p xs ≡ false
      → any q xs ≡ false
  unfolding any
  any_weaken p q [] h k = refl
  any_weaken p q (x ∷ xs) h k = ground (arith, h x, any_weaken p q xs h)

  pub any-keep : (p q : A → Bool) (xs : List A) → any p xs ≡ false → any p (keep q xs) ≡ false
  unfolding any keep
  any-keep p q [] h = refl
  any-keep p q (x ∷ xs) h = ground (arith, any-keep p q xs)

  pub keep-append : (p : A → Bool) (xs ys : List A) → keep p (xs ++ ys) ≡ keep p xs ++ keep p ys
  unfolding keep
  keep-append p [] ys = refl
  keep-append p (x ∷ xs) ys = ground (arith, keep-append p xs ys)

  -- Counting the elements of a part that pass a test.
  pub length-keep-keep-le :
      (p q : A → Bool) (xs : List A) → length (keep p (keep q xs)) ≤ length (keep p xs)
  unfolding keep
  length-keep-keep-le p q [] = omega arith
  length-keep-keep-le p q (x ∷ xs) = ground (arith, length-keep-keep-le p q xs)

pub append_nil : {A : Type 0} (xs : List A) → xs ++ [] ≡ xs
append_nil [] = refl
append_nil (x ∷ xs) = ap (λ ys. x ∷ ys) (append_nil xs)

pub append_assoc : {A : Type 0} (xs ys zs : List A) → (xs ++ ys) ++ zs ≡ xs ++ (ys ++ zs)
append_assoc [] ys zs = refl
append_assoc (x ∷ xs) ys zs = ap (λ ws. x ∷ ws) (append_assoc xs ys zs)

-- Neither a test for some element nor a property of all depends on the order.
pub any-Permᴰ {ℓ} : {A : Type ℓ} (p : A → Bool) {xs ys : List A} → Permᴰ xs ys → any p xs ≡ any p ys
unfolding any
any-Permᴰ p Permᴰ.nil = refl
any-Permᴰ p (Permᴰ.cons e d) = rw (e, any-Permᴰ p d)
any-Permᴰ p (Permᴰ.swap {l = l} e e') = rw (e, e') (ground arith)
any-Permᴰ p (Permᴰ.trans c d) = any-Permᴰ p c ∙ any-Permᴰ p d

pub All-Permᴰ {ℓ κ} :
    {A : Type ℓ} (P : A → Type κ) {xs ys : List A} → Permᴰ xs ys → All P xs → All P ys
All-Permᴰ P Permᴰ.nil h = h
All-Permᴰ P (Permᴰ.cons e d) h = (subst P e h.0, All-Permᴰ P d h.1)
All-Permᴰ P (Permᴰ.swap {l = l} e e') h = (subst P e' h.1.0, (subst P e h.0, h.1.1))
All-Permᴰ P (Permᴰ.trans c d) h = All-Permᴰ P d (All-Permᴰ P c h)

All-prop {ℓ κ} :
    {A : Type ℓ} (P : A → Type κ) → ((a : A) → IsProp (P a)) → (xs : List A) → IsProp (All P xs)
All-prop P p [] = hlevel
All-prop P p (x ∷ xs) = hlevel (p x, All-prop P p xs)

pub All-perm {ℓ κ} :
    {A : Type ℓ} (P : A → Type κ) {xs ys : List A}
    → ((a : A) → IsProp (P a))
    → Perm xs ys
    → All P xs
    → All P ys
All-perm P {xs} {ys} p d h = ∥∥₁_elim d (All-prop P p ys) (λ e. All-Permᴰ P e h)

module _ {A : Type 0} where
  unfoldable pub sum_by : (A → ℤ) → List A → ℤ
  sum_by f [] = pos 0
  sum_by f (x ∷ xs) = f x +ℤ sum_by f xs

  pub sum_by-append :
      (f : A → ℤ) (xs ys : List A) → sum_by f (xs ++ ys) ≡ sum_by f xs +ℤ sum_by f ys
  unfolding sum_by
  sum_by-append f [] ys = omega int_laws
  sum_by-append f (x ∷ xs) ys = rw (sum_by-append f xs ys) (omega int_laws)

  sum_by-Permᴰ : (f : A → ℤ) {xs ys : List A} → Permᴰ xs ys → sum_by f xs ≡ sum_by f ys
  unfolding sum_by
  sum_by-Permᴰ f Permᴰ.nil = refl
  sum_by-Permᴰ f (Permᴰ.cons e p) = rw (e, sum_by-Permᴰ f p)
  sum_by-Permᴰ f (Permᴰ.swap {l = l} e e') = rw (e, e') (omega int_laws)
  sum_by-Permᴰ f (Permᴰ.trans p q) = sum_by-Permᴰ f p ∙ sum_by-Permᴰ f q

  pub sum_by-perm : (f : A → ℤ) {xs ys : List A} → Perm xs ys → sum_by f xs ≡ sum_by f ys
  sum_by-perm f p = ∥∥₁_elim p (ℤ-set _ _) (sum_by-Permᴰ f)
