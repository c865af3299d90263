-- ===== src/Collections.antt =====
-- utils/collection.go: the part of a slice between two indices. None is the panic of a slice expression
-- whose bounds are the wrong way round. Indices are below 2 ^ 63, where `int` and `uint` agree.
use wakapi.Base.{
  ℕ, zero, suc, ◌+◌, ◌-◌, ◌≤◌, ◌≡◌, refl, ap, ◌∙◌, true, false, List, [], ◌∷◌, Option, none, some,
  Bool-cases, inl, inr, if◌then◌else◌, ltb, length, arith,
}

module _ {A : Type 0} where
  unfoldable pub take : ℕ → List A → List A
  take zero xs = []
  take (suc n) [] = []
  take (suc n) (x ∷ xs) = x ∷ take n xs

  unfoldable pub drop : ℕ → List A → List A
  drop zero xs = xs
  drop (suc n) [] = []
  drop (suc n) (x ∷ xs) = drop n xs

  -- `slice[from:to]`, of which `to` is within the slice.
  unfoldable pub slice : (from to : ℕ) → List A → Option (List A)
  unfolding take drop
  slice from to xs = if ltb to from then none else some (take (to - from) (drop from xs))

  unfoldable pub sub_slice : List A → (from to : ℕ) → Option (List A)
  unfolding slice
  sub_slice xs from to =
      slice (if ltb (length xs) from then 0 else from)
        (if ltb (length xs) to then length xs else to) xs

  length-take-drop : (n m : ℕ) (xs : List A) → m + n ≤ length xs → length (take n (drop m xs)) ≡ n
  unfolding take drop
  length-take-drop zero zero xs h = refl
  length-take-drop (suc n) zero [] h = absurd (omega (arith, h))
  length-take-drop (suc n) zero (x ∷ xs) h = ap suc (length-take-drop n zero xs (omega (arith, h)))
  length-take-drop n (suc m) [] h = absurd (omega (arith, h))
  length-take-drop n (suc m) (x ∷ xs) h = length-take-drop n m xs (omega (arith, h))

  slice-length :
      (from to : ℕ) (xs : List A)
      → from ≤ to
      → to ≤ length xs
      → (ys : List A) × (slice from to xs ≡ some ys) × (length ys ≡ to - from)
  unfolding slice
  slice-length from to xs h k =
      let ordered : ltb to from ≡ false = ground arith in
      (
        take (to - from) (drop from xs),
        rw ordered refl,
        length-take-drop (to - from) from xs (omega (arith, h, k)),
      )

  -- With the indices in order SubSlice gives a part. It has the elements between the indices as far as
  -- there are any; but where the first index is beyond the end, it is as long as the whole.
  pub sub_slice-length :
      (xs : List A) (from to : ℕ)
      → from ≤ to
      → (ys : List A) × (sub_slice xs from to ≡ some ys)
        × (length ys ≡ (
            if ltb (length xs) from
            then length xs
            else if ltb (length xs) to
            then length xs - from
            else to - from))
  unfolding sub_slice
  sub_slice-length xs from to h = elim (Bool-cases (ltb (length xs) from)) [
    | inl e ↦
        let beyond : ltb (length xs) to ≡ true = ground (arith, e) in
        let (ys, made, long) = slice-length 0 (length xs) xs (omega arith) (omega arith) in
        rw (e, beyond) (ys, made, long ∙ omega arith)
    | inr e ↦ elim (Bool-cases (ltb (length xs) to)) [
      | inl k ↦ rw (e, k) (slice-length from (length xs) xs (ground (arith, e)) (omega arith))
      | inr k ↦ rw (e, k) (slice-length from to xs h (ground (arith, k)))
    ]
  ]
