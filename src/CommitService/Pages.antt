-- ===== src/CommitService/Pages.antt =====
-- services/commit_service.go: the pages of GetCommits.
use wakapi.Base.{
  ℕ, zero, suc, ◌+◌, ◌-◌, ◌*◌, ◌≤◌, ◌≡◌, refl, sym, ◌∙◌, ap, true, List, [], ◌∷◌, ◌++◌,
  if◌then◌else◌, ℤ, pos, negsuc, ltb, length, arith, Bool-cases, inl, inr,
}
use wakapi.Collections.{take, drop}
use wakapi.CommitService.Listing.{paged, used_page, used_per_page, max_commit_page_size}

used_per_page_bounds : (n : ℤ) → (1 ≤ used_per_page n) × (used_per_page n ≤ max_commit_page_size)
unfolding used_per_page
used_per_page_bounds (negsuc n) = omega arith
used_per_page_bounds (pos zero) = omega arith
used_per_page_bounds (pos (suc n)) = ground arith

few_left : (from n left all : ℕ) → ltb all (from + n) ≡ true → left + from ≡ all → left ≤ n
few_left from n left all h e = ground arith

module _ {A : Type 0} where
  drop_beyond : (n : ℕ) (xs : List A) → length xs ≤ n → drop n xs ≡ []
  unfolding drop
  drop_beyond zero [] h = refl
  drop_beyond zero (x ∷ xs) h = absurd (omega arith)
  drop_beyond (suc n) [] h = refl
  drop_beyond (suc n) (x ∷ xs) h = drop_beyond n xs (omega (arith, h))

  take_beyond : (n m : ℕ) (xs : List A) → length xs ≤ n → length xs ≤ m → take n xs ≡ take m xs
  unfolding take
  take_beyond zero zero [] h k = refl
  take_beyond zero (suc m) [] h k = refl
  take_beyond (suc n) zero [] h k = refl
  take_beyond (suc n) (suc m) [] h k = refl
  take_beyond zero m (x ∷ xs) h k = absurd (omega (arith, h))
  take_beyond (suc n) zero (x ∷ xs) h k = absurd (omega (arith, k))
  take_beyond (suc n) (suc m) (x ∷ xs) h k =
      ap (λ ys. x ∷ ys) (take_beyond n m xs (omega (arith, h)) (omega (arith, k)))

  take-add : (n m : ℕ) (xs : List A) → take (n + m) xs ≡ take n xs ++ take m (drop n xs)
  unfolding take drop
  take-add zero m xs = ap (λ k. take k xs) (omega arith)
  take-add (suc n) m [] = take_beyond (suc n + m) m [] (omega arith) (omega arith)
  take-add (suc n) m (x ∷ xs) =
      ap (λ k. take k (x ∷ xs)) {x = suc n + m} {y = suc (n + m)} (omega arith)
      ∙ ap (λ ys. x ∷ ys) (take-add n m xs)

  length-drop : (n : ℕ) (xs : List A) → n ≤ length xs → length (drop n xs) + n ≡ length xs
  unfolding drop
  length-drop zero xs h = omega arith
  length-drop (suc n) [] h = absurd (omega (arith, h))
  length-drop (suc n) (x ∷ xs) h = omega (arith, length-drop n xs (omega (arith, h)))

  clamped :
      (from n : ℕ) (xs : List A)
      → (let start = if ltb (length xs) from then length xs else from in
          let end = if ltb (length xs) (start + n) then length xs else start + n in
          take (end - start) (drop start xs) ≡ take n (drop from xs))
  clamped from n xs = elim (Bool-cases (ltb (length xs) from)) [
    | inl e ↦
        rw (e, drop_beyond (length xs) xs (omega arith), drop_beyond from xs (ground (arith, e)))
          (take_beyond _ n [] (omega arith) (omega arith))
    | inr e ↦ elim (Bool-cases (ltb (length xs) (from + n))) [
      | inl f ↦
          let left = length-drop from xs (ground (arith, e)) in
          rw (e, f)
            (take_beyond (length xs - from) n (drop from xs) (omega (arith, left))
              (few_left from n (length (drop from xs)) (length xs) f left))
      | inr f ↦ rw (e, f) (ap (λ k. take k (drop from xs)) (omega arith))
    ]
  ]

  paged_lem :
      (page size : ℤ) (xs : List A)
      → paged page size xs
        ≡ take (used_per_page size) (drop ((used_page page - 1) * used_per_page size) xs)
  unfolding paged
  paged_lem page size xs =
      clamped ((used_page page - 1) * used_per_page size) (used_per_page size) xs

  -- The pages up to the n-th, one after another.
  abbrev pub pages : (size : ℤ) → ℕ → List A → List A
  pages size zero xs = []
  pages size (suc n) xs = pages size n xs ++ paged (pos (suc n)) size xs

  -- The pages one after another are the listed commits, in order and up to the last of the page; and a
  -- page has 1 to 200 of them at most, whatever size is asked for.
  pub pages-take :
      (size : ℤ) (n : ℕ) (xs : List A)
      → (pages size n xs ≡ take (n * used_per_page size) xs)
        × (1 ≤ used_per_page size)
        × (used_per_page size ≤ max_commit_page_size)
  unfolding take used_page
  pages-take size zero xs = (
    ap (λ k. take k xs) {x = 0} {y = 0 * used_per_page size} (omega arith),
    (used_per_page_bounds size).0,
    (used_per_page_bounds size).1,
  )
  pages-take size (suc n) xs =
      let k = used_per_page size in
      let (before, least, most) = pages-take size n xs in
      (
        ap (λ ys. ys ++ paged (pos (suc n)) size xs) before
            ∙ ap (λ ys. take (n * k) xs ++ ys)
                (paged_lem (pos (suc n)) size xs
                  ∙ ap (λ i. take k (drop i xs)) {y = n * k} (grind arith))
            ∙ (sym (take-add (n * k) k xs) ∙ ap (λ i. take i xs) (grind arith)),
        least,
        most,
      )
