-- ===== src/DurationService/Merge/Order.antt =====
-- services/duration.go: merge gives durations in order, none of which overlaps the next.
use wakapi.Base.{
  ◌≡◌, subst, sym, List, [], ◌∷◌, ◌++◌, some, Option-cases, some_inj, some_ne_none, text_eq,
  Bool-cases, inl, inr, ℤ, pos, ◌+ℤ◌, ◌-ℤ◌, ◌≤ℤ◌, ltb_ℤ, int_laws, arith,
}
use wakapi.User.{User, heartbeats_timeout}
use wakapi.Duration.{Duration, Hasher, hashed, time_end, first, last}
use wakapi.DurationService.Merge.{but_last, inner, middle, merge}

-- The durations come in order of time, none before `t`, and each ends before the next starts.
abbrev pub InOrder : ℤ → List Duration → Type 0
InOrder t [] = Unit
InOrder t (d ∷ ds) = (t ≤ℤ d.time) × (pos 0 ≤ℤ d.duration) × InOrder (d.time +ℤ d.duration) ds

but_last-InOrder : (t : ℤ) (ds : List Duration) → InOrder t ds → InOrder t (but_last ds)
unfolding but_last
but_last-InOrder t [] h = h
but_last-InOrder t (d ∷ []) h = tt
but_last-InOrder t (d ∷ e ∷ ds) (le, long, h) =
    (le, long, but_last-InOrder (d.time +ℤ d.duration) (e ∷ ds) h)

inner-InOrder :
    (t : ℤ) (r : Duration) (ds : List Duration)
    → InOrder t (r ∷ ds)
    → InOrder (r.time +ℤ r.duration) (inner (r ∷ ds))
unfolding inner
inner-InOrder t r [] h = tt
inner-InOrder t r (e ∷ ds) (le, long, h) = but_last-InOrder _ (e ∷ ds) h

-- What stands after the last but one stands in order when it starts with the last.
but_last-append :
    (t : ℤ) (ds tail : List Duration) (left : Duration)
    → InOrder t ds
    → last ds ≡ some left
    → (pos 0 ≤ℤ left.duration → (s : ℤ) → s ≤ℤ left.time → InOrder s tail)
    → InOrder t (but_last ds ++ tail)
unfolding but_last last
but_last-append t [] tail left h e ok = absurd (some_ne_none (sym e))
but_last-append t (d ∷ []) tail left (le, long, h) e ok =
    ok (subst (λ x. pos 0 ≤ℤ x.duration) (some_inj e) long) t
      (subst (λ x. t ≤ℤ x.time) (some_inj e) le)
but_last-append t (d ∷ e ∷ ds) tail left (le, long, h) eq ok =
    (le, long, but_last-append (d.time +ℤ d.duration) (e ∷ ds) tail left h eq ok)

InOrder-weaken : (s t : ℤ) (ds : List Duration) → s ≤ℤ t → InOrder t ds → InOrder s ds
InOrder-weaken s t [] le h = h
InOrder-weaken s t (d ∷ ds) le (le', long, rest) = (omega (int_laws, le, le'), long, rest)

module _ (hash : Hasher) (user : User) (left right : Duration) (rest : List Duration) where
  middle-InOrder :
      (s t : ℤ)
      → s ≤ℤ left.time
      → pos 0 ≤ℤ left.duration
      → time_end left ≤ℤ right.time
      → pos 0 ≤ℤ right.duration
      → InOrder (right.time +ℤ right.duration) rest
      → InOrder s (middle hash user left right ++ rest)
  unfolding middle hashed time_end
  middle-InOrder s t start long apart long' later =
      elim (Bool-cases (ltb_ℤ (right.time -ℤ time_end left) (heartbeats_timeout user))) [
        | inr e ↦ rw e (start, long, (apart, long', later))
        | inl e ↦ rw e (elim (Bool-cases (text_eq left.group_hash right.group_hash)) [
          | inl k ↦ rw k (start, omega (int_laws), InOrder-weaken _ _ rest (omega int_laws) later)
          | inr k ↦ rw k (start, omega (int_laws), InOrder-weaken _ _ rest (omega int_laws) later)
        ])
      ]

merge-InOrder_left :
    (hash : Hasher) (user : User) (t : ℤ) (d1 d2 merged : List Duration) (left : Duration)
    → last d1 ≡ some left
    → InOrder t d1
    → InOrder t d2
    → merge hash user d1 d2 ≡ some merged
    → InOrder t merged
unfolding merge first time_end
merge-InOrder_left hash user t d1 [] merged left l h h2 e =
    subst (InOrder t) (some_inj (rw (l, merge) at e)) h
merge-InOrder_left hash user t d1 (r ∷ ds) merged left l h (le, long, later) e =
    elim (Bool-cases (ltb_ℤ r.time (time_end left))) [
      | inl c ↦ absurd (some_ne_none (sym (rw (l, c, merge) at e)))
      | inr c ↦ subst (InOrder t) (some_inj (rw (l, c, merge) at e)) (
          but_last-append t d1 (middle hash user left r ++ inner (r ∷ ds)) left h l
            (λ long' s start.
              middle-InOrder hash user left r (inner (r ∷ ds)) s t start long' (ground arith) long
                (inner-InOrder t r ds (le, long, later))))
    ]

-- When cached and live durations each come in order, none before `t`, and each ends before the
-- next starts, so do the merged ones, whenever there is no error.
pub merge-InOrder :
    (hash : Hasher) (user : User) (t : ℤ) (d1 d2 merged : List Duration)
    → InOrder t d1
    → InOrder t d2
    → merge hash user d1 d2 ≡ some merged
    → InOrder t merged
unfolding merge
merge-InOrder hash user t d1 d2 merged h h2 e = elim (Option-cases (last d1)) [
  | inl l ↦ subst (InOrder t) (some_inj (rw (l, merge) at e)) h2
  | inr (left, l) ↦ merge-InOrder_left hash user t d1 d2 merged left l h h2 e
]
