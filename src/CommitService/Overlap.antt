-- ===== src/CommitService/Overlap.antt =====
-- services/commit_service.go: accumulateOverlap counts no time twice.
use wakapi.Base.{
  ◌≡◌, refl, ◌⊎◌, inl, inr, true, ◌||◌, List, [], ◌∷◌, if◌then◌else◌, ℤ, pos, ◌+ℤ◌, ◌-ℤ◌, ◌≤ℤ◌,
  ltb_ℤ, sum_by, int_laws, arith, Bool-cases, parts_of_eq,
}
use wakapi.Duration.{Duration, time_end}
use wakapi.DurationService.Merge.Order.{InOrder}
use wakapi.CommitService.{overlap, accumulate_overlap}

-- A duration adds nothing, or the time from `s` to `e`.
abbrev Adds : (start end : ℤ) → Duration → (s e : ℤ) → Type 0
Adds start end d s e =
    (overlap start end d +ℤ s ≡ e)
    × (start ≤ℤ s)
    × (d.time ≤ℤ s)
    × (s ≤ℤ e)
    × (e ≤ℤ end)
    × (e ≤ℤ d.time +ℤ d.duration)

from_bounds :
    (start t : ℤ)
    → (start ≤ℤ (if ltb_ℤ t start then start else t)) × (t ≤ℤ (if ltb_ℤ t start then start else t))
from_bounds start t = ground arith

to_bounds :
    (end t : ℤ)
    → ((if ltb_ℤ end t then end else t) ≤ℤ end) × ((if ltb_ℤ end t then end else t) ≤ℤ t)
to_bounds end t = ground arith

less : (a b : ℤ) → ltb_ℤ a b ≡ true → a ≤ℤ b
less a b h = ground arith

overlap-cases :
    (start end : ℤ) (d : Duration)
    → (overlap start end d ≡ pos 0) ⊎ ((s : ℤ) × (e : ℤ) × Adds start end d s e)
unfolding overlap time_end
overlap-cases start end d =
    let stop = d.time +ℤ d.duration in
    let s = if ltb_ℤ d.time start then start else d.time in
    let e = if ltb_ℤ end stop then end else stop in
    elim (Bool-cases (ltb_ℤ stop start || ltb_ℤ end d.time)) [
      | inl apart ↦ inl (rw apart refl)
      | inr near ↦ elim (Bool-cases (ltb_ℤ s e)) [
        | inl lt ↦
            let (a, b) = from_bounds start d.time in
            let (c, f) = to_bounds end stop in
            inr (s, e, (rw (near, lt) (omega int_laws), a, b, less s e lt, c, f))
        | inr ge ↦ inl (rw (near, ge) refl)
      ]
    ]

-- None of the time from `u` on is counted that lies before all durations or before the start.
accumulate_overlap-from :
    (start end : ℤ) (ds : List Duration) (t u : ℤ)
    → (u ≤ℤ start) ⊎ (u ≤ℤ t)
    → u ≤ℤ end
    → InOrder t ds
    → (pos 0 ≤ℤ accumulate_overlap ds start end) × (accumulate_overlap ds start end ≤ℤ end -ℤ u)
unfolding accumulate_overlap sum_by
accumulate_overlap-from start end [] t u before le h = (omega int_laws, omega int_laws)
accumulate_overlap-from start end (d ∷ ds) t u before le (after, long, h) =
    elim (overlap-cases start end d) [
      | inl none_of ↦ rw none_of (
          let rest =
            accumulate_overlap-from start end ds (d.time +ℤ d.duration) u
              (elim before [ inl a ↦ inl a | inr a ↦ inr (omega int_laws) ]) le h in
          (omega (int_laws, rest.0), omega (int_laws, rest.1)))
      | inr (s, e, (adds, a, b, c, f, g)) ↦
          let rest = accumulate_overlap-from start end ds (d.time +ℤ d.duration) e (inr g) f h in
          let u_s : u ≤ℤ s = elim before [ inl x ↦ omega int_laws | inr x ↦ omega int_laws ] in
          let made = parts_of_eq _ _ adds in
          (omega (int_laws, made, rest.0, c), omega (int_laws, made, rest.1, u_s))
    ]

pub accumulate_overlap-within :
    (ds : List Duration) (t start end : ℤ)
    → start ≤ℤ end
    → InOrder t ds
    → (pos 0 ≤ℤ accumulate_overlap ds start end) × (accumulate_overlap ds start end ≤ℤ end -ℤ start)
accumulate_overlap-within ds t start end le h =
    accumulate_overlap-from start end ds t start (inl (omega arith)) le h
