-- ===== src/Intervals/Shared.antt =====
-- helpers/interval.go: the greatest interval that a user shares is within the days that are shared.
use wakapi.Base.{ℕ, ◌≤◌, ◌≡◌, refl, some, ℤ, pos, ◌-ℤ◌, ◌≤ℤ◌, arith, ltb, Bool-cases, inl, inr}
use wakapi.Intervals.{
  Dates, IntervalKey, past_day, past_7_days, past_14_days, past_30_days, past_6_months,
  past_12_months, resolve_maximum_range, resolve_interval_tz, one_day,
}

-- The calendar: more days back is no later, six months are at most 184 days, and twelve at most 366.
pub record IsCalendar (d : Dates) : Type 0 where
  pub days_before_mono : (m n : ℕ) (t : ℤ) → m ≤ n → d.days_before n t ≤ℤ d.days_before m t
  pub six_months : (t : ℤ) → d.days_before 184 t ≤ℤ d.months_before 6 t
  pub twelve_months : (t : ℤ) → d.days_before 366 t ≤ℤ d.months_before 12 t

≤ℤ_trans : (a b c : ℤ) → a ≤ℤ b → b ≤ℤ c → a ≤ℤ c
≤ℤ_trans a b c h k = omega arith

-- With some days to share, where no change of the offset makes the last day shorter than 24 hours,
-- there is an interval, which ends now and starts no earlier than as many days before.
pub resolve_maximum_range-within :
    (d : Dates) (days : ℕ)
    → IsCalendar d
    → 1 ≤ days
    → d.days_before 1 d.now ≤ℤ (d.now -ℤ one_day)
    → (k : IntervalKey) × (resolve_maximum_range (pos days) ≡ some k)
      × (d.days_before days d.now ≤ℤ (resolve_interval_tz d k).0)
      × ((resolve_interval_tz d k).1 ≡ d.now)
unfolding resolve_maximum_range resolve_interval_tz
resolve_maximum_range-within d days c h day = elim (Bool-cases (ltb days 7)) [
  | inl e ↦ (
    past_day,
    ground arith,
    ≤ℤ_trans (d.days_before days d.now) (d.days_before 1 d.now) (d.now -ℤ one_day)
        (c.days_before_mono 1 days d.now h) day,
    refl,
  )
  | inr e ↦ elim (Bool-cases (ltb days 14)) [
    | inl f ↦ (past_7_days, ground arith, c.days_before_mono 7 days d.now (ground arith), refl)
    | inr f ↦ elim (Bool-cases (ltb days 30)) [
      | inl g ↦ (past_14_days, ground arith, c.days_before_mono 14 days d.now (ground arith), refl)
      | inr g ↦ elim (Bool-cases (ltb days 184)) [
        | inl k ↦
            (past_30_days, ground arith, c.days_before_mono 30 days d.now (ground arith), refl)
        | inr k ↦ elim (Bool-cases (ltb days 366)) [
          | inl l ↦ (
            past_6_months,
            ground arith,
            ≤ℤ_trans (d.days_before days d.now) (d.days_before 184 d.now) (d.months_before 6 d.now)
                (c.days_before_mono 184 days d.now (ground arith)) (c.six_months d.now),
            refl,
          )
          | inr l ↦ (
            past_12_months,
            ground arith,
            ≤ℤ_trans (d.days_before days d.now) (d.days_before 366 d.now) (d.months_before 12 d.now)
                (c.days_before_mono 366 days d.now (ground arith)) (c.twelve_months d.now),
            refl,
          )
        ]
      ]
    ]
  ]
]
