-- ===== src/Intervals/Days.antt =====
-- utils/date.go: a range of times is split at the midnights in it.
use wakapi.Base.{
  rounds_left, rounds_enough, ℕ, zero, suc, ◌+◌, ◌≤◌, ◌≡◌, refl, true, false, List, [], ◌∷◌, ◌⊎◌,
  Bool-cases, inl, inr, if◌then◌else◌, ℤ, ◌+ℤ◌, ◌-ℤ◌, ◌≤ℤ◌, ltb_ℤ, eqb_ℤ, pos_part, neg_part,
  ltb_ℤ-false, arith,
}
use wakapi.SummaryService.Intervals.{Calendar, Interval}
use wakapi.Intervals.{one_day}

-- `datetime.BeginOfDay(t1).AddDate(0, 0, 1)`
abbrev pub next_midnight : Calendar → ℤ → ℤ
next_midnight c t = c.next_day (c.begin_of_day t)

unfoldable pub ceil_date : Calendar → ℤ → ℤ
ceil_date c date =
    let floored = c.begin_of_day date in if eqb_ℤ floored date then floored else c.next_day floored

-- Where the loop goes on, and the end of the interval.
abbrev split_end : Calendar → (to t1 : ℤ) → ℤ
split_end c to t1 = if ltb_ℤ to (next_midnight c t1) then to else next_midnight c t1

abbrev goes_on : Calendar → (to t1 : ℤ) → ℤ
goes_on c to t1 =
    if eqb_ℤ (next_midnight c t1) t1 then c.begin_of_day t1 +ℤ one_day else split_end c to t1

-- The loop, with a bound on its rounds.
unfoldable pub split_loop : Calendar → (to : ℤ) → (fuel : ℕ) → (t1 : ℤ) → List Interval
split_loop c to zero t1 = []
split_loop c to (suc n) t1 =
    let rest = split_loop c to n (goes_on c to t1) in
    if ltb_ℤ t1 to
    then if eqb_ℤ (next_midnight c t1) t1
      then rest
      else record { start = t1; end = split_end c to t1 } ∷ rest
    else []

-- Each round goes on by a nanosecond or more.
unfoldable pub split_range_by_days : Calendar → (from to : ℤ) → List Interval
split_range_by_days c from to = split_loop c to (pos_part (to -ℤ from)) from

-- The intervals lie one behind the other, from one time to the other; none is empty, and each ends at
-- the next midnight behind its start, or at the end of the range where that comes first. Only where that
-- midnight is the start itself, since the clock has none, is the time up to 24 hours behind the day's
-- beginning skipped.
pub data Splits (c : Calendar) (to : ℤ) : (from : ℤ) → List Interval → Type 0 where
  done : (from : ℤ) → to ≤ℤ from → Splits c to from []
  part :
      (from end : ℤ) (is : List Interval)
      → end ≡ (if ltb_ℤ to (next_midnight c from) then to else next_midnight c from)
      → ltb_ℤ from end ≡ true
      → Splits c to end is
      → Splits c to from (record { start = from; end = end } ∷ is)
  skipped :
      (from : ℤ) (is : List Interval)
      → next_midnight c from ≡ from
      → ltb_ℤ from (c.begin_of_day from +ℤ one_day) ≡ true
      → Splits c to (c.begin_of_day from +ℤ one_day) is
      → Splits c to from is

-- The next midnight lies behind the time, or it is the time itself, which is less than 24 hours behind the
-- beginning of its day: so it is where a zone's clock is put forward at midnight.
abbrev pub GoesOn : Calendar → ℤ → Type 0
GoesOn c t =
    (ltb_ℤ t (next_midnight c t) ≡ true)
    ⊎ ((next_midnight c t ≡ t) × (ltb_ℤ t (c.begin_of_day t +ℤ one_day) ≡ true))

-- That holds of the start, of the midnights, and of the times 24 hours behind the beginning of a day.
pub record GoesOnFrom (c : Calendar) (from : ℤ) : Type 0 where
  pub start : GoesOn c from
  pub midnight : (t : ℤ) → GoesOn c (next_midnight c t)
  pub after_day : (t : ℤ) → GoesOn c (c.begin_of_day t +ℤ one_day)

is_later : (a b : ℤ) → ltb_ℤ a b ≡ true → eqb_ℤ b a ≡ false
is_later a b h = ground arith

itself : (a b : ℤ) → a ≡ b → eqb_ℤ a b ≡ true
itself a b h = rw h (ground arith)

module _ (c : Calendar) (to : ℤ) (midnight : (t : ℤ) → GoesOn c (next_midnight c t))
    (after_day : (t : ℤ) → GoesOn c (c.begin_of_day t +ℤ one_day)) where
  -- A round that goes on to the end of an interval.
  split_end-later :
      (t1 : ℤ)
      → ltb_ℤ t1 to ≡ true
      → ltb_ℤ t1 (next_midnight c t1) ≡ true
      → ltb_ℤ t1 (split_end c to t1) ≡ true
  split_end-later t1 h k = elim (Bool-cases (ltb_ℤ to (next_midnight c t1))) [
    | inl e ↦ rw e h
    | inr e ↦ rw e k
  ]

  split_end-GoesOn :
      (t1 : ℤ) → (ltb_ℤ (split_end c to t1) to ≡ false) ⊎ GoesOn c (split_end c to t1)
  split_end-GoesOn t1 = elim (Bool-cases (ltb_ℤ to (next_midnight c t1))) [
    | inl e ↦ rw e (inl (ground arith))
    | inr e ↦ rw e (inr (midnight t1))
  ]

  split_loop-Splits :
      (fuel : ℕ) (t1 : ℤ)
      → (ltb_ℤ t1 to ≡ false) ⊎ GoesOn c t1
      → pos_part to + neg_part t1 ≤ pos_part t1 + neg_part to + fuel
      → Splits c to t1 (split_loop c to fuel t1)
  unfolding split_loop
  split_loop-Splits zero t1 on enough = done t1 (omega (arith, enough))
  split_loop-Splits (suc n) t1 (inl e) enough = rw e (done t1 ((ltb_ℤ-false t1 to).0 e))
  split_loop-Splits (suc n) t1 (inr (inl later)) enough = elim (Bool-cases (ltb_ℤ t1 to)) [
    | inr e ↦ rw e (done t1 ((ltb_ℤ-false t1 to).0 e))
    | inl e ↦
        let grown = split_end-later t1 e later in
        rw (e, is_later t1 (next_midnight c t1) later)
          (part t1 (split_end c to t1) _ refl grown (
            split_loop-Splits n (split_end c to t1) (split_end-GoesOn t1)
              (rounds_left to t1 (split_end c to t1) n enough grown)))
  ]
  split_loop-Splits (suc n) t1 (inr (inr (same, grown))) enough = elim (Bool-cases (ltb_ℤ t1 to)) [
    | inr e ↦ rw e (done t1 ((ltb_ℤ-false t1 to).0 e))
    | inl e ↦
        rw (e, itself (next_midnight c t1) t1 same)
          (skipped t1 _ same grown (
            split_loop-Splits n (c.begin_of_day t1 +ℤ one_day) (inr (after_day t1))
              (rounds_left to t1 (c.begin_of_day t1 +ℤ one_day) n enough grown)))
  ]

-- Where the start and the midnights have the next midnight behind them, or are it themselves where the
-- clock has none, SplitRangeByDays ends: the rounds that are given, one for each nanosecond, are enough.
-- It splits the range at each midnight in it, into intervals that are not empty and lie one behind the
-- other, but for the time that is skipped where a midnight is missing.
pub split_range_by_days-Splits :
    (c : Calendar) (from to : ℤ)
    → GoesOnFrom c from
    → Splits c to from (split_range_by_days c from to)
unfolding split_range_by_days
split_range_by_days-Splits c from to on =
    split_loop-Splits c to on.midnight on.after_day (pos_part (to -ℤ from)) from (inr on.start)
      (rounds_enough to from)
