-- ===== src/SummaryService/Intervals.antt =====
-- services/summary.go: getMissingIntervals and fixZeroDuration, on the time line of one user.
use wakapi.Base.{
  ℕ, ◌≡◌, refl, Bool, true, false, ◌||◌, List, [], ◌∷◌, ◌++◌, if◌then◌else◌, Bool-cases, inl, inr,
  ℤ, pos, ◌+ℤ◌, ◌-ℤ◌, ◌≤ℤ◌, ltb_ℤ, eqb_ℤ, All, +ℤ_parts, length, zero, suc, ◌≤◌, arith,
}
use wakapi.Summary.{Summary}

pub record Interval : Type 0 where
  pub start : ℤ
  pub end : ℤ

-- The calendar of a time zone, `datetime.BeginOfDay(t)` and `t.AddDate(0, 0, 1)`.
pub record Calendar : Type 0 where
  pub begin_of_day : ℤ → ℤ
  pub next_day : ℤ → ℤ
  pub begin_of_day-le : (t : ℤ) → begin_of_day t ≤ℤ t

-- No change of the offset takes a midnight away, as it does in some zones: a day, and the day behind a
-- beginning of one, lead on.
pub record HasMidnights (c : Calendar) : Type 0 where
  pub next_day-lt : (t : ℤ) → ltb_ℤ t (c.next_day t) ≡ true
  pub next_begin-lt : (t : ℤ) → ltb_ℤ t (c.next_day (c.begin_of_day t)) ≡ true

-- `1 * time.Hour`, `1 * time.Second`
abbrev one_hour : ℤ
one_hour = pos 3600000000000

abbrev pub one_second : ℤ
one_second = pos 1000000000

-- The left end after rounding: `td1`.
unfoldable pub round_up : Calendar → ℤ → ℤ
round_up c t1 =
    let td1 = c.next_day (c.begin_of_day t1) in
    if eqb_ℤ (c.next_day td1) t1 then td1 -ℤ one_hour else td1

-- One round of the loop, between a summary that ends at `t1` and one that starts at `t2`.
unfoldable pub between : Calendar → (precise : Bool) → (to t1 t2 : ℤ) → List Interval
between c precise to t1 t2 =
    if eqb_ℤ t1 t2 || eqb_ℤ t1 to || ltb_ℤ to t1
    then []
    else if ltb_ℤ (if precise then t1 else round_up c t1)
        (if precise then t2 else c.begin_of_day t2)
    then record { start = t1; end = t2 } ∷ []
    else []

unfoldable pub gaps : Calendar → Bool → ℤ → Summary → List Summary → List Interval
gaps c precise to s [] =
    if ltb_ℤ s.to_time to then record { start = s.to_time; end = to } ∷ [] else []
gaps c precise to s (n ∷ ns) = between c precise to s.to_time n.from_time ++ gaps c precise to n ns

unfoldable pub get_missing_intervals :
    Calendar → (from to : ℤ) → List Summary → Bool → List Interval
get_missing_intervals c from to [] precise = record { start = from; end = to } ∷ []
get_missing_intervals c from to (s ∷ ss) precise =
    (if ltb_ℤ from s.from_time then record { start = from; end = s.from_time } ∷ [] else [])
    ++ gaps c precise to s ss

abbrev pub IsProper : Interval → Type 0
IsProper i = ltb_ℤ i.start i.end ≡ true

pub All-append :
    {A : Type 0} (P : A → Type 0) (xs ys : List A) → All P xs → All P ys → All P (xs ++ ys)
All-append P [] ys h k = k
All-append P (x ∷ xs) ys h k = (h.0, All-append P xs ys h.1 k)

round_up-lt : (c : Calendar) → HasMidnights c → (t : ℤ) → ltb_ℤ t (round_up c t) ≡ true
unfolding round_up
round_up-lt c m t = ground (arith, m.next_begin-lt t, m.next_day-lt (c.next_day (c.begin_of_day t)))

between-IsProper :
    (c : Calendar) (m : HasMidnights c) (precise : Bool) (to t1 t2 : ℤ)
    → All IsProper (between c precise to t1 t2)
unfolding between
between-IsProper c m precise to t1 t2 = ground (arith, round_up-lt c m t1, c.begin_of_day-le t2)

gaps-IsProper :
    (c : Calendar) (m : HasMidnights c) (precise : Bool) (to : ℤ) (s : Summary) (ss : List Summary)
    → All IsProper (gaps c precise to s ss)
unfolding gaps
gaps-IsProper c m precise to s [] = ground arith
gaps-IsProper c m precise to s (n ∷ ns) =
    All-append IsProper (between c precise to s.to_time n.from_time) _
      (between-IsProper c m precise to s.to_time n.from_time) (gaps-IsProper c m precise to n ns)

-- With some summary present, and midnights, no missing interval is empty or runs backwards, in both modes.
pub get_missing_intervals-IsProper :
    (c : Calendar) (m : HasMidnights c) (precise : Bool) (from to : ℤ) (s : Summary)
    (ss : List Summary)
    → All IsProper (get_missing_intervals c from to (s ∷ ss) precise)
unfolding get_missing_intervals
get_missing_intervals-IsProper c m precise from to s ss =
    elim (Bool-cases (ltb_ℤ from s.from_time)) [
      | inl e ↦ rw e (e, gaps-IsProper c m precise to s ss)
      | inr e ↦ rw e (gaps-IsProper c m precise to s ss)
    ]

-- The summaries stand in order within the range, one behind the other.
abbrev pub FitsIn : (from to : ℤ) → List Summary → Type 0
FitsIn from to [] = from ≤ℤ to
FitsIn from to (s ∷ ss) =
    (from ≤ℤ s.from_time) × (s.from_time ≤ℤ s.to_time) × FitsIn s.to_time to ss

-- Whether a time lies between two others, counted.
abbrev pub inside : (from to x : ℤ) → ℤ
inside from to x = if ltb_ℤ x from then pos 0 else if ltb_ℤ x to then pos 1 else pos 0

abbrev pub in_interval : (x : ℤ) → Interval → ℤ
in_interval x i = inside i.start i.end x

abbrev pub in_summary : (x : ℤ) → Summary → ℤ
in_summary x s = inside s.from_time s.to_time x

-- Whether the gap between two summaries is large enough to count: some day begins and ends in it, or, in
-- precise mode, it has a length.
abbrev pub is_large : Calendar → (precise : Bool) → (t1 t2 : ℤ) → Bool
is_large c precise t1 t2 =
    ltb_ℤ (if precise then t1 else round_up c t1) (if precise then t2 else c.begin_of_day t2)

-- Whether a time lies in a gap between two summaries, one behind the other, that is not large.
abbrev pub in_small_gap : Calendar → Bool → (x : ℤ) → Summary → List Summary → ℤ
in_small_gap c precise x s [] = pos 0
in_small_gap c precise x s (n ∷ ns) =
    (if is_large c precise s.to_time n.from_time then pos 0 else inside s.to_time n.from_time x)
    +ℤ in_small_gap c precise x n ns

-- Where there are midnights, the end of a summary is always rounded to the beginning of the next day, also at midnight: the
-- branch that would go back by an hour is never taken.
round_up-eq :
    (c : Calendar) → HasMidnights c → (t : ℤ) → round_up c t ≡ c.next_day (c.begin_of_day t)
unfolding round_up
round_up-eq c m t = ground (arith, m.next_begin-lt t, m.next_day-lt (c.next_day (c.begin_of_day t)))

-- `summaryNext.FromTime` is moved past the new end of the summary before it.
abbrev pub push_next : ℤ → List Summary → List Summary
push_next to [] = []
push_next to (n ∷ ns) =
    if ltb_ℤ n.from_time to then record n { from_time = n.from_time +ℤ one_second } ∷ ns else n ∷ ns

-- The loop, with as many rounds as there are summaries.
unfoldable pub fix_rounds : ℕ → List Summary → List Summary
fix_rounds zero ss = ss
fix_rounds (suc n) [] = []
fix_rounds (suc n) (s ∷ ss) =
    let to = s.to_time +ℤ one_second in
    elim (eqb_ℤ s.from_time s.to_time) [
      | true ↦ record s { to_time = to } ∷ fix_rounds n (push_next to ss)
      | false ↦ s ∷ fix_rounds n ss
    ]

unfoldable pub fix_zero_duration : List Summary → List Summary
unfolding fix_rounds
fix_zero_duration ss = fix_rounds (length ss) ss

length-push_next : (to : ℤ) (ss : List Summary) → length (push_next to ss) ≡ length ss
length-push_next to [] = refl
length-push_next to (n ∷ ns) = ground arith

abbrev pub HasLength : Summary → Type 0
HasLength s = eqb_ℤ s.from_time s.to_time ≡ false

longer : (a b : ℤ) → eqb_ℤ a b ≡ true → eqb_ℤ a (b +ℤ one_second) ≡ false
longer a b h = ground (arith, +ℤ_parts b one_second)

length-fix_rounds : (n : ℕ) (ss : List Summary) → length (fix_rounds n ss) ≡ length ss
unfolding fix_rounds
length-fix_rounds zero ss = refl
length-fix_rounds (suc n) [] = refl
length-fix_rounds (suc n) (s ∷ ss) =
    let to = s.to_time +ℤ one_second in
    ground
      (arith, length-fix_rounds n ss, length-fix_rounds n (push_next to ss), length-push_next to ss)

fix_rounds-HasLength : (n : ℕ) (ss : List Summary) → length ss ≤ n → All HasLength (fix_rounds n ss)
unfolding fix_rounds
fix_rounds-HasLength zero [] h = tt
fix_rounds-HasLength zero (s ∷ ss) h = absurd (omega arith)
fix_rounds-HasLength (suc n) [] h = tt
fix_rounds-HasLength (suc n) (s ∷ ss) h = elim (Bool-cases (eqb_ℤ s.from_time s.to_time)) [
  | inl e ↦
      let to = s.to_time +ℤ one_second in
      rw (e, fix_rounds)
        (
          longer s.from_time s.to_time e,
          fix_rounds-HasLength n (push_next to ss) (omega (arith, length-push_next to ss)),
        )
  | inr e ↦ rw (e, fix_rounds) (e, fix_rounds-HasLength n ss (omega arith))
]

-- No summary has a length of zero afterwards, and none is lost.
pub fix_zero_duration-HasLength :
    (ss : List Summary)
    → All HasLength (fix_zero_duration ss) × (length (fix_zero_duration ss) ≡ length ss)
unfolding fix_zero_duration
fix_zero_duration-HasLength ss =
    (fix_rounds-HasLength (length ss) ss (omega arith), length-fix_rounds (length ss) ss)
