-- ===== src/AggregationService/Jobs.antt =====
-- services/aggregation.go: generateUserJobs covers the days up to today without a gap.
use wakapi.Base.{
  rounds_left, rounds_enough, ℕ, zero, suc, ◌≡◌, refl, true, List, [], ◌∷◌, Text, Bool-cases, inl,
  inr, ℤ, pos, ◌-ℤ◌, ◌≤ℤ◌, ltb_ℤ, pos_part, neg_part, ◌≤◌, ◌+◌, arith, ltb_ℤ-false,
}
use wakapi.SummaryService.Intervals.{Calendar, HasMidnights, one_second}
use wakapi.AggregationService.{
  AggregationJob, next_midnight, get_start_of_today, day_jobs, generate_user_jobs,
}

-- The jobs are for the user, one for each day from `from` on, one behind the other, the last one
-- of which reaches `end`, and none of which starts there or later.
abbrev pub Covers : Calendar → Text → (from end : ℤ) → List AggregationJob → Type 0
Covers c user from end [] = end ≤ℤ from
Covers c user from end (j ∷ js) =
    (j.user_id ≡ user)
    × (j.start ≡ from)
    × (j.end ≡ next_midnight c from)
    × (ltb_ℤ from end ≡ true)
    × Covers c user (next_midnight c from) end js

ltb_ℤ_below : (a b c : ℤ) → a ≤ℤ b → ltb_ℤ b c ≡ true → ltb_ℤ a c ≡ true
ltb_ℤ_below a b c le lt = ground arith

day_jobs-Covers :
    (c : Calendar) (m : HasMidnights c) (user : Text) (end : ℤ) (fuel : ℕ) (from to : ℤ)
    → to ≤ℤ from
    → pos_part end + neg_part from ≤ pos_part from + neg_part end + fuel
    → Covers c user from end (day_jobs c user end fuel from to)
unfolding day_jobs
day_jobs-Covers c m user end zero from to le enough = omega (arith, enough)
day_jobs-Covers c m user end (suc n) from to le enough = elim (Bool-cases (ltb_ℤ from end)) [
  | inr e ↦ rw e ((ltb_ℤ-false from end).0 e)
  | inl e ↦
      let later = m.next_begin-lt from in
      rw (e, ltb_ℤ_below to from end le e)
        (
          refl,
          refl,
          refl,
          e,
          day_jobs-Covers c m user end n (next_midnight c from) (next_midnight c from) (omega arith)
              (rounds_left end from (next_midnight c from) n enough later),
        )
]

-- Where there are midnights and a user's first day begins at the zero time or later, the jobs are one for each day from the
-- midnight behind `from`, less a second, without a gap, until one ends a second before today begins
-- or later; the rounds that are given are enough.
pub generate_user_jobs-Covers :
    (c : Calendar) (m : HasMidnights c) (now : ℤ) (user : Text) (from : ℤ)
    → pos 0 ≤ℤ next_midnight c (from -ℤ one_second)
    → Covers c user
        (next_midnight c (from -ℤ one_second))
        (get_start_of_today c now -ℤ one_second)
        (generate_user_jobs c now user from)
unfolding generate_user_jobs
generate_user_jobs-Covers c m now user from le =
    let first = next_midnight c (from -ℤ one_second) in
    let end = get_start_of_today c now -ℤ one_second in
    day_jobs-Covers c m user end (pos_part (end -ℤ first)) first (pos 0) le
      (rounds_enough end first)
