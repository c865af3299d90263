-- ===== src/AggregationService.antt =====
-- services/aggregation.go: the jobs that make a user's daily summaries, and the lock on users.
pub mod Jobs
pub mod Locks
pub mod Summaries
use wakapi.Base.{
  ℕ, zero, suc, ◌≡◌, Bool, true, false, ◌&&◌, List, [], ◌∷◌, Option, none, some, Text, text_eq,
  if◌then◌else◌, ℤ, pos, ◌+ℤ◌, ◌-ℤ◌, ltb_ℤ, pos_part, any, keep, not, ◌++◌,
}
use wakapi.SummaryService.Intervals.{Calendar, one_second}

pub record AggregationJob : Type 0 where
  pub user_id : Text
  pub start : ℤ
  pub end : ℤ

-- `time.Date(t.Year(), t.Month(), t.Day()+aggregateIntervalDays, 0, 0, 0, 0, t.Location())`
abbrev pub next_midnight : Calendar → ℤ → ℤ
next_midnight c t = c.next_day (c.begin_of_day t)

-- A nanosecond into today, of the clock's time.
unfoldable pub get_start_of_today : Calendar → (now : ℤ) → ℤ
get_start_of_today c now = c.begin_of_day now +ℤ pos 1

-- The loop, whose `from` starts anew at each `to`, with a bound on the rounds.
unfoldable pub day_jobs :
    Calendar → Text → (end : ℤ) → (fuel : ℕ) → (from to : ℤ) → List AggregationJob
day_jobs c user end zero from to = []
day_jobs c user end (suc n) from to =
    let next = next_midnight c from in
    let rest = day_jobs c user end n next next in
    if ltb_ℤ from end && ltb_ℤ to end
    then record { user_id = user; start = from; end = next } ∷ rest
    else []

-- The zero time is 0. Each round goes on by a nanosecond or more, so that there are no more rounds
-- than nanoseconds.
unfoldable pub generate_user_jobs : Calendar → (now : ℤ) → Text → (from : ℤ) → List AggregationJob
generate_user_jobs c now user from =
    let first = next_midnight c (from -ℤ one_second) in
    let end = get_start_of_today c now -ℤ one_second in
    day_jobs c user end (pos_part (end -ℤ first)) first (pos 0)

unfoldable pub contains : Text → List Text → Bool
unfolding any
contains u users = any (λ v. text_eq v u) users

-- `inProgress` before and after, none for the error. The union is of sets that share no element.
unfoldable pub lock_users : List Text → List Text → Option (List Text)
lock_users users in_progress =
    if any (λ u. contains u in_progress) users then none else some (in_progress ++ users)

unfoldable pub unlock_users : List Text → List Text → List Text
unfolding keep
unlock_users users in_progress = keep (λ u. not (contains u users)) in_progress
