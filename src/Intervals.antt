-- ===== src/Intervals.antt =====
-- models/interval.go and helpers/interval.go: the named intervals, and the times that they stand for.
pub mod Names
pub mod Days
pub mod Shared
use wakapi.Base.{
  ℕ, Bool, true, false, ◌&&◌, List, [], ◌∷◌, Option, none, some, Text, codes, text_eq,
  if◌then◌else◌, ℤ, pos, negsuc, ◌-ℤ◌, ltb_ℤ, eqb_ℤ, any, leb, ◌≤ℤ◌, ◌≤◌,
}

pub data IntervalKey : Type 0 where
  today yesterday past_day this_week last_week this_month last_month this_year : IntervalKey
  past_7_days past_7_days_yesterday past_14_days past_30_days : IntervalKey
  past_6_months past_12_months any_time : IntervalKey

unfoldable pub aliases : IntervalKey → List Text
aliases today = codes "today" ∷ codes "Today" ∷ []
aliases yesterday = codes "day" ∷ codes "yesterday" ∷ codes "Yesterday" ∷ []
aliases past_day =
    codes "24_hours" ∷ codes "last_24_hours" ∷ codes "last_day" ∷ codes "Last 24 Hours" ∷ []
aliases this_week = codes "week" ∷ codes "This Week" ∷ []
aliases last_week = codes "last_week" ∷ codes "Last Week" ∷ []
aliases this_month = codes "month" ∷ codes "This Month" ∷ []
aliases last_month = codes "last_month" ∷ codes "Last Month" ∷ []
aliases this_year = codes "year" ∷ codes "This Year" ∷ []
aliases past_7_days = codes "7_days" ∷ codes "last_7_days" ∷ codes "Last 7 Days" ∷ []
aliases past_7_days_yesterday = codes "Last 7 Days from Yesterday" ∷ []
aliases past_14_days = codes "14_days" ∷ codes "last_14_days" ∷ codes "Last 14 Days" ∷ []
aliases past_30_days = codes "30_days" ∷ codes "last_30_days" ∷ codes "Last 30 Days" ∷ []
aliases past_6_months = codes "6_months" ∷ codes "last_6_months" ∷ codes "Last 6 Months" ∷ []
aliases past_12_months =
    codes "12_months" ∷ codes "last_12_months" ∷ codes "last_year" ∷ codes "Last 12 Months" ∷ []
aliases any_time = codes "any" ∷ codes "all_time" ∷ codes "All Time" ∷ []

abbrev pub all_intervals : List IntervalKey
all_intervals =
    today ∷ yesterday ∷ past_day ∷ this_week ∷ last_week ∷ this_month ∷ last_month ∷ this_year
    ∷ past_7_days ∷ past_7_days_yesterday ∷ past_14_days ∷ past_30_days ∷ past_6_months
    ∷ past_12_months ∷ any_time ∷ []

unfoldable pub has_alias : Text → IntervalKey → Bool
unfolding aliases
has_alias s k = any (λ e. text_eq e s) (aliases k)

unfoldable pub first_with : Text → List IntervalKey → Option IntervalKey
first_with s [] = none
first_with s (k ∷ ks) = if has_alias s k then some k else first_with s ks

unfoldable pub parse_interval : Text → Option IntervalKey
unfolding first_with
parse_interval s = first_with s all_intervals

-- The names are ASCII and not empty.
unfoldable pub first_upper : List Text → Text
first_upper [] = []
first_upper ([] ∷ ss) = first_upper ss
first_upper ((c ∷ cs) ∷ ss) = if leb b'A' c && leb c b'Z' then c ∷ cs else first_upper ss

unfoldable pub get_human_readable : IntervalKey → Text
unfolding first_upper aliases
get_human_readable k = first_upper (aliases k)

-- The clock and the calendar of a time zone, with the user's first day of the week. The time now is
-- one instant, which the code reads up to twice.
pub record Dates : Type 0 where
  pub now : ℤ
  pub begin_of_today : ℤ
  pub begin_of_this_week : ℤ
  pub begin_of_this_month : ℤ
  pub begin_of_this_year : ℤ
  pub unix_era : ℤ
  -- `AddDate(0, 0, -n)` and `AddDate(0, -n, 0)`
  pub days_before : ℕ → ℤ → ℤ
  pub months_before : ℕ → ℤ → ℤ

-- `24 * time.Hour`
abbrev pub one_day : ℤ
one_day = pos 86400000000000

unfoldable pub resolve_interval_tz : Dates → IntervalKey → ℤ × ℤ
resolve_interval_tz d today = (d.begin_of_today, d.now)
resolve_interval_tz d yesterday = (d.begin_of_today -ℤ one_day, d.begin_of_today)
resolve_interval_tz d past_day = (d.now -ℤ one_day, d.now)
resolve_interval_tz d this_week = (d.begin_of_this_week, d.now)
resolve_interval_tz d last_week = (d.days_before 7 d.begin_of_this_week, d.begin_of_this_week)
resolve_interval_tz d this_month = (d.begin_of_this_month, d.now)
resolve_interval_tz d last_month = (d.months_before 1 d.begin_of_this_month, d.begin_of_this_month)
resolve_interval_tz d this_year = (d.begin_of_this_year, d.now)
resolve_interval_tz d past_7_days = (d.days_before 7 d.now, d.now)
resolve_interval_tz d past_7_days_yesterday =
    (d.days_before 7 (d.days_before 1 d.begin_of_today), d.days_before 1 d.begin_of_today)
resolve_interval_tz d past_14_days = (d.days_before 14 d.now, d.now)
resolve_interval_tz d past_30_days = (d.days_before 30 d.now, d.now)
resolve_interval_tz d past_6_months = (d.months_before 6 d.now, d.now)
resolve_interval_tz d past_12_months = (d.months_before 12 d.now, d.now)
resolve_interval_tz d any_time = (d.unix_era, d.now)

unfoldable pub resolve_interval_raw_tz : Dates → Text → Option (ℤ × ℤ)
unfolding parse_interval
resolve_interval_raw_tz d interval = elim (parse_interval interval) [
  | none ↦ none
  | some k ↦ some (resolve_interval_tz d k)
]

unfoldable pub resolve_maximum_range : ℤ → Option IntervalKey
resolve_maximum_range days =
    if eqb_ℤ days (pos 0)
    then none
    else if ltb_ℤ days (pos 0)
    then some any_time
    else if ltb_ℤ days (pos 7)
    then some past_day
    else if ltb_ℤ days (pos 14)
    then some past_7_days
    else if ltb_ℤ days (pos 30)
    then some past_14_days
    else if ltb_ℤ days (pos 184)
    then some past_30_days
    else if ltb_ℤ days (pos 366)
    then some past_6_months
    else some past_12_months
