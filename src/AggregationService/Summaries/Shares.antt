-- ===== src/AggregationService/Summaries/Shares.antt =====
-- services/aggregation.go: the jobs that AggregateSummaries dispatches for one user.
use wakapi.Base.{Bool, Text, text_eq, ℤ, ◌-ℤ◌}
use wakapi.Table.{Table}
use wakapi.SummaryService.Intervals.{Calendar, one_second}
use wakapi.AggregationService.{AggregationJob, get_start_of_today}

abbrev of_user : Text → AggregationJob → Bool
of_user u j = text_eq j.user_id u

-- A second before today begins.
abbrev pub last_end : Calendar → (now : ℤ) → ℤ
last_end c now = get_start_of_today c now -ℤ one_second
