-- ===== src/Tests/Heartbeats.antt =====
-- services/heartbeat.go, models/leaderboard.go and helpers/interval.go, run on samples.
use mathlib.Core.Option
use wakapi.Base.{
  ◌*◌, ◌≡◌, refl, true, not, ◌+ℤ◌, map, List, [], ◌∷◌, keep, int_laws, some, Text, codes, text_eq,
  if◌then◌else◌, ℤ, pos, ◌-ℤ◌, sum_by, any,
}
use wakapi.Runtime.{IsOrdered}
use wakapi.Entity.{language}
use wakapi.Summary.{get_by_type, seconds, total_time, total_time_by, total_time_by_key}
use wakapi.Heartbeat.{Heartbeat, sanitize}
use wakapi.HeartbeatService.{filter_batch}
use wakapi.HeartbeatService.Batches.{find_hash, IsDeduplicated, filter_batch-firsts}
use wakapi.Leaderboard.{LeaderboardItem, Leaderboard, by_total, is_under, top_keys_totals}
use wakapi.Leaderboard.Totals.{lowered_key, counted, top_keys_totals-keyed}
use wakapi.Table.Shown.{shown_under}
use wakapi.Intervals.{Dates, past_7_days, has_alias, parse_interval, aliases}
use wakapi.Intervals.Names.{parse_interval-alias}
use wakapi.Intervals.Shared.{IsCalendar}
use wakapi.LeaderboardService.{Answers, is_of, compute_leaderboard}
use wakapi.LeaderboardService.Generated.{generated, compute_leaderboard-generated}
use wakapi.Tests.Samples.{ada, heartbeat, monday}
use wakapi.Tests.Aliases.{plain}
use wakapi.Tests.Sorting.{sample_runtime}

-- The last two are of one hash.
abbrev batch : List Heartbeat
batch =
    record (heartbeat (codes "wakapi") (pos 100)) { hash = codes "a" }
    ∷ record (heartbeat (codes "wakapi") (pos 200)) { hash = codes "b" }
    ∷ record (heartbeat (codes "wakapi") (pos 300)) { hash = codes "b" }
    ∷ []

filter_batch-firsts_example :
    (find_hash (codes "b") (filter_batch plain [] batch)
      ≡ Option.map (sanitize plain) (find_hash (codes "b") batch))
    × IsDeduplicated (filter_batch plain [] batch)
filter_batch-firsts_example = filter_batch-firsts plain (codes "b") batch

abbrev board_item : Text → ℤ → LeaderboardItem
board_item key total = record {
  id = 0;
  user_id = ada.id;
  interval = codes "7_days";
  by = some 1;
  total = total;
  key = some key;
  created_at = pos 0;
  rank = 1;
}

abbrev board : Leaderboard
board = board_item (codes "Go") (pos 60) ∷ board_item (codes "go") (pos 30) ∷ []

-- Every text in lower case is one here.
top_keys_totals-keyed_example :
    IsOrdered by_total (top_keys_totals sample_runtime (λ t. codes "go") 1 board)
    × (sum_by
          (shown_under (lowered_key (λ t. codes "go")) (λ e. pos 1) (codes "go"))
          (top_keys_totals sample_runtime (λ t. codes "go") 1 board)
        ≡ (if any (is_under (λ t. codes "go") 1 (codes "go")) board then pos 1 else pos 0))
    × (sum_by
          (shown_under (lowered_key (λ t. codes "go")) (λ e. e.total) (codes "go"))
          (top_keys_totals sample_runtime (λ t. codes "go") 1 board)
        ≡ sum_by (counted (λ t. codes "go") 1 (codes "go")) board)
top_keys_totals-keyed_example =
    top_keys_totals-keyed (λ t. codes "go") 1 sample_runtime (codes "go") board

-- A calendar whose days have 24 hours and whose months have 30 days.
abbrev dates : Dates
dates = record {
  now = pos 1000000000000000000;
  begin_of_today = pos 0;
  begin_of_this_week = pos 0;
  begin_of_this_month = pos 0;
  begin_of_this_year = pos 0;
  unix_era = pos 0;
  days_before = λ n t. t -ℤ pos (n * 86400000000000);
  months_before = λ n t. t -ℤ pos (n * 2592000000000000);
}

dates-IsCalendar : IsCalendar dates
dates-IsCalendar = record {
  days_before_mono = λ m n t h. omega int_laws;
  six_months = λ t. omega int_laws;
  twelve_months = λ t. omega int_laws;
}

parse_interval-alias_example : parse_interval (codes "last_7_days") ≡ some past_7_days
unfolding has_alias any aliases text_eq
parse_interval-alias_example = parse_interval-alias past_7_days (codes "last_7_days") refl

-- A user of whom everything can be read and stored.
abbrev answers : Answers
answers = record {
  dates = λ u. dates;
  aliased = λ u from to timeout. some monday;
  deletes = λ u. true;
  inserts = λ items. true;
  counts = λ u. true;
}

computed_total :
    map
      (λ i. i.total)
      (compute_leaderboard answers (ada.id ∷ []) past_7_days (language ∷ []) (board, [])).0
    ≡ pos 90000000000 ∷ pos 80000000000 ∷ []
unfolding compute_leaderboard get_by_type text_eq keep has_alias any
    wakapi.LeaderboardService.board_item ◌-ℤ◌ total_time_by_key total_time sum_by total_time_by ◌+ℤ◌
    seconds
computed_total = refl

compute_leaderboard-generated_example :
    (keep
        (is_of ada.id past_7_days)
        (compute_leaderboard answers (ada.id ∷ []) past_7_days (language ∷ []) (board, [])).0
      ≡ (if any (λ u. text_eq u ada.id) (ada.id ∷ [])
          then generated answers past_7_days (language ∷ []) ada.id
          else keep (is_of ada.id past_7_days) board))
    × (keep
          (λ i. not (has_alias i.interval past_7_days))
          (compute_leaderboard answers (ada.id ∷ []) past_7_days (language ∷ []) (board, [])).0
        ≡ keep (λ i. not (has_alias i.interval past_7_days)) board)
    × ((compute_leaderboard answers (ada.id ∷ []) past_7_days (language ∷ []) (board, [])).1 ≡ [])
compute_leaderboard-generated_example =
    compute_leaderboard-generated answers past_7_days (language ∷ []) (ada.id ∷ []) ada.id board []
      refl
