-- ===== src/Tests/Aggregation.antt =====
-- services/aggregation.go, run on samples.
use wakapi.Base.{inl, List, [], ◌∷◌, Text, codes, ℤ, pos}
use wakapi.AggregationService.Summaries.{TimeByUser}
use wakapi.Intervals.Days.{GoesOn, Splits, split_range_by_days, split_range_by_days-Splits}
use wakapi.Tests.Services.{one_day-lt, calendar}

abbrev first_beat : ℤ
first_beat = pos 5000000000

abbrev now : ℤ
now = pos 300000000000000

abbrev ada_grace : List Text
ada_grace = codes "ada" ∷ codes "grace" ∷ []

abbrev grace : List Text
grace = codes "grace" ∷ []

-- The zero time, since there is no summary yet, and a first heartbeat in 1970.
abbrev no_summary : TimeByUser
no_summary = record { user = codes "grace"; time = pos 0 }

abbrev began : ℤ
began = pos 62135596800000000000

abbrev first_times : List TimeByUser
first_times = record { user = codes "grace"; time = began } ∷ []

calendar-GoesOn : (t : ℤ) → GoesOn calendar t
calendar-GoesOn t = inl (one_day-lt t)

split_range_by_days-Splits_example :
    Splits calendar
      (pos 200000000000000)
      (pos 7)
      (split_range_by_days calendar (pos 7) (pos 200000000000000))
split_range_by_days-Splits_example =
    split_range_by_days-Splits calendar (pos 7) (pos 200000000000000) (record {
      start = calendar-GoesOn (pos 7);
      midnight = λ t. calendar-GoesOn _;
      after_day = λ t. calendar-GoesOn _;
    })
