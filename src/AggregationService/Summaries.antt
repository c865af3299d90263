-- ===== src/AggregationService/Summaries.antt =====
-- services/aggregation.go: AggregateSummaries and AggregateDurations, up to the queues of the workers.
-- None is an error of the service that is asked. The users are walked in the order of a map.
pub mod Shares
use wakapi.Base.{
  Bool, true, false, List, [], ◌∷◌, ◌++◌, Option, none, some, Text, text_eq, if◌then◌else◌, ℤ, pos,
  ltb_ℤ, not,
}
use wakapi.Table.{Table, get, put}
use wakapi.SummaryService.Intervals.{Calendar}
use wakapi.AggregationService.{AggregationJob, generate_user_jobs, lock_users, unlock_users}

-- models/user.go
pub record TimeByUser : Type 0 where
  pub user : Text
  pub time : ℤ

-- `j.T().Unix() >= 0`: 62135596800 seconds lie between the zero time and the beginning of 1970.
unfoldable pub is_valid_time : ℤ → Bool
is_valid_time t = not (ltb_ℤ t (pos 62135596800000000000))

unfoldable pub first_lookup : List TimeByUser → Table ℤ → Table ℤ
first_lookup [] t = t
first_lookup (e ∷ es) t = first_lookup es (put e.user e.time t)

-- Where the user's jobs start: at the latest summary, or else at the first heartbeat.
unfoldable pub job_start : Table ℤ → TimeByUser → Option ℤ
unfolding is_valid_time
job_start firsts e = if is_valid_time e.time then some e.time else (elim (get e.user firsts) [
  | none ↦ none
  | some t ↦ if is_valid_time t then some t else none
])

abbrev pub jobs_from : Calendar → (now : ℤ) → Text → Option ℤ → List AggregationJob
jobs_from c now user none = []
jobs_from c now user (some t) = generate_user_jobs c now user t

unfoldable pub user_jobs :
    Calendar → (now : ℤ) → Table ℤ → (user : Text) → List TimeByUser → List AggregationJob
user_jobs c now firsts user [] = []
user_jobs c now firsts user (e ∷ es) =
    let rest = user_jobs c now firsts user es in
    if text_eq e.user user then jobs_from c now user (job_start firsts e) ++ rest else rest

unfoldable pub all_jobs :
    Calendar → (now : ℤ) → Table ℤ → List TimeByUser → (users : List Text) → List AggregationJob
all_jobs c now firsts latest [] = []
all_jobs c now firsts latest (u ∷ us) =
    user_jobs c now firsts u latest ++ all_jobs c now firsts latest us

-- What the queues are given, and who is in progress when the method returns.
pub record Dispatch : Type 0 where
  pub regenerated : List Text
  pub jobs : List AggregationJob
  pub in_progress : List Text
  pub failed : Bool

abbrev pub nothing_dispatched : List Text → Dispatch
nothing_dispatched in_progress = record {
  regenerated = [];
  jobs = [];
  in_progress = in_progress;
  failed = true;
}

-- The users are unlocked when the method returns, which is before the workers have run.
unfoldable pub aggregate_summaries :
    Calendar
    → (now : ℤ) → (user_ids : List Text) → (latest firsts : Option (List TimeByUser))
    → (users : Option (List Text)) → (in_progress : List Text) → Dispatch
unfolding first_lookup
aggregate_summaries c now user_ids latest firsts users in_progress =
    elim (lock_users user_ids in_progress) [
      | none ↦ nothing_dispatched in_progress
      | some busy ↦
          let after = unlock_users user_ids busy in
          elim latest [
            | none ↦ nothing_dispatched after
            | some ls ↦ elim firsts [
              | none ↦ nothing_dispatched after
              | some fs ↦ elim users [
                | none ↦ nothing_dispatched after
                | some us ↦ record {
                  regenerated = us;
                  jobs = all_jobs c now (first_lookup fs []) ls us;
                  in_progress = after;
                  failed = false;
                }
              ]
            ]
          ]
    ]

unfoldable pub aggregate_durations :
    (user_ids : List Text) → (users : Option (List Text)) → (in_progress : List Text) → Dispatch
aggregate_durations user_ids users in_progress = elim (lock_users user_ids in_progress) [
  | none ↦ nothing_dispatched in_progress
  | some busy ↦ elim users [
    | none ↦ nothing_dispatched (unlock_users user_ids busy)
    | some us ↦ record {
      regenerated = us;
      jobs = [];
      in_progress = unlock_users user_ids busy;
      failed = false;
    }
  ]
]
