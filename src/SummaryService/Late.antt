-- ===== src/SummaryService/Late.antt =====
-- services/summary.go: what the service does on a heartbeat that has been stored, which may be older
-- than summaries that exist.
use wakapi.Base.{Bool, true, Option, none, some, Text, if◌then◌else◌, ℤ, ltb_ℤ}
use wakapi.Table.{Table, get, put}

-- No heartbeat of the user has come lately, or this one is before the last that came.
unfoldable pub is_late : (user : Text) → (time : ℤ) → Table ℤ → Bool
is_late user time latest_heartbeats = elim (get user latest_heartbeats) [
  | none ↦ true
  | some latest ↦ ltb_ℤ time latest
]

-- The time from which on the user's summaries are deleted, if they are. `latest_summary` is the latest
-- end of a summary in the repository, none on an error.
unfoldable pub outdated_after :
    (user : Text) → (time : ℤ) → (latest_summary : Option ℤ) → Table ℤ → Option ℤ
unfolding is_late
outdated_after user time latest_summary latest_heartbeats =
    if is_late user time latest_heartbeats
    then (elim latest_summary [
      | none ↦ none
      | some end ↦ if ltb_ℤ time end then some time else none
    ])
    else none

-- The heartbeat's time is remembered in any case, also where it is before the one remembered.
unfoldable pub receive_heartbeat :
    (user : Text) → (time : ℤ) → (latest_summary : Option ℤ) → Table ℤ → Option ℤ × Table ℤ
unfolding outdated_after
receive_heartbeat user time latest_summary latest_heartbeats =
    (outdated_after user time latest_summary latest_heartbeats, put user time latest_heartbeats)
