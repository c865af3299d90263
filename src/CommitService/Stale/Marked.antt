-- ===== src/CommitService/Stale/Marked.antt =====
-- services/commit_service.go: what the marks of noteHeartbeat say, while stats are computed again.
use wakapi.Base.{◌≡◌, true, not, ◌||◌, List, some, Text, ℤ, ◌≤ℤ◌, ltb_ℤ, All}
use wakapi.Table.{get}
use wakapi.CommitService.Stale.{DirtyMark, StatRow, StaleState}

-- The stats of the commits made at or after `since` are stale, or have been computed since `at`.
abbrev pub AreStale : (at since : ℤ) → List StatRow → Type 0
AreStale at since rows =
    All
      (λ r.
        (ltb_ℤ r.committer_date since || (r.stat.dirty || not (ltb_ℤ r.stat.calculated_at at)))
        ≡ true)
      rows

-- Each mark is kept: it is not of the future, and the user's stats since its time are stale or have been
-- computed since it was made.
abbrev pub IsMarked : ℤ → StaleState → Type 0
IsMarked now st =
    (u : Text) (m : DirtyMark)
    → get u st.last_dirty ≡ some m
    → (m.at ≤ℤ now) × AreStale m.at m.since (st.rows u)
