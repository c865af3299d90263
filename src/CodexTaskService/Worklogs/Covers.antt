-- ===== src/CodexTaskService/Worklogs/Covers.antt =====
-- services/codex_task_service.go: the times and the lengths of the worklogs.
use wakapi.Base.{◌≡◌, refl, List, [], ◌∷◌, some, ℤ, pos, ◌≤ℤ◌, keep, map, All, arith}
use wakapi.Stable.{stable_sort}
use wakapi.CodexTaskService.{CodexTaskSession, CodexText, should_include}
use wakapi.CodexTaskService.Worklogs.{
  Group, members, worklog_groups, by_start, CodexTaskWorklog, end_of, add_session, add_sessions,
  open_worklog, build_worklog, get_worklogs,
}
use wakapi.CodexTaskService.Worklogs.Partition.{flatten, worklog_groups-flatten}

-- The session lies within the worklog.
abbrev pub Covers : CodexTaskWorklog → CodexTaskSession → Type 0
Covers w s = (w.started_at ≤ℤ s.started_at) × (end_of s ≤ℤ w.ended_at)

-- The lengths of the sessions added up from the first one on, each sum rounded.
abbrev pub added_seconds : CodexText → ℤ → List CodexTaskSession → ℤ
added_seconds x n [] = n
added_seconds x n (s ∷ ss) = added_seconds x (x.add_seconds n s.duration) ss

module _ (x : CodexText) where
  -- Adding sessions only widens a worklog.
  add_session-Covers :
      (w : CodexTaskWorklog) (s t : CodexTaskSession)
      → Covers (add_session x w s) s × (Covers w t → Covers (add_session x w s) t)
  unfolding add_session
  add_session-Covers w s t = (ground arith, λ h. ground (arith, h))

  add_sessions-Covers :
      (w : CodexTaskWorklog) (ss : List CodexTaskSession) (t : CodexTaskSession)
      → Covers w t
      → Covers (add_sessions x w ss) t
  unfolding add_sessions
  add_sessions-Covers w [] t h = h
  add_sessions-Covers w (s ∷ ss) t h =
      add_sessions-Covers (add_session x w s) ss t ((add_session-Covers w s t).1 h)

  add_sessions-All :
      (w : CodexTaskWorklog) (ss : List CodexTaskSession) → All (Covers (add_sessions x w ss)) ss
  unfolding add_sessions
  add_sessions-All w [] = tt
  add_sessions-All w (s ∷ ss) = (
    add_sessions-Covers (add_session x w s) ss s (add_session-Covers w s s).0,
    add_sessions-All (add_session x w s) ss,
  )

  add_sessions-duration :
      (w : CodexTaskWorklog) (ss : List CodexTaskSession)
      → (add_sessions x w ss).duration ≡ added_seconds x w.duration ss
  unfolding add_sessions add_session
  add_sessions-duration w [] = refl
  add_sessions-duration w (s ∷ ss) = add_sessions-duration (add_session x w s) ss

  build_worklog-Covers : (g : Group) → All (Covers (build_worklog x g)) (members g)
  unfolding build_worklog
  build_worklog-Covers g = add_sessions-All (open_worklog x g) (members g)

  -- What a worklog says of its group: it lasts over all sessions, and is as long as they are together.
  abbrev pub Sums : Group → Type 0
  Sums g =
      All (Covers (build_worklog x g)) (members g)
      × ((build_worklog x g).duration ≡ added_seconds x (pos 0) (members g))

  Sums-All : (gs : List Group) → All Sums gs
  unfolding build_worklog open_worklog
  Sums-All [] = tt
  Sums-All (g ∷ gs) =
      ((build_worklog-Covers g, add_sessions-duration (open_worklog x g) (members g)), Sums-All gs)

  -- GetWorklogs succeeds when the sessions can be read. Its worklogs are those of the groups, whose
  -- sessions together are the included ones in the order of their starts. Each lasts from before its
  -- sessions until after them, and its length is theirs, added up from the first on.
  pub get_worklogs-Covers :
      (sessions : List CodexTaskSession)
      → (get_worklogs x (some sessions) ≡ some (map (build_worklog x) (worklog_groups x sessions)))
        × (flatten (worklog_groups x sessions)
            ≡ keep (should_include x) (stable_sort by_start sessions))
        × All Sums (worklog_groups x sessions)
  unfolding get_worklogs
  get_worklogs-Covers sessions =
      (refl, (worklog_groups-flatten x sessions).0, Sums-All (worklog_groups x sessions))
