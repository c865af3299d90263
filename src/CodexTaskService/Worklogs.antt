-- ===== src/CodexTaskService/Worklogs.antt =====
-- services/codex_task_service.go: GetWorklogs, which groups a user's sessions.
pub mod Partition
pub mod Covers
pub mod Keys
use wakapi.Base.{
  ℕ, Bool, true, false, not, ◌&&◌, ◌||◌, List, [], ◌∷◌, ◌++◌, Option, none, some, Text, codes,
  text_eq, is_empty, if◌then◌else◌, ℤ, pos, ◌+ℤ◌, ◌-ℤ◌, ltb_ℤ, keep, map,
}
use wakapi.Stable.{stable_sort}
use wakapi.CodexTaskService.{CodexTaskSession, CodexText, should_include}
use wakapi.CodexTaskService.Keys.{worklog_group_key, shorten_external_key}

-- 30 minutes
abbrev pub codex_grouping_gap : ℤ
codex_grouping_gap = pos 1800000000000

-- The end of a session, or its start; all sessions of a group have an end.
abbrev pub end_of : CodexTaskSession → ℤ
end_of s = elim s.ended_at [ none ↦ s.started_at | some e ↦ e ]

unfoldable pub should_split : CodexText → (previous current : CodexTaskSession) → Bool
should_split x previous current =
    let previous_end = end_of previous in
    let start = current.started_at in
    not (text_eq (worklog_group_key x previous) (worklog_group_key x current))
    || (ltb_ℤ previous_end start && ltb_ℤ codex_grouping_gap (start -ℤ previous_end)
        || not (text_eq (x.objective previous) (x.objective current)))

-- A group: the first session, those between, and the last, which is the first of a group of one.
pub record Group : Type 0 where
  pub first : CodexTaskSession
  pub others : List CodexTaskSession
  pub last : CodexTaskSession

abbrev pub members : Group → List CodexTaskSession
members g = g.first ∷ g.others

abbrev pub group_of : CodexTaskSession → Group
group_of s = record { first = s; others = []; last = s }

-- The groups so far, of which the last is the one that grows.
unfoldable pub group_loop : CodexText → Option Group → List CodexTaskSession → List Group
unfolding should_split
group_loop x none [] = []
group_loop x (some g) [] = g ∷ []
group_loop x open_group (s ∷ ss) = elim (should_include x s) [
  | false ↦ group_loop x open_group ss
  | true ↦ elim open_group [
    | none ↦ group_loop x (some (group_of s)) ss
    | some g ↦ elim (should_split x g.last s) [
      | true ↦ g ∷ group_loop x (some (group_of s)) ss
      | false ↦
          group_loop x (some (record { first = g.first; others = g.others ++ s ∷ []; last = s })) ss
    ]
  ]
]

unfoldable pub last_non_empty : CodexText → (current candidate : Text) → Text
last_non_empty x current candidate =
    if is_empty (x.trim candidate) then current else x.trim candidate

-- The times, the length and the places of a worklog; its texts are left out.
pub record CodexTaskWorklog : Type 0 where
  pub external_key : Text
  pub project : Text
  pub started_at : ℤ
  pub ended_at : ℤ
  pub duration : ℤ
  pub workspace_root : Text
  pub repository : Text
  pub branch : Text
  pub status : Text

unfoldable pub add_session : CodexText → CodexTaskWorklog → CodexTaskSession → CodexTaskWorklog
unfolding last_non_empty
add_session x w s = record w {
  started_at = if ltb_ℤ s.started_at w.started_at then s.started_at else w.started_at;
  ended_at = if ltb_ℤ w.ended_at (end_of s) then end_of s else w.ended_at;
  duration = x.add_seconds w.duration s.duration;
  workspace_root = last_non_empty x w.workspace_root s.workspace_root;
  repository = last_non_empty x w.repository s.repository;
  branch = last_non_empty x w.branch s.branch;
}

unfoldable pub add_sessions :
    CodexText → CodexTaskWorklog → List CodexTaskSession → CodexTaskWorklog
unfolding add_session
add_sessions x w [] = w
add_sessions x w (s ∷ ss) = add_sessions x (add_session x w s) ss

unfoldable pub worklog_key : CodexText → Group → Text
unfolding shorten_external_key
worklog_key x g =
    let entropy = x.short_hash (
      g.first.external_key
      ++ (codes "|" ++ (g.last.external_key ++ (codes "|" ++ x.objective g.first)))) in
    shorten_external_key x 240 (worklog_group_key x g.first ++ (codes ":" ++ entropy))

unfoldable pub open_worklog : CodexText → Group → CodexTaskWorklog
unfolding worklog_key
open_worklog x g = record {
  external_key = worklog_key x g;
  project = g.first.project;
  started_at = g.first.started_at;
  ended_at = end_of g.first;
  duration = pos 0;
  workspace_root = g.first.workspace_root;
  repository = g.first.repository;
  branch = g.first.branch;
  status = codes "closed";
}

unfoldable pub build_worklog : CodexText → Group → CodexTaskWorklog
unfolding add_sessions open_worklog
build_worklog x g = add_sessions x (open_worklog x g) (members g)

abbrev pub by_start : CodexTaskSession → CodexTaskSession → Bool
by_start a b = ltb_ℤ a.started_at b.started_at

unfoldable pub worklog_groups : CodexText → List CodexTaskSession → List Group
unfolding group_loop stable_sort
worklog_groups x sessions = group_loop x none (stable_sort by_start sessions)

-- The repository's sessions are none on an error.
unfoldable pub get_worklogs :
    CodexText → Option (List CodexTaskSession) → Option (List CodexTaskWorklog)
unfolding worklog_groups build_worklog
get_worklogs x none = none
get_worklogs x (some sessions) = some (map (build_worklog x) (worklog_groups x sessions))
