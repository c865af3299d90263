-- ===== src/CodexTaskService/Worklogs/Keys.antt =====
-- services/codex_task_service.go: how long the external keys of worklogs are.
use wakapi.Base.{ℕ, ◌≡◌, refl, List, [], ◌∷◌, ◌≤◌, ◌<◌, ◌++◌, Text, codes, length, arith}
use wakapi.CodexTaskService.{CodexTaskSession, CodexText}
use wakapi.CodexTaskService.Keys.{
  worklog_group_key, full_group_key, safe_external_key_part, length-shorten_external_key,
  length-shortened_part,
}
use wakapi.CodexTaskService.Worklogs.{
  CodexTaskWorklog, add_session, Group, worklog_key, build_worklog, members, add_sessions,
  open_worklog,
}

-- Adding sessions leaves the key.
add_sessions-external_key :
    (x : CodexText) (w : CodexTaskWorklog) (ss : List CodexTaskSession)
    → (add_sessions x w ss).external_key ≡ w.external_key
unfolding add_sessions add_session
add_sessions-external_key x w [] = refl
add_sessions-external_key x w (s ∷ ss) = add_sessions-external_key x (add_session x w s) ss

length-worklog_key :
    (x : CodexText) (g : Group)
    → ((t : Text) → length (x.short_hash t) ≤ 12)
    → length (worklog_key x g) ≤ 240
unfolding worklog_key
length-worklog_key x g h =
    let entropy = x.short_hash (
      g.first.external_key
      ++ (codes "|" ++ (g.last.external_key ++ (codes "|" ++ x.objective g.first)))) in
    let whole = worklog_group_key x g.first ++ (codes ":" ++ entropy) in
    length-shorten_external_key x 240 whole (h whole) (omega arith)

-- Where a hash is no longer than twelve digits, the external key of each worklog, the key of its group
-- and a part of a key that is limited to `max` bytes are no longer than 240, 240 and `max` bytes.
pub key_lengths :
    (x : CodexText) (g : Group) (s : CodexTaskSession) (max : ℕ) (value : Text)
    → ((t : Text) → length (x.short_hash t) ≤ 12)
    → 0 < max
    → (length (build_worklog x g).external_key ≤ 240)
      × (length (worklog_group_key x s) ≤ 240)
      × (length (safe_external_key_part x max value) ≤ max)
unfolding worklog_group_key safe_external_key_part build_worklog open_worklog
key_lengths x g s max value h p = (
  rw (add_sessions-external_key x (open_worklog x g) (members g)) (length-worklog_key x g h),
  length-shorten_external_key x 240 (full_group_key x s) (h (full_group_key x s)) (omega arith),
  length-shortened_part x max _ p,
)
