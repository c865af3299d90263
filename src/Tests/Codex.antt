-- ===== src/Tests/Codex.antt =====
-- Codex sessions, and the theorems on them applied.
use wakapi.Base.{
  ◌≡◌, refl, Bool, true, false, not, ◌&&◌, List, [], ◌∷◌, none, some, Text, codes, text_eq,
  is_empty, ℤ, pos, ◌+ℤ◌, ◌≤◌, length, arith, map, keep, All,
}
use wakapi.Stable.{insert, stable_sort}
use wakapi.Table.{Table, get}
use wakapi.Collections.{take}
use wakapi.CodexTaskService.{CodexTaskSession, CodexText, should_include}
use wakapi.CodexTaskService.Keys.{worklog_group_key, safe_external_key_part, length-take-le}
use wakapi.CodexTaskService.Worklogs.Keys.{key_lengths}
use wakapi.CodexTaskService.Worklogs.{
  Group, group_of, worklog_groups, get_worklogs, build_worklog, by_start,
}
use wakapi.CodexTaskService.Worklogs.Partition.{flatten, AreSeparate, worklog_groups-flatten}
use wakapi.CodexTaskService.Worklogs.Covers.{get_worklogs-Covers, Sums}
use wakapi.CodexTaskService.Review.{ReviewInput, review_session}
use wakapi.CodexTaskService.Review.Settled.{KnowsStatuses}
use wakapi.CodexTaskService.Review.Reviewed.{Reviews, is_reviewed, accepts, review_session-Reviews}

abbrev plain_text : CodexText
plain_text = record {
  trim = λ t. t;
  to_lower = λ t. t;
  json_array = λ t. none;
  json_events = λ t. none;
  short_hash = λ t. take 12 t;
  day = λ t. codes "2024-01-02";
  useful = λ max t. t;
  normalize = λ max t. t;
  is_generic = λ t. false;
  objective = λ s. [];
  add_seconds = λ a b. a +ℤ b;
}

abbrev session : Text → (start end : ℤ) → CodexTaskSession
session key start end = record {
  external_key = key;
  project = codes "wakapi";
  workspace_root = [];
  repository = [];
  branch = codes "main";
  started_at = start;
  ended_at = some end;
  duration = pos 4633641066610819072;
  status = codes "done";
  summary_hr = codes "Popravak prijave";
  summary_hr_original = [];
  summary_hr_normalized = [];
  summary_source = [];
  summary_confidence = pos 50;
  client_message_hr = [];
  internal_message_hr = [];
  review_status = codes "needs_review";
  evidence_json = [];
  technical_note = [];
}

abbrev two_sessions : List CodexTaskSession
two_sessions =
    session (codes "codex:one:b") (pos 100000000000) (pos 160000000000)
    ∷ session (codes "codex:one:a") (pos 20000000000) (pos 80000000000)
    ∷ []

-- The two sessions are of different chats, and make two worklogs of a minute each.
two_worklogs :
    map (λ g. (build_worklog plain_text g).duration) (worklog_groups plain_text two_sessions)
    ≡ pos 4633641066610819072 ∷ pos 4633641066610819072 ∷ []
unfolding worklog_groups stable_sort insert should_include text_eq worklog_group_key build_worklog
    ◌+ℤ◌
two_worklogs = refl

abbrev one_session : Group
one_session = group_of (session (codes "codex:one:b") (pos 1) (pos 2))

key_lengths_example :
    (length (build_worklog plain_text one_session).external_key ≤ 240)
    × (length (worklog_group_key plain_text one_session.first) ≤ 240)
    × (length (safe_external_key_part plain_text 20 (codes "wakapi verification")) ≤ 20)
key_lengths_example =
    key_lengths plain_text one_session one_session.first 20 (codes "wakapi verification")
      (λ t. length-take-le 12 t) (omega arith)

worklog_groups-flatten_example :
    (flatten (worklog_groups plain_text two_sessions)
      ≡ keep (should_include plain_text) (stable_sort by_start two_sessions))
    × AreSeparate plain_text (worklog_groups plain_text two_sessions)
worklog_groups-flatten_example = worklog_groups-flatten plain_text two_sessions

get_worklogs-Covers_example :
    (get_worklogs plain_text (some two_sessions)
      ≡ some (map (build_worklog plain_text) (worklog_groups plain_text two_sessions)))
    × (flatten (worklog_groups plain_text two_sessions)
        ≡ keep (should_include plain_text) (stable_sort by_start two_sessions))
    × All (Sums plain_text) (worklog_groups plain_text two_sessions)
get_worklogs-Covers_example = get_worklogs-Covers plain_text two_sessions

abbrev approval : ReviewInput
approval = record {
  external_key = codes "codex:one:a";
  action = codes "approve";
  client_message_hr = codes "Popravljena prijava";
  internal_message_hr = [];
}

abbrev stored_sessions : Table CodexTaskSession
stored_sessions =
    (codes "codex:one:a", session (codes "codex:one:a") (pos 20000000000) (pos 80000000000)) ∷ []

plain_text-KnowsStatuses : KnowsStatuses plain_text
plain_text-KnowsStatuses = (refl, (refl, (refl, (refl, tt))))

review_session-Reviews_example :
    Reviews plain_text stored_sessions
      (review_session plain_text true true approval stored_sessions).0
      (review_session plain_text true true approval stored_sessions).1
    × (is_reviewed (review_session plain_text true true approval stored_sessions).0 ≡ (
        not (is_empty approval.external_key)
        && (true && elim (get approval.external_key stored_sessions) as (λ o. Bool) [
          | none ↦ false
          | some s ↦ true && accepts plain_text approval s
        ])))
review_session-Reviews_example =
    review_session-Reviews plain_text true true approval stored_sessions plain_text-KnowsStatuses
