-- ===== src/CodexTaskService.antt =====
-- services/codex_task_service.go and models/codex_task_session.go: the sessions of one user. A float64 is
-- the integer of its bits, with its sign before it, which orders as the floats do; addition of floats,
-- which rounds, is a parameter. A confidence is in hundredths.
pub mod Keys
pub mod Worklogs
pub mod Review
use wakapi.Base.{
  ℕ, Bool, true, false, not, ◌&&◌, ◌||◌, List, [], ◌∷◌, Option, none, some, Text, codes, text_eq,
  is_empty, if◌then◌else◌, ℤ, pos, ltb, ltb_ℤ,
}
use wakapi.SummaryService.Aliased.{contains_text}

pub record CodexTaskSession : Type 0 where
  pub external_key : Text
  pub project : Text
  pub workspace_root : Text
  pub repository : Text
  pub branch : Text
  pub started_at : ℤ
  pub ended_at : Option ℤ
  pub duration : ℤ
  pub status : Text
  pub summary_hr : Text
  pub summary_hr_original : Text
  pub summary_hr_normalized : Text
  pub summary_source : Text
  pub summary_confidence : ℤ
  pub client_message_hr : Text
  pub internal_message_hr : Text
  pub review_status : Text
  pub evidence_json : Text
  pub technical_note : Text

-- strings.TrimSpace and strings.ToLower, the length of a JSON array and of the events of a JSON object,
-- where a text is one, the twelve digits of a SHA-1 hash, the day of a time, and what the summaries'
-- regular expressions make of a text: usefulCodexSummary, normalizeCodexSummary,
-- isGenericCodexClientMessage and codexSessionObjectiveHash; and the sum of two floats.
pub record CodexText : Type 0 where
  pub trim : Text → Text
  pub to_lower : Text → Text
  pub json_array : Text → Option ℕ
  pub json_events : Text → Option ℕ
  pub short_hash : Text → Text
  pub day : ℤ → Text
  pub useful : (max : ℕ) → Text → Text
  pub normalize : (max : ℕ) → Text → Text
  pub is_generic : Text → Bool
  pub objective : CodexTaskSession → Text
  pub add_seconds : ℤ → ℤ → ℤ

unfoldable pub has_evidence : CodexText → CodexTaskSession → Bool
unfolding contains_text
has_evidence x s =
    let note = x.to_lower s.technical_note in
    let raw = x.trim s.evidence_json in
    let is_some_of = λ (n : ℕ). ltb 0 n in
    if contains_text (codes "codex evidence:") note
      && not (contains_text (codes "no captured tool evidence") note)
    then true
    else if is_empty raw
        || text_eq raw (codes "null")
        || text_eq raw (codes "[]")
        || text_eq raw (codes "{}")
    then false
    else elim (x.json_array raw) [
      | some n ↦ is_some_of n
      | none ↦ elim (x.json_events raw) [ some n ↦ is_some_of n | none ↦ false ]
    ]

-- 30.0 seconds
abbrev pub min_no_evidence_worklog : ℤ
min_no_evidence_worklog = pos 4629137466983448576

unfoldable pub should_include : CodexText → CodexTaskSession → Bool
unfolding has_evidence
should_include x s = elim s.ended_at [
  | none ↦ false
  | some e ↦
      let source = x.trim (x.to_lower s.summary_source) in
      has_evidence x s
      || not (is_empty source) && not (text_eq source (codes "fallback"))
      || not (ltb_ℤ s.duration min_no_evidence_worklog)
]
