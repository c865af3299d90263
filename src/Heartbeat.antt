-- ===== src/Heartbeat.antt =====
-- models/heartbeat.go and models/canonical_names.go: heartbeats and what is done to one.
pub mod Augment
use wakapi.Base.{
  ◌≡◌, refl, [], ◌∷◌, Bool-cases, inl, inr, ℕ, Bool, false, not, ◌&&◌, ◌||◌, Option, none, some,
  Text, codes, text_eq, is_empty, if◌then◌else◌, ℤ, pos, ◌-ℤ◌, ltb_ℤ, eqb_ℤ, keep, leb,
}
use wakapi.Table.{Table, get}
use wakapi.Entity.{
  project, language, editor, os, machine, label, branch, entity, category, Entity, summary,
  ai_model, unknown_type, unknown_summary_key,
}
use wakapi.User.{User}

pub record Heartbeat : Type 0 where
  pub id : ℕ
  pub user : Option User
  pub user_id : Text
  pub entity : Text
  pub type : Text
  pub category : Text
  pub project : Text
  pub branch : Text
  pub language : Text
  pub is_write : Bool
  pub editor : Text
  pub ai_model : Text
  pub operating_system : Text
  pub machine : Text
  pub user_agent : Text
  pub time : ℤ
  pub hash : Text

-- Time zero is `time.Time{}`.
unfoldable pub is_valid : Heartbeat → Bool
is_valid h = elim h.user [
  | none ↦ false
  | some u ↦ not (is_empty h.user_id) && text_eq u.id h.user_id && not (eqb_ℤ h.time (pos 0))
]

-- `1 * time.Hour`
abbrev pub hour : ℤ
hour = pos 3600000000000

unfoldable pub is_timely : (now max_age : ℤ) → Heartbeat → Bool
is_timely now max_age h = not (ltb_ℤ max_age (now -ℤ h.time)) && ltb_ℤ (h.time -ℤ now) hour

is_alphanumeric : ℕ → Bool
is_alphanumeric c = leb b'a' c && leb c b'z' || leb b'A' c && leb c b'Z' || leb b'0' c && leb c b'9'

-- The configuration's tables, `strings.ToLower`, and lancet's `Capitalize`.
pub record Naming : Type 0 where
  pub canonical_names : Entity → Option (Table Text)
  pub to_lower : Text → Text
  pub capitalize : Text → Text

unfoldable pub canonical_name : Naming → Text → Entity → Text
unfolding is_alphanumeric get keep
canonical_name n value t = elim (n.canonical_names t) [
  | none ↦ value
  | some names ↦ elim (get (keep is_alphanumeric (n.to_lower value)) names) [
    | some canonical ↦ canonical
    | none ↦ n.capitalize value
  ]
]

unfoldable pub default_category : Text → Text → Text → Text
default_category given type lang =
    if not (is_empty given)
    then given
    else if text_eq type (codes "domain") || text_eq type (codes "url")
    then codes "browsing"
    else if text_eq type (codes "file") && not (is_empty lang)
    then codes "coding"
    else given

unfoldable pub sanitize : Naming → Heartbeat → Heartbeat
unfolding canonical_name default_category
sanitize n h =
    let lang = canonical_name n h.language (summary language) in
    record h {
      operating_system = canonical_name n h.operating_system (summary os);
      editor = canonical_name n h.editor (summary editor);
      language = lang;
      ai_model = canonical_name n h.ai_model ai_model;
      category = default_category h.category h.type lang;
    }

-- The text, or "unknown" for an empty one.
abbrev pub or_unknown : Text → Text
or_unknown key = if is_empty key then unknown_summary_key else key

unfoldable pub get_key : Entity → Heartbeat → Text
get_key (summary project) h = or_unknown h.project
get_key (summary language) h = or_unknown h.language
get_key (summary editor) h = or_unknown h.editor
get_key (summary os) h = or_unknown h.operating_system
get_key (summary machine) h = or_unknown h.machine
get_key (summary label) h = or_unknown []
get_key (summary branch) h = or_unknown h.branch
get_key (summary entity) h = or_unknown h.entity
get_key (summary category) h = or_unknown h.category
get_key ai_model h = or_unknown h.ai_model
get_key unknown_type h = or_unknown []

unfoldable pub is_placeholder_branch : Heartbeat → Bool
is_placeholder_branch h = text_eq h.branch (codes "<<LAST_BRANCH>>")

unfoldable pub is_placeholder_project : Heartbeat → Bool
is_placeholder_project h = text_eq h.project (codes "<<LAST_PROJECT>>")

unfoldable pub is_placeholder_language : Heartbeat → Bool
is_placeholder_language h = text_eq h.language (codes "<<LAST_LANGUAGE>>")

unfoldable pub has_placeholder : Heartbeat → Bool
has_placeholder h = is_placeholder_branch h || is_placeholder_project h || is_placeholder_language h

unfoldable pub clear_placeholders : Heartbeat → Heartbeat
clear_placeholders h = record h {
  branch = if is_placeholder_branch h then [] else h.branch;
  project = if is_placeholder_project h then [] else h.project;
  language = if is_placeholder_language h then [] else h.language;
}

-- A text that is emptied where it is the placeholder is not the placeholder.
emptied :
    (text : Text) (c : ℕ) (cs : Text)
    → text_eq (if text_eq text (c ∷ cs) then [] else text) (c ∷ cs) ≡ false
unfolding text_eq
emptied text c cs = elim (Bool-cases (text_eq text (c ∷ cs))) [ inl e ↦ rw e refl | inr e ↦ rw e e ]

-- What ClearPlaceholders leaves has no placeholder.
clear_placeholders-has_placeholder :
    (h : Heartbeat) → has_placeholder (clear_placeholders h) ≡ false
unfolding has_placeholder clear_placeholders is_placeholder_branch is_placeholder_project
    is_placeholder_language
clear_placeholders-has_placeholder h =
    rw (emptied h.branch _ _) (rw (emptied h.project _ _) (emptied h.language _ _))
