-- ===== src/Filters.antt =====
-- models/filters.go: what a request asks to see, one list of alternatives for each entity type.
-- A Go slice that is nil differs here from one that is empty, so a list is optional. The methods
-- change the filters in place; the functions return the changed filters.
pub mod Aliases
use wakapi.Base.{
  ℕ, ◌+◌, ◌-◌, ◌≡◌, Bool, true, false, not, ◌&&◌, ◌||◌, List, [], ◌∷◌, ◌++◌, Option, none, some,
  Text, text_eq, is_empty, if◌then◌else◌, length, any, ltb, map,
}
use wakapi.Entity.{
  SummaryType, project, language, editor, os, machine, label, branch, entity, category, Entity,
  summary, ai_model, unknown_type, entity_code, summary_types,
}
use wakapi.Heartbeat.{Heartbeat}
use wakapi.Duration.{Duration}

abbrev pub OrFilter : Type 0
OrFilter = Option (List Text)

pub record Filters : Type 0 where
  pub project : OrFilter
  pub os : OrFilter
  pub language : OrFilter
  pub editor : OrFilter
  pub machine : OrFilter
  pub label : OrFilter
  pub branch : OrFilter
  pub entity : OrFilter
  pub category : OrFilter
  pub ai_model : OrFilter
  pub select_filtered_only : Bool
  pub has_resolved_project_labels : Bool
  pub has_resolved_aliases : Bool
  pub alias_count : Entity → ℕ

abbrev pub empty_filters : Filters
empty_filters = record {
  project = none;
  os = none;
  language = none;
  editor = none;
  machine = none;
  label = none;
  branch = none;
  entity = none;
  category = none;
  ai_model = none;
  select_filtered_only = false;
  has_resolved_project_labels = false;
  has_resolved_aliases = false;
  alias_count = λ t. 0;
}

unfoldable pub exists : OrFilter → Bool
exists none = false
exists (some []) = false
exists (some (f ∷ fs)) = not (is_empty f)

-- One alternative: the same text, or "-" for an empty one.
unfoldable pub match_one : Text → Text → Bool
match_one search s = text_eq s search || (text_eq s (b'-' ∷ []) && is_empty search)

unfoldable pub match_any : List Text → Text → Bool
unfolding any
match_any fs search = any (match_one search) fs

unfoldable pub size : OrFilter → ℕ
size none = 0
size (some fs) = length fs

-- `append` to a nil slice gives nil when there is nothing to append.
unfoldable pub append_keys : OrFilter → List Text → OrFilter
append_keys none [] = none
append_keys none (k ∷ ks) = some (k ∷ ks)
append_keys (some fs) ks = some (fs ++ ks)

unfoldable pub resolve_type : Entity → Filters → OrFilter
resolve_type (summary project) f = f.project
resolve_type (summary language) f = f.language
resolve_type (summary editor) f = f.editor
resolve_type (summary os) f = f.os
resolve_type (summary machine) f = f.machine
resolve_type (summary label) f = f.label
resolve_type (summary branch) f = f.branch
resolve_type (summary entity) f = f.entity
resolve_type (summary category) f = f.category
resolve_type ai_model f = f.ai_model
resolve_type unknown_type f = some []

unfoldable pub with_multiple : Entity → List Text → Filters → Filters
unfolding append_keys
with_multiple (summary project) keys f = record f { project = append_keys f.project keys }
with_multiple (summary os) keys f = record f { os = append_keys f.os keys }
with_multiple (summary language) keys f = record f { language = append_keys f.language keys }
with_multiple (summary editor) keys f = record f { editor = append_keys f.editor keys }
with_multiple (summary machine) keys f = record f { machine = append_keys f.machine keys }
with_multiple (summary label) keys f = record f { label = append_keys f.label keys }
with_multiple (summary branch) keys f = record f { branch = append_keys f.branch keys }
with_multiple (summary entity) keys f = record f { entity = append_keys f.entity keys }
with_multiple (summary category) keys f = record f { category = append_keys f.category keys }
with_multiple ai_model keys f = record f { ai_model = append_keys f.ai_model keys }
with_multiple unknown_type keys f = f

unfoldable pub new_filter_with_multiple : Entity → List Text → Filters
unfolding with_multiple
new_filter_with_multiple t keys = with_multiple t keys empty_filters

abbrev picked : Entity → OrFilter → Option (Entity × List Text)
picked t none = none
picked t (some fs) = some (t, fs)

unfoldable pub one : Filters → Option (Entity × List Text)
unfolding exists
one f =
    if exists f.project
    then picked (summary project) f.project
    else if exists f.os
    then picked (summary os) f.os
    else if exists f.language
    then picked (summary language) f.language
    else if exists f.editor
    then picked (summary editor) f.editor
    else if exists f.machine
    then picked (summary machine) f.machine
    else if exists f.label
    then picked (summary label) f.label
    else if exists f.branch
    then picked (summary branch) f.branch
    else if exists f.entity
    then picked (summary entity) f.entity
    else if exists f.category
    then picked (summary category) f.category
    else if exists f.ai_model
    then picked ai_model f.ai_model
    else none

pub record FilterElement : Type 0 where
  pub entity : Entity
  pub filter : List Text

unfoldable pub one_or_empty : Filters → FilterElement
unfolding one
one_or_empty f = elim (one f) [
  | some (t, fs) ↦ record { entity = t; filter = fs }
  | none ↦ record { entity = unknown_type; filter = [] }
]

unfoldable pub is_empty_filters : Filters → Bool
unfolding one
is_empty_filters f = elim (one f) [ some p ↦ false | none ↦ true ]

unfoldable pub count_by_type : Entity → Filters → ℕ
unfolding size resolve_type
count_by_type t f = size (resolve_type t f)

abbrev pub count_distinct : List SummaryType → Filters → ℕ
count_distinct [] f = 0
count_distinct (t ∷ ts) f =
    (if ltb 0 (count_by_type (summary t) f) then 1 else 0) + count_distinct ts f

unfoldable pub count_distinct_types : Filters → ℕ
unfolding count_by_type
count_distinct_types f = count_distinct summary_types f

unfoldable pub with_select_filtered_only : Filters → Filters
with_select_filtered_only f =
    if ltb 1 (count_distinct_types f) then f else record f { select_filtered_only = true }

abbrev pub allows : OrFilter → Text → Bool
allows none search = true
allows (some fs) search = match_any fs search

unfoldable pub match_heartbeat : Filters → Heartbeat → Bool
match_heartbeat f h =
    allows f.project h.project
    && allows f.os h.operating_system
    && allows f.language h.language
    && allows f.editor h.editor
    && allows f.machine h.machine
    && allows f.branch h.branch
    && allows f.entity h.entity
    && allows f.category h.category
    && allows f.ai_model h.ai_model

unfoldable pub match_duration : Filters → Duration → Bool
match_duration f d =
    allows f.project d.project
    && allows f.os d.operating_system
    && allows f.language d.language
    && allows f.editor d.editor
    && allows f.machine d.machine
    && allows f.branch d.branch
    && allows f.entity d.entity
    && allows f.category d.category
    && allows f.ai_model d.ai_model

unfoldable pub is_project_details : Option Filters → Bool
unfolding exists
is_project_details none = false
is_project_details (some f) = exists f.project
