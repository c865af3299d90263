-- ===== src/Summary.antt =====
-- models/summary.go: a summary, its nine lists of items, and what is computed from them.
-- An item's total is in seconds; a `time.Duration` is in nanoseconds. Both are integers without a
-- bound here: an `int64` of nanoseconds overflows after 292 years of activity.
pub mod Totals
pub mod Fill
pub mod Missing
pub mod Aliases
pub mod Kept
pub mod Apply
use wakapi.Base.{
  ℕ, ◌+◌, ◌≡◌, refl, Bool, true, false, not, ◌&&◌, ◌||◌, List, [], ◌∷◌, ◌++◌, Option, none, some,
  Text, text_eq, if◌then◌else◌, ℤ, pos, ◌+ℤ◌, ◌-ℤ◌, ◌*ℤ◌, ltb_ℤ, eqb_ℤ, quot_ℤ, sum_by, keep, any,
  null, foldl,
}
use wakapi.Entity.{
  SummaryType, project, language, editor, os, machine, label, branch, entity, category, Entity,
  summary, ai_model, unknown_type, same_type, summary_types, unknown_summary_key,
  default_project_label,
}
use wakapi.Runtime.{Runtime}

pub record Item : Type 0 where
  pub id : ℕ
  pub summary_id : ℕ
  pub type : SummaryType
  pub key : Text
  pub total : ℤ

-- A time.Time is an instant and the address of a *Location. Only that of the start is read, where starts
-- are compared by `==`; `In`, which changes it, keeps the instant.
pub record Summary : Type 0 where
  pub id : ℕ
  pub user_id : Text
  pub from_time : ℤ
  pub to_time : ℤ
  pub location : ℕ
  pub projects : List Item
  pub languages : List Item
  pub editors : List Item
  pub operating_systems : List Item
  pub machines : List Item
  pub labels : List Item
  pub branches : List Item
  pub entities : List Item
  pub categories : List Item
  pub num_heartbeats : ℤ

-- `item.Total * time.Second`
abbrev pub second : ℕ
second = 1000000000

unfoldable pub seconds : ℤ → ℤ
unfolding ◌*ℤ◌
seconds n = n *ℤ pos second

unfoldable pub get_by_type : SummaryType → Summary → List Item
get_by_type project s = s.projects
get_by_type language s = s.languages
get_by_type editor s = s.editors
get_by_type os s = s.operating_systems
get_by_type machine s = s.machines
get_by_type label s = s.labels
get_by_type branch s = s.branches
get_by_type entity s = s.entities
get_by_type category s = s.categories

unfoldable pub set_by_type : SummaryType → List Item → Summary → Summary
set_by_type project items s = record s { projects = items }
set_by_type language items s = record s { languages = items }
set_by_type editor items s = record s { editors = items }
set_by_type os items s = record s { operating_systems = items }
set_by_type machine items s = record s { machines = items }
set_by_type label items s = record s { labels = items }
set_by_type branch items s = record s { branches = items }
set_by_type entity items s = record s { entities = items }
set_by_type category items s = record s { categories = items }

-- `sort.Sort(sort.Reverse(items))` puts the greatest total first.
abbrev pub by_total : Item → Item → Bool
by_total i j = ltb_ℤ j.total i.total

unfoldable pub sorted : Runtime → Summary → Summary
sorted rt s = record s {
  projects = rt.sort Item by_total s.projects;
  machines = rt.sort Item by_total s.machines;
  operating_systems = rt.sort Item by_total s.operating_systems;
  languages = rt.sort Item by_total s.languages;
  editors = rt.sort Item by_total s.editors;
  labels = rt.sort Item by_total s.labels;
  branches = rt.sort Item by_total s.branches;
  entities = rt.sort Item by_total s.entities;
  categories = rt.sort Item by_total s.categories;
}

unfoldable pub total_time_by : SummaryType → Summary → ℤ
unfolding get_by_type
total_time_by t s = sum_by (λ i. seconds i.total) (get_by_type t s)

unfoldable pub total_time_by_key : SummaryType → Text → Summary → ℤ
unfolding get_by_type
total_time_by_key t key s =
    sum_by (λ i. if not (text_eq i.key key) then pos 0 else seconds i.total) (get_by_type t s)

-- `findFirstPresentType`, whose loop runs over the types; `none` is its error.
unfoldable pub first_present : List SummaryType → Summary → Option SummaryType
first_present [] s = none
first_present (t ∷ ts) s =
    if not (eqb_ℤ (total_time_by t s) (pos 0)) then some t else first_present ts s

unfoldable pub find_first_present_type : Summary → Option SummaryType
unfolding first_present
find_first_present_type s = first_present summary_types s

unfoldable pub total_time : Summary → ℤ
unfolding find_first_present_type
total_time s = elim (find_first_present_type s) [
  | none ↦ pos 0
  | some t ↦ seconds (sum_by (λ i. i.total) (get_by_type t s))
]

-- The first item of the greatest total.
unfoldable pub max_of : Option Item → List Item → Option Item
max_of best [] = best
max_of none (i ∷ is) = max_of (some i) is
max_of (some m) (i ∷ is) = max_of (some (if ltb_ℤ m.total i.total then i else m)) is

unfoldable pub max_by : SummaryType → Summary → Option Item
unfolding max_of
max_by t s = max_of none (get_by_type t s)

unfoldable pub max_by_to_string : SummaryType → Summary → Text
unfolding max_by
max_by_to_string t s = elim (max_by t s) [ none ↦ b'-' ∷ [] | some m ↦ m.key ]

-- `types` lists the keys of the map that are set to true.
unfoldable pub has_type : Entity → List Entity → Bool
has_type t [] = false
has_type (summary t) (summary u ∷ us) = same_type t u || has_type (summary t) us
has_type t (u ∷ us) = has_type t us

unfoldable pub drop_unless : List Entity → List SummaryType → Summary → Summary
drop_unless types [] s = s
drop_unless types (t ∷ ts) s =
    drop_unless types ts (if has_type (summary t) types then s else set_by_type t [] s)

unfoldable pub keep_only : List Entity → Summary → Summary
unfolding drop_unless
keep_only types s = if null types then s else drop_unless types summary_types s
