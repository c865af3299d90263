-- ===== src/Duration.antt =====
-- models/duration.go and models/durations.go: a duration is a span of activity in one group.
pub mod Mappings
use wakapi.Base.{
  ℕ, ◌+◌, Bool, true, false, ◌||◌, List, [], ◌∷◌, ◌++◌, Option, none, some, Text, text_eq, is_empty,
  if◌then◌else◌, ℤ, pos, negsuc, ◌&&◌, ◌+ℤ◌, ltb_ℤ, ◌==◌, sum_by,
}
use wakapi.Entity.{
  project, language, editor, os, machine, label, branch, entity, category, Entity, summary,
  ai_model, unknown_type,
}
use wakapi.User.{heartbeats_timeout, default_heartbeats_timeout}
use wakapi.Heartbeat.{Heartbeat, or_unknown}
use wakapi.Runtime.{Runtime}
use wakapi.Table.{Table}

pub record Duration : Type 0 where
  pub id : ℕ
  pub user_id : Text
  pub time : ℤ
  pub duration : ℤ
  pub project : Text
  pub language : Text
  pub editor : Text
  pub operating_system : Text
  pub machine : Text
  pub category : Text
  pub ai_model : Text
  pub branch : Text
  pub entity : Text
  pub extension : Text
  pub num_heartbeats : ℤ
  pub group_hash : Text
  pub timeout : ℤ
  pub exclude_entity : Bool

unfoldable pub time_end : Duration → ℤ
time_end d = d.time +ℤ d.duration

-- `filename[strings.LastIndexAny(filename, "/\\")+1:]`
unfoldable pub base_name : Text → Text → Text
base_name seen [] = seen
base_name seen (c ∷ cs) = base_name (if c == b'/' || c == b'\\' then [] else seen ++ c ∷ []) cs

-- `strings.Split(s, ".")`
unfoldable pub split_dots : Text → Text → List Text
split_dots part [] = part ∷ []
split_dots part (c ∷ cs) = elim (c == b'.') [
  | true ↦ part ∷ split_dots [] cs
  | false ↦ split_dots (part ++ c ∷ []) cs
]

-- `strings.Join(parts, ".")`
unfoldable pub join_dots : List Text → Text
join_dots [] = []
join_dots (p ∷ []) = p
join_dots (p ∷ q ∷ ps) = p ++ (b'.' ∷ join_dots (q ∷ ps))

-- `parts[start:]`, at `start = max(len(parts)-2, 1)` for more than one part.
unfoldable pub last_two : List Text → List Text
last_two [] = []
last_two (p ∷ []) = []
last_two (p ∷ q ∷ []) = q ∷ []
last_two (p ∷ q ∷ r ∷ []) = q ∷ r ∷ []
last_two (p ∷ q ∷ r ∷ s ∷ ps) = last_two (q ∷ r ∷ s ∷ ps)

unfoldable pub file_extension : Text → Text
unfolding base_name split_dots join_dots last_two
file_extension path = join_dots (last_two (split_dots [] (base_name [] path)))

unfoldable pub from_heartbeat : Heartbeat → Duration
unfolding file_extension heartbeats_timeout
from_heartbeat h = record {
  id = 0;
  user_id = h.user_id;
  time = h.time;
  duration = pos 0;
  project = h.project;
  language = h.language;
  editor = h.editor;
  operating_system = h.operating_system;
  machine = h.machine;
  category = h.category;
  ai_model = h.ai_model;
  branch = h.branch;
  entity = h.entity;
  extension = file_extension h.entity;
  num_heartbeats = pos 1;
  group_hash = [];
  timeout = elim h.user [
    | none ↦ default_heartbeats_timeout
    | some u ↦
        if ltb_ℤ (pos 0) (heartbeats_timeout u)
        then heartbeats_timeout u
        else default_heartbeats_timeout
  ];
  exclude_entity = false;
}

-- The hash of the fields that `HashInclude` lets through, by the hashstructure package.
pub record GroupFields : Type 0 where
  pub user_id : Text
  pub project : Text
  pub language : Text
  pub editor : Text
  pub operating_system : Text
  pub machine : Text
  pub category : Text
  pub ai_model : Text
  pub branch : Text
  pub entity : Option Text
  pub extension : Text

unfoldable pub group_fields : Duration → GroupFields
group_fields d = record {
  user_id = d.user_id;
  project = d.project;
  language = d.language;
  editor = d.editor;
  operating_system = d.operating_system;
  machine = d.machine;
  category = d.category;
  ai_model = d.ai_model;
  branch = d.branch;
  entity = if d.exclude_entity then none else some d.entity;
  extension = d.extension;
}

abbrev pub Hasher : Type 0
Hasher = GroupFields → Text

unfoldable pub hashed : Hasher → Duration → Duration
unfolding group_fields
hashed hash d = record d { group_hash = hash (group_fields d) }

-- `strings.HasSuffix`, and `strings.Count` of dots.
unfoldable pub has_suffix : Text → Text → Bool
has_suffix [] suffix = is_empty suffix
has_suffix (c ∷ cs) suffix = text_eq (c ∷ cs) suffix || has_suffix cs suffix

unfoldable pub count_dots : Text → ℕ
count_dots [] = 0
count_dots (c ∷ cs) = let n = count_dots cs in if c == b'.' then n + 1 else n

-- One round of the loop over the mappings, for a name that ends in an extension, with the precision and the language so far.
unfoldable pub augment_round : Text → ℤ × Text → Text × Text → ℤ × Text
augment_round name (max_prec, found) (ext, target) =
    if has_suffix name (b'.' ∷ ext) && ltb_ℤ max_prec (pos (count_dots ext))
    then (pos (count_dots ext), target)
    else (max_prec, found)

unfoldable pub augment_loop : Text → ℤ × Text → Table Text → ℤ × Text
augment_loop name best [] = best
augment_loop name best (m ∷ ms) = augment_loop name (augment_round name best m) ms

unfoldable pub augmented : Runtime → Table Text → Duration → Duration
augmented rt mappings d = record d {
  language =
      (augment_loop (b'.' ∷ d.extension) (negsuc 0, d.language)
        (rt.map_order (Text × Text) mappings)).1;
}

unfoldable pub get_key : Entity → Duration → Text
get_key (summary project) d = or_unknown d.project
get_key (summary editor) d = or_unknown d.editor
get_key (summary language) d = or_unknown d.language
get_key (summary os) d = or_unknown d.operating_system
get_key (summary machine) d = or_unknown d.machine
get_key (summary branch) d = or_unknown d.branch
get_key (summary entity) d = or_unknown d.entity
get_key (summary category) d = or_unknown d.category
get_key (summary label) d = or_unknown []
get_key ai_model d = or_unknown d.ai_model
get_key unknown_type d = or_unknown []

-- models/durations.go
unfoldable pub total_num_heartbeats : List Duration → ℤ
total_num_heartbeats ds = sum_by (λ d. d.num_heartbeats) ds

abbrev pub by_time : Duration → Duration → Bool
by_time a b = ltb_ℤ a.time b.time

unfoldable pub sorted : Runtime → List Duration → List Duration
sorted rt ds = rt.sort Duration by_time ds

unfoldable pub first : List Duration → Option Duration
first [] = none
first (d ∷ ds) = some d

unfoldable pub last : List Duration → Option Duration
last [] = none
last (d ∷ []) = some d
last (d ∷ e ∷ ds) = last (e ∷ ds)
