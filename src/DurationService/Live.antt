-- ===== src/DurationService/Live.antt =====
-- services/duration.go: getLive, which groups a stream of heartbeats into durations.
-- Go keeps the latest duration in `mapping` and changes it through a pointer; here it stands aside,
-- and is put into `mapping` when the next one takes its place. The length of the drained channel,
-- which the code tests at the end, is 0, so that this test never passes and is left out.
use wakapi.Base.{
  Bool, not, ◌&&◌, ◌||◌, List, [], ◌∷◌, ◌++◌, Option, none, some, Text, text_eq, if◌then◌else◌, ℤ,
  pos, ◌+ℤ◌, ◌-ℤ◌, ltb_ℤ, eqb_ℤ,
}
use wakapi.Runtime.{Runtime}
use wakapi.Table
use wakapi.Table.{Table}
use wakapi.User.{User}
use wakapi.Heartbeat.{Heartbeat}
use wakapi.Duration.{Duration, Hasher, from_heartbeat, hashed, sorted, time_end}

abbrev pub heartbeat_padding : ℤ
heartbeat_padding = pos 0

-- The time spent on each entity of a group, 0 where none is recorded.
abbrev pub EntityTimes : Type 0
EntityTimes = Text → Text → ℤ

unfoldable pub add_time : Text → Text → ℤ → EntityTimes → EntityTimes
add_time group entity n times g e =
    if text_eq g group && text_eq e entity then times g e +ℤ n else times g e

pub record Grouping : Type 0 where
  pub mapping : Table (List Duration)
  pub latest : Option Duration
  pub entity_times : EntityTimes

-- `mapping[d.GroupHash] = append(mapping[d.GroupHash], d)`
unfoldable pub push : Duration → Table (List Duration) → Table (List Duration)
push d m = elim (Table.get d.group_hash m) [
  | none ↦ Table.put d.group_hash (d ∷ []) m
  | some ds ↦ Table.put d.group_hash (ds ++ d ∷ []) m
]

unfoldable pub update_duration_entity : Duration → Heartbeat → EntityTimes → Duration × EntityTimes
unfolding add_time
update_duration_entity d h times =
    let times' = add_time d.group_hash h.entity d.duration times in
    if ltb_ℤ (times' d.group_hash d.entity) (times' d.group_hash h.entity)
    then (record d { entity = h.entity }, times')
    else (d, times')

-- The parameters of a call, the begin of a day in the time zone, and the hash of a group.
pub record LiveParams : Type 0 where
  pub user : User
  pub interval : ℤ
  pub include_entities : Bool
  pub begin_of_day : ℤ → ℤ
  pub hash : Hasher

unfoldable pub start_duration : LiveParams → Heartbeat → Duration
unfolding hashed
start_duration p h =
    let owner : Option User = elim h.user [ none ↦ some p.user | some u ↦ some u ] in
    let d = from_heartbeat (record h { user = owner }) in
    hashed p.hash (record d { timeout = p.interval; exclude_entity = not p.include_entities })

-- The time since the end of the latest duration, or none across a change of day.
unfoldable pub elapsed : LiveParams → Duration → Duration → ℤ
elapsed p latest d1 =
    if eqb_ℤ (p.begin_of_day d1.time) (p.begin_of_day latest.time)
    then d1.time -ℤ time_end latest
    else pos 0

unfoldable pub extended : LiveParams → Duration → Duration → Duration
extended p latest d1 =
    let dur = elapsed p latest d1 in
    record latest {
      duration = latest.duration +ℤ (if ltb_ℤ dur p.interval then dur else heartbeat_padding);
    }

unfoldable pub starts_new : LiveParams → Duration → Duration → Bool
starts_new p latest d1 =
    not (ltb_ℤ (elapsed p latest d1) p.interval)
    || not (text_eq latest.group_hash d1.group_hash)
    || not (eqb_ℤ (p.begin_of_day d1.time) (p.begin_of_day latest.time))

-- One heartbeat behind the latest duration.
unfoldable pub follow : LiveParams → Grouping → Duration → Duration → Heartbeat → Grouping
follow p g latest d1 h =
    let grown = extended p latest d1 in
    if starts_new p latest d1
    then record g { mapping = push grown g.mapping; latest = some d1 }
    else (let counted = record grown { num_heartbeats = grown.num_heartbeats +ℤ pos 1 } in
        let (d, times) = update_duration_entity counted h g.entity_times in
        record g { latest = some d; entity_times = times })

unfoldable pub group_round : LiveParams → Grouping → Heartbeat → Grouping
group_round p g h =
    let d1 = start_duration p h in
    elim g.latest [ none ↦ record g { latest = some d1 } | some latest ↦ follow p g latest d1 h ]

unfoldable pub group_all : LiveParams → Grouping → List Heartbeat → Grouping
group_all p g [] = g
group_all p g (h ∷ hs) = group_all p (group_round p g h) hs

abbrev pub nothing : Grouping
nothing = record { mapping = []; latest = none; entity_times = λ g e. pos 0 }

abbrev pub all_groups : Grouping → Table (List Duration)
all_groups g = elim g.latest [ none ↦ g.mapping | some d ↦ push d g.mapping ]

-- `slice.Flatten(maputil.Values(mapping))`
abbrev pub flatten_values : Table (List Duration) → List Duration
flatten_values [] = []
flatten_values ((k, ds) ∷ m) = ds ++ flatten_values m

unfoldable pub get_live : Runtime → LiveParams → List Heartbeat → List Duration
get_live rt p hs =
    sorted rt
      (flatten_values (rt.map_order (Text × List Duration) (all_groups (group_all p nothing hs))))
