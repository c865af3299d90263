-- ===== src/DurationService/Merge.antt =====
-- services/duration.go: merge, filter and getEffectiveTimeout, on the durations that are cached
-- and those that are computed live.
pub mod Order
pub mod Losses
use wakapi.Base.{
  ◌≡◌, Bool, true, false, not, ◌&&◌, List, [], ◌∷◌, ◌++◌, Option, none, some, Text, text_eq,
  is_empty, if◌then◌else◌, ℤ, pos, ◌+ℤ◌, ◌-ℤ◌, ltb_ℤ,
}
use wakapi.User.{User, heartbeats_timeout}
use wakapi.Duration.{Duration, Hasher, hashed, time_end, first, last}
use wakapi.Filters.{Filters, match_duration}

-- `d[0:len(d)-1]` and `d[1:len(d)-1]`, the latter for a list of more than one.
unfoldable pub but_last : List Duration → List Duration
but_last [] = []
but_last (d ∷ []) = []
but_last (d ∷ e ∷ ds) = d ∷ but_last (e ∷ ds)

unfoldable pub inner : List Duration → List Duration
inner [] = []
inner (d ∷ []) = []
inner (d ∷ e ∷ ds) = but_last (e ∷ ds)

-- What stands where the last duration of one list meets the first of the other.
unfoldable pub middle : Hasher → User → Duration → Duration → List Duration
middle hash user left right =
    let diff = right.time -ℤ time_end left in
    if ltb_ℤ diff (heartbeats_timeout user)
    then (if text_eq left.group_hash right.group_hash
        then hashed hash (record left {
          duration = left.duration +ℤ (diff +ℤ right.duration);
          num_heartbeats = left.num_heartbeats +ℤ right.num_heartbeats;
        })
          ∷ []
        else hashed hash (record left { duration = left.duration +ℤ diff }) ∷ [])
    else left ∷ right ∷ []

-- None is the error of an overlap.
unfoldable pub merge : Hasher → User → List Duration → List Duration → Option (List Duration)
merge hash user d1 d2 = elim (last d1) [
  | none ↦ some d2
  | some left ↦ elim (first d2) [
    | none ↦ some d1
    | some right ↦
        if ltb_ℤ right.time (time_end left)
        then none
        else some (but_last d1 ++ (middle hash user left right ++ inner d2))
  ]
]

unfoldable pub filter : Option Filters → User → List Duration → List Duration
filter filters user [] = []
filter filters user (d ∷ ds) =
    let rest = filter filters user ds in
    let passes : Bool = elim filters [ none ↦ true | some f ↦ match_duration f d ] in
    if not passes
    then rest
    else if user.exclude_unknown_projects && is_empty d.project
    then rest
    else d ∷ rest

unfoldable pub get_effective_timeout : User → Option ℤ → ℤ
get_effective_timeout user override = elim override [ none ↦ heartbeats_timeout user | some t ↦ t ]
