-- ===== src/DurationService/Get.antt =====
-- services/duration.go: Get, which takes durations from the cache, fills in what is missing from
-- heartbeats, and filters the whole.
use wakapi.Base.{
  ◌>>=◌, ◌≡◌, sym, subst, Bool, true, false, not, ◌&&◌, ◌||◌, List, [], ◌∷◌, Option, none, some,
  Option-cases, some_inj, some_ne_none, Text, is_empty, if◌then◌else◌, Bool-cases, inl, inr, ℤ, pos,
  ◌+ℤ◌, ltb_ℤ, eqb_ℤ, All, map,
}
use wakapi.User.{User, heartbeats_timeout}
use wakapi.Runtime.{Runtime}
use wakapi.Table.{Table}
use wakapi.Entity.{SummaryType, summary, native_summary_types}
use wakapi.Heartbeat.{Heartbeat}
use wakapi.Duration.{Duration, Hasher, time_end, last, augmented, sorted}
use wakapi.DurationService.Live.{get_live}
use wakapi.Filters.{Filters, match_duration, is_project_details, resolve_type}
use wakapi.DurationService.Merge.{merge, filter, get_effective_timeout}

-- The types that have a database column, with the alternatives that filter it. A type stands for
-- its column.
unfoldable pub column_map : Option Filters → List SummaryType → List (SummaryType × List Text)
column_map none ts = []
column_map (some f) [] = []
column_map (some f) (t ∷ ts) =
    let rest = column_map (some f) ts in
    elim (resolve_type (summary t) f) [
      | none ↦ rest
      | some [] ↦ rest
      | some (k ∷ ks) ↦ (t, k ∷ ks) ∷ rest
    ]

-- What Get reads, for one user: heartbeats and stored durations between two times, and the language
-- mappings; none is an error. The begin of a day and the hash are those of `getLive`.
pub record Reads : Type 0 where
  pub heartbeats : ℤ → ℤ → Option (List Heartbeat)
  pub durations : ℤ → ℤ → List (SummaryType × List Text) → Option (List Duration)
  pub mappings : Option (Table Text)
  pub begin_of_day : ℤ → ℤ
  pub hash : Hasher

unfoldable pub get_cached :
    Runtime → Reads → Option Filters → (start end : ℤ) → Option (List Duration)
get_cached rt reads filters start end = do
  mappings ← reads.mappings
  ds ← reads.durations start end (column_map filters native_summary_types)
  some (sorted rt (map (augmented rt mappings) ds))

unfoldable pub live_between :
    Runtime → Reads → User → Option Filters → (timeout start end : ℤ) → Option (List Duration)
live_between rt reads user filters timeout start end = do
  hs ← reads.heartbeats start end
  some (
      get_live rt
        (record {
          user = user;
          interval = timeout;
          include_entities = is_project_details filters;
          begin_of_day = reads.begin_of_day;
          hash = reads.hash;
        })
        hs)

-- An error of the mappings is ignored here, and leaves none.
abbrev all_augmented : Runtime → Reads → List Duration → List Duration
all_augmented rt reads ds = map (augmented rt (elim reads.mappings [ none ↦ [] | some m ↦ m ])) ds

abbrev pub one_second : ℤ
one_second = pos 1000000000

unfoldable pub skips_cache : User → Option Filters → Option ℤ → Bool → Bool
skips_cache user filters custom_timeout skip_cache =
    skip_cache
    || not (eqb_ℤ (get_effective_timeout user custom_timeout) (heartbeats_timeout user))
    || is_project_details filters

-- The start of what is missing behind the cached durations, where something is.
unfoldable pub missing_from : ℤ → ℤ → List Duration → Option ℤ
missing_from start end cached = elim (last cached) [
  | none ↦ some start
  | some d ↦ if ltb_ℤ (time_end d) end then some (time_end d +ℤ one_second) else none
]

abbrev cached_or_empty : Option (List Duration) → List Duration
cached_or_empty found = elim found [ none ↦ [] | some ds ↦ ds ]

-- The branch that recomputes live, and the one that goes by the cache.
unfoldable pub recomputed :
    Runtime → Reads → User → Option Filters → (timeout start end : ℤ) → Option (List Duration)
recomputed rt reads user filters timeout start end = do
  durations ← live_between rt reads user filters timeout start end
  some (filter filters user (all_augmented rt reads durations))

unfoldable pub filled :
    Runtime → Reads → User → Option Filters → (timeout start end : ℤ) → Option (List Duration)
filled rt reads user filters timeout start end =
    let cached = cached_or_empty (get_cached rt reads filters start end) in
    elim (missing_from start end cached) [
      | none ↦ some (filter filters user cached)
      | some from ↦ do
        missing ← live_between rt reads user filters timeout from end
        durations ← merge reads.hash user cached (all_augmented rt reads missing)
        some (filter filters user durations)
    ]

unfoldable pub get :
    Runtime
    → Reads
    → User
    → Option Filters
    → Option ℤ
    → Bool
    → (start end : ℤ) → Option (List Duration)
get rt reads user filters custom_timeout skip_cache start end =
    let timeout = get_effective_timeout user custom_timeout in
    if skips_cache user filters custom_timeout skip_cache
    then recomputed rt reads user filters timeout start end
    else filled rt reads user filters timeout start end

-- A duration that the filters let through, of a project where the user leaves out those of none.
abbrev pub Passes : Option Filters → User → Duration → Type 0
Passes filters user d =
    (elim filters [ none ↦ true | some f ↦ match_duration f d ] ≡ true)
    × ((user.exclude_unknown_projects && is_empty d.project) ≡ false)

filter-Passes :
    (filters : Option Filters) (user : User) (ds : List Duration)
    → All (Passes filters user) (filter filters user ds)
unfolding filter
filter-Passes filters user [] = tt
filter-Passes filters user (d ∷ ds) =
    let later = filter-Passes filters user ds in
    elim (Bool-cases (elim filters [ none ↦ true | some f ↦ match_duration f d ])) [
      | inr e ↦ rw e later
      | inl e ↦ rw e (elim (Bool-cases (user.exclude_unknown_projects && is_empty d.project)) [
        | inl k ↦ rw k later
        | inr k ↦ rw k (((e, k)), later)
      ])
    ]

module _ (filters : Option Filters) (user : User) where
  filtered-Passes :
      (ds found : List Duration)
      → some (filter filters user ds) ≡ some found
      → All (Passes filters user) found
  filtered-Passes ds found e =
      subst (All (Passes filters user)) (some_inj e) (filter-Passes filters user ds)

  recomputed-Passes :
      (rt : Runtime) (reads : Reads) (timeout start end : ℤ) (found : List Duration)
      → recomputed rt reads user filters timeout start end ≡ some found
      → All (Passes filters user) found
  unfolding recomputed
  recomputed-Passes rt reads timeout start end found h =
      elim (Option-cases (live_between rt reads user filters timeout start end)) [
        | inl e ↦ absurd (some_ne_none (sym (rw (e, recomputed) at h)))
        | inr (ds, e) ↦ filtered-Passes (all_augmented rt reads ds) found (rw (e, recomputed) at h)
      ]

  filled-Passes :
      (rt : Runtime) (reads : Reads) (timeout start end : ℤ) (found : List Duration)
      → filled rt reads user filters timeout start end ≡ some found
      → All (Passes filters user) found
  unfolding filled
  filled-Passes rt reads timeout start end found h =
      let cached = cached_or_empty (get_cached rt reads filters start end) in
      elim (Option-cases (missing_from start end cached)) [
        | inl e ↦ filtered-Passes cached found (rw (e, filled) at h)
        | inr (from, e) ↦
            elim (Option-cases (live_between rt reads user filters timeout from end)) [
              | inl k ↦ absurd (some_ne_none (sym (rw (e, k, filled) at h)))
              | inr (missing, k) ↦
                  elim (Option-cases
                    (merge reads.hash user cached (all_augmented rt reads missing))) [
                      | inl m ↦ absurd (some_ne_none (sym (rw (e, k, m, filled) at h)))
                      | inr (ds, m) ↦ filtered-Passes ds found (rw (e, k, m, filled) at h)
                    ]
            ]
      ]

-- Whatever Get returns without an error, from the cache or not, the filters let through, and where
-- the user leaves out unknown projects it is of a project.
pub get-Passes :
    (rt : Runtime) (reads : Reads) (user : User) (filters : Option Filters)
    (custom_timeout : Option ℤ) (skip_cache : Bool) (start end : ℤ) (found : List Duration)
    → get rt reads user filters custom_timeout skip_cache start end ≡ some found
    → All (Passes filters user) found
unfolding get
get-Passes rt reads user filters custom_timeout skip_cache start end found h =
    elim (Bool-cases (skips_cache user filters custom_timeout skip_cache)) [
      | inl e ↦ recomputed-Passes filters user rt reads _ start end found (rw e at h)
      | inr e ↦ filled-Passes filters user rt reads _ start end found (rw e at h)
    ]
