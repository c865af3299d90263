-- ===== src/ProjectService.antt =====
-- services/project.go and models/project_stats.go: the statistics of a user's projects, merged by alias.
-- GetAliasOrDefault for projects, `strings.ToLower` and the texts of cache keys are parameters.
pub mod Merged
pub mod Answered
use wakapi.Base.{
  ℕ, ◌+◌, Bool, true, false, ◌||◌, ◌&&◌, not, List, [], ◌∷◌, Option, none, some, Text, is_empty,
  if◌then◌else◌, ℤ, pos, ◌+ℤ◌, ltb_ℤ, keep, map, ◌==◌,
}
use wakapi.Runtime.{Runtime}
use wakapi.Table.{Table, get, put, measure}
use wakapi.Collections.{sub_slice}
use wakapi.SummaryService.Aliased.{contains_text}

pub record ProjectStats : Type 0 where
  pub user_id : Text
  pub project : Text
  pub top_language : Text
  pub count : ℤ
  pub first : ℤ
  pub last : ℤ

-- `merged` and `maxCounts`
abbrev pub Merging : Type 0
Merging = Table ProjectStats × Table ℤ

abbrev pub grow : (better : Bool) → (stats existing : ProjectStats) → ProjectStats
grow better stats existing = record existing {
  count = existing.count +ℤ stats.count;
  first = if ltb_ℤ stats.first existing.first then stats.first else existing.first;
  last = if ltb_ℤ existing.last stats.last then stats.last else existing.last;
  top_language = if better then stats.top_language else existing.top_language;
}

unfoldable pub merge_one : (resolve : Text → Text) → ProjectStats → Merging → Merging
merge_one resolve stats (merged, max_counts) =
    let key = resolve stats.project in
    let better = ltb_ℤ (measure (λ n. n) (get key max_counts)) stats.count in
    elim (get key merged) [
      | some existing ↦ (
        put key (grow better stats existing) merged,
        if better then put key stats.count max_counts else max_counts,
      )
      | none ↦ (put key (record stats { project = key }) merged, put key stats.count max_counts)
    ]

unfoldable pub merge_stats : (resolve : Text → Text) → List ProjectStats → Merging → Merging
unfolding merge_one
merge_stats resolve [] m = m
merge_stats resolve (s ∷ ss) m = merge_stats resolve ss (merge_one resolve s m)

unfoldable pub is_found : (to_lower : Text → Text) → (search : Text) → ProjectStats → Bool
is_found to_lower search v = is_empty search || contains_text (to_lower search) (to_lower v.project)

abbrev pub by_last : ProjectStats → ProjectStats → Bool
by_last a b = ltb_ℤ b.last a.last

unfoldable pub aggregated_stats :
    Runtime
    → (resolve to_lower : Text → Text) → (search : Text) → List ProjectStats
    → List ProjectStats
unfolding merge_stats is_found
aggregated_stats rt resolve to_lower search raw =
    let merged = rt.map_order (Text × ProjectStats) (merge_stats resolve raw ([], [])).0 in
    rt.sort ProjectStats by_last (keep (is_found to_lower search) (map (λ e. e.1) merged))

pub data StatsOutcome : Type 0 where
  answered : List ProjectStats → StatsOutcome
  failed crashed : StatsOutcome

-- `math.MaxInt32`
abbrev pub max_limit : ℕ
max_limit = 2147483647

-- The statistics and the cache, whose keys are of the user, the times, the limit, the offset and the
-- search. `found` is the repository's answer, none on an error.
unfoldable pub get_user_project_stats :
    Runtime
    → (resolve to_lower : Text → Text) → (cache_key : ℕ → ℕ → Text → Text)
    → (found : Option (List ProjectStats)) → (limit offset : ℕ) → (search : Text)
    → (skip_cache : Bool) → Table (List ProjectStats)
    → StatsOutcome × Table (List ProjectStats)
get_user_project_stats rt resolve to_lower cache_key found limit offset search skip_cache cache =
    let key = cache_key limit offset search in
    let full_key = cache_key max_limit 0 [] in
    let part = λ (xs : List ProjectStats). sub_slice xs offset (offset + limit) in
    let own = if skip_cache then none else get key cache in
    let full = if skip_cache || not (is_empty search) then none else get full_key cache in
    elim own [
      | some xs ↦ (answered xs, cache)
      | none ↦ elim full [
        | some xs ↦ elim (part xs) [ none ↦ (crashed, cache) | some ys ↦ (answered ys, cache) ]
        | none ↦ elim found [
          | none ↦ (failed, cache)
          | some raw ↦
              let whole = aggregated_stats rt resolve to_lower search raw in
              elim (part whole) [
                | none ↦ (crashed, cache)
                | some ys ↦ (
                  answered ys,
                  if is_empty search && not ((limit == max_limit) && (offset == 0))
                      then put full_key whole (put key ys cache)
                      else put key ys cache,
                )
              ]
        ]
      ]
    ]
