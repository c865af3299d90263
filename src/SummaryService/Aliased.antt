-- ===== src/SummaryService/Aliased.antt =====
-- services/summary.go: Aliased, which caches a summary with its aliases resolved and its labels and
-- missing types filled in. The summary in the cache is the one that is sorted and handed out.
pub mod Times
use wakapi.Base.{
  ℕ, ◌≡◌, Bool, true, false, not, ◌&&◌, ◌||◌, List, [], ◌∷◌, ◌++◌, Option, none, some, Text, codes,
  text_eq, if◌then◌else◌, ℤ, pos, ◌*ℤ◌, quot_ℤ, eqb_ℤ, ◌==◌, any, keep, map,
}
use wakapi.Runtime.{Runtime}
use wakapi.Table.{Table, get, put}
use wakapi.Entity.{SummaryType, project, label, Entity, summary, entity_code}
use wakapi.User.{User}
use wakapi.Heartbeat.{Naming}
use wakapi.Filters.{Filters, exists, is_project_details}
use wakapi.Filters.Aliases.{with_aliases, with_project_labels}
use wakapi.AliasService.{Alias, Cache, get_filtered, get_alias_or_default, initialize_user}
use wakapi.Summary.{Summary, sorted, second}
use wakapi.Summary.Fill.{fill_by, fill_missing}
use wakapi.Summary.Aliases.{AliasResolver, with_resolved_aliases}
use wakapi.DurationService.Merge.{get_effective_timeout}
use wakapi.SummaryService.Labels.{ProjectLabel}
use wakapi.SummaryService.Labels

-- What Aliased reads of the other services: the aliases in the repository, the user's projects and
-- project labels, each none on an error; and the texts and the hash of which it makes a cache key.
pub record Lookups : Type 1 where
  pub runtime : Runtime
  pub naming : Naming
  pub is_match : Text → Text → Bool
  pub aliases : Option (List Alias)
  pub projects : Option (List Text)
  pub labels : Option (List ProjectLabel)
  pub show_time : ℤ → Text
  pub show_number : ℤ → Text
  pub hash : Option Filters → Text

-- `strings.Join(args, "__")`
unfoldable pub get_hash : List Text → Text
get_hash [] = []
get_hash (t ∷ []) = t
get_hash (t ∷ u ∷ ts) = t ++ (codes "__" ++ get_hash (u ∷ ts))

abbrev is_wildcard : ℕ → Bool
is_wildcard c = c == b'*' || c == b'?'

-- The values of the aliases, where a wildcard stands for the projects that it matches.
unfoldable pub alias_strings : (Text → Text → Bool) → List Text → List Alias → List Text
alias_strings is_match projects [] = []
alias_strings is_match projects (a ∷ xs) =
    let rest = alias_strings is_match projects xs in
    if any is_wildcard a.value then keep (is_match a.value) projects ++ rest else a.value ∷ rest

unfoldable pub alias_reverse_resolver : Lookups → Text → Cache → Entity → Text → List Text
unfolding alias_strings
alias_reverse_resolver w user c t k =
    let found =
      get_filtered user (λ a. text_eq a.key k && (entity_code a.type == entity_code t)) w.aliases
        c in
    alias_strings w.is_match (elim w.projects [ none ↦ [] | some ps ↦ ps ])
      (elim found.0 [ none ↦ [] | some xs ↦ xs ])

unfoldable pub project_labels_reverse_resolver : Lookups → Text → List Text
project_labels_reverse_resolver w k = elim w.labels [
  | none ↦ []
  | some ls ↦ map (λ l. l.project_key) (keep (λ l. text_eq l.label k) ls)
]

unfoldable pub alias_resolver : Lookups → Text → Cache → AliasResolver
alias_resolver w user c t k =
    (get_alias_or_default w.naming w.is_match user (summary t) k w.aliases c).0

unfoldable pub processed_filters : Lookups → Text → Cache → Option Filters → Option Filters
unfolding alias_reverse_resolver project_labels_reverse_resolver
processed_filters w user c none = none
processed_filters w user c (some f) =
    let g =
      if exists f.project then f else with_project_labels (project_labels_reverse_resolver w) f in
    some (with_aliases (alias_reverse_resolver w user c) g)

unfoldable pub without_details : Option Filters → Summary → Summary
without_details filters s =
    if is_project_details filters then s else record s { branches = []; entities = [] }

unfoldable pub post_processed : Lookups → Text → Cache → Option Filters → Summary → Summary
unfolding alias_resolver without_details
post_processed w user c filters s =
    let aliased = with_resolved_aliases (alias_resolver w user c) s in
    let labelled = Labels.with_project_labels w.runtime w.labels aliased in
    without_details filters (fill_missing (fill_by project label labelled))

-- Truncating to a second changes nothing.
unfoldable pub is_whole : ℤ → Bool
is_whole t = eqb_ℤ (quot_ℤ t second *ℤ pos second) t

unfoldable pub cache_key : Lookups → (from to : ℤ) → User → Option Filters → Option ℤ → Text
unfolding get_hash
cache_key w from to user filters custom_timeout = get_hash (
    w.show_time from
    ∷ w.show_time to
    ∷ user.id
    ∷ w.hash filters
    ∷ w.show_number (get_effective_timeout user custom_timeout)
    ∷ codes "--aliased"
    ∷ [])

abbrev pub Retriever : Type 0
Retriever = (from to : ℤ) → User → Option Filters → Option ℤ → Option Summary

-- The summary that the cache has and may be handed out.
unfoldable pub cached_summary :
    Lookups → (from to : ℤ) → (key : Text) → (skip_cache : Bool) → Table Summary → Option Summary
unfolding is_whole
cached_summary w from to key skip_cache cache =
    if is_whole to && is_whole from && not skip_cache then get key cache else none

-- The summary or an error, the cache, the cache of aliases, and the caller's filters: on a miss labels
-- and aliases are put into them where they are.
unfoldable pub aliased :
    Lookups
    → (from to : ℤ) → User
    → Retriever
    → Option Filters
    → Option ℤ
    → (skip_cache : Bool) → Table Summary
    → Cache
    → Option Summary × Table Summary × Cache × Option Filters
aliased w from to user f filters custom_timeout skip_cache cache c =
    let key = cache_key w from to user filters custom_timeout in
    elim (cached_summary w from to key skip_cache cache) [
      | some s ↦ (some (sorted w.runtime s), put key (sorted w.runtime s) cache, c, filters)
      | none ↦
          let used = processed_filters w user.id c filters in
          let c' = initialize_user user.id w.aliases c in
          elim w.aliases [
            | none ↦ (none, cache, c', used)
            | some xs ↦ elim (f from to user used custom_timeout) [
              | none ↦ (none, cache, c', used)
              | some s ↦
                  let whole = sorted w.runtime (post_processed w user.id c' used s) in
                  (some whole, put key whole cache, c', used)
            ]
          ]
    ]

-- `invalidateUserCache`: the keys that contain the user's id.
unfoldable pub has_prefix : Text → Text → Bool
has_prefix [] t = true
has_prefix (x ∷ p) [] = false
has_prefix (x ∷ p) (y ∷ t) = (x == y) && has_prefix p t

unfoldable pub contains_text : Text → Text → Bool
unfolding has_prefix
contains_text p [] = has_prefix p []
contains_text p (x ∷ t) = has_prefix p (x ∷ t) || contains_text p t

unfoldable pub invalidate_user_cache : Text → Table Summary → Table Summary
unfolding contains_text
invalidate_user_cache user cache = keep (λ e. not (contains_text user e.0)) cache

-- DeleteByUser, DeleteByUserBefore, DeleteByUserAfter and Insert: the user's summaries leave the cache,
-- whether or not the repository does what it is asked for, which is the answer.
unfoldable pub change_summaries :
    (user : Text) → (changed : Bool) → Table Summary → Bool × Table Summary
unfolding invalidate_user_cache
change_summaries user changed cache = (changed, invalidate_user_cache user cache)
