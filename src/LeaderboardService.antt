-- ===== src/LeaderboardService.antt =====
-- services/leaderboard.go and the deletions of repositories/leaderboard.go: the items of the leaderboard,
-- which are generated from the users' summaries. A user is given by the id. An item that is stored is
-- one of rank 0, whose id and time of creation are left to the database.
pub mod Generated
use wakapi.Base.{
  ℕ, Bool, true, false, not, ◌&&◌, List, [], ◌∷◌, ◌++◌, Option, none, some, Text, text_eq,
  if◌then◌else◌, ℤ, pos, ◌-ℤ◌, ltb_ℤ, any, keep,
}
use wakapi.Table.{Table, get, put}
use wakapi.Entity.{SummaryType, language, type_code, unknown_summary_key}
use wakapi.User.{default_heartbeats_timeout}
use wakapi.Summary.{Item, Summary, get_by_type, total_time, total_time_by_key}
use wakapi.Intervals.{Dates, IntervalKey, aliases, has_alias, resolve_interval_tz}
use wakapi.Leaderboard.{LeaderboardItem, Leaderboard}

-- What the service reads: the dates in the user's time zone, the summary that Aliased gives for a range
-- and a timeout, none on an error; and whether a deletion, an insertion and a count succeed.
pub record Answers : Type 0 where
  pub dates : Text → Dates
  pub aliased : Text → ℤ → ℤ → (timeout : Option ℤ) → Option Summary
  pub deletes : Text → Bool
  pub inserts : Leaderboard → Bool
  pub counts : Text → Bool

-- `(*interval)[0]`
first_or_empty : List Text → Text
first_or_empty [] = []
first_or_empty (t ∷ ts) = t

unfoldable pub interval_name : IntervalKey → Text
unfolding aliases first_or_empty
interval_name k = first_or_empty (aliases k)

unfoldable pub board_item :
    Text → IntervalKey → (by : Option ℕ) → (total : ℤ) → (key : Option Text) → LeaderboardItem
board_item user k by total key = record {
  id = 0;
  user_id = user;
  interval = interval_name k;
  by = by;
  total = total;
  key = key;
  created_at = pos 0;
  rank = 0;
}

unfoldable pub generate_by_user : Answers → IntervalKey → Text → Option LeaderboardItem
generate_by_user a k user =
    let range = resolve_interval_tz (a.dates user) k in
    elim (a.aliased user range.0 range.1 (some default_heartbeats_timeout)) [
      | none ↦ none
      | some s ↦ some (
          board_item user k none (total_time s -ℤ total_time_by_key language unknown_summary_key s)
            none)
    ]

unfoldable pub aggregated_items :
    IntervalKey → SummaryType → Text → Summary → List Item → Leaderboard
aggregated_items k by user s [] = []
aggregated_items k by user s (i ∷ is) =
    let rest = aggregated_items k by user s is in
    if text_eq i.key unknown_summary_key
    then rest
    else board_item user k (some (type_code by)) (total_time_by_key by i.key s) (some i.key) ∷ rest

unfoldable pub generate_aggregated_by_user :
    Answers → IntervalKey → Text → SummaryType → Option Leaderboard
unfolding aggregated_items
generate_aggregated_by_user a k user by =
    let range = resolve_interval_tz (a.dates user) k in
    elim (a.aliased user range.0 range.1 none) [
      | none ↦ none
      | some s ↦ some (aggregated_items k by user s (get_by_type by s))
    ]

-- DeleteByUserAndInterval deletes these.
unfoldable pub is_of : Text → IntervalKey → LeaderboardItem → Bool
is_of user k i = text_eq i.user_id user && has_alias i.interval k

unfoldable pub insert_items : Answers → Option Leaderboard → Leaderboard → Leaderboard
insert_items a none store = store
insert_items a (some []) store = store
insert_items a (some (i ∷ is)) store = if a.inserts (i ∷ is) then store ++ i ∷ is else store

unfoldable pub compute_aggregated :
    Answers → IntervalKey → List SummaryType → Text → Leaderboard → Leaderboard
unfolding insert_items generate_aggregated_by_user
compute_aggregated a k [] user store = store
compute_aggregated a k (by ∷ bys) user store =
    compute_aggregated a k bys user (insert_items a (generate_aggregated_by_user a k user by) store)

unfoldable pub compute_user :
    Answers → IntervalKey → List SummaryType → Text → Leaderboard → Leaderboard
unfolding compute_aggregated generate_by_user is_of
compute_user a k bys user store =
    let cleared = keep (λ i. not (is_of user k i)) store in
    if not (a.deletes user) then store else elim (generate_by_user a k user) [
      | none ↦ cleared
      | some item ↦
          if a.inserts (item ∷ [])
          then compute_aggregated a k bys user (cleared ++ item ∷ [])
          else cleared
    ]

unfoldable pub compute_users :
    Answers → IntervalKey → List SummaryType → List Text → Leaderboard → Leaderboard
unfolding compute_user
compute_users a k bys [] store = store
compute_users a k bys (u ∷ us) store = compute_users a k bys us (compute_user a k bys u store)

-- ComputeLeaderboard gives the stored items and the cache, which it flushes.
unfoldable pub compute_leaderboard :
    Answers
    → List Text
    → IntervalKey
    → List SummaryType
    → Leaderboard × Table Leaderboard
    → Leaderboard × Table Leaderboard
unfolding compute_users
compute_leaderboard a users k bys (store, cache) = (compute_users a k bys users store, [])

-- A count that fails is 0.
unfoldable pub exists_any_by_user : Answers → Text → Leaderboard → Bool
exists_any_by_user a user store = a.counts user && any (λ i. text_eq i.user_id user) store

-- What is done when the settings of a user have changed.
unfoldable pub on_user_update :
    Answers
    → (default_scope : IntervalKey) → Text
    → (public_leaderboard : Bool) → Leaderboard × Table Leaderboard
    → Leaderboard × Table Leaderboard
unfolding compute_leaderboard exists_any_by_user
on_user_update a default_scope user public_leaderboard (store, cache) =
    let exists = exists_any_by_user a user store in
    if public_leaderboard && not exists
    then compute_leaderboard a (user ∷ []) default_scope (language ∷ []) (store, cache)
    else if not public_leaderboard && exists
    then (if a.deletes user then keep (λ i. not (text_eq i.user_id user)) store else store, [])
    else (store, cache)

-- CountUsers, where the query gives a count and whether it has failed.
unfoldable pub count_users :
    (cache_key : Bool → Text)
    → (answer : ℤ × Bool) → (exclude_zero : Bool) → Table ℤ
    → (ℤ × Bool) × Table ℤ
count_users cache_key answer exclude_zero cache =
    let key = cache_key exclude_zero in
    elim (get key cache) [
      | some count ↦ ((count, false), cache)
      | none ↦ (answer, if answer.1 then put key answer.0 cache else cache)
    ]
