-- ===== src/Leaderboard.antt =====
-- models/leaderboard.go: the items of a leaderboard, and the totals of their keys.
-- Pointers that may be nil are options. `strings.ToLower` is a parameter.
pub mod Totals
use wakapi.Base.{
  ℕ, Bool, true, false, not, ◌&&◌, List, [], ◌∷◌, ◌++◌, Option, none, some, Text, text_eq,
  if◌then◌else◌, ℤ, pos, ◌+ℤ◌, ltb_ℤ, ◌==◌, any, keep, map,
}
use wakapi.Runtime.{Runtime}
use wakapi.Table.{Table, get, put}

-- LeaderboardItemRanked, whose user is left out.
pub record LeaderboardItem : Type 0 where
  pub id : ℕ
  pub user_id : Text
  pub interval : Text
  pub by : Option ℕ
  pub total : ℤ
  pub key : Option Text
  pub created_at : ℤ
  pub rank : ℕ

pub record KeyTotal : Type 0 where
  pub key : Text
  pub total : ℤ

abbrev pub Leaderboard : Type 0
Leaderboard = List LeaderboardItem

unfoldable pub add : LeaderboardItem → Leaderboard → Leaderboard
add item l = if any (λ i. item.id == i.id) l then l else l ++ item ∷ []

unfoldable pub add_many : List LeaderboardItem → Leaderboard → Leaderboard
add_many [] l = l
add_many (i ∷ is) l = add_many is (add i l)

unfoldable pub filter_empty : Leaderboard → Leaderboard
filter_empty l = keep (λ i. ltb_ℤ (pos 0) i.total) l

-- Lancet's `Unique` keeps the first of equal texts.
unfoldable pub unique : (seen : List Text) → List Text → List Text
unique seen [] = []
unique seen (t ∷ ts) =
    let known = any (λ s. text_eq s t) seen in
    let rest = unique (if known then seen else t ∷ seen) ts in if known then rest else t ∷ rest

unfoldable pub user_ids : Leaderboard → List Text
user_ids l = unique [] (map (λ i. i.user_id) l)

unfoldable pub has_user : Text → Leaderboard → Bool
unfolding user_ids
has_user user_id l = any (λ u. text_eq u user_id) (user_ids l)

unfoldable pub get_by_user : Text → Leaderboard → Leaderboard
get_by_user user_id l = keep (λ i. text_eq i.user_id user_id) l

-- The key of an item that is aggregated by the type.
unfoldable pub key_by : ℕ → LeaderboardItem → Option Text
key_by by i = elim i.by [ none ↦ none | some b ↦ if b == by then i.key else none ]

-- The item is aggregated by the type, under the key, in whatever case.
unfoldable pub is_under : (Text → Text) → ℕ → Text → LeaderboardItem → Bool
unfolding key_by
is_under to_lower by lowered i = elim (key_by by i) [
  | none ↦ false
  | some k ↦ text_eq (to_lower k) lowered
]

unfoldable pub top_by_key : (Text → Text) → ℕ → Text → Leaderboard → Leaderboard
unfolding is_under
top_by_key to_lower by key l = keep (is_under to_lower by (to_lower key)) l

-- `totalsMapped[key].Total += item.Total`, under a key that is made where it is missing.
unfoldable pub add_total : (lowered key : Text) → ℤ → Table KeyTotal → Table KeyTotal
add_total lowered key total t = elim (get lowered t) [
  | none ↦ put lowered (record { key = key; total = pos 0 +ℤ total }) t
  | some e ↦ put lowered (record e { total = e.total +ℤ total }) t
]

unfoldable pub map_totals : (Text → Text) → ℕ → Leaderboard → Table KeyTotal → Table KeyTotal
map_totals to_lower by [] t = t
map_totals to_lower by (i ∷ is) t =
    map_totals to_lower by is
      (elim (key_by by i) [ none ↦ t | some key ↦ add_total (to_lower key) key i.total t ])

-- `slice.SortByField(totals, "Total", "desc")`
abbrev pub by_total : KeyTotal → KeyTotal → Bool
by_total a b = ltb_ℤ b.total a.total

unfoldable pub top_keys_totals : Runtime → (Text → Text) → ℕ → Leaderboard → List KeyTotal
unfolding map_totals
top_keys_totals rt to_lower by l =
    let totals = rt.map_order (Text × KeyTotal) (map_totals to_lower by l []) in
    rt.sort KeyTotal by_total (map (λ p. p.1) totals)

unfoldable pub top_keys : Runtime → (Text → Text) → ℕ → Leaderboard → List Text
top_keys rt to_lower by l = map (λ e. e.key) (top_keys_totals rt to_lower by l)

unfoldable pub top_keys_totals_by_user :
    Runtime → (Text → Text) → ℕ → Text → Leaderboard → List KeyTotal
top_keys_totals_by_user rt to_lower by user_id l =
    top_keys_totals rt to_lower by (get_by_user user_id l)

unfoldable pub top_keys_by_user : Runtime → (Text → Text) → ℕ → Text → Leaderboard → List Text
top_keys_by_user rt to_lower by user_id l =
    map (λ e. e.key) (top_keys_totals_by_user rt to_lower by user_id l)

-- Time zero is `time.Time{}`.
unfoldable pub latest : ℤ → Leaderboard → ℤ
latest t [] = t
latest t (i ∷ is) = latest (if ltb_ℤ t i.created_at then i.created_at else t) is

unfoldable pub last_update : Leaderboard → ℤ
unfolding latest
last_update l = latest (pos 0) l
