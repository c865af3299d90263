-- ===== src/LeaderboardService/Generated.antt =====
-- services/leaderboard.go: what ComputeLeaderboard leaves in the table of items.
use wakapi.Base.{
  ◌≡◌, refl, sym, subst, ap, ◌∙◌, Bool, true, false, not, ◌&&◌, List, [], ◌∷◌, ◌++◌, Option, none,
  some, Option-cases, some_inj, some_ne_none, Bool-cases, inl, inr, Text, text_eq, text_eq_refl,
  text_eq→eq, if◌then◌else◌, any, keep, keep-append, append_nil, append_assoc, arith,
}
use wakapi.Entity.{SummaryType}
use wakapi.User.{default_heartbeats_timeout}
use wakapi.Summary.{Item, Summary, get_by_type}
use wakapi.Intervals.{
  IntervalKey, today, yesterday, past_day, this_week, last_week, this_month, last_month, this_year,
  past_7_days, past_7_days_yesterday, past_14_days, past_30_days, past_6_months, past_12_months,
  any_time, aliases, has_alias, resolve_interval_tz,
}
use wakapi.Table.{Table}
use wakapi.Leaderboard.{LeaderboardItem, Leaderboard}
use wakapi.LeaderboardService.{
  Answers, interval_name, board_item, generate_by_user, aggregated_items,
  generate_aggregated_by_user, is_of, insert_items, compute_aggregated, compute_user, compute_users,
  compute_leaderboard,
}

keep-keep :
    {A : Type 0} (p q : A → Bool) (xs : List A)
    → ((x : A) → p x ≡ true → q x ≡ true)
    → keep p (keep q xs) ≡ keep p xs
unfolding keep
keep-keep p q [] h = refl
keep-keep p q (x ∷ xs) h = ground (arith, h x, keep-keep p q xs h)

keep_none : {A : Type 0} (p : A → Bool) (xs : List A) → keep p (keep (λ x. not (p x)) xs) ≡ []
unfolding keep
keep_none p [] = refl
keep_none p (x ∷ xs) = ground (arith, keep_none p xs)

interval_name-has_alias : (k : IntervalKey) → has_alias (interval_name k) k ≡ true
unfolding has_alias interval_name aliases any text_eq
interval_name-has_alias today = refl
interval_name-has_alias yesterday = refl
interval_name-has_alias past_day = refl
interval_name-has_alias this_week = refl
interval_name-has_alias last_week = refl
interval_name-has_alias this_month = refl
interval_name-has_alias last_month = refl
interval_name-has_alias this_year = refl
interval_name-has_alias past_7_days = refl
interval_name-has_alias past_7_days_yesterday = refl
interval_name-has_alias past_14_days = refl
interval_name-has_alias past_30_days = refl
interval_name-has_alias past_6_months = refl
interval_name-has_alias past_12_months = refl
interval_name-has_alias any_time = refl

-- What an insertion adds: the items, unless reading them or the insertion fails.
abbrev pub inserted : Answers → Option Leaderboard → Leaderboard
inserted a none = []
inserted a (some items) = if a.inserts items then items else []

abbrev pub all_inserted : Answers → IntervalKey → Text → List SummaryType → Leaderboard
all_inserted a k user [] = []
all_inserted a k user (by ∷ bys) =
    inserted a (generate_aggregated_by_user a k user by) ++ all_inserted a k user bys

-- The item of all time and, where it is inserted, the items of each type.
unfoldable pub generated : Answers → IntervalKey → List SummaryType → Text → Leaderboard
generated a k bys user = elim (generate_by_user a k user) [
  | none ↦ []
  | some item ↦ if a.inserts (item ∷ []) then item ∷ all_inserted a k user bys else []
]

-- A list that passes a test as a whole, or not at all.
abbrev Uniform : (LeaderboardItem → Bool) → Bool → Leaderboard → Type 0
Uniform q c items = keep q items ≡ (if c then items else [])

insert_items-keep :
    (a : Answers) (q : LeaderboardItem → Bool) (c : Bool) (m : Option Leaderboard)
    (store : Leaderboard)
    → ((items : Leaderboard) → m ≡ some items → Uniform q c items)
    → keep q (insert_items a m store) ≡ keep q store ++ (if c then inserted a m else [])
unfolding insert_items
insert_items-keep a q c none store h = ground (arith, append_nil (keep q store))
insert_items-keep a q c (some []) store h = ground (arith, append_nil (keep q store))
insert_items-keep a q c (some (i ∷ is)) store h = elim (Bool-cases (a.inserts (i ∷ is))) [
  | inl e ↦ rw e (keep-append q store (i ∷ is) ∙ ap (λ ys. keep q store ++ ys) (h (i ∷ is) refl))
  | inr e ↦ rw e (ground (arith, append_nil (keep q store)))
]

either_append :
    (c : Bool) (xs ys zs : Leaderboard)
    → (xs ++ (if c then ys else [])) ++ (if c then zs else []) ≡ xs ++ (if c then ys ++ zs else [])
either_append true xs ys zs = append_assoc xs ys zs
either_append false xs ys zs = append_nil (xs ++ [])

-- A test of the user and the interval of an item.
module _ (a : Answers) (k : IntervalKey) (p : Text → Text → Bool) where
  abbrev is_passed : LeaderboardItem → Bool
  is_passed i = p i.user_id i.interval

  aggregated_items-Uniform :
      (by : SummaryType) (u : Text) (s : Summary) (is : List Item)
      → Uniform is_passed (p u (interval_name k)) (aggregated_items k by u s is)
  unfolding aggregated_items keep board_item
  aggregated_items-Uniform by u s [] = ground arith
  aggregated_items-Uniform by u s (i ∷ is) = ground (arith, aggregated_items-Uniform by u s is)

  generate_aggregated_by_user-Uniform :
      (by : SummaryType) (u : Text) (items : Leaderboard)
      → generate_aggregated_by_user a k u by ≡ some items
      → Uniform is_passed (p u (interval_name k)) items
  unfolding generate_aggregated_by_user
  generate_aggregated_by_user-Uniform by u items h =
      let range = resolve_interval_tz (a.dates u) k in
      elim (Option-cases (a.aliased u range.0 range.1 none)) [
        | inl e ↦ absurd (some_ne_none (sym (rw (generate_aggregated_by_user, e) at h)))
        | inr (s, e) ↦
            let made = some_inj (rw (generate_aggregated_by_user, e) at h) in
            rw (sym made) (aggregated_items-Uniform by u s (get_by_type by s))
      ]

  generate_by_user-Uniform :
      (u : Text) (item : LeaderboardItem)
      → generate_by_user a k u ≡ some item
      → Uniform is_passed (p u (interval_name k)) (item ∷ [])
  unfolding generate_by_user board_item keep
  generate_by_user-Uniform u item h =
      let range = resolve_interval_tz (a.dates u) k in
      elim (Option-cases (a.aliased u range.0 range.1 (some default_heartbeats_timeout))) [
        | inl e ↦ absurd (some_ne_none (sym (rw (generate_by_user, e) at h)))
        | inr (s, e) ↦
            let made = some_inj (rw (generate_by_user, e) at h) in rw (sym made) (ground arith)
      ]

  compute_aggregated-keep :
      (bys : List SummaryType) (u : Text) (store : Leaderboard)
      → keep is_passed (compute_aggregated a k bys u store)
        ≡ keep is_passed store ++ (if p u (interval_name k) then all_inserted a k u bys else [])
  unfolding compute_aggregated
  compute_aggregated-keep [] u store = ground (arith, append_nil (keep is_passed store))
  compute_aggregated-keep (by ∷ bys) u store =
      let c = p u (interval_name k) in
      compute_aggregated-keep bys u (insert_items a (generate_aggregated_by_user a k u by) store)
      ∙ rw
          (insert_items-keep a is_passed c (generate_aggregated_by_user a k u by) store
            (generate_aggregated_by_user-Uniform by u))
          (either_append c (keep is_passed store)
            (inserted a (generate_aggregated_by_user a k u by)) (all_inserted a k u bys))

  compute_user-keep :
      (bys : List SummaryType) (u : Text) (store : Leaderboard)
      → a.deletes u ≡ true
      → keep is_passed (compute_user a k bys u store)
        ≡ keep is_passed (keep (λ i. not (is_of u k i)) store)
          ++ (if p u (interval_name k) then generated a k bys u else [])
  unfolding compute_user generated
  compute_user-keep bys u store h =
      let cleared = keep (λ i. not (is_of u k i)) store in
      let c = p u (interval_name k) in
      elim (Option-cases (generate_by_user a k u)) [
        | inl e ↦
            rw (h, e, compute_user, generated) (ground (arith, append_nil (keep is_passed cleared)))
        | inr (item, e) ↦ elim (Bool-cases (a.inserts (item ∷ []))) [
          | inl f ↦
              rw (h, e, f, compute_user, generated)
                (compute_aggregated-keep bys u (cleared ++ item ∷ [])
                  ∙ rw
                      (keep-append is_passed cleared (item ∷ []), generate_by_user-Uniform u item e)
                      (either_append c (keep is_passed cleared) (item ∷ [])
                        (all_inserted a k u bys)))
          | inr f ↦
              rw (h, e, f, compute_user, generated)
                (ground (arith, append_nil (keep is_passed cleared)))
        ]
      ]

  -- Items that are not of the user and the interval stay.
  compute_user-kept :
      (bys : List SummaryType) (u : Text) (store : Leaderboard)
      → p u (interval_name k) ≡ false
      → ((i : LeaderboardItem) → is_passed i ≡ true → not (is_of u k i) ≡ true)
      → keep is_passed (compute_user a k bys u store) ≡ keep is_passed store
  compute_user-kept bys u store other apart = elim (Bool-cases (a.deletes u)) [
    | inl e ↦
        compute_user-keep bys u store e
        ∙ rw other (append_nil _ ∙ keep-keep is_passed (λ i. not (is_of u k i)) store apart)
    | inr e ↦ unfold compute_user in rw e refl
  ]

module _ (a : Answers) (k : IntervalKey) (bys : List SummaryType) where
  compute_user-own :
      (u : Text) (store : Leaderboard)
      → a.deletes u ≡ true
      → keep (is_of u k) (compute_user a k bys u store) ≡ generated a k bys u
  unfolding is_of
  compute_user-own u store h =
      compute_user-keep a k (λ v n. text_eq v u && has_alias n k) bys u store h
      ∙ rw (text_eq_refl u, interval_name-has_alias k, keep_none (is_of u k) store) refl

  compute_user-of_other :
      (u v : Text) (store : Leaderboard)
      → text_eq u v ≡ false
      → keep (is_of v k) (compute_user a k bys u store) ≡ keep (is_of v k) store
  unfolding is_of
  compute_user-of_other u v store h =
      compute_user-kept a k (λ w n. text_eq w v && has_alias n k) bys u store (rw h refl)
        (λ i f. elim (Bool-cases (text_eq i.user_id u)) [
          | inl e ↦ let other = rw (text_eq→eq i.user_id u e, h) at f in ground (arith, other)
          | inr e ↦ rw e refl
        ])

  compute_user-elsewhere :
      (u : Text) (store : Leaderboard)
      → keep (λ i. not (has_alias i.interval k)) (compute_user a k bys u store)
        ≡ keep (λ i. not (has_alias i.interval k)) store
  compute_user-elsewhere u store =
      compute_user-kept a k (λ w n. not (has_alias n k)) bys u store
        (rw (interval_name-has_alias k) refl) (λ i f. unfold is_of in ground (arith, f))

  compute_users-keep :
      (v : Text) (users : List Text) (store : Leaderboard)
      → a.deletes v ≡ true
      → keep (is_of v k) (compute_users a k bys users store)
        ≡ (if any (λ u. text_eq u v) users then generated a k bys v else keep (is_of v k) store)
  unfolding compute_users any
  compute_users-keep v [] store h = refl
  compute_users-keep v (u ∷ us) store h = elim (Bool-cases (text_eq u v)) [
    | inl e ↦
        let own : keep (is_of v k) (compute_user a k bys u store) ≡ generated a k bys v =
          subst (λ w. keep (is_of v k) (compute_user a k bys w store) ≡ generated a k bys v)
            (sym (text_eq→eq u v e)) (compute_user-own v store h) in
        compute_users-keep v us (compute_user a k bys u store) h ∙ rw (e, own) (ground arith)
    | inr e ↦
        compute_users-keep v us (compute_user a k bys u store) h
        ∙ rw (e, compute_user-of_other u v store e) refl
  ]

  compute_users-elsewhere :
      (users : List Text) (store : Leaderboard)
      → keep (λ i. not (has_alias i.interval k)) (compute_users a k bys users store)
        ≡ keep (λ i. not (has_alias i.interval k)) store
  unfolding compute_users
  compute_users-elsewhere [] store = refl
  compute_users-elsewhere (u ∷ us) store =
      compute_users-elsewhere us (compute_user a k bys u store) ∙ compute_user-elsewhere u store

  -- Where deletion succeeds for a user, ComputeLeaderboard for users of which this is one leaves of the
  -- user and the interval just what is generated, and for others it leaves what was there. The items of
  -- other intervals stay as they are, and the cache is empty.
  pub compute_leaderboard-generated :
      (users : List Text) (v : Text) (store : Leaderboard) (cache : Table Leaderboard)
      → a.deletes v ≡ true
      → (keep (is_of v k) (compute_leaderboard a users k bys (store, cache)).0
          ≡ (if any (λ u. text_eq u v) users then generated a k bys v else keep (is_of v k) store))
        × (keep
              (λ i. not (has_alias i.interval k))
              (compute_leaderboard a users k bys (store, cache)).0
            ≡ keep (λ i. not (has_alias i.interval k)) store)
        × ((compute_leaderboard a users k bys (store, cache)).1 ≡ [])
  unfolding compute_leaderboard
  compute_leaderboard-generated users v store cache h =
      (compute_users-keep v users store h, compute_users-elsewhere users store, refl)
