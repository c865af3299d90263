-- ===== src/HeartbeatService.antt =====
-- services/heartbeat.go: inserting heartbeats, and the caches of their counts and of their range.
-- go-cache is a table for each of the families of keys that the service forms, which are taken to be
-- distinct. An entry may expire at any time. None is an error of the repository.
pub mod Batches
pub mod Entities
use wakapi.Base.{
  ℕ, ◌+◌, Bool, true, false, not, ◌&&◌, List, [], ◌∷◌, ◌++◌, Option, none, some, Text, text_eq,
  if◌then◌else◌, ℤ, ltb_ℤ, any,
}
use wakapi.Table.{Table, get, put, remove}
use wakapi.Heartbeat.{Heartbeat, Naming, sanitize}

pub record HeartbeatService : Type 0 where
  pub count_by_user : Table ℕ
  pub count_total : Option ℕ
  pub user_first : Table ℤ
  pub user_last : Table ℤ

abbrev pub empty_cache : HeartbeatService
empty_cache = record { count_by_user = []; count_total = none; user_first = []; user_last = [] }

-- The loop of InsertBatch, with the hashes seen so far: of the heartbeats with one hash the first is
-- stored, sanitized.
unfoldable pub filter_batch : Naming → (hashes : List Text) → List Heartbeat → List Heartbeat
filter_batch n hashes [] = []
filter_batch n hashes (hb ∷ hbs) =
    let seen = any (λ k. text_eq k hb.hash) hashes in
    let rest = filter_batch n (if seen then hashes else (sanitize n hb).hash ∷ hashes) hbs in
    if seen then rest else sanitize n hb ∷ rest

-- `cache.IncrementInt64(key, 1)`, whose error on a missing key is ignored.
unfoldable pub increment : Text → Table ℕ → Table ℕ
increment k t = elim (get k t) [ none ↦ t | some n ↦ put k (n + 1) t ]

-- The entry is deleted where there is one and the test holds of it.
unfoldable pub invalidate : (ℤ → Bool) → Text → Table ℤ → Table ℤ
invalidate stale k t = elim (get k t) [ none ↦ t | some v ↦ if stale v then remove k t else t ]

unfoldable pub check_invalidate_range_cache : Heartbeat → HeartbeatService → HeartbeatService
check_invalidate_range_cache hb srv = record srv {
  user_first = invalidate (λ first. ltb_ℤ hb.time first) hb.user_id srv.user_first;
  user_last = invalidate (λ last. ltb_ℤ last hb.time) hb.user_id srv.user_last;
}

-- The receiver of the events: one heartbeat that has been stored.
unfoldable pub receive : Heartbeat → HeartbeatService → HeartbeatService
receive hb srv = check_invalidate_range_cache hb (record srv {
  count_by_user = increment hb.user_id srv.count_by_user;
  count_total = elim srv.count_total [ none ↦ none | some n ↦ some (n + 1) ];
})

-- Each of the reads below takes the answer of the repository, and gives its own with the cache.
unfoldable pub count : (answer : Option ℕ) → HeartbeatService → Option ℕ × HeartbeatService
count answer srv = elim srv.count_total [
  | some result ↦ (some result, srv)
  | none ↦ elim answer [
    | none ↦ (none, srv)
    | some n ↦ (some n, record srv { count_total = some n })
  ]
]

unfoldable pub count_by_user :
    (answer : Option ℕ) → Text → HeartbeatService → Option ℕ × HeartbeatService
count_by_user answer user srv = elim (get user srv.count_by_user) [
  | some result ↦ (some result, srv)
  | none ↦ elim answer [
    | none ↦ (none, srv)
    | some n ↦ (some n, record srv { count_by_user = put user n srv.count_by_user })
  ]
]

-- The range is the first time and the last.
unfoldable pub get_first_by_user :
    (answer : Option (ℤ × ℤ)) → Text → HeartbeatService → Option ℤ × HeartbeatService
get_first_by_user answer user srv = elim (get user srv.user_first) [
  | some result ↦ (some result, srv)
  | none ↦ elim answer [
    | none ↦ (none, srv)
    | some range ↦ (some range.0, record srv { user_first = put user range.0 srv.user_first })
  ]
]

unfoldable pub get_last_by_user :
    (answer : Option (ℤ × ℤ)) → Text → HeartbeatService → Option ℤ × HeartbeatService
get_last_by_user answer user srv = elim (get user srv.user_last) [
  | some result ↦ (some result, srv)
  | none ↦ elim answer [
    | none ↦ (none, srv)
    | some range ↦ (some range.1, record srv { user_last = put user range.1 srv.user_last })
  ]
]

-- The users whose counts are cached, with them, and those whose counts are missing.
unfoldable pub cached_counts : List Text → HeartbeatService → List (Text × ℕ) × List Text
cached_counts [] srv = ([], [])
cached_counts (u ∷ users) srv =
    let rest = cached_counts users srv in
    elim (get u srv.count_by_user) [
      | some result ↦ ((u, result) ∷ rest.0, rest.1)
      | none ↦ (rest.0, u ∷ rest.1)
    ]

unfoldable pub cache_counts : List (Text × ℕ) → HeartbeatService → HeartbeatService
cache_counts [] srv = srv
cache_counts ((u, n) ∷ counts) srv =
    cache_counts counts (record srv { count_by_user = put u n srv.count_by_user })

-- The repository answers for the users that it is asked for.
unfoldable pub count_by_users :
    (answer : List Text → Option (List (Text × ℕ)))
    → List Text
    → HeartbeatService
    → Option (List (Text × ℕ)) × HeartbeatService
count_by_users answer users srv =
    let found = cached_counts users srv in
    elim (answer found.1) [
      | none ↦ (none, srv)
      | some counts ↦ (some (found.0 ++ counts), cache_counts counts srv)
    ]

-- `cache.Flush()`, which each deletion of heartbeats starts.
abbrev pub flush : HeartbeatService → HeartbeatService
flush srv = empty_cache
