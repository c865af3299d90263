-- ===== src/UserService.antt =====
-- services/user.go: the users that are looked up, and the cache of them. The fields of a user that tell
-- who logs in are those of an account here. A value of the cache is a user, an id, or a list of users; an
-- entry of another type than the code asserts is a panic.
pub mod Entries
pub mod Steps
pub mod Kept
use wakapi.Base.{
  Bool, true, false, not, ◌&&◌, ◌||◌, List, [], ◌∷◌, ◌++◌, Option, none, some, Text, codes, text_eq,
  is_empty, if◌then◌else◌, keep,
}
use wakapi.Table.{Table, get, put, remove}

pub record Account : Type 0 where
  pub id : Text
  pub api_key : Text
  pub auth_type : Text
  pub sub : Text

pub data LookupError : Type 0 where
  empty_argument record_not_found lookup_failed : LookupError

pub data Lookup : Type 0 where
  found : Account → Lookup
  failed : LookupError → Lookup
  crashed : Lookup

pub data Cached : Type 0 where
  user : Account → Cached
  user_id : Text → Cached
  users : List Account → Cached

pub record UserService : Type 0 where
  pub cache : Table Cached
  pub subject_cache : Table Text

-- What FindOne and GetByApiKey answer.
pub record Repository : Type 0 where
  pub by_id : Text → Lookup
  pub by_key : Text → Lookup
  pub by_sub : (provider sub : Text) → Lookup
  pub by_api_key : (key : Text) → (require_full_access_key : Bool) → Lookup

unfoldable pub id_key : Text → Text
id_key id = codes "id_" ++ id

unfoldable pub api_key_key : Text → Bool → Text
api_key_key key full = codes "key_" ++ (key ++ (if full then codes "_true" else codes "_false"))

-- A user that is found goes into the cache.
unfoldable pub remembered : (key : Text) → Lookup → UserService → Lookup × UserService
remembered key (found a) srv = (found a, record srv { cache = put key (user a) srv.cache })
remembered key (failed e) srv = (failed e, srv)
remembered key crashed srv = (crashed, srv)

-- `u.(*models.User)`
unfoldable pub asserted : Cached → Lookup
asserted (user a) = found a
asserted (user_id t) = crashed
asserted (users l) = crashed

unfoldable pub get_user_by_id : Repository → Text → UserService → Lookup × UserService
unfolding id_key asserted remembered
get_user_by_id r id srv =
    if is_empty id then (failed empty_argument, srv) else elim (get (id_key id) srv.cache) [
      | some c ↦ (asserted c, srv)
      | none ↦ remembered (id_key id) (r.by_id id) srv
    ]

-- The user's own key, or else one of the further keys.
unfoldable pub find_by_key : Repository → Text → Bool → Lookup
find_by_key r key full = elim (r.by_key key) [
  | found a ↦ found a
  | failed e ↦ r.by_api_key key full
  | crashed ↦ crashed
]

unfoldable pub get_user_by_key : Repository → Text → Bool → UserService → Lookup × UserService
unfolding api_key_key asserted find_by_key remembered
get_user_by_key r key full srv =
    if is_empty key
    then (failed empty_argument, srv)
    else elim (get (api_key_key key full) srv.cache) [
      | some c ↦ (asserted c, srv)
      | none ↦ remembered (api_key_key key full) (find_by_key r key full) srv
    ]

-- What is found in the repository goes into the cache, and so does the id, where the subjects' cache
-- would be meant.
unfoldable pub remembered_subject : (key : Text) → Lookup → UserService → Lookup × UserService
unfolding id_key
remembered_subject key (found a) srv =
    (found a, record srv { cache = put key (user_id a.id) (put (id_key a.id) (user a) srv.cache) })
remembered_subject key (failed e) srv = (failed e, srv)
remembered_subject key crashed srv = (crashed, srv)

unfoldable pub find_by_oidc :
    Repository → (provider sub : Text) → UserService → Lookup × UserService
unfolding remembered_subject
find_by_oidc r provider sub srv =
    remembered_subject (provider ++ (codes "_" ++ sub)) (r.by_sub provider sub) srv

-- A subject whose user is not found is forgotten, and looked for in the repository.
unfoldable pub after_subject :
    Repository → (provider sub : Text) → Lookup → UserService → Lookup × UserService
unfolding find_by_oidc
after_subject r provider sub (found a) srv = (found a, srv)
after_subject r provider sub (failed e) srv =
    find_by_oidc r provider sub
      (record srv { subject_cache = remove (provider ++ (codes "_" ++ sub)) srv.subject_cache })
after_subject r provider sub crashed srv = (crashed, srv)

unfoldable pub get_user_by_oidc :
    Repository → (provider sub : Text) → UserService → Lookup × UserService
unfolding get_user_by_id find_by_oidc after_subject
get_user_by_oidc r provider sub srv =
    let cache_key = provider ++ (codes "_" ++ sub) in
    if is_empty sub || is_empty provider
    then (failed empty_argument, srv)
    else elim (get cache_key srv.subject_cache) [
      | none ↦ find_by_oidc r provider sub srv
      | some id ↦
          let (answer, srv') = get_user_by_id r id srv in after_subject r provider sub answer srv'
    ]

pub data ActiveUsers : Type 0 where
  actives : List Account → ActiveUsers
  not_read wrong_type : ActiveUsers

-- The answer of GetByLastActiveAfter is none on an error.
unfoldable pub active_or_read :
    Option Cached
    → (cache_key : Text) → Option (List Account)
    → UserService
    → ActiveUsers × UserService
active_or_read (some (users l)) cache_key answer srv = (actives l, srv)
active_or_read (some (user a)) cache_key answer srv = (wrong_type, srv)
active_or_read (some (user_id t)) cache_key answer srv = (wrong_type, srv)
active_or_read none cache_key none srv = (not_read, srv)
active_or_read none cache_key (some l) srv =
    (actives l, record srv { cache = put cache_key (users l) srv.cache })

unfoldable pub get_active :
    (cache_key : Text) → Option (List Account) → UserService → ActiveUsers × UserService
unfolding active_or_read
get_active cache_key answer srv = active_or_read (get cache_key srv.cache) cache_key answer srv

unfoldable pub is_user : Text → Cached → Bool
is_user id (user a) = text_eq a.id id
is_user id (user_id t) = false
is_user id (users l) = false

unfoldable pub flush_user_cache : Text → UserService → UserService
unfolding id_key is_user
flush_user_cache id srv = record srv {
  cache = keep (λ e. not (is_user id e.1)) (remove id (remove (id_key id) srv.cache));
}

unfoldable pub flush_cache : UserService → UserService
flush_cache srv = record srv { cache = [] }
