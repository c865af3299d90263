-- ===== src/UserService/Steps.antt =====
-- services/user.go: the lookups and flushes of the caches, one after the other.
pub mod Cache
pub mod Subjects
pub mod Sound
use wakapi.Base.{
  ◌≡◌, refl, sym, subst, ◌∙◌, ap, Bool, true, false, not, ◌||◌, List, [], ◌∷◌, ◌++◌, Option, none,
  some, some_inj, some_ne_none, Option-cases, Text, codes, text_eq, text_eq→eq, is_empty, keep, All,
  Bool-cases, inl, inr,
}
use wakapi.Table.{Table, get, put, remove}
use wakapi.UserService.{
  Account, Lookup, found, failed, crashed, Cached, user, user_id, users, UserService, Repository,
  id_key, api_key_key, remembered, get_user_by_id, find_by_key, get_user_by_key, find_by_oidc,
  after_subject, get_user_by_oidc, remembered_subject, active_or_read, get_active, is_user,
  flush_user_cache, flush_cache,
}
use wakapi.UserService.Entries.{
  id_not_key, key_of, full_of, account_of, Lookup-cases, remembered-same, asserted-user,
}

-- Whom a key of full access, an id, or a provider's subject stands for.
pub record Rights : Type 1 where
  pub granted : (key : Text) → Account → Type 0
  pub named : (id : Text) → Account → Type 0
  pub identified : (provider sub : Text) → Account → Type 0

-- A repository finds a user only by what stands for that user.
abbrev pub Knows : Rights → Repository → Type 0
Knows rights r =
    ((key : Text) (a : Account) → find_by_key r key true ≡ found a → rights.granted key a)
    × ((id : Text) (a : Account) → r.by_id id ≡ found a → rights.named id a)
    × ((provider sub : Text) (a : Account)
        → r.by_sub provider sub ≡ found a
        → rights.named a.id a × rights.identified provider sub a)

-- Some operation of the service, with a repository that answers then, or an entry that expires.
pub data Step (rights : Rights) : UserService → UserService → Type 0 where
  by_id :
      (s : UserService) (r : Repository) (id : Text)
      → Knows rights r
      → Step rights s (get_user_by_id r id s).1
  by_key :
      (s : UserService) (r : Repository) (key : Text) (full : Bool)
      → Knows rights r
      → Step rights s (get_user_by_key r key full s).1
  by_oidc :
      (s : UserService) (r : Repository) (provider sub : Text)
      → Knows rights r
      → Step rights s (get_user_by_oidc r provider sub s).1
  active :
      (s : UserService) (day : Text) (answer : Option (List Account))
      → Step rights s (get_active (day ++ codes "--active") answer s).1
  flushed_user : (s : UserService) (id : Text) → Step rights s (flush_user_cache id s)
  flushed : (s : UserService) → Step rights s (flush_cache s)
  expired : (s : UserService) (key : Text) → Step rights s (record s { cache = remove key s.cache })

pub data Reach (rights : Rights) (s : UserService) : UserService → Type 0 where
  here : Reach rights s s
  next : {t u : UserService} → Reach rights s t → Step rights t u → Reach rights s u
