-- ===== src/UserService/Steps/Subjects.antt =====
-- services/user.go: the cache of subjects, which nothing is stored in.
use wakapi.Base.{
  ◌≡◌, refl, ◌∙◌, ap, Bool, false, ◌||◌, List, [], ◌++◌, Option, none, some, Option-cases, Text,
  codes, is_empty, Bool-cases, inl, inr,
}
use wakapi.Table.{get}
use wakapi.UserService.{
  Account, Lookup, found, failed, crashed, Cached, user, user_id, users, UserService, Repository,
  id_key, api_key_key, remembered, get_user_by_id, find_by_key, get_user_by_key, find_by_oidc,
  get_user_by_oidc, remembered_subject, active_or_read, get_active, flush_user_cache, flush_cache,
}
use wakapi.UserService.Steps.{
  Rights, Step, by_id, by_key, by_oidc, active, flushed_user, flushed, expired,
}

remembered-subjects :
    (key : Text) (answer : Lookup) (s : UserService)
    → (remembered key answer s).1.subject_cache ≡ s.subject_cache
unfolding remembered
remembered-subjects key (found a) s = refl
remembered-subjects key (failed e) s = refl
remembered-subjects key crashed s = refl

remembered_subject-subjects :
    (key : Text) (answer : Lookup) (s : UserService)
    → (remembered_subject key answer s).1.subject_cache ≡ s.subject_cache
unfolding remembered_subject
remembered_subject-subjects key (found a) s = refl
remembered_subject-subjects key (failed e) s = refl
remembered_subject-subjects key crashed s = refl

pub get_user_by_id-subjects :
    (r : Repository) (id : Text) (s : UserService)
    → (get_user_by_id r id s).1.subject_cache ≡ s.subject_cache
unfolding get_user_by_id
get_user_by_id-subjects r id s = elim (Bool-cases (is_empty id)) [
  | inl e ↦ rw (e, get_user_by_id) refl
  | inr e ↦ elim (Option-cases (get (id_key id) s.cache)) [
    | inl f ↦ rw (e, f, get_user_by_id) (remembered-subjects (id_key id) (r.by_id id) s)
    | inr (c, f) ↦ rw (e, f, get_user_by_id) refl
  ]
]

pub get_user_by_key-subjects :
    (r : Repository) (key : Text) (full : Bool) (s : UserService)
    → (get_user_by_key r key full s).1.subject_cache ≡ s.subject_cache
unfolding get_user_by_key
get_user_by_key-subjects r key full s = elim (Bool-cases (is_empty key)) [
  | inl e ↦ rw (e, get_user_by_key) refl
  | inr e ↦ elim (Option-cases (get (api_key_key key full) s.cache)) [
    | inl f ↦
        rw (e, f, get_user_by_key)
          (remembered-subjects (api_key_key key full) (find_by_key r key full) s)
    | inr (c, f) ↦ rw (e, f, get_user_by_key) refl
  ]
]

-- Where no subject is cached, the repository is asked.
pub get_user_by_oidc-uncached :
    (r : Repository) (provider sub : Text) (s : UserService)
    → s.subject_cache ≡ []
    → (is_empty sub || is_empty provider) ≡ false
    → get_user_by_oidc r provider sub s ≡ find_by_oidc r provider sub s
unfolding get_user_by_oidc get
get_user_by_oidc-uncached r provider sub s none_yet e =
    let missing : get (provider ++ (codes "_" ++ sub)) s.subject_cache ≡ none =
      ap (get (provider ++ (codes "_" ++ sub))) none_yet in
    rw (e, missing, get_user_by_oidc) refl

pub get_user_by_oidc-subjects :
    (r : Repository) (provider sub : Text) (s : UserService)
    → s.subject_cache ≡ []
    → (get_user_by_oidc r provider sub s).1.subject_cache ≡ []
unfolding find_by_oidc get_user_by_oidc
get_user_by_oidc-subjects r provider sub s none_yet =
    elim (Bool-cases (is_empty sub || is_empty provider)) [
      | inl e ↦ rw (e, get_user_by_oidc) none_yet
      | inr e ↦
          ap (λ p. p.1.subject_cache) (get_user_by_oidc-uncached r provider sub s none_yet e)
          ∙ remembered_subject-subjects (provider ++ (codes "_" ++ sub)) (r.by_sub provider sub) s
          ∙ none_yet
    ]

active-subjects :
    (entry : Option Cached) (key : Text) (answer : Option (List Account)) (s : UserService)
    → (active_or_read entry key answer s).1.subject_cache ≡ s.subject_cache
unfolding active_or_read
active-subjects (some (users l)) key answer s = refl
active-subjects (some (user a)) key answer s = refl
active-subjects (some (user_id t)) key answer s = refl
active-subjects none key none s = refl
active-subjects none key (some l) s = refl

pub Step-subjects :
    (rights : Rights) {s t : UserService}
    → Step rights s t
    → s.subject_cache ≡ []
    → t.subject_cache ≡ []
unfolding flush_user_cache flush_cache get_active
Step-subjects rights (by_id s r id knows) h = get_user_by_id-subjects r id s ∙ h
Step-subjects rights (by_key s r key full knows) h = get_user_by_key-subjects r key full s ∙ h
Step-subjects rights (by_oidc s r provider sub knows) h =
    get_user_by_oidc-subjects r provider sub s h
Step-subjects rights (active s day answer) h =
    active-subjects (get (day ++ codes "--active") s.cache) (day ++ codes "--active") answer s ∙ h
Step-subjects rights (flushed_user s id) h = h
Step-subjects rights (flushed s) h = h
Step-subjects rights (expired s key) h = h
