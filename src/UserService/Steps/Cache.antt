-- ===== src/UserService/Steps/Cache.antt =====
-- services/user.go: what the entries of the cache of users are, whatever is looked up before.
use wakapi.Base.{
  ◌≡◌, refl, sym, subst, ap, Bool, true, false, not, ◌||◌, List, [], ◌∷◌, ◌++◌, Option, none, some,
  some_inj, some_ne_none, Option-cases, Text, codes, text_eq, text_eq→eq, is_empty, keep, All,
  Bool-cases, inl, inr,
}
use wakapi.Table.{Table, get, put, remove}
use wakapi.UserService.{
  Account, Lookup, found, failed, crashed, Cached, user, user_id, users, UserService, Repository,
  id_key, api_key_key, remembered, get_user_by_id, find_by_key, get_user_by_key, find_by_oidc,
  after_subject, get_user_by_oidc, remembered_subject, active_or_read, get_active, is_user,
  flush_user_cache, flush_cache,
}
use wakapi.UserService.Entries.{id_not_key, key_of, full_of, id_of, account_of, Lookup-cases}
use wakapi.UserService.Steps.{
  Rights, Knows, Step, by_id, by_key, by_oidc, active, flushed_user, flushed, expired,
}

-- An entry that is a user under a key of full access is one of that key, and one under an id of that id.
abbrev pub IsGrantedEntry : Rights → Text × Cached → Type 0
IsGrantedEntry rights e =
    ((key : Text) (a : Account) → e.0 ≡ api_key_key key true → e.1 ≡ user a → rights.granted key a)
    × ((id : Text) (a : Account) → e.0 ≡ id_key id → e.1 ≡ user a → rights.named id a)

abbrev pub IsGranted : Rights → Table Cached → Type 0
IsGranted rights cache = All (IsGrantedEntry rights) cache

module _ (rights : Rights) where
  put-IsGranted :
      (j : Text) (c : Cached) (cache : Table Cached)
      → IsGrantedEntry rights (j, c)
      → IsGranted rights cache
      → IsGranted rights (put j c cache)
  unfolding put
  put-IsGranted j c [] new h = (new, tt)
  put-IsGranted j c ((k, d) ∷ cache) new (h, hs) = elim (Bool-cases (text_eq k j)) [
    | inl e ↦ rw e (subst (λ i. IsGrantedEntry rights (i, c)) (sym (text_eq→eq k j e)) new, hs)
    | inr e ↦ rw e (h, put-IsGranted j c cache new hs)
  ]

  keep-IsGranted :
      (p : Text × Cached → Bool) (cache : Table Cached)
      → IsGranted rights cache
      → IsGranted rights (keep p cache)
  unfolding keep
  keep-IsGranted p [] h = tt
  keep-IsGranted p (e ∷ cache) (h, hs) = elim (Bool-cases (p e)) [
    | inl f ↦ rw f (h, keep-IsGranted p cache hs)
    | inr f ↦ rw f (keep-IsGranted p cache hs)
  ]

  remove-IsGranted :
      (j : Text) (cache : Table Cached) → IsGranted rights cache → IsGranted rights (remove j cache)
  unfolding remove
  remove-IsGranted j [] h = tt
  remove-IsGranted j ((k, c) ∷ cache) (h, hs) = elim (Bool-cases (text_eq k j)) [
    | inl e ↦ rw (e, remove) (remove-IsGranted j cache hs)
    | inr e ↦ rw (e, remove) (h, remove-IsGranted j cache hs)
  ]

  pub get-IsGranted :
      (k : Text) (c : Cached) (cache : Table Cached)
      → IsGranted rights cache
      → get k cache ≡ some c
      → IsGrantedEntry rights (k, c)
  unfolding get
  get-IsGranted k c [] h e = absurd (some_ne_none (sym e))
  get-IsGranted k c ((j, d) ∷ cache) (h, hs) e = elim (Bool-cases (text_eq j k)) [
    | inl f ↦
        subst (λ v. IsGrantedEntry rights (k, v)) (some_inj (rw (f, get) at e))
          (subst (λ i. IsGrantedEntry rights (i, d)) (text_eq→eq j k f) h)
    | inr f ↦ get-IsGranted k c cache hs (rw (f, get) at e)
  ]

  id-IsGranted :
      (id : Text) (a : Account) (cache : Table Cached)
      → rights.named id a
      → IsGranted rights cache
      → IsGranted rights (put (id_key id) (user a) cache)
  unfolding account_of
  id-IsGranted id a cache new h =
      put-IsGranted (id_key id) (user a) cache
        (
          λ key b e same. elim (id_not_key id key true e) [ ],
          λ j b e same.
              subst (λ i. rights.named i b) (id_of id j e)
                (subst (λ c. rights.named id c) (ap (account_of a) same) new),
        )
        h

  pub by_id-IsGranted :
      (r : Repository) (id : Text) (s : UserService)
      → Knows rights r
      → IsGranted rights s.cache
      → IsGranted rights (get_user_by_id r id s).1.cache
  unfolding get_user_by_id
  by_id-IsGranted r id s knows h = elim (Bool-cases (is_empty id)) [
    | inl e ↦ rw (e, get_user_by_id) h
    | inr e ↦ elim (Option-cases (get (id_key id) s.cache)) [
      | inl f ↦ elim (Lookup-cases (r.by_id id)) [
        | inl (a, g) ↦
            rw (e, f, get_user_by_id)
              (rw (g, remembered) (id-IsGranted id a s.cache (knows.1 id a g) h))
        | inr same ↦ rw (e, f, get_user_by_id) (rw (same (id_key id) s) h)
      ]
      | inr (c, f) ↦ rw (e, f, get_user_by_id) h
    ]
  ]

  key-IsGranted :
      (k : Text) (full : Bool) (a : Account) (cache : Table Cached)
      → (full ≡ true → rights.granted k a)
      → IsGranted rights cache
      → IsGranted rights (put (api_key_key k full) (user a) cache)
  unfolding account_of
  key-IsGranted k true a cache new h =
      put-IsGranted (api_key_key k true) (user a) cache
        (
          λ key b e same.
              subst (λ j. rights.granted j b) (key_of k key e)
                (subst (λ c. rights.granted k c) (ap (account_of a) same) (new refl)),
          λ id b e same. elim (id_not_key id k true (sym e)) [ ],
        )
        h
  key-IsGranted k false a cache new h =
      put-IsGranted (api_key_key k false) (user a) cache
        (
          λ key b e same. elim (full_of key k (sym e)) [ ],
          λ id b e same. elim (id_not_key id k false (sym e)) [ ],
        )
        h

  pub by_key-IsGranted :
      (r : Repository) (key : Text) (full : Bool) (s : UserService)
      → Knows rights r
      → IsGranted rights s.cache
      → IsGranted rights (get_user_by_key r key full s).1.cache
  unfolding get_user_by_key remembered
  by_key-IsGranted r key full s knows h = elim (Bool-cases (is_empty key)) [
    | inl e ↦ rw (e, get_user_by_key) h
    | inr e ↦ elim (Option-cases (get (api_key_key key full) s.cache)) [
      | inl f ↦ elim (Lookup-cases (find_by_key r key full)) [
        | inl (a, g) ↦
            rw (e, f, g, get_user_by_key)
              (key-IsGranted key full a s.cache
                (λ yes_full. knows.0 key a (subst (λ b. find_by_key r key b ≡ found a) yes_full g))
                h)
        | inr same ↦ rw (e, f, get_user_by_key) (rw (same (api_key_key key full) s) h)
      ]
      | inr (c, f) ↦ rw (e, f, get_user_by_key) h
    ]
  ]

  remembered_subject-IsGranted :
      (key : Text) (answer : Lookup) (s : UserService)
      → ((a : Account) → answer ≡ found a → rights.named a.id a)
      → IsGranted rights s.cache
      → IsGranted rights (remembered_subject key answer s).1.cache
  unfolding remembered_subject
  remembered_subject-IsGranted key (found a) s new h =
      put-IsGranted key (user_id a.id) (put (id_key a.id) (user a) s.cache)
        (λ k b e same. absurd (cc same), λ k b e same. absurd (cc same))
        (id-IsGranted a.id a s.cache (new a refl) h)
  remembered_subject-IsGranted key (failed e) s new h = h
  remembered_subject-IsGranted key crashed s new h = h

  found_by_oidc-IsGranted :
      (r : Repository) (provider sub : Text) (s : UserService)
      → Knows rights r
      → IsGranted rights s.cache
      → IsGranted rights (find_by_oidc r provider sub s).1.cache
  unfolding find_by_oidc
  found_by_oidc-IsGranted r provider sub s knows h =
      remembered_subject-IsGranted (provider ++ (codes "_" ++ sub)) (r.by_sub provider sub) s
        (λ a e. (knows.2 provider sub a e).0) h

  subject-IsGranted :
      (r : Repository) (provider sub : Text) (answer : Lookup) (s : UserService)
      → Knows rights r
      → IsGranted rights s.cache
      → IsGranted rights (after_subject r provider sub answer s).1.cache
  unfolding after_subject
  subject-IsGranted r provider sub (found a) s knows h = h
  subject-IsGranted r provider sub (failed e) s knows h =
      found_by_oidc-IsGranted r provider sub _ knows h
  subject-IsGranted r provider sub crashed s knows h = h

  pub by_oidc-IsGranted :
      (r : Repository) (provider sub : Text) (s : UserService)
      → Knows rights r
      → IsGranted rights s.cache
      → IsGranted rights (get_user_by_oidc r provider sub s).1.cache
  unfolding get_user_by_oidc
  by_oidc-IsGranted r provider sub s knows h =
      elim (Bool-cases (is_empty sub || is_empty provider)) [
        | inl e ↦ rw (e, get_user_by_oidc) h
        | inr e ↦ elim (Option-cases (get (provider ++ (codes "_" ++ sub)) s.subject_cache)) [
          | inl f ↦ rw (e, f, get_user_by_oidc) (found_by_oidc-IsGranted r provider sub s knows h)
          | inr (id, f) ↦
              let answer = get_user_by_id r id s in
              rw (e, f, get_user_by_oidc)
                (subject-IsGranted r provider sub answer.0 answer.1 knows
                  (by_id-IsGranted r id s knows h))
        ]
      ]

  active_or_read-IsGranted :
      (entry : Option Cached) (key : Text) (answer : Option (List Account)) (s : UserService)
      → IsGranted rights s.cache
      → IsGranted rights (active_or_read entry key answer s).1.cache
  unfolding active_or_read
  active_or_read-IsGranted (some (users l)) key answer s h = h
  active_or_read-IsGranted (some (user a)) key answer s h = h
  active_or_read-IsGranted (some (user_id t)) key answer s h = h
  active_or_read-IsGranted none key none s h = h
  active_or_read-IsGranted none key (some l) s h =
      put-IsGranted key (users l) s.cache
        (λ k b e same. absurd (cc same), λ k b e same. absurd (cc same)) h

  pub Step-IsGranted :
      {s t : UserService} → Step rights s t → IsGranted rights s.cache → IsGranted rights t.cache
  unfolding flush_user_cache flush_cache get_active
  Step-IsGranted (by_id s r id knows) h = by_id-IsGranted r id s knows h
  Step-IsGranted (by_key s r key full knows) h = by_key-IsGranted r key full s knows h
  Step-IsGranted (by_oidc s r provider sub knows) h = by_oidc-IsGranted r provider sub s knows h
  Step-IsGranted (active s day answer) h =
      active_or_read-IsGranted (get (day ++ codes "--active") s.cache) (day ++ codes "--active")
        answer s h
  Step-IsGranted (flushed_user s id) h =
      keep-IsGranted (λ e. not (is_user id e.1)) (remove id (remove (id_key id) s.cache))
        (remove-IsGranted id (remove (id_key id) s.cache) (remove-IsGranted (id_key id) s.cache h))
  Step-IsGranted (flushed s) h = tt
  Step-IsGranted (expired s key) h = remove-IsGranted key s.cache h
