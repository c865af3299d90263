-- ===== src/AliasService/Resolution.antt =====
-- services/alias.go: what a value resolves to after Create and Delete, as long as the cache is not
-- loaded again. Delete updates the cache as Create does, and so adds the alias instead of removing it.
use wakapi.Base.{
  ◌≡◌, refl, sym, Bool, true, false, ◌&&◌, List, [], ◌∷◌, ◌++◌, Option, none, some, some_ne_none,
  Text, is_empty, Bool-cases, inl, inr, ◌==◌,
}
use wakapi.Table
use wakapi.Table.{Table, get, put}
use wakapi.Entity.{Entity, entity_code}
use wakapi.Heartbeat.{Naming, canonical_name}
use wakapi.AliasService.{
  Alias, Cache, is_valid, is_initialized, initialized, first_match, get_alias_or_default,
  update_cache, create, delete,
}

-- The alias matches a value of a type.
abbrev pub Matches : (Text → Text → Bool) → Entity → Text → Alias → Type 0
Matches match t value a = ((entity_code a.type == entity_code t) && match a.value value) ≡ true

first_match-append :
    (match : Text → Text → Bool) (t : Entity) (value : Text) (xs : List Alias) (a : Alias)
    → first_match match t value xs ≡ none
    → Matches match t value a
    → first_match match t value (xs ++ a ∷ []) ≡ some a.key
unfolding first_match
first_match-append match t value [] a h m = rw m refl
first_match-append match t value (x ∷ xs) a h m =
    elim (Bool-cases ((entity_code x.type == entity_code t) && match x.value value)) [
      | inl e ↦ absurd (some_ne_none (rw e at h))
      | inr e ↦ rw e (first_match-append match t value xs a (rw e at h) m)
    ]

first_match-append_found :
    (match : Text → Text → Bool) (t : Entity) (value : Text) (xs : List Alias) (a : Alias)
    (key : Text)
    → first_match match t value xs ≡ some key
    → first_match match t value (xs ++ a ∷ []) ≡ some key
unfolding first_match
first_match-append_found match t value [] a key h = absurd (some_ne_none (sym h))
first_match-append_found match t value (x ∷ xs) a key h =
    elim (Bool-cases ((entity_code x.type == entity_code t) && match x.value value)) [
      | inl e ↦ rw e (rw e at h)
      | inr e ↦ rw e (first_match-append_found match t value xs a key (rw e at h))
    ]

initialized_loaded :
    (user : Text) (stored : Option (List Alias)) (c : Cache) (xs : List Alias)
    → get user c ≡ some xs
    → initialized user stored c ≡ c
unfolding initialized is_initialized
initialized_loaded user stored c xs h = rw (h, initialized, is_initialized) refl

module _ (names : Naming) (match : Text → Text → Bool) (t : Entity) (given : Text)
    (stored : Option (List Alias)) (a : Alias) (xs : List Alias) (c : Cache)
    (loaded : get a.user_id c ≡ some xs) where
  appended : get a.user_id (update_cache a false c) ≡ some (xs ++ a ∷ [])
  unfolding update_cache
  appended = rw (loaded, update_cache) (Table.get-put_self a.user_id (xs ++ a ∷ []) c)

  resolves :
      (key : Text)
      → first_match match t (canonical_name names given t) (xs ++ a ∷ []) ≡ some key
      → (get_alias_or_default names match a.user_id t given stored (update_cache a false c)).0 ≡ key
  unfolding get_alias_or_default
  resolves key found =
      rw
        (
          initialized_loaded a.user_id stored (update_cache a false c) (xs ++ a ∷ []) appended,
          get_alias_or_default,
        )
        (rw (appended, get_alias_or_default) (rw found refl))

  -- Where a user's aliases are cached and none of them matches, a value that a new valid alias
  -- matches resolves to that alias's key once it has been created.
  pub create-get_alias_or_default :
      (inserted : Alias)
      → first_match match t (canonical_name names given t) xs ≡ none
      → Matches match t (canonical_name names given t) a
      → is_valid a ≡ true
      → (get_alias_or_default names match a.user_id t given stored (create a (some inserted) c).1).0
        ≡ a.key
  unfolding create
  create-get_alias_or_default inserted unmatched m valid =
      rw valid (
        resolves a.key (first_match-append match t (canonical_name names given t) xs a unmatched m))

  -- Where a user's aliases are cached, a value that resolves to a key by one of them resolves to
  -- that key also after Delete has deleted an alias of the user in the repository, the same or not.
  pub delete-get_alias_or_default :
      (key : Text)
      → first_match match t (canonical_name names given t) xs ≡ some key
      → is_empty a.user_id ≡ false
      → ((delete a true c).0 ≡ none)
        × ((get_alias_or_default names match a.user_id t given stored (delete a true c).1).0 ≡ key)
  unfolding delete
  delete-get_alias_or_default key found owned = rw owned (
    refl,
    resolves key (first_match-append_found match t (canonical_name names given t) xs a key found),
  )
