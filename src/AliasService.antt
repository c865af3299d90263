-- ===== src/AliasService.antt =====
-- services/alias.go and models/alias.go: aliases, and the cache of the users' aliases.
-- What the repository answers is an argument, none for an error, and so is the wildmatch package.
-- The cache is reloaded by a goroutine after each change, which is `initialize_user` as a step of
-- its own; the events that are published are left out.
pub mod Removal
pub mod Resolution
use wakapi.Base.{
  ℕ, ◌≡◌, Bool, true, false, not, ◌&&◌, ◌||◌, List, [], ◌∷◌, ◌++◌, Option, none, some, Text,
  text_eq, is_empty, if◌then◌else◌, keep, any, length, leb, ◌==◌,
}
use wakapi.Table.{Table, get, put}
use wakapi.Entity.{Entity, summary, entity_code}
use wakapi.Heartbeat.{Naming, canonical_name}

pub record Alias : Type 0 where
  pub id : ℕ
  pub type : Entity
  pub user_id : Text
  pub key : Text
  pub value : Text

pub data AliasError : Type 0 where
  invalid_alias no_user no_aliases repository_failed : AliasError

unfoldable pub validate_type : Entity → Bool
validate_type (summary t) = true
validate_type _ = false

abbrev is_wildcard : ℕ → Bool
is_wildcard c = c == b'*' || c == b'?'

unfoldable pub validate_wildcard : Text → Bool
unfolding any keep
validate_wildcard value =
    not (any is_wildcard value) || leb 3 (length (keep (λ c. not (is_wildcard c)) value))

unfoldable pub is_valid : Alias → Bool
unfolding validate_type validate_wildcard
is_valid a =
    not (is_empty a.key)
    && not (is_empty a.value)
    && validate_type a.type
    && validate_wildcard a.value

-- `userAliases`
abbrev pub Cache : Type 0
Cache = Table (List Alias)

unfoldable pub is_initialized : Text → Cache → Bool
is_initialized user c = elim (get user c) [ none ↦ false | some xs ↦ true ]

-- With what the repository has for the user.
unfoldable pub initialize_user : Text → Option (List Alias) → Cache → Cache
initialize_user user none c = c
initialize_user user (some xs) c = put user xs c

unfoldable pub initialized : Text → Option (List Alias) → Cache → Cache
initialized user stored c = if is_initialized user c then c else initialize_user user stored c

unfoldable pub get_filtered :
    Text → (Alias → Bool) → Option (List Alias) → Cache → Option (List Alias) × Cache
get_filtered user check stored c =
    let c' = initialized user stored c in
    (elim (get user c') [ none ↦ none | some xs ↦ some (keep check xs) ], c')

-- The first alias of the type that matches.
unfoldable pub first_match : (Text → Text → Bool) → Entity → Text → List Alias → Option Text
first_match match t value [] = none
first_match match t value (a ∷ xs) =
    if (entity_code a.type == entity_code t) && match a.value value
    then some a.key
    else first_match match t value xs

unfoldable pub get_alias_or_default :
    Naming
    → (Text → Text → Bool)
    → Text
    → Entity
    → Text
    → Option (List Alias)
    → Cache
    → Text × Cache
get_alias_or_default names match user t given stored c =
    let c' = initialized user stored c in
    let value = canonical_name names given t in
    (
      elim (get user c') [
        | none ↦ value
        | some xs ↦ elim (first_match match t value xs) [ none ↦ value | some key ↦ key ]
      ],
      c',
    )

unfoldable pub update_cache : Alias → (removal : Bool) → Cache → Cache
update_cache reason removal c = elim (get reason.user_id c) [
  | none ↦ c
  | some xs ↦
      put reason.user_id
        (if removal then keep (λ a. not (a.id == reason.id)) xs else xs ++ reason ∷ []) c
]

-- `inserted` is what the repository makes of the alias.
unfoldable pub create : Alias → (inserted : Option Alias) → Cache → Option Alias × Cache
create a inserted c =
    if not (is_valid a)
    then (none, c)
    else (elim inserted [ none ↦ (none, c) | some stored ↦ (some stored, update_cache a false c) ])

-- The error, if there is one.
unfoldable pub delete : Alias → (deleted : Bool) → Cache → Option AliasError × Cache
delete a deleted c =
    if is_empty a.user_id
    then (some no_user, c)
    else if deleted
    then (none, update_cache a false c)
    else (some repository_failed, c)

unfoldable pub remove_all : List Alias → Cache → Cache
remove_all [] c = c
remove_all (a ∷ xs) c = remove_all xs (update_cache a true c)

unfoldable pub delete_multi : List Alias → (deleted : Bool) → Cache → Option AliasError × Cache
delete_multi xs deleted c =
    if any (λ a. is_empty a.user_id) xs
    then (some no_user, c)
    else if deleted
    then (none, remove_all xs c)
    else (some repository_failed, c)
