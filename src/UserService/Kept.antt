-- ===== src/UserService/Kept.antt =====
-- services/user.go: a key goes on to be answered from the cache.
use wakapi.Base.{
  ◌≡◌, refl, sym, ◌∙◌, ap, Bool, false, none, some, Option-cases, Text, is_empty, Bool-cases, inl,
  inr,
}
use wakapi.Table.{get, get-put_self}
use wakapi.UserService.{
  Account, Lookup, found, failed, crashed, Cached, user, UserService, Repository, api_key_key,
  remembered, asserted, find_by_key, get_user_by_key,
}
use wakapi.UserService.Entries.{remembered-same, empty_key}

module _ (r : Repository) (key : Text) (full : Bool) (s : UserService)
    (filled : is_empty key ≡ false) where
  get_user_by_key-hit :
      (c : Cached)
      → get (api_key_key key full) s.cache ≡ some c
      → get_user_by_key r key full s ≡ (asserted c, s)
  unfolding get_user_by_key
  get_user_by_key-hit c e = rw (filled, e, get_user_by_key) refl

  get_user_by_key-miss :
      get (api_key_key key full) s.cache ≡ none
      → get_user_by_key r key full s ≡ remembered (api_key_key key full) (find_by_key r key full) s
  unfolding get_user_by_key
  get_user_by_key-miss e = rw (filled, e, get_user_by_key) refl

remembered-hit :
    (key : Text) (answer : Lookup) (a : Account) (s : UserService)
    → answer ≡ found a
    → get key (remembered key answer s).1.cache ≡ some (user a)
unfolding remembered
remembered-hit key (found b) a s e = get-put_self key (user b) s.cache ∙ cc e
remembered-hit key (failed f) a s e = absurd (cc e)
remembered-hit key crashed a s e = absurd (cc e)

-- A user that a key is answered with is answered again, whatever the repository and the keys have become,
-- even where the key is revoked.
pub get_user_by_key-get_user_by_key :
    (r r' : Repository) (key : Text) (full : Bool) (a : Account) (s : UserService)
    → (get_user_by_key r key full s).0 ≡ found a
    → (get_user_by_key r' key full (get_user_by_key r key full s).1).0 ≡ found a
unfolding asserted
get_user_by_key-get_user_by_key r r' key full a s answer = elim (Bool-cases (is_empty key)) [
  | inl e ↦ absurd (empty_key r key full s a e answer)
  | inr e ↦ elim (Option-cases (get (api_key_key key full) s.cache)) [
    | inl f ↦
        let miss = get_user_by_key-miss r key full s e f in
        let stored =
          sym (remembered-same (api_key_key key full) (find_by_key r key full) s)
          ∙ sym (ap (λ p. p.0) miss)
          ∙ answer in
        let kept =
          ap (λ p. get (api_key_key key full) p.1.cache) miss
          ∙ remembered-hit (api_key_key key full) (find_by_key r key full) a s stored in
        ap (λ p. p.0)
          (get_user_by_key-hit r' key full (get_user_by_key r key full s).1 e (user a) kept)
    | inr (c, f) ↦
        let hit = get_user_by_key-hit r key full s e c f in
        rw hit (
          ap (λ p. p.0) (get_user_by_key-hit r' key full s e c f)
          ∙ sym (ap (λ p. p.0) hit)
          ∙ answer)
  ]
]
