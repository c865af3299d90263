-- ===== src/UserService/Entries.antt =====
-- services/user.go: the keys of the cache of users, and what an answer leaves under them.
use mathlib.Core.List.{append_cancel_right, reverse, reverse-append}
use wakapi.Base.{
  ℕ, ◌≡◌, ◌≢◌, ◌⊎◌, refl, sym, ◌∙◌, ap, Bool, true, false, [], ◌∷◌, ◌++◌, Text, codes, is_empty,
  if◌then◌else◌, inl, inr, arith,
}
use wakapi.Collections.{drop}
use wakapi.UserService.{
  Account, Lookup, found, failed, crashed, Cached, user, user_id, users, UserService, Repository,
  id_key, api_key_key, remembered, asserted, get_user_by_key,
}

first_of : Text → ℕ
first_of [] = 0
first_of (c ∷ cs) = c

pub id_not_key : (id key : Text) (full : Bool) → id_key id ≢ api_key_key key full
unfolding id_key api_key_key first_of
id_not_key id key full h =
    let differ : ◌≡◌ {A = ℕ} b'i' b'k' = ap first_of h in absurd (omega (arith, differ))

pub id_of : (i j : Text) → id_key i ≡ id_key j → i ≡ j
unfolding id_key drop
id_of i j h = ap (drop 3) h

-- What a key of the cache ends in.
ends :
    (k l : Text) (full : Bool)
    → api_key_key k true ≡ api_key_key l full
    → k ++ codes "_true" ≡ l ++ (if full then codes "_true" else codes "_false")
unfolding api_key_key drop
ends k l full h = ap (drop 4) h

pub key_of : (k l : Text) → api_key_key k true ≡ api_key_key l true → k ≡ l
key_of k l h = append_cancel_right k l (codes "_true") (ends k l true h)

abbrev second_byte : Text → ℕ
second_byte [] = 0
second_byte (c ∷ []) = 0
second_byte (c ∷ d ∷ cs) = d

pub full_of : (k l : Text) → api_key_key k true ≢ api_key_key l false
full_of k l h =
    let back : codes "eurt_" ++ reverse k ≡ codes "eslaf_" ++ reverse l =
      sym (reverse-append k (codes "_true"))
      ∙ ap reverse (ends k l false h)
      ∙ reverse-append l (codes "_false") in
    let differ : ◌≡◌ {A = ℕ} b'u' b's' = ap second_byte back in absurd (omega (arith, differ))

unfoldable pub account_of : Account → Cached → Account
account_of a (user b) = b
account_of a (user_id t) = a
account_of a (users l) = a

-- What is remembered of an answer: the user, or nothing.
pub Lookup-cases :
    (answer : Lookup)
    → ((a : Account) × (answer ≡ found a))
      ⊎ ((key : Text) (s : UserService) → (remembered key answer s).1 ≡ s)
unfolding remembered
Lookup-cases (found a) = inl (a, refl)
Lookup-cases (failed e) = inr (λ key s. refl)
Lookup-cases crashed = inr (λ key s. refl)

-- Remembering an answer gives it on.
pub remembered-same :
    (key : Text) (answer : Lookup) (s : UserService) → (remembered key answer s).0 ≡ answer
unfolding remembered
remembered-same key (found a) s = refl
remembered-same key (failed e) s = refl
remembered-same key crashed s = refl

pub asserted-user : (c : Cached) (a : Account) → asserted c ≡ found a → c ≡ user a
unfolding asserted
asserted-user (user b) a e = cc e
asserted-user (user_id t) a e = absurd (cc e)
asserted-user (users l) a e = absurd (cc e)

pub empty_key :
    (r : Repository) (key : Text) (full : Bool) (s : UserService) (a : Account)
    → is_empty key ≡ true
    → (get_user_by_key r key full s).0 ≢ found a
unfolding get_user_by_key
empty_key r key full s a e answer = absurd (cc (rw (e, get_user_by_key) at answer))
