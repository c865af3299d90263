-- ===== src/AliasService/Removal.antt =====
-- services/alias.go: what DeleteMulti takes out of the cache.
use wakapi.Base.{
  ◌≡◌, refl, sym, ap, ◌∙◌, Bool, true, false, not, List, [], ◌∷◌, Option, none, some, Option-cases,
  some_ne_none, text_eq, text_eq→eq, is_empty, Bool-cases, inl, inr, keep, any, All, ◌==◌, ℕ, arith,
}
use wakapi.Table
use wakapi.Table.{Table, get, put}
use wakapi.AliasService.{Alias, Cache, update_cache, remove_all, delete_multi}

abbrev pub has_id : ℕ → Option (List Alias) → Bool
has_id id none = false
has_id id (some xs) = any (λ b. b.id == id) xs

-- The user's cached aliases, if any, do not include the alias.
abbrev pub IsGone : Cache → Alias → Type 0
IsGone c a = has_id a.id (get a.user_id c) ≡ false

any-keep :
    {A : Type 0} (p q : A → Bool) (xs : List A) → any p xs ≡ false → any p (keep q xs) ≡ false
unfolding any keep
any-keep p q [] h = refl
any-keep p q (a ∷ xs) h = ground (arith, any-keep p q xs)

any-keep-not : {A : Type 0} (p : A → Bool) (xs : List A) → any p (keep (λ a. not (p a)) xs) ≡ false
unfolding any keep
any-keep-not p [] = refl
any-keep-not p (a ∷ xs) = ground (arith, any-keep-not p xs)

IsGone-update_cache : (a : Alias) (c : Cache) → IsGone (update_cache a true c) a
unfolding update_cache
IsGone-update_cache a c = elim (Option-cases (get a.user_id c)) [
  | inl e ↦ rw (e, update_cache) (rw e refl)
  | inr (xs, e) ↦
      rw (e, update_cache)
        (rw (Table.get-put_self a.user_id (keep (λ b. not (b.id == a.id)) xs) c)
          (any-keep-not (λ b. b.id == a.id) xs))
]

IsGone-update_cache_other :
    (a b : Alias) (c : Cache) → IsGone c a → IsGone (update_cache b true c) a
unfolding update_cache
IsGone-update_cache_other a b c h = elim (Option-cases (get b.user_id c)) [
  | inl e ↦ rw (e, update_cache) h
  | inr (xs, e) ↦
      rw (e, update_cache)
        (rw (Table.get-put a.user_id b.user_id (keep (λ x. not (x.id == b.id)) xs) c)
          (elim (Bool-cases (text_eq b.user_id a.user_id)) [
            | inl k ↦ rw k (
                any-keep (λ x. x.id == a.id) _ xs
                  (rw (ap (λ u. get u c) (sym (text_eq→eq _ _ k)) ∙ e) at h))
            | inr k ↦ rw k h
          ]))
]

IsGone-remove_all :
    (a : Alias) (xs : List Alias) (c : Cache) → IsGone c a → IsGone (remove_all xs c) a
unfolding remove_all
IsGone-remove_all a [] c h = h
IsGone-remove_all a (x ∷ xs) c h =
    IsGone-remove_all a xs (update_cache x true c) (IsGone-update_cache_other a x c h)

remove_all-IsGone : (xs : List Alias) (c : Cache) → All (IsGone (remove_all xs c)) xs
unfolding remove_all
remove_all-IsGone [] c = tt
remove_all-IsGone (x ∷ xs) c = (
  IsGone-remove_all x xs (update_cache x true c) (IsGone-update_cache x c),
  remove_all-IsGone xs (update_cache x true c),
)

-- When the repository deletes several aliases, and DeleteMulti reports no error, none of them is
-- left among its user's cached aliases.
pub delete_multi-IsGone :
    (xs : List Alias) (c : Cache)
    → (delete_multi xs true c).0 ≡ none
    → All (IsGone (delete_multi xs true c).1) xs
unfolding delete_multi
delete_multi-IsGone xs c h = elim (Bool-cases (any (λ a. is_empty a.user_id) xs)) [
  | inl e ↦ absurd (some_ne_none (rw e at h))
  | inr e ↦ rw e (remove_all-IsGone xs c)
]
