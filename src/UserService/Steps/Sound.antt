-- ===== src/UserService/Steps/Sound.antt =====
-- services/user.go: whom the lookups can answer, whatever is looked up before.
use wakapi.Base.{
  ◌≡◌, refl, sym, ◌∙◌, ap, Bool, true, ◌||◌, [], ◌++◌, Option-cases, Text, codes, is_empty,
  Bool-cases, inl, inr,
}
use wakapi.Table.{get}
use wakapi.UserService.{
  Account, Lookup, found, failed, crashed, UserService, Repository, id_key, api_key_key,
  get_user_by_id, find_by_key, get_user_by_key, find_by_oidc, get_user_by_oidc, remembered_subject,
}
use wakapi.UserService.Entries.{remembered-same, asserted-user}
use wakapi.UserService.Steps.{Rights, Knows, Reach, here, next}
use wakapi.UserService.Steps.Cache.{
  IsGranted, get-IsGranted, by_id-IsGranted, by_key-IsGranted, by_oidc-IsGranted, Step-IsGranted,
}
use wakapi.UserService.Steps.Subjects.{
  get_user_by_id-subjects, get_user_by_key-subjects, get_user_by_oidc-uncached,
  get_user_by_oidc-subjects, Step-subjects,
}

-- The users that are cached are under what stands for them, and no subject is cached.
abbrev pub IsSound : Rights → UserService → Type 0
IsSound rights s = IsGranted rights s.cache × (s.subject_cache ≡ [])

remembered_subject-same :
    (key : Text) (answer : Lookup) (s : UserService) → (remembered_subject key answer s).0 ≡ answer
unfolding remembered_subject
remembered_subject-same key (found a) s = refl
remembered_subject-same key (failed e) s = refl
remembered_subject-same key crashed s = refl

module _ (rights : Rights) where
  pub Reach-IsSound : {s t : UserService} → Reach rights s t → IsSound rights s → IsSound rights t
  Reach-IsSound here h = h
  Reach-IsSound (next r st) h =
      let before = Reach-IsSound r h in
      (Step-IsGranted rights st before.0, Step-subjects rights st before.1)

  module _ (r : Repository) (s : UserService) (knows : Knows rights r) (h : IsSound rights s) where
    pub by_id-IsSound : (id : Text) → IsSound rights (get_user_by_id r id s).1
    by_id-IsSound id =
        (by_id-IsGranted rights r id s knows h.0, get_user_by_id-subjects r id s ∙ h.1)

    pub by_key-IsSound :
        (key : Text) (full : Bool) → IsSound rights (get_user_by_key r key full s).1
    by_key-IsSound key full = (
      by_key-IsGranted rights r key full s knows h.0,
      get_user_by_key-subjects r key full s ∙ h.1,
    )

    pub by_oidc-IsSound :
        (provider sub : Text) → IsSound rights (get_user_by_oidc r provider sub s).1
    by_oidc-IsSound provider sub = (
      by_oidc-IsGranted rights r provider sub s knows h.0,
      get_user_by_oidc-subjects r provider sub s h.1,
    )

    -- A user that a key is answered with, from the cache or not, is one whom it is granted.
    pub by_key-granted :
        (key : Text) (a : Account)
        → (get_user_by_key r key true s).0 ≡ found a
        → rights.granted key a
    unfolding get_user_by_key
    by_key-granted key a answer = elim (Bool-cases (is_empty key)) [
      | inl e ↦ absurd (cc (rw (e, get_user_by_key) at answer))
      | inr e ↦ elim (Option-cases (get (api_key_key key true) s.cache)) [
        | inl f ↦ knows.0 key a (
            sym (remembered-same (api_key_key key true) (find_by_key r key true) s)
            ∙ (rw (e, f, get_user_by_key) at answer))
        | inr (c, f) ↦
            (get-IsGranted rights (api_key_key key true) c s.cache h.0 f).0 key a refl
              (asserted-user c a (rw (e, f, get_user_by_key) at answer))
      ]
    ]

    pub by_id-named :
        (id : Text) (a : Account) → (get_user_by_id r id s).0 ≡ found a → rights.named id a
    unfolding get_user_by_id
    by_id-named id a answer = elim (Bool-cases (is_empty id)) [
      | inl e ↦ absurd (cc (rw (e, get_user_by_id) at answer))
      | inr e ↦ elim (Option-cases (get (id_key id) s.cache)) [
        | inl f ↦ knows.1 id a (
            sym (remembered-same (id_key id) (r.by_id id) s)
            ∙ (rw (e, f, get_user_by_id) at answer))
        | inr (c, f) ↦
            (get-IsGranted rights (id_key id) c s.cache h.0 f).1 id a refl
              (asserted-user c a (rw (e, f, get_user_by_id) at answer))
      ]
    ]

    pub by_oidc-identified :
        (provider sub : Text) (a : Account)
        → (get_user_by_oidc r provider sub s).0 ≡ found a
        → rights.identified provider sub a
    unfolding get_user_by_oidc find_by_oidc
    by_oidc-identified provider sub a answer =
        elim (Bool-cases (is_empty sub || is_empty provider)) [
          | inl e ↦ absurd (cc (rw (e, get_user_by_oidc) at answer))
          | inr e ↦
              (knows.2 provider sub a (
                sym (
                  remembered_subject-same (provider ++ (codes "_" ++ sub)) (r.by_sub provider sub)
                    s)
                ∙ sym (ap (λ p. p.0) (get_user_by_oidc-uncached r provider sub s h.1 e))
                ∙ answer)).1
        ]
