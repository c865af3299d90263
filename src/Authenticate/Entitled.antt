-- ===== src/Authenticate/Entitled.antt =====
-- middlewares/authenticate.go: as whom a request is let through.
use wakapi.Base.{
  ◌≡◌, ◌⊎◌, refl, sym, subst, Bool, true, false, not, ◌||◌, ◌&&◌, [], Option, none, some, Text,
  is_empty, Bool-cases, Option-cases, inl, inr, arith,
}
use wakapi.UserService.{
  Account, LookupError, record_not_found, empty_argument, lookup_failed, Lookup, found, UserService,
  Repository, get_user_by_id, get_user_by_key, get_user_by_oidc,
}
use wakapi.UserService.Steps.{Rights, Knows, Reach}
use wakapi.UserService.Steps.Sound.{
  IsSound, Reach-IsSound, by_id-IsSound, by_key-IsSound, by_oidc-IsSound, by_key-granted,
  by_id-named, by_oidc-identified,
}
use wakapi.Authenticate.Branches.{
  attempted-found, served-as, user_by_cookie-none, user_by_cookie-some, user_by_oidc-none,
  user_by_oidc-some, user_by_trusted_header-refused, user_by_trusted_header-tried,
}
use wakapi.Authenticate.{
  no_user, AuthText, AuthenticateMiddleware, Request, Users, as_user, refused, panicked, Tried,
  answered, extract_bearer_auth, or_signed_up, user_by_trusted_header, or_try, allows,
  user_by_cookie, user_by_oidc, user_by_api_key_header, user_by_api_key_query, authenticate,
  next_as, serve, trusted_header, api_key, oidc, cookie,
}

-- A key of the request: that of its header, or that of its query.
abbrev pub IsBorne : AuthText → Request → Text → Type 0
IsBorne x req key =
    ((payload : Text) × (extract_bearer_auth x req ≡ some payload) × (x.trim_space payload ≡ key))
    ⊎ (x.trim_space req.query_key ≡ key)

-- Something that the request bears stands for the account, in a way that the middleware allows.
pub data IsEntitled (rights : Rights) (x : AuthText) (m : AuthenticateMiddleware) (req : Request)
    (a : Account) : Type 0 where
  named_by_cookie :
      (name : Text)
      → allows m cookie ≡ true
      → req.cookie_user ≡ some name
      → rights.named name a
      → IsEntitled rights x m req a
  identified_by_token :
      (provider sub : Text)
      → allows m oidc ≡ true
      → req.id_token ≡ some (provider, sub)
      → rights.identified provider sub a
      → IsEntitled rights x m req a
  granted_by_key :
      (key : Text)
      → allows m api_key ≡ true
      → IsBorne x req key
      → rights.granted key a
      → IsEntitled rights x m req a
  named_by_proxy :
      allows m trusted_header ≡ true
      → m.trusted_header_auth ≡ true
      → req.from_trusted_proxy ≡ true
      → rights.named req.remote_user a
      → IsEntitled rights x m req a

both : (a b : Bool) → (a && b) ≡ true → (a ≡ true) × (b ≡ true)
both true true e = (refl, refl)
both true false e = absurd (cc e)
both false b e = absurd (cc e)

-- What the users that are signed up leave is known too.
abbrev pub KnowsUsers : Rights → Users → Type 0
KnowsUsers rights u =
    Knows rights u.repository
    × ((name : Text) (r : Repository) → u.signed_up name ≡ some r → Knows rights r)

module _ (rights : Rights) (x : AuthText) (m : AuthenticateMiddleware) (u : Users) (req : Request)
    (knows : KnowsUsers rights u) (full : m.require_full_access_key ≡ true) where
  IsFine : Tried → Type 0
  IsFine t = IsSound rights t.1 × ((a : Account) → t.0 ≡ as_user a → IsEntitled rights x m req a)

  refused-IsFine :
      (e : Option LookupError) (s : UserService) → IsSound rights s → IsFine (refused e, s)
  unfolding IsFine
  refused-IsFine e s h = (h, λ a same. absurd (cc same))

  or_try-IsFine :
      (on : Bool) (try : UserService → Tried) (t : Tried)
      → (on ≡ true → (s : UserService) → IsSound rights s → IsFine (try s))
      → IsFine t
      → IsFine (or_try on try t)
  unfolding or_try IsFine
  or_try-IsFine true try (refused e, s) h fine = h refl s fine.0
  or_try-IsFine true try (as_user a, s) h fine = fine
  or_try-IsFine true try (panicked, s) h fine = fine
  or_try-IsFine true try (no_user, s) h fine = fine
  or_try-IsFine false try (t, s) h fine = fine

  -- A lookup is fine where whoever it finds is entitled.
  answered-IsFine :
      (l : Lookup × UserService)
      → IsSound rights l.1
      → ((a : Account) → l.0 ≡ found a → IsEntitled rights x m req a)
      → IsFine (answered l)
  unfolding IsFine answered
  answered-IsFine l h entitled = (h, λ a same. entitled a (attempted-found l.0 a same))

  cookie-IsFine :
      allows m cookie ≡ true
      → (s : UserService) → IsSound rights s
      → IsFine (user_by_cookie u req s)
  unfolding user_by_cookie
  cookie-IsFine on s h = elim (Option-cases req.cookie_user) [
    | inl e ↦ subst IsFine (sym (user_by_cookie-none u req s e)) (refused-IsFine none s h)
    | inr (name, e) ↦ subst IsFine (sym (user_by_cookie-some u req s name e)) (
        answered-IsFine (get_user_by_id u.repository name s)
          (by_id-IsSound rights u.repository s knows.0 h name)
          (λ a answer.
            named_by_cookie name on e (by_id-named rights u.repository s knows.0 h name a answer)))
  ]

  oidc-IsFine :
      allows m oidc ≡ true → (s : UserService) → IsSound rights s → IsFine (user_by_oidc u req s)
  oidc-IsFine on s h = elim (Option-cases req.id_token) [
    | inl e ↦ subst IsFine (sym (user_by_oidc-none u req s e)) (refused-IsFine none s h)
    | inr ((provider, sub), e) ↦ subst IsFine (sym (user_by_oidc-some u req s provider sub e)) (
        answered-IsFine (get_user_by_oidc u.repository provider sub s)
          (by_oidc-IsSound rights u.repository s knows.0 h provider sub)
          (λ a answer.
            identified_by_token provider sub on e
              (by_oidc-identified rights u.repository s knows.0 h provider sub a answer)))
  ]

  key-IsFine :
      (key : Text) (s : UserService)
      → allows m api_key ≡ true
      → IsBorne x req key
      → IsSound rights s
      → IsFine (answered (get_user_by_key u.repository key m.require_full_access_key s))
  key-IsFine key s on borne h =
      subst (λ b. IsFine (answered (get_user_by_key u.repository key b s))) (sym full)
        (answered-IsFine (get_user_by_key u.repository key true s)
          (by_key-IsSound rights u.repository s knows.0 h key true)
          (λ a answer.
            granted_by_key key on borne
              (by_key-granted rights u.repository s knows.0 h key a answer)))

  header-IsFine :
      allows m api_key ≡ true
      → (s : UserService) → IsSound rights s
      → IsFine (user_by_api_key_header x m u req s)
  unfolding user_by_api_key_header
  header-IsFine on s h = elim (Option-cases (extract_bearer_auth x req)) [
    | inl e ↦ rw (e, user_by_api_key_header) (refused-IsFine none s h)
    | inr (payload, e) ↦
        rw (e, user_by_api_key_header)
          (key-IsFine (x.trim_space payload) s on (inl (payload, e, refl)) h)
  ]

  query-IsFine :
      allows m api_key ≡ true
      → (s : UserService) → IsSound rights s
      → IsFine (user_by_api_key_query x m u req s)
  unfolding user_by_api_key_query
  query-IsFine on s h = elim (Bool-cases (is_empty (x.trim_space req.query_key))) [
    | inl e ↦ rw (e, user_by_api_key_query) (refused-IsFine none s h)
    | inr e ↦
        rw (e, user_by_api_key_query) (key-IsFine (x.trim_space req.query_key) s on (inr refl) h)
  ]

  -- The header may name whom it likes where a trusted proxy has set it.
  module _ (allowed : allows m trusted_header ≡ true) (on : m.trusted_header_auth ≡ true)
      (trusted : req.from_trusted_proxy ≡ true) where
    name-IsFine :
        (r : Repository) (s : UserService)
        → Knows rights r
        → IsSound rights s
        → IsFine (answered (get_user_by_id r req.remote_user s))
    name-IsFine r s knows' h =
        answered-IsFine (get_user_by_id r req.remote_user s)
          (by_id-IsSound rights r s knows' h req.remote_user)
          (λ a answer.
            named_by_proxy allowed on trusted
              (by_id-named rights r s knows' h req.remote_user a answer))

    or_signed_up-IsFine :
        (create : Bool) (t : Tried) → IsFine t → IsFine (or_signed_up create u req.remote_user t)
    unfolding or_signed_up IsFine
    or_signed_up-IsFine true (refused (some record_not_found), s) fine =
        elim (Option-cases (u.signed_up req.remote_user)) [
          | inl e ↦ rw (e, or_signed_up) (refused-IsFine none s fine.0)
          | inr (r, e) ↦ rw (e, or_signed_up) (name-IsFine r s (knows.1 req.remote_user r e) fine.0)
        ]
    or_signed_up-IsFine true (refused (some empty_argument), s) fine = fine
    or_signed_up-IsFine true (refused (some lookup_failed), s) fine = fine
    or_signed_up-IsFine true (refused none, s) fine = fine
    or_signed_up-IsFine true (as_user a, s) fine = fine
    or_signed_up-IsFine true (panicked, s) fine = fine
    or_signed_up-IsFine true (no_user, s) fine = fine
    or_signed_up-IsFine false (t, s) fine = fine

  proxy-IsFine :
      (allows m trusted_header && m.trusted_header_auth) ≡ true
      → (s : UserService) → IsSound rights s
      → IsFine (user_by_trusted_header m u req s)
  unfolding user_by_trusted_header
  proxy-IsFine on s h =
      let (allowed, auth) = both (allows m trusted_header) m.trusted_header_auth on in
      elim (Bool-cases
        (not m.trusted_header_auth || is_empty req.remote_user || not req.from_trusted_proxy)) [
          | inl e ↦
              subst IsFine (sym (user_by_trusted_header-refused m u req s e))
                (refused-IsFine none s h)
          | inr e ↦
              let trusted : req.from_trusted_proxy ≡ true = ground (arith, e) in
              subst IsFine (sym (user_by_trusted_header-tried m u req s e)) (
                or_signed_up-IsFine allowed auth trusted m.trusted_header_auth_allow_signup _
                  (name-IsFine allowed auth trusted u.repository s knows.0 h))
        ]

  authenticate-IsFine : (s : UserService) → IsSound rights s → IsFine (authenticate x m u req s)
  unfolding authenticate
  authenticate-IsFine s h =
      or_try-IsFine (allows m trusted_header && m.trusted_header_auth) _ _ proxy-IsFine (
        or_try-IsFine (allows m api_key) _ _ query-IsFine (
          or_try-IsFine (allows m api_key) _ _ header-IsFine (
            or_try-IsFine (allows m oidc) _ _ oidc-IsFine
              (or_try-IsFine (allows m cookie) _ _ cookie-IsFine (refused-IsFine none s h)))))

-- Where full access is required, a request is let through as a user only if something stands for that
-- user which it bears and the middleware allows: the cookie's name, the token's subject, a key that has
-- been granted to the user, or the name that a trusted proxy has set. Any lookups and flushes since the
-- start, with repositories that find users only by what stands for them, make no difference.
pub serve-IsEntitled :
    (rights : Rights) {s : UserService}
    → Reach rights (record { cache = []; subject_cache = [] }) s
    → (x : AuthText) (m : AuthenticateMiddleware) (u : Users) (req : Request) → KnowsUsers rights u
    → m.require_full_access_key ≡ true
    → (a : Account) → (serve x m u req s).0 ≡ next_as a
    → IsEntitled rights x m req a
unfolding serve IsFine
serve-IsEntitled rights {s} reach x m u req knows full a e =
    let fine =
      authenticate-IsFine rights x m u req knows full s (Reach-IsSound rights reach (tt, refl)) in
    fine.1 a (served-as x m req (authenticate x m u req s).0 a e)
