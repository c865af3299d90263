-- ===== src/Authenticate/Branches.antt =====
-- middlewares/authenticate.go: what the ways to authenticate come to in each case.
use wakapi.Base.{
  ◌≢◌, ◌≡◌, refl, true, false, not, ◌||◌, none, some, Text, is_empty, Bool-cases, inl, inr,
}
use wakapi.UserService.{
  Account, Lookup, found, failed, crashed, UserService, get_user_by_id, get_user_by_oidc,
}
use wakapi.Authenticate.{
  no_user, without_principal, AuthText, AuthenticateMiddleware, Request, Users, Attempt, as_user,
  refused, panicked, attempted, answered, or_signed_up, user_by_trusted_header, user_by_cookie,
  user_by_oidc, next_as, is_optional, served,
}

pub attempted-found : (l : Lookup) (a : Account) → attempted l ≡ as_user a → l ≡ found a
unfolding attempted
attempted-found (found b) a e = cc e
attempted-found (failed f) a e = absurd (cc e)
attempted-found crashed a e = absurd (cc e)

no_principal :
    (x : AuthText) (m : AuthenticateMiddleware) (req : Request) (a : Account)
    → without_principal x m req ≢ next_as a
unfolding without_principal
no_principal x m req a e = elim (Bool-cases (is_optional x m req)) [
  | inl o ↦ absurd (cc (rw (o, without_principal) at e))
  | inr o ↦ elim (Bool-cases m.redirects) [
    | inl d ↦ absurd (cc (rw (o, d, without_principal) at e))
    | inr d ↦ absurd (cc (rw (o, d, without_principal) at e))
  ]
]

pub served-as :
    (x : AuthText) (m : AuthenticateMiddleware) (req : Request) (t : Attempt) (a : Account)
    → served x m req t ≡ next_as a
    → t ≡ as_user a
unfolding served
served-as x m req (as_user b) a e = cc e
served-as x m req no_user a e = absurd (no_principal x m req a e)
served-as x m req panicked a e = absurd (cc e)
served-as x m req (refused f) a e = absurd (no_principal x m req a e)

module _ (u : Users) (req : Request) (s : UserService) where
  pub user_by_cookie-none : req.cookie_user ≡ none → user_by_cookie u req s ≡ (refused none, s)
  unfolding user_by_cookie
  user_by_cookie-none e = rw (e, user_by_cookie) refl

  pub user_by_cookie-some :
      (name : Text)
      → req.cookie_user ≡ some name
      → user_by_cookie u req s ≡ answered (get_user_by_id u.repository name s)
  unfolding user_by_cookie
  user_by_cookie-some name e = rw (e, user_by_cookie) refl

  pub user_by_oidc-none : req.id_token ≡ none → user_by_oidc u req s ≡ (refused none, s)
  unfolding user_by_oidc
  user_by_oidc-none e = rw (e, user_by_oidc) refl

  pub user_by_oidc-some :
      (provider sub : Text)
      → req.id_token ≡ some (provider, sub)
      → user_by_oidc u req s ≡ answered (get_user_by_oidc u.repository provider sub s)
  unfolding user_by_oidc
  user_by_oidc-some provider sub e = rw (e, user_by_oidc) refl

module _ (m : AuthenticateMiddleware) (u : Users) (req : Request) (s : UserService) where
  pub user_by_trusted_header-refused :
      (not m.trusted_header_auth || is_empty req.remote_user || not req.from_trusted_proxy) ≡ true
      → user_by_trusted_header m u req s ≡ (refused none, s)
  unfolding user_by_trusted_header
  user_by_trusted_header-refused e = rw (e, user_by_trusted_header) refl

  pub user_by_trusted_header-tried :
      (not m.trusted_header_auth || is_empty req.remote_user || not req.from_trusted_proxy) ≡ false
      → user_by_trusted_header m u req s
        ≡ or_signed_up m.trusted_header_auth_allow_signup u req.remote_user
            (answered (get_user_by_id u.repository req.remote_user s))
  unfolding user_by_trusted_header
  user_by_trusted_header-tried e = rw (e, user_by_trusted_header) refl
