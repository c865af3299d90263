-- ===== src/Authenticate/Proxies.antt =====
-- middlewares/authenticate.go: the header that only a trusted proxy may set.
use wakapi.Base.{◌≡◌, refl, sym, ◌∙◌, ap, Bool, true, false, not, ◌||◌, ◌&&◌, none, Text, is_empty}
use wakapi.UserService.{UserService}
use wakapi.Authenticate.{
  no_user, without_principal, AuthText, AuthenticateMiddleware, Request, Users, as_user, refused,
  panicked, Tried, user_by_trusted_header, or_try, allows, user_by_cookie, user_by_oidc,
  user_by_api_key_header, user_by_api_key_query, authenticate, is_optional, served, serve,
  trusted_header,
}

or_true : (a : Bool) → (a || true) ≡ true
or_true true = refl
or_true false = refl

untrusted :
    (m : AuthenticateMiddleware) (u : Users) (req : Request) (s : UserService)
    → req.from_trusted_proxy ≡ false
    → user_by_trusted_header m u req s ≡ (refused none, s)
unfolding user_by_trusted_header
untrusted m u req s e =
    rw (e, or_true (not m.trusted_header_auth || is_empty req.remote_user), user_by_trusted_header)
      refl

or_try-same :
    (on : Bool) (f g : UserService → Tried) (t : Tried)
    → ((s : UserService) → f s ≡ g s)
    → or_try on f t ≡ or_try on g t
unfolding or_try
or_try-same true f g (refused e, s) h = h s
or_try-same true f g (as_user a, s) h = refl
or_try-same true f g (panicked, s) h = refl
or_try-same true f g (no_user, s) h = refl
or_try-same false f g (t, s) h = refl

-- Where a request does not come by a trusted proxy it is served the same way, whatever user its header names.
pub serve-remote_user :
    (x : AuthText) (m : AuthenticateMiddleware) (u : Users) (req : Request) (name : Text)
    (s : UserService)
    → req.from_trusted_proxy ≡ false
    → serve x m u (record req { remote_user = name }) s ≡ serve x m u req s
unfolding serve authenticate served without_principal is_optional user_by_cookie user_by_oidc
    user_by_api_key_header user_by_api_key_query
serve-remote_user x m u req name s e =
    ap (λ t. (served x m req t.0, t.1))
      (or_try-same (allows m trusted_header && m.trusted_header_auth)
        (user_by_trusted_header m u (record req { remote_user = name }))
        (user_by_trusted_header m u req) _
        (λ t. untrusted m u (record req { remote_user = name }) t e ∙ sym (untrusted m u req t e)))
