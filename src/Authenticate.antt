-- ===== src/Authenticate.antt =====
-- middlewares/authenticate.go and the bearer header of utils/auth.go: who a request is let through as. The
-- bits of the allowed modalities are a list of them. What the signed cookie, the id token and the
-- address of the request say is what the code they are read by answers.
pub mod Branches
pub mod Entitled
pub mod Proxies
use wakapi.Base.{
  Bool, true, false, not, ◌&&◌, ◌||◌, ◌==◌, List, [], ◌∷◌, ◌++◌, Option, none, some, Text, codes,
  text_eq, is_empty, if◌then◌else◌,
}
use wakapi.SummaryService.Aliased.{has_prefix}
use wakapi.UserService.{
  Account, LookupError, record_not_found, empty_argument, lookup_failed, Lookup, found, failed,
  crashed, UserService, Repository, get_user_by_id, get_user_by_key, get_user_by_oidc,
}

pub data AuthModality : Type 0 where
  cookie oidc api_key trusted_header : AuthModality

unfoldable pub same_modality : AuthModality → AuthModality → Bool
same_modality cookie cookie = true
same_modality oidc oidc = true
same_modality api_key api_key = true
same_modality trusted_header trusted_header = true
same_modality m n = false

pub record AuthText : Type 0 where
  pub trim_space : Text → Text
  pub to_upper : Text → Text
  pub decode_base64 : Text → Option Text

pub record AuthenticateMiddleware : Type 0 where
  pub optional_for_paths : List Text
  pub optional_for_methods : List Text
  pub redirects : Bool
  pub require_full_access_key : Bool
  pub allowed_modalities : List AuthModality
  pub trusted_header_auth : Bool
  pub trusted_header_auth_allow_signup : Bool

pub record Request : Type 0 where
  pub path : Text
  pub method : Text
  pub cookie_user : Option Text
  pub id_token : Option (Text × Text)
  pub authorization : Text
  pub query_key : Text
  pub remote_user : Text
  pub from_trusted_proxy : Bool

-- The repository, and what it is once a user is signed up, none on an error.
pub record Users : Type 0 where
  pub repository : Repository
  pub signed_up : Text → Option Repository

-- The error of a modality that finds no one: that of the lookup, or its own; or, against which ServeHTTP
-- guards, neither a user nor an error.
pub data Attempt : Type 0 where
  as_user : Account → Attempt
  no_user : Attempt
  refused : Option LookupError → Attempt
  panicked : Attempt

unfoldable pub attempted : Lookup → Attempt
attempted (found a) = as_user a
attempted (failed e) = refused (some e)
attempted crashed = panicked

abbrev pub Tried : Type 0
Tried = Attempt × UserService

unfoldable pub answered : Lookup × UserService → Tried
unfolding attempted
answered (l, s) = (attempted l, s)

-- `strings.Split(s, " ")`
unfoldable pub split_spaces : (part : Text) → Text → List Text
split_spaces part [] = part ∷ []
split_spaces part (c ∷ cs) = elim (c == b' ') [
  | true ↦ part ∷ split_spaces [] cs
  | false ↦ split_spaces (part ++ c ∷ []) cs
]

unfoldable pub bearer_of : AuthText → List Text → Option Text
bearer_of x (scheme ∷ payload ∷ []) =
    if text_eq scheme (codes "Basic") || text_eq scheme (codes "Bearer")
    then x.decode_base64 payload
    else none
bearer_of x parts = none

unfoldable pub extract_bearer_auth : AuthText → Request → Option Text
unfolding split_spaces bearer_of
extract_bearer_auth x req = bearer_of x (split_spaces [] req.authorization)

unfoldable pub user_by_cookie : Users → Request → UserService → Tried
unfolding answered
user_by_cookie u req s = elim req.cookie_user [
  | none ↦ (refused none, s)
  | some name ↦ answered (get_user_by_id u.repository name s)
]

unfoldable pub user_by_oidc : Users → Request → UserService → Tried
unfolding answered
user_by_oidc u req s = elim req.id_token [
  | none ↦ (refused none, s)
  | some (provider, sub) ↦ answered (get_user_by_oidc u.repository provider sub s)
]

unfoldable pub user_by_api_key_header :
    AuthText → AuthenticateMiddleware → Users → Request → UserService → Tried
unfolding extract_bearer_auth answered
user_by_api_key_header x m u req s = elim (extract_bearer_auth x req) [
  | none ↦ (refused none, s)
  | some key ↦
      answered (get_user_by_key u.repository (x.trim_space key) m.require_full_access_key s)
]

unfoldable pub user_by_api_key_query :
    AuthText → AuthenticateMiddleware → Users → Request → UserService → Tried
unfolding answered
user_by_api_key_query x m u req s =
    if is_empty (x.trim_space req.query_key)
    then (refused none, s)
    else answered
        (get_user_by_key u.repository (x.trim_space req.query_key) m.require_full_access_key s)

-- A user that the header names and no one is gets signed up, where that is allowed.
unfoldable pub or_signed_up : (create : Bool) → Users → Text → Tried → Tried
unfolding answered
or_signed_up true u name (refused (some record_not_found), s) = elim (u.signed_up name) [
  | none ↦ (refused none, s)
  | some r ↦ answered (get_user_by_id r name s)
]
or_signed_up create u name tried = tried

unfoldable pub user_by_trusted_header :
    AuthenticateMiddleware → Users → Request → UserService → Tried
unfolding answered or_signed_up
user_by_trusted_header m u req s =
    if not m.trusted_header_auth || is_empty req.remote_user || not req.from_trusted_proxy
    then (refused none, s)
    else or_signed_up m.trusted_header_auth_allow_signup u req.remote_user
        (answered (get_user_by_id u.repository req.remote_user s))

unfoldable pub has_modality : AuthModality → List AuthModality → Bool
unfolding same_modality
has_modality modality [] = false
has_modality modality (a ∷ rest) = same_modality a modality || has_modality modality rest

unfoldable pub allows : AuthenticateMiddleware → AuthModality → Bool
unfolding has_modality
allows m modality = has_modality modality m.allowed_modalities

-- The next modality, where none has succeeded so far and this one is on.
unfoldable pub or_try : Bool → (UserService → Tried) → Tried → Tried
or_try true try (refused e, s) = try s
or_try on try tried = tried

unfoldable pub authenticate :
    AuthText → AuthenticateMiddleware → Users → Request → UserService → Tried
unfolding allows or_try user_by_cookie user_by_oidc user_by_api_key_header user_by_api_key_query
    user_by_trusted_header
authenticate x m u req s =
    or_try (allows m trusted_header && m.trusted_header_auth) (user_by_trusted_header m u req) (
      or_try (allows m api_key) (user_by_api_key_query x m u req) (
        or_try (allows m api_key) (user_by_api_key_header x m u req) (
          or_try (allows m oidc) (user_by_oidc u req)
            (or_try (allows m cookie) (user_by_cookie u req) (refused none, s)))))

unfoldable pub has_path : Text → List Text → Bool
has_path path [] = false
has_path path (p ∷ ps) = has_prefix p path || text_eq path p || has_path path ps

unfoldable pub has_method : AuthText → Text → List Text → Bool
has_method x method [] = false
has_method x method (p ∷ ps) = text_eq method (x.to_upper p) || has_method x method ps

unfoldable pub is_optional : AuthText → AuthenticateMiddleware → Request → Bool
unfolding has_path has_method
is_optional x m req =
    has_path req.path m.optional_for_paths || has_method x req.method m.optional_for_methods

-- The next handler with the principal or without one, an answer without it, or a panic.
pub data Served : Type 0 where
  next_as : Account → Served
  next_without unauthorized redirected broken : Served

unfoldable pub without_principal : AuthText → AuthenticateMiddleware → Request → Served
unfolding is_optional
without_principal x m req =
    if is_optional x m req then next_without else if m.redirects then redirected else unauthorized

unfoldable pub served : AuthText → AuthenticateMiddleware → Request → Attempt → Served
unfolding without_principal
served x m req (as_user a) = next_as a
served x m req (refused e) = without_principal x m req
served x m req no_user = without_principal x m req
served x m req panicked = broken

unfoldable pub serve :
    AuthText → AuthenticateMiddleware → Users → Request → UserService → Served × UserService
unfolding authenticate served
serve x m u req s = let (attempt, s') = authenticate x m u req s in (served x m req attempt, s')
