-- ===== src/Tests/Accounts.antt =====
-- Users that are looked up and authenticated, and the theorems on them applied.
use wakapi.Base.{◌≡◌, refl, true, false, [], ◌∷◌, none, some, codes, text_eq, if◌then◌else◌}
use wakapi.Table.{get, put}
use wakapi.UserService.{
  Account, record_not_found, found, failed, UserService, Repository, get_user_by_key, find_by_key,
  remembered,
}
use wakapi.UserService.Steps.{Rights, Knows, Reach, here, next, by_key}
use wakapi.UserService.Kept.{get_user_by_key-get_user_by_key}
use wakapi.Authenticate.{
  AuthText, AuthenticateMiddleware, Request, Users, serve, next_as, cookie, oidc, api_key,
  trusted_header,
}
use wakapi.Authenticate.Entitled.{IsEntitled, KnowsUsers, serve-IsEntitled}
use wakapi.Authenticate.Proxies.{serve-remote_user}

abbrev account : Account
account = record { id = codes "ada"; api_key = codes "k1"; auth_type = codes "local"; sub = [] }

-- The one user, who has one key.
abbrev repository : Repository
repository = record {
  by_id = λ id. if text_eq id (codes "ada") then found account else failed record_not_found;
  by_key = λ key. if text_eq key (codes "k1") then found account else failed record_not_found;
  by_sub = λ provider sub. failed record_not_found;
  by_api_key = λ key full. failed record_not_found;
}

-- No one has a key.
abbrev revoked : Repository
revoked = record repository { by_key = λ key. failed record_not_found }

abbrev fresh : UserService
fresh = record { cache = []; subject_cache = [] }

-- What the repository answers stands for the user.
abbrev repository_rights : Rights
repository_rights = record {
  granted = λ key a. find_by_key repository key true ≡ found a;
  named = λ id a. repository.by_id id ≡ found a;
  identified = λ provider sub a. repository.by_sub provider sub ≡ found a;
}

repository-Knows : Knows repository_rights repository
repository-Knows = (λ key a e. e, λ id a e. e, λ provider sub a e. absurd (cc e))

abbrev used : UserService
used = (get_user_by_key repository (codes "k1") true fresh).1

used-Reach : Reach repository_rights fresh used
used-Reach = next here (by_key fresh repository (codes "k1") true repository-Knows)

get_user_by_key-get_user_by_key_example :
    (get_user_by_key revoked (codes "k1") true used).0 ≡ found account
unfolding get_user_by_key remembered find_by_key text_eq get
get_user_by_key-get_user_by_key_example =
    get_user_by_key-get_user_by_key repository revoked (codes "k1") true account fresh refl

abbrev texts : AuthText
texts = record { trim_space = λ t. t; to_upper = λ t. t; decode_base64 = λ t. some t }

abbrev middleware : AuthenticateMiddleware
middleware = record {
  optional_for_paths = [];
  optional_for_methods = [];
  redirects = false;
  require_full_access_key = true;
  allowed_modalities = cookie ∷ oidc ∷ api_key ∷ trusted_header ∷ [];
  trusted_header_auth = true;
  trusted_header_auth_allow_signup = true;
}

abbrev request : Request
request = record {
  path = codes "/api/heartbeat";
  method = codes "POST";
  cookie_user = none;
  id_token = none;
  authorization = codes "Basic k1";
  query_key = [];
  remote_user = [];
  from_trusted_proxy = false;
}

abbrev sample_users : Users
sample_users = record { repository = repository; signed_up = λ name. none }

served_as_ada : (serve texts middleware sample_users request fresh).0 ≡ next_as account
unfolding serve text_eq get_user_by_key get
served_as_ada = refl

sample_users-KnowsUsers : KnowsUsers repository_rights sample_users
sample_users-KnowsUsers = (repository-Knows, λ name r e. absurd (cc e))

serve-IsEntitled_example : IsEntitled repository_rights texts middleware request account
unfolding serve text_eq get_user_by_key get put
serve-IsEntitled_example =
    serve-IsEntitled repository_rights used-Reach texts middleware sample_users request
      sample_users-KnowsUsers refl account refl

serve-remote_user_example :
    serve texts middleware sample_users (record request { remote_user = codes "ada" }) fresh
    ≡ serve texts middleware sample_users request fresh
serve-remote_user_example =
    serve-remote_user texts middleware sample_users request (codes "ada") fresh refl
