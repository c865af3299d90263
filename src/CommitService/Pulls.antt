-- ===== src/CommitService/Pulls.antt =====
-- services/commit_service.go: syncPulls, which stores the pull requests updated since the last sync.
pub mod Collected
pub mod Stored
use wakapi.Base.{
  text_eq, ◌==◌, ℕ, zero, suc, ◌+◌, ◌*◌, ◌-◌, ◌≤◌, ◌≡◌, refl, sym, ◌∙◌, ap, Bool, true, false, not,
  ◌&&◌, ◌||◌, List, [], ◌∷◌, ◌++◌, Option, none, some, Text, if◌then◌else◌, ℤ, pos, ltb, ltb_ℤ,
  eqb_ℤ, All, map, keep, length, arith, Bool-cases, inl, inr, append_nil, append_assoc, keep-append,
  length-append,
}
use wakapi.Collections.{take, drop}

pub record GithubPull : Type 0 where
  pub number : ℕ
  pub title : Text
  pub html_url : Text
  pub state : Text
  pub created_at : ℤ
  pub updated_at : ℤ
  pub closed_at : Option ℤ
  pub merged_at : Option ℤ
  pub merge_sha : Text
  pub login : Text
  pub head_ref : Text
  pub head_sha : Text
  pub base_ref : Text

-- The id, which is random, is left out.
pub record ScmPullRequest : Type 0 where
  pub repository_id : Text
  pub number : ℕ
  pub title : Text
  pub html_url : Text
  pub state : Text
  pub head_ref : Text
  pub head_sha : Text
  pub base_ref : Text
  pub author_login : Text
  pub opened_at : ℤ
  pub closed_at : Option ℤ
  pub merged_at : Option ℤ
  pub merge_commit_sha : Text
  pub provider_updated_at : ℤ

abbrev pub pull_sync_per_page : ℕ
pull_sync_per_page = 100

abbrev pub pull_sync_max_pages : ℕ
pull_sync_max_pages = 50

-- `optional`: a time that is there and is not the zero time.
unfoldable pub optional : Option ℤ → Option ℤ
optional none = none
optional (some t) = if eqb_ℤ t (pos 0) then none else some t

unfoldable pub map_pull : Text → GithubPull → ScmPullRequest
unfolding optional
map_pull repo_id p = record {
  repository_id = repo_id;
  number = p.number;
  title = p.title;
  html_url = p.html_url;
  state = p.state;
  head_ref = p.head_ref;
  head_sha = p.head_sha;
  base_ref = p.base_ref;
  author_login = p.login;
  opened_at = p.created_at;
  closed_at = optional p.closed_at;
  merged_at = optional p.merged_at;
  merge_commit_sha = p.merge_sha;
  provider_updated_at = p.updated_at;
}

-- `!watermark.IsZero() && p.UpdatedAt.Before(watermark)`
unfoldable pub is_older : (watermark : ℤ) → GithubPull → Bool
is_older watermark p = not (eqb_ℤ watermark (pos 0)) && ltb_ℤ p.updated_at watermark

-- The pulls of a page up to the first older one, and whether there is one.
unfoldable pub scan : (watermark : ℤ) → List GithubPull → List GithubPull × Bool
unfolding is_older
scan watermark [] = ([], false)
scan watermark (p ∷ ps) =
    let rest = scan watermark ps in
    if is_older watermark p then ([], true) else (p ∷ rest.0, rest.1)

-- The rounds are the pages left up to the last one; a page is none on an error.
unfoldable pub pull_loop :
    (list_pulls : ℕ → Option (List GithubPull))
    → (repo_id : Text) → (watermark : ℤ) → (rounds page : ℕ) → (collected : List ScmPullRequest)
    → Option (List ScmPullRequest)
unfolding scan map_pull
pull_loop list_pulls repo_id watermark zero page collected = some collected
pull_loop list_pulls repo_id watermark (suc rounds) page collected = elim (list_pulls page) [
  | none ↦ none
  | some pulls ↦
      let (fresh, stopped) = scan watermark pulls in
      let all = collected ++ map (map_pull repo_id) fresh in
      elim (ltb (length pulls) pull_sync_per_page || stopped) [
        | true ↦ some all
        | false ↦ pull_loop list_pulls repo_id watermark rounds (page + 1) all
      ]
]

-- What is handed to UpsertMany, none on an error before it. The watermark is none where no pull request
-- is stored.
unfoldable pub collected_pulls :
    (list_pulls : ℕ → Option (List GithubPull))
    → (repo_id : Text) → (latest : Option ℤ) → Option (List ScmPullRequest)
unfolding pull_loop
collected_pulls list_pulls repo_id latest =
    pull_loop list_pulls repo_id (elim latest [ none ↦ pos 0 | some t ↦ t ]) pull_sync_max_pages 1
      []

-- The row of a repository's pull request.
unfoldable pub is_row : (repo_id : Text) → (number : ℕ) → ScmPullRequest → Bool
is_row repo_id number r = text_eq r.repository_id repo_id && r.number == number

-- On a conflict all but the time of opening is updated.
unfoldable pub upsert_pull : ScmPullRequest → List ScmPullRequest → List ScmPullRequest
unfolding is_row
upsert_pull p [] = p ∷ []
upsert_pull p (r ∷ rs) =
    if is_row p.repository_id p.number r
    then record p { opened_at = r.opened_at } ∷ rs
    else r ∷ upsert_pull p rs

unfoldable pub upsert_many : List ScmPullRequest → List ScmPullRequest → List ScmPullRequest
unfolding upsert_pull
upsert_many [] rows = rows
upsert_many (p ∷ ps) rows = upsert_many ps (upsert_pull p rows)

-- Whether there is no error, and the rows, which are none where the service has no such repository.
-- UpsertMany stores all it is given in a transaction, unless the database answers with an error.
unfoldable pub sync_pulls :
    (list_pulls : ℕ → Option (List GithubPull))
    → (saves : List ScmPullRequest → Bool) → (repo_id : Text) → (latest : Option ℤ)
    → Option (List ScmPullRequest)
    → Bool × Option (List ScmPullRequest)
unfolding collected_pulls upsert_many
sync_pulls list_pulls saves repo_id latest none = (true, none)
sync_pulls list_pulls saves repo_id latest (some rows) =
    elim (collected_pulls list_pulls repo_id latest) [
      | none ↦ (false, some rows)
      | some new ↦ if saves new then (true, some (upsert_many new rows)) else (false, some rows)
    ]
