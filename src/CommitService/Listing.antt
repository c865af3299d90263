-- ===== src/CommitService/Listing.antt =====
-- services/commit_service.go: the commits that GetCommits lists, page by page, and GetPullRequests.
use wakapi.Base.{
  ℕ, zero, suc, ◌+◌, ◌-◌, ◌*◌, Bool, true, not, ◌&&◌, ◌||◌, List, [], ◌∷◌, ◌++◌, Option, none, some,
  Text, text_eq, is_empty, if◌then◌else◌, ℤ, pos, negsuc, ltb, ltb_ℤ, eqb_ℤ, length, map,
}
use wakapi.Stable.{stable_sort}
use wakapi.Collections.{take, drop}
use wakapi.CommitService.{ScmCommit, CommitStat}
use wakapi.CommitService.Pulls.{ScmPullRequest}

abbrev pub default_commit_page_size : ℕ
default_commit_page_size = 50

abbrev pub max_commit_page_size : ℕ
max_commit_page_size = 200

-- What a commit has to be to be listed; the times are options.
unfoldable pub is_listed : (author : Text) → (date_from date_to : Option ℤ) → ScmCommit → Bool
is_listed author date_from date_to c =
    let time = if eqb_ℤ c.committer_date (pos 0) then c.author_date else c.committer_date in
    let is_author = λ (name : Text). text_eq name author in
    (is_empty author
      || (is_author c.author_name
          || is_author c.committer_name
          || is_author c.author_username
          || is_author c.committer_username))
    && (elim date_from [ none ↦ true | some from ↦ not (ltb_ℤ time from) ]
        && elim date_to [ none ↦ true | some to ↦ not (ltb_ℤ to time) ])

-- The stats, each with its hash and its commit, of those whose commit is found and listed.
unfoldable pub filtered_commits :
    (find : Text → Option ScmCommit)
    → (author : Text) → (date_from date_to : Option ℤ) → List (Text × CommitStat)
    → List (CommitStat × ScmCommit)
unfolding is_listed
filtered_commits find author date_from date_to [] = []
filtered_commits find author date_from date_to ((hash, st) ∷ stats) =
    let rest = filtered_commits find author date_from date_to stats in
    elim (find hash) [
      | none ↦ rest
      | some c ↦ if is_listed author date_from date_to c then (st, c) ∷ rest else rest
    ]

-- The page size and the page that are used for those that are asked for.
unfoldable pub used_per_page : ℤ → ℕ
used_per_page (negsuc n) = default_commit_page_size
used_per_page (pos zero) = default_commit_page_size
used_per_page (pos (suc n)) =
    if ltb max_commit_page_size (suc n) then max_commit_page_size else suc n

unfoldable pub used_page : ℤ → ℕ
used_page (negsuc n) = 1
used_page (pos zero) = 1
used_page (pos (suc n)) = suc n

-- `filtered[start:end]`
unfoldable pub paged : {A : Type 0} → (page per_page : ℤ) → List A → List A
unfolding used_page used_per_page take drop
paged page per_page filtered =
    let size = used_per_page per_page in
    let from = (used_page page - 1) * size in
    let start = if ltb (length filtered) from then length filtered else from in
    let end = if ltb (length filtered) (start + size) then length filtered else start + size in
    take (end - start) (drop start filtered)

pub record CommitsResult : Type 0 where
  pub items : List (CommitStat × ScmCommit)
  pub total : ℕ
  pub page : ℕ
  pub per_page : ℕ

-- GetCommits after the synchronisation, from the stats that are stored then.
unfoldable pub get_commits :
    (find : Text → Option ScmCommit)
    → (author : Text) → (page per_page : ℤ) → (date_from date_to : Option ℤ)
    → (stats : Option (List (Text × CommitStat))) → Option CommitsResult
unfolding filtered_commits paged
get_commits find author page per_page date_from date_to none = none
get_commits find author page per_page date_from date_to (some stats) =
    let filtered = filtered_commits find author date_from date_to stats in
    some (record {
      items = paged page per_page filtered;
      total = length filtered;
      page = used_page page;
      per_page = used_per_page per_page;
    })

-- What `s.repos.GetByID` answers.
pub data RepoLookup : Type 0 where
  found : Text → RepoLookup
  not_found failed : RepoLookup

-- A project's link, with its repository and the repository's pull requests.
pub record PullLink : Type 0 where
  pub project : Text
  pub repository : RepoLookup
  pub pulls : Option (List ScmPullRequest)

pub record PullRequestInfo : Type 0 where
  pub project : Text
  pub repository : Text
  pub pull_request : ScmPullRequest

unfoldable pub link_pulls : (project : Text) → List PullLink → Option (List PullRequestInfo)
link_pulls project [] = some []
link_pulls project (l ∷ ls) =
    let rest = link_pulls project ls in
    if not (is_empty project) && not (text_eq l.project project) then rest else elim l.repository [
      | not_found ↦ rest
      | failed ↦ none
      | found repo ↦ elim l.pulls [
        | none ↦ none
        | some prs ↦ elim rest [
          | none ↦ none
          | some others ↦ some (
              map (λ pr. record { project = l.project; repository = repo; pull_request = pr }) prs
              ++ others)
        ]
      ]
    ]

unfoldable pub get_pull_requests : (project : Text) → List PullLink → Option (List PullRequestInfo)
unfolding link_pulls stable_sort
get_pull_requests project links = elim (link_pulls project links) [
  | none ↦ none
  | some result ↦ some (
      stable_sort
        (λ a b. ltb_ℤ a.pull_request.provider_updated_at b.pull_request.provider_updated_at) result)
]
