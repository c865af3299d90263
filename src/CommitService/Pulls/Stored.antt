-- ===== src/CommitService/Pulls/Stored.antt =====
-- services/commit_service.go: what syncPulls leaves in the table of pull requests.
use wakapi.Base.{
  ℕ, ◌≤◌, ◌≡◌, refl, ◌∙◌, Bool, true, false, ◌==◌, List, [], ◌∷◌, Option, none, some, Text,
  text_eq_refl, if◌then◌else◌, ℤ, All, map, keep, length, arith, Bool-cases, inl, inr,
}
use wakapi.CommitService.Pulls.{
  GithubPull, ScmPullRequest, map_pull, is_row, upsert_pull, upsert_many, sync_pulls,
}
use wakapi.CommitService.Pulls.Collected.{Provides, IsDescending, is_new, collected_pulls-keep}

-- The row of a number in the repository.
abbrev pub find_row : (repo_id : Text) → ℕ → List ScmPullRequest → Option ScmPullRequest
find_row repo_id n [] = none
find_row repo_id n (r ∷ rs) = if is_row repo_id n r then some r else find_row repo_id n rs

-- A pull request is stored: its row has all it says, but for the time of opening, which is that of the row
-- there was before.
abbrev pub IsStored : ScmPullRequest → List ScmPullRequest → Type 0
IsStored p rows =
    (t : ℤ) × (find_row p.repository_id p.number rows ≡ some (record p { opened_at = t }))

-- No two pull requests have one number.
abbrev pub HasNumber : ℕ → GithubPull → Type 0
HasNumber n p = (p.number == n) ≡ false

abbrev pub AreDistinct : List GithubPull → Type 0
AreDistinct [] = Unit
AreDistinct (p ∷ ps) = All (HasNumber p.number) ps × AreDistinct ps

is_row_self :
    (p : ScmPullRequest) (t : ℤ)
    → is_row p.repository_id p.number (record p { opened_at = t }) ≡ true
unfolding is_row
is_row_self p t = rw (text_eq_refl p.repository_id) (ground arith)

upsert_pull-IsStored :
    (p : ScmPullRequest) (rows : List ScmPullRequest) → IsStored p (upsert_pull p rows)
unfolding upsert_pull
upsert_pull-IsStored p [] = (p.opened_at, rw (is_row_self p p.opened_at) refl)
upsert_pull-IsStored p (r ∷ rs) = elim (Bool-cases (is_row p.repository_id p.number r)) [
  | inl e ↦ (r.opened_at, rw e (rw (is_row_self p r.opened_at) refl))
  | inr e ↦ let (t, found) = upsert_pull-IsStored p rs in (t, rw (e, e) found)
]

-- Rows are of different numbers.
other_row :
    (repo_id : Text) (m n : ℕ) (r : ScmPullRequest)
    → (n == m) ≡ false
    → is_row repo_id m r ≡ true
    → is_row repo_id n r ≡ false
unfolding is_row
other_row repo_id m n r h e = ground (arith, h, e)

find_row-upsert_pull :
    (n : ℕ) (p : ScmPullRequest) (rows : List ScmPullRequest)
    → (n == p.number) ≡ false
    → find_row p.repository_id n (upsert_pull p rows) ≡ find_row p.repository_id n rows
unfolding upsert_pull
find_row-upsert_pull n p [] h =
    rw (other_row p.repository_id p.number n p h (is_row_self p p.opened_at)) refl
find_row-upsert_pull n p (r ∷ rs) h = elim (Bool-cases (is_row p.repository_id p.number r)) [
  | inl e ↦
      rw
        (
          e,
          other_row p.repository_id p.number n r h e,
          other_row p.repository_id p.number n (record p { opened_at = r.opened_at }) h
              (is_row_self p r.opened_at),
        )
        refl
  | inr e ↦ elim (Bool-cases (is_row p.repository_id n r)) [
    | inl f ↦ rw (e, f) refl
    | inr f ↦ rw (e, f) (find_row-upsert_pull n p rs h)
  ]
]

find_row-upsert_many :
    (repo_id : Text) (n : ℕ) (ps : List GithubPull) (rows : List ScmPullRequest)
    → All (HasNumber n) ps
    → find_row repo_id n (upsert_many (map (map_pull repo_id) ps) rows) ≡ find_row repo_id n rows
unfolding upsert_many map_pull
find_row-upsert_many repo_id n [] rows h = refl
find_row-upsert_many repo_id n (p ∷ ps) rows h =
    find_row-upsert_many repo_id n ps (upsert_pull (map_pull repo_id p) rows) h.1
    ∙ find_row-upsert_pull n (map_pull repo_id p) rows (ground (arith, h.0))

upsert_many-IsStored :
    (repo_id : Text) (ps : List GithubPull) (rows : List ScmPullRequest)
    → AreDistinct ps
    → All (λ p. IsStored (map_pull repo_id p) (upsert_many (map (map_pull repo_id) ps) rows)) ps
unfolding upsert_many map_pull
upsert_many-IsStored repo_id [] rows d = tt
upsert_many-IsStored repo_id (p ∷ ps) rows d =
    let (t, found) = upsert_pull-IsStored (map_pull repo_id p) rows in
    (
      (
        t,
        find_row-upsert_many repo_id p.number ps (upsert_pull (map_pull repo_id p) rows) d.0
            ∙ found,
      ),
      upsert_many-IsStored repo_id ps (upsert_pull (map_pull repo_id p) rows) d.1,
    )

keep-HasNumber :
    (n : ℕ) (f : GithubPull → Bool) (ps : List GithubPull)
    → All (HasNumber n) ps
    → All (HasNumber n) (keep f ps)
unfolding keep
keep-HasNumber n f [] h = tt
keep-HasNumber n f (p ∷ ps) h = elim (Bool-cases (f p)) [
  | inl e ↦ rw e (h.0, keep-HasNumber n f ps h.1)
  | inr e ↦ rw e (keep-HasNumber n f ps h.1)
]

keep-AreDistinct :
    (f : GithubPull → Bool) (ps : List GithubPull) → AreDistinct ps → AreDistinct (keep f ps)
unfolding keep
keep-AreDistinct f [] d = tt
keep-AreDistinct f (p ∷ ps) d = elim (Bool-cases (f p)) [
  | inl e ↦ rw e (keep-HasNumber p.number f ps d.0, keep-AreDistinct f ps d.1)
  | inr e ↦ rw e (keep-AreDistinct f ps d.1)
]

-- Where the pages are those of the provider's list, which has the most recently updated pull request
-- first and each number once, and at most 5000 of them are not older than the watermark, syncPulls
-- succeeds exactly when the database saves these. Then each of them is stored, and the row of any other
-- number is what it was; otherwise nothing changes. None is older than the zero time.
pub sync_pulls-IsStored :
    (list_pulls : ℕ → Option (List GithubPull)) (saves : List ScmPullRequest → Bool)
    (repo_id : Text) (w : ℤ) (all : List GithubPull) (rows : List ScmPullRequest) (n : ℕ)
    → Provides list_pulls all
    → IsDescending all
    → AreDistinct all
    → length (keep (is_new w) all) ≤ 5000
    → All (HasNumber n) (keep (is_new w) all)
    → (new : List ScmPullRequest) × (after : List ScmPullRequest) × (new
        ≡ map (map_pull repo_id) (keep (is_new w) all))
      × (sync_pulls list_pulls saves repo_id (some w) (some rows)
          ≡ (if saves new then (true, some after) else (false, some rows)))
      × All (λ p. IsStored (map_pull repo_id p) after) (keep (is_new w) all)
      × (find_row repo_id n after ≡ find_row repo_id n rows)
unfolding sync_pulls
sync_pulls-IsStored list_pulls saves repo_id w all rows n provides d distinct h other =
    let new = map (map_pull repo_id) (keep (is_new w) all) in
    (
      new,
      upsert_many new rows,
      refl,
      rw (collected_pulls-keep list_pulls repo_id w all provides d h) refl,
      upsert_many-IsStored repo_id (keep (is_new w) all) rows
          (keep-AreDistinct (is_new w) all distinct),
      find_row-upsert_many repo_id n (keep (is_new w) all) rows other,
    )
