-- ===== src/CommitService.antt =====
-- services/commit_service.go with models/scm.go and repositories/commit_stat.go: the time per commit. The
-- stats are those of one user, project and branch, under the hashes of the commits; the texts that show
-- a total are left out, and a total is in nanoseconds.
pub mod Stale
pub mod Overlap
pub mod Totals
pub mod Within
pub mod Listing
pub mod Pages
pub mod Pulls
use wakapi.Base.{
  ℕ, ◌≡◌, Bool, true, false, not, ◌&&◌, ◌||◌, List, [], ◌∷◌, Option, none, some, Text,
  if◌then◌else◌, ℤ, pos, ◌-ℤ◌, ltb_ℤ, eqb_ℤ, sum_by, ◌==◌,
}
use wakapi.Runtime.{Runtime}
use wakapi.Table.{Table, get, put}
use wakapi.Duration.{Duration, time_end}

pub record ScmCommit : Type 0 where
  pub hash : Text
  pub author_name : Text
  pub author_username : Text
  pub author_date : ℤ
  pub committer_name : Text
  pub committer_username : Text
  pub committer_date : ℤ

pub record CommitStat : Type 0 where
  pub repository_id : Text
  pub total : ℤ
  pub algo_version : ℕ
  pub dirty : Bool
  pub calculated_at : ℤ

abbrev pub commit_algo_version : ℕ
commit_algo_version = 4

-- 30 days
abbrev pub lookback_window : ℤ
lookback_window = pos 2592000000000000

-- The part of a duration that lies between two times.
unfoldable pub overlap : (start end : ℤ) → Duration → ℤ
unfolding time_end
overlap start end d =
    let s = if ltb_ℤ d.time start then start else d.time in
    let e = if ltb_ℤ end (time_end d) then end else time_end d in
    if ltb_ℤ (time_end d) start || ltb_ℤ end d.time
    then pos 0
    else if ltb_ℤ s e
    then e -ℤ s
    else pos 0

unfoldable pub accumulate_overlap : List Duration → (start end : ℤ) → ℤ
accumulate_overlap ds start end = sum_by (overlap start end) ds

-- `!stat.Dirty && stat.AlgoVersion == models.CommitAlgoVersion`
unfoldable pub is_current : CommitStat → Bool
is_current s = not s.dirty && s.algo_version == commit_algo_version

-- The commits' predecessor, none for the first, gives the start of a commit's interval.
unfoldable pub start_of : (prev : Option ℤ) → (end : ℤ) → ℤ
start_of none end = end -ℤ lookback_window
start_of (some prev) end = if eqb_ℤ prev (pos 0) then end -ℤ lookback_window else prev

-- What computeStats works with: the repository's id, the project's durations between two times, none
-- on an error, whether a stat can be saved, and the clock.
pub record Work : Type 0 where
  pub repository_id : Text
  pub durations : ℤ → ℤ → Option (List Duration)
  pub saves : Text → Bool
  pub now : ℤ

-- On a conflict all but the repository's id is updated.
unfoldable pub upsert : Text → CommitStat → Table CommitStat → Table CommitStat
upsert hash stat stats = elim (get hash stats) [
  | none ↦ put hash stat stats
  | some old ↦ put hash (record stat { repository_id = old.repository_id }) stats
]

unfoldable pub stat_of : Work → (total : ℤ) → CommitStat
stat_of w total = record {
  repository_id = w.repository_id;
  total = total;
  algo_version = commit_algo_version;
  dirty = false;
  calculated_at = w.now;
}

-- `_, known := current[hash]` and `current[hash]`, of the stats there were before.
unfoldable pub is_known : Table CommitStat → Text → Bool
is_known existing hash = elim (get hash existing) [ none ↦ false | some s ↦ true ]

unfoldable pub is_current_in : Table CommitStat → Text → Bool
unfolding is_current
is_current_in existing hash = elim (get hash existing) [ none ↦ false | some s ↦ is_current s ]

-- True where there is no error. What is stored before an error stays.
unfoldable pub compute_loop :
    Work
    → (existing : Table CommitStat) → (prev : Option ℤ) → (prev_is_new : Bool) → List ScmCommit
    → Table CommitStat
    → Bool × Table CommitStat
unfolding is_known is_current_in accumulate_overlap stat_of upsert start_of
compute_loop w existing prev prev_is_new [] stats = (true, stats)
compute_loop w existing prev prev_is_new (c ∷ cs) stats =
    let end = c.committer_date in
    let start = start_of prev end in
    elim (is_current_in existing c.hash && not prev_is_new) [
      | true ↦ compute_loop w existing (some end) false cs stats
      | false ↦ elim (w.durations start end) [
        | none ↦ (false, stats)
        | some ds ↦ elim (w.saves c.hash) [
          | false ↦ (false, stats)
          | true ↦
              compute_loop w existing (some end) (not (is_known existing c.hash)) cs
                (upsert c.hash (stat_of w (accumulate_overlap ds start end)) stats)
        ]
      ]
    ]

abbrev pub by_committer_date : ScmCommit → ScmCommit → Bool
by_committer_date a b = ltb_ℤ a.committer_date b.committer_date

-- The commits are those of the branch, none on an error; whether the stats can be read.
unfoldable pub compute_stats :
    Runtime
    → Work
    → (commits : Option (List ScmCommit)) → (readable : Bool) → Table CommitStat
    → Bool × Table CommitStat
unfolding compute_loop
compute_stats rt w none readable stats = (false, stats)
compute_stats rt w (some []) readable stats = (true, stats)
compute_stats rt w (some (c ∷ cs)) readable stats =
    if not readable
    then (false, stats)
    else compute_loop w stats none false (rt.sort ScmCommit by_committer_date (c ∷ cs)) stats
