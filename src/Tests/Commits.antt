-- ===== src/Tests/Commits.antt =====
-- Commits and pull requests, and the theorems on them applied.
use wakapi.Base.{
  All, if◌then◌else◌, ◌≡◌, refl, true, false, List, [], ◌∷◌, Option, none, some, some_inj, Text,
  codes, ℤ, pos, ◌-ℤ◌, ◌+ℤ◌, ◌≤ℤ◌, int_laws, arith, text_eq, ◌≤◌, ◌*◌, ◌-◌, sum_by, subst, map,
  keep, ℕ,
}
use wakapi.Stable.{insert, stable_sort}
use wakapi.Table.{Table, get, put}
use wakapi.Collections.{take, drop}
use wakapi.Duration.{Duration}
use wakapi.DurationService.Merge.Order.{InOrder}
use wakapi.CommitService.{
  ScmCommit, CommitStat, Work, compute_stats, compute_loop, lookback_window, overlap,
}
use wakapi.CommitService.Totals.{AreDistinct, AllRight, Works, in_order, compute_stats-AllRight}
use wakapi.CommitService.Within.{time_of, ReadsInOrder, compute_stats-within}
use wakapi.CommitService.Stale.{StatRow, StaleState, note_heartbeat}
use wakapi.CommitService.Pages.{pages, pages-take}
use wakapi.CommitService.Listing.{used_per_page, max_commit_page_size}
use wakapi.CommitService.Pulls.{
  is_older, GithubPull, ScmPullRequest, sync_pulls, map_pull, pull_sync_per_page,
}
use wakapi.CommitService.Pulls.Collected.{is_new}
use wakapi.CommitService.Pulls.Stored.{IsStored, find_row, sync_pulls-IsStored}
use wakapi.Tests.Samples.{ada, duration}
use wakapi.Tests.Sorting.{sample_runtime}

abbrev commit : Text → ℤ → ScmCommit
commit hash date = record {
  hash = hash;
  author_name = codes "Ada";
  author_username = codes "ada";
  author_date = date;
  committer_name = codes "Ada";
  committer_username = codes "ada";
  committer_date = date;
}

abbrev two_commits : List ScmCommit
two_commits = commit (codes "b2") (pos 900) ∷ commit (codes "a1") (pos 500) ∷ []

-- A duration of 100 from 450 on, and one of 200 from 600 on.
abbrev read : List Duration
read =
    duration (codes "wakapi") (pos 450) (pos 100) (pos 2)
    ∷ duration (codes "wakapi") (pos 600) (pos 200) (pos 2)
    ∷ []

abbrev work : Work
work = record {
  repository_id = codes "r";
  durations = λ start end. some read;
  saves = λ hash. true;
  now = pos 1000;
}

abbrev work-Works : Works work
work-Works = record { reads = λ start end. (_, refl); saved = λ hash. refl }

abbrev stats_after : Table CommitStat
stats_after = (compute_stats sample_runtime work (some two_commits) true []).1

first_total : time_of stats_after (commit (codes "a1") (pos 500)) ≡ pos 50
unfolding compute_stats compute_loop stable_sort insert overlap get put text_eq sum_by ◌+ℤ◌ ◌-ℤ◌
first_total = refl

second_total : time_of stats_after (commit (codes "b2") (pos 900)) ≡ pos 250
unfolding compute_stats compute_loop stable_sort insert overlap get put text_eq sum_by ◌+ℤ◌ ◌-ℤ◌
second_total = refl

distinct : AreDistinct (in_order sample_runtime two_commits)
unfolding stable_sort insert text_eq
distinct = ((refl, tt), (tt, tt))

compute_stats-AllRight_example :
    ((compute_stats sample_runtime work (some two_commits) true []).0 ≡ true)
    × AllRight work none (in_order sample_runtime two_commits) stats_after
unfolding stable_sort insert get
compute_stats-AllRight_example =
    compute_stats-AllRight sample_runtime work two_commits [] work-Works distinct tt

read-InOrder : InOrder (pos 450) read
unfolding ◌+ℤ◌
read-InOrder = (omega int_laws, omega int_laws, (omega int_laws, omega int_laws, tt))

in_order_reads : ReadsInOrder work
in_order_reads start end ds e =
    (pos 450, subst (λ l. InOrder (pos 450) l) (some_inj e) read-InOrder)

compute_stats-within_example :
    (pos 0 ≤ℤ sum_by (time_of stats_after) two_commits)
    × (sum_by (time_of stats_after) two_commits ≤ℤ pos 900 -ℤ pos 500 +ℤ lookback_window)
unfolding stable_sort insert get
compute_stats-within_example =
    compute_stats-within sample_runtime work two_commits [] (pos 500) (pos 900) work-Works distinct
      tt in_order_reads (omega int_laws)
      (
        (omega int_laws, omega int_laws, omega int_laws),
        ((omega int_laws, omega int_laws, omega int_laws), tt),
      )

abbrev stat : CommitStat
stat = record {
  repository_id = codes "r";
  total = pos 50;
  algo_version = 4;
  dirty = false;
  calculated_at = pos 10;
}

abbrev row : StatRow
row = record { committer_date = pos 500; stat = stat }

abbrev unmarked : StaleState
unmarked = record { last_dirty = []; rows = λ user. row ∷ [] }

-- A heartbeat comes in, and the stats are computed again.
abbrev marked : StaleState
marked = (note_heartbeat true ada.id (pos 450) (pos 1000) unmarked).1

abbrev numbers : List ℕ
numbers = 1 ∷ 2 ∷ 3 ∷ 4 ∷ 5 ∷ []

pages-take_example :
    (pages (pos 2) 2 numbers ≡ take (2 * used_per_page (pos 2)) numbers)
    × (1 ≤ used_per_page (pos 2))
    × (used_per_page (pos 2) ≤ max_commit_page_size)
pages-take_example = pages-take (pos 2) 2 numbers

abbrev pull : ℕ → ℤ → GithubPull
pull number updated = record {
  number = number;
  title = codes "Fix";
  html_url = [];
  state = codes "open";
  created_at = pos 100;
  updated_at = updated;
  closed_at = none;
  merged_at = none;
  merge_sha = [];
  login = codes "ada";
  head_ref = codes "fix";
  head_sha = codes "a1";
  base_ref = codes "main";
}

abbrev three_pulls : List GithubPull
three_pulls = pull 3 (pos 300) ∷ pull 2 (pos 250) ∷ pull 1 (pos 150) ∷ []

abbrev pull_pages : ℕ → Option (List GithubPull)
pull_pages page =
    some (take pull_sync_per_page (drop ((page - 1) * pull_sync_per_page) three_pulls))

sync_pulls-IsStored_example :
    (new : List ScmPullRequest) × (after : List ScmPullRequest) × (new
      ≡ map (map_pull (codes "r")) (keep (is_new (pos 200)) three_pulls))
    × (sync_pulls pull_pages (λ ps. true) (codes "r") (some (pos 200)) (some [])
        ≡ (if true then (true, some after) else (false, some [])))
    × All (λ p. IsStored (map_pull (codes "r") p) after) (keep (is_new (pos 200)) three_pulls)
    × (find_row (codes "r") 7 after ≡ find_row (codes "r") 7 [])
unfolding keep is_older
sync_pulls-IsStored_example =
    sync_pulls-IsStored pull_pages (λ ps. true) (codes "r") (pos 200) three_pulls [] 7
      (λ page. refl) ((refl, (refl, tt)), ((refl, tt), (tt, tt)))
      ((refl, (refl, tt)), ((refl, tt), (tt, tt))) (omega arith) (refl, (refl, tt))

two_pulls : map (λ p. p.number) (keep (is_new (pos 200)) three_pulls) ≡ 3 ∷ 2 ∷ []
unfolding is_older keep
two_pulls = refl
