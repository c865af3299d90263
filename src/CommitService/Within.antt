-- ===== src/CommitService/Within.antt =====
-- services/commit_service.go: the times of the commits together.
use native.Mathlib.Bridge.{le_prop}
use mathlib.Core.List.{rel_of_Pairwise-cons, mem-cons_self, mem-cons_of_mem, Mem}
use mathlib.Core.List.Perm
use mathlib.Core.List.Pairwise
use wakapi.Base.{
  ◌≡◌, sym, true, false, List, [], ◌∷◌, Option, none, some, some_inj, some_ne_none, ℤ, pos, ◌+ℤ◌,
  ◌-ℤ◌, ◌≤ℤ◌, sum_by, int_laws, arith, Option-cases, inl, inr, sum_by-perm, All, All-perm,
}
use wakapi.Runtime.{Runtime, IsOrdered, ltb_ℤ-IsLess}
use wakapi.Table.{Table, get, at}
use wakapi.Duration.{Duration}
use wakapi.DurationService.Merge.Order.{InOrder}
use wakapi.CommitService.{
  ScmCommit, CommitStat, Work, start_of, lookback_window, compute_stats, by_committer_date,
}
use wakapi.CommitService.Overlap.{accumulate_overlap-within}
use wakapi.CommitService.Totals.{
  AreDistinct, KnownRight, AllRight, IsRight, Works, worth, in_order, compute_stats-AllRight,
}

-- A commit's time, nothing where it has no stat.
abbrev pub time_of : Table CommitStat → ScmCommit → ℤ
time_of t c = at (λ s. s.total) c.hash t

-- The commit's date is not the zero time, and lies between two times.
abbrev pub IsDated : (from to : ℤ) → ScmCommit → Type 0
IsDated from to c =
    (pos 1 ≤ℤ c.committer_date) × (from ≤ℤ c.committer_date) × (c.committer_date ≤ℤ to)

-- The durations that are read come in order.
abbrev pub ReadsInOrder : Work → Type 0
ReadsInOrder w =
    (start end : ℤ) (ds : List Duration) → w.durations start end ≡ some ds → (t : ℤ) × InOrder t ds

All-mem :
    {A : Type 0} (P Q : A → Type 0) (xs : List A)
    → ((x : A) → Mem x xs → P x → Q x)
    → All P xs
    → All Q xs
All-mem P Q [] f h = tt
All-mem P Q (x ∷ xs) f h =
    (f x mem-cons_self h.0, All-mem P Q xs (λ y there. f y (mem-cons_of_mem x there)) h.1)

not_before :
    (from to : ℤ) (c d : ScmCommit)
    → by_committer_date d c ≡ false
    → IsDated from to d
    → IsDated c.committer_date to d
not_before from to c d later (a, b, e) = (a, ground (arith, later), e)

redated :
    (from to : ℤ) (c : ScmCommit) (cs : List ScmCommit)
    → IsOrdered by_committer_date (c ∷ cs)
    → All (IsDated from to) cs
    → All (IsDated c.committer_date to) cs
redated from to c cs o h =
    All-mem (IsDated from to) (IsDated c.committer_date to) cs
      (λ d there dated. not_before from to c d (rel_of_Pairwise-cons o there) dated) h

start_after : (prev end : ℤ) → pos 1 ≤ℤ prev → start_of (some prev) end ≡ prev
unfolding start_of
start_after prev end p = ground arith

module _ (w : Work) (reads : ReadsInOrder w) where
  one-within :
      (t : Table CommitStat) (prev : Option ℤ) (c : ScmCommit) (s : CommitStat)
      → get c.hash t ≡ some s
      → IsRight w prev c s
      → start_of prev c.committer_date ≤ℤ c.committer_date
      → (pos 0 ≤ℤ time_of t c) × (time_of t c ≤ℤ c.committer_date -ℤ start_of prev c.committer_date)
  one-within t prev c s found right le =
      let start = start_of prev c.committer_date in
      elim (Option-cases (w.durations start c.committer_date)) [
        | inl e ↦ absurd (some_ne_none (sym (rw (e, worth) at right.1)))
        | inr (ds, e) ↦
            let total = some_inj (rw (e, worth) at right.1) in
            let (u, ordered) = reads start c.committer_date ds e in
            rw (found, ← total) (accumulate_overlap-within ds u start c.committer_date le ordered)
      ]

  rest-within :
      (t : Table CommitStat) (to prev : ℤ) (cs : List ScmCommit)
      → pos 1 ≤ℤ prev
      → prev ≤ℤ to
      → IsOrdered by_committer_date cs
      → All (IsDated prev to) cs
      → AllRight w (some prev) cs t
      → (pos 0 ≤ℤ sum_by (time_of t) cs) × (sum_by (time_of t) cs ≤ℤ to -ℤ prev)
  unfolding sum_by
  rest-within t to prev [] p le o h r = (omega int_laws, omega int_laws)
  rest-within t to prev (c ∷ cs) p le o ((a, b, e), hs) ((s, found, right), rs) =
      let start = start_after prev c.committer_date p in
      let one = rw start at (one-within t (some prev) c s found right (rw start b)) in
      let rest =
        rest-within t to c.committer_date cs a e (Pairwise.tail o) (redated prev to c cs o hs) rs in
      (omega (int_laws, one.0, rest.0), omega (int_laws, one.1, rest.1))

  all-within :
      (t : Table CommitStat) (from to : ℤ) (cs : List ScmCommit)
      → from ≤ℤ to
      → IsOrdered by_committer_date cs
      → All (IsDated from to) cs
      → AllRight w none cs t
      → (pos 0 ≤ℤ sum_by (time_of t) cs) × (sum_by (time_of t) cs ≤ℤ to -ℤ from +ℤ lookback_window)
  unfolding sum_by start_of
  all-within t from to [] le o h r = (omega int_laws, omega int_laws)
  all-within t from to (c ∷ cs) le o ((a, b, e), hs) ((s, found, right), rs) =
      let one = one-within t none c s found right (omega int_laws) in
      let rest =
        rest-within t to c.committer_date cs a e (Pairwise.tail o) (redated from to c cs o hs) rs in
      (omega (int_laws, one.0, rest.0), omega (int_laws, one.1, rest.1, b))

-- Where besides the durations that are read come in order, and all commits are dated, from `from` to
-- `to`, computeStats leaves times that together are no more than the time from 30 days before `from`
-- up to `to`.
pub compute_stats-within :
    (rt : Runtime) (w : Work) (commits : List ScmCommit) (stats : Table CommitStat) (from to : ℤ)
    → Works w
    → AreDistinct (in_order rt commits)
    → KnownRight w none (in_order rt commits) stats
    → ReadsInOrder w
    → from ≤ℤ to
    → All (IsDated from to) commits
    → (pos 0 ≤ℤ sum_by (time_of (compute_stats rt w (some commits) true stats).1) commits)
      × (sum_by (time_of (compute_stats rt w (some commits) true stats).1) commits
          ≤ℤ to -ℤ from +ℤ lookback_window)
compute_stats-within rt w commits stats from to works d k reads le h =
    let t = (compute_stats rt w (some commits) true stats).1 in
    let perm = rt.sort-perm ScmCommit by_committer_date commits in
    rw (← sum_by-perm (time_of t) perm) (
      all-within w reads t from to (in_order rt commits) le
        (rt.sort-IsOrdered ScmCommit by_committer_date commits
          (ltb_ℤ-IsLess (λ c. c.committer_date)))
        (All-perm (IsDated from to) (λ c. hlevel le_prop) (Perm.symm perm) h)
        (compute_stats-AllRight rt w commits stats works d k).1)
