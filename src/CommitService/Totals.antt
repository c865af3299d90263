-- ===== src/CommitService/Totals.antt =====
-- services/commit_service.go: what computeStats stores.
use mathlib.Core.List.Perm
use wakapi.Base.{
  ◌≡◌, refl, sym, ◌∙◌, ap, Bool, true, false, not, ◌&&◌, List, [], ◌∷◌, Option, none, some, Text,
  text_eq, text_eq_refl, text_eq_comm, ℤ, Option-cases, Bool-cases, inl, inr, arith,
}
use wakapi.Runtime.{Runtime}
use wakapi.Table.{Table, get, get-put}
use wakapi.Duration.{Duration}
use wakapi.CommitService.{
  ScmCommit, CommitStat, Work, is_current, is_known, is_current_in, start_of, stat_of, upsert,
  accumulate_overlap, compute_loop, compute_stats, by_committer_date,
}

-- No two commits have one hash.
abbrev pub IsNew : Text → List ScmCommit → Type 0
IsNew hash [] = Unit
IsNew hash (c ∷ cs) = (text_eq c.hash hash ≡ false) × IsNew hash cs

abbrev pub AreDistinct : List ScmCommit → Type 0
AreDistinct [] = Unit
AreDistinct (c ∷ cs) = IsNew c.hash cs × AreDistinct cs

-- The time of the project between two times, where it can be read.
abbrev pub worth : Work → (start end : ℤ) → Option ℤ
worth w start end = elim (w.durations start end) [
  | none ↦ none
  | some ds ↦ some (accumulate_overlap ds start end)
]

-- The stat of a commit is current and has the time since the commit before.
abbrev pub IsRight : Work → (prev : Option ℤ) → ScmCommit → CommitStat → Type 0
IsRight w prev c s =
    (is_current s ≡ true)
    × (worth w (start_of prev c.committer_date) c.committer_date ≡ some s.total)

-- Each commit has a stat, which is right.
abbrev pub AllRight : Work → (prev : Option ℤ) → List ScmCommit → Table CommitStat → Type 0
AllRight w prev [] t = Unit
AllRight w prev (c ∷ cs) t =
    ((s : CommitStat) × (get c.hash t ≡ some s) × IsRight w prev c s)
    × AllRight w (some c.committer_date) cs t

-- The stats there are and that are current are right, as if the commits without one were not there.
abbrev pub KnownRight : Work → (prev : Option ℤ) → List ScmCommit → Table CommitStat → Type 0
KnownRight w prev [] t = Unit
KnownRight w prev (c ∷ cs) t = elim (get c.hash t) [
  | none ↦ KnownRight w prev cs t
  | some s ↦
      (is_current s ≡ true
        → worth w (start_of prev c.committer_date) c.committer_date ≡ some s.total)
      × KnownRight w (some c.committer_date) cs t
]

-- The stats of the commits that are left are those there were before.
abbrev Agrees : Table CommitStat → List ScmCommit → Table CommitStat → Type 0
Agrees existing [] stats = Unit
Agrees existing (c ∷ cs) stats = (get c.hash stats ≡ get c.hash existing) × Agrees existing cs stats

get-upsert :
    (k hash : Text) (stat : CommitStat) (t : Table CommitStat)
    → text_eq hash k ≡ false
    → get k (upsert hash stat t) ≡ get k t
unfolding upsert
get-upsert k hash stat t h = elim (Option-cases (get hash t)) [
  | inl e ↦ rw (e, upsert) (get-put k hash _ t ∙ rw h refl)
  | inr (o, e) ↦ rw (e, upsert) (get-put k hash _ t ∙ rw h refl)
]

get-upsert_self :
    (hash : Text) (stat : CommitStat) (t : Table CommitStat)
    → is_current stat ≡ true
    → (s : CommitStat) × (get hash (upsert hash stat t) ≡ some s)
      × (is_current s ≡ true)
      × (s.total ≡ stat.total)
unfolding upsert is_current
get-upsert_self hash stat t h = elim (Option-cases (get hash t)) [
  | inl e ↦ (stat, rw (e, upsert) (get-put hash hash _ t ∙ rw (text_eq_refl hash) refl), h, refl)
  | inr (o, e) ↦ (
    record stat { repository_id = o.repository_id },
    rw (e, upsert) (get-put hash hash _ t ∙ rw (text_eq_refl hash) refl),
    h,
    refl,
  )
]

Agrees-upsert :
    (existing : Table CommitStat) (hash : Text) (stat : CommitStat) (cs : List ScmCommit)
    (t : Table CommitStat)
    → IsNew hash cs
    → Agrees existing cs t
    → Agrees existing cs (upsert hash stat t)
Agrees-upsert existing hash stat [] t n h = tt
Agrees-upsert existing hash stat (c ∷ cs) t n h = (
  get-upsert c.hash hash stat t (text_eq_comm hash c.hash ∙ n.0) ∙ h.0,
  Agrees-upsert existing hash stat cs t n.1 h.1,
)

-- Everything can be read and saved.
pub record Works (w : Work) : Type 0 where
  pub reads : (start end : ℤ) → (ds : List Duration) × (w.durations start end ≡ some ds)
  pub saved : (hash : Text) → w.saves hash ≡ true

Agrees-refl : (existing : Table CommitStat) (cs : List ScmCommit) → Agrees existing cs existing
Agrees-refl existing [] = tt
Agrees-refl existing (c ∷ cs) = (refl, Agrees-refl existing cs)

-- The commits in the order in which they are gone through.
abbrev pub in_order : Runtime → List ScmCommit → List ScmCommit
in_order rt commits = rt.sort ScmCommit by_committer_date commits

module _ (w : Work) (works : Works w) (existing : Table CommitStat) where
  -- What becomes of a commit: its stat is kept, or it is made anew.
  kept :
      (prev : Option ℤ) (new : Bool) (c : ScmCommit) (cs : List ScmCommit) (t : Table CommitStat)
      → (is_current_in existing c.hash && not new) ≡ true
      → compute_loop w existing prev new (c ∷ cs) t
        ≡ compute_loop w existing (some c.committer_date) false cs t
  unfolding compute_loop
  kept prev new c cs t h = rw (h, compute_loop) refl

  made :
      (prev : Option ℤ) (new : Bool) (c : ScmCommit) (cs : List ScmCommit) (t : Table CommitStat)
      → (is_current_in existing c.hash && not new) ≡ false
      → (stat : CommitStat) × IsRight w prev c stat
        × (compute_loop w existing prev new (c ∷ cs) t
            ≡ compute_loop w existing
                (some c.committer_date)
                (not (is_known existing c.hash))
                cs
                (upsert c.hash stat t))
  unfolding compute_loop is_current
  made prev new c cs t h =
      let start = start_of prev c.committer_date in
      let (ds, read) = works.reads start c.committer_date in
      (
        stat_of w (accumulate_overlap ds start c.committer_date),
        (refl, rw (read, worth) refl),
        rw (h, read, works.saved c.hash, compute_loop) refl,
      )

  compute_loop-other :
      (prev : Option ℤ) (new : Bool) (cs : List ScmCommit) (t : Table CommitStat) (k : Text)
      → IsNew k cs
      → get k (compute_loop w existing prev new cs t).1 ≡ get k t
  unfolding compute_loop
  compute_loop-other prev new [] t k n = refl
  compute_loop-other prev new (c ∷ cs) t k n =
      elim (Bool-cases (is_current_in existing c.hash && not new)) [
        | inl e ↦
            rw (kept prev new c cs t e)
              (compute_loop-other (some c.committer_date) false cs t k n.1)
        | inr e ↦
            let (stat, right, step) = made prev new c cs t e in
            rw step (
              compute_loop-other (some c.committer_date) (not (is_known existing c.hash)) cs
                (upsert c.hash stat t) k n.1
              ∙ get-upsert k c.hash stat t n.0)
      ]

  current_known :
      (hash : Text) (new : Bool)
      → (is_current_in existing hash && not new) ≡ true
      → (s : CommitStat) × (get hash existing ≡ some s) × ((is_current s ≡ true) × (new ≡ false))
  unfolding is_current_in
  current_known hash new h = elim (Option-cases (get hash existing)) [
    | inl e ↦ let no = rw (e, is_current_in) at h in cc
    | inr (s, e) ↦
        let both = rw (e, is_current_in) at h in
        (s, e, (ground (arith, both), ground (arith, both)))
  ]

  known_some :
      (known : Option ℤ) (c : ScmCommit) (cs : List ScmCommit) (s : CommitStat)
      → get c.hash existing ≡ some s
      → KnownRight w known (c ∷ cs) existing
      → (is_current s ≡ true
          → worth w (start_of known c.committer_date) c.committer_date ≡ some s.total)
        × KnownRight w (some c.committer_date) cs existing
  known_some known c cs s e k = rw (e, KnownRight) at k

  known_after :
      (known : Option ℤ) (c : ScmCommit) (cs : List ScmCommit)
      → KnownRight w known (c ∷ cs) existing
      → (known' : Option ℤ) × KnownRight w known' cs existing
        × (not (is_known existing c.hash) ≡ false → some c.committer_date ≡ known')
  unfolding is_known
  known_after known c cs k = elim (Option-cases (get c.hash existing)) [
    | inl e ↦ (known, rw (e, KnownRight) at k, rw (e, is_known) (λ h. cc))
    | inr (s, e) ↦ (some c.committer_date, (known_some known c cs s e k).1, λ h. refl)
  ]

  compute_loop-AllRight :
      (prev known : Option ℤ) (new : Bool) (cs : List ScmCommit) (t : Table CommitStat)
      → AreDistinct cs
      → Agrees existing cs t
      → KnownRight w known cs existing
      → (new ≡ false → prev ≡ known)
      → ((compute_loop w existing prev new cs t).0 ≡ true)
        × AllRight w prev cs (compute_loop w existing prev new cs t).1
  unfolding compute_loop
  compute_loop-AllRight prev known new [] t d a k same = (refl, tt)
  compute_loop-AllRight prev known new (c ∷ cs) t (n, d) (a, others) k same =
      elim (Bool-cases (is_current_in existing c.hash && not new)) [
        | inl e ↦
            let (s, found, good) = current_known c.hash new e in
            let (right, rest) = known_some known c cs s found k in
            let ih =
              compute_loop-AllRight (some c.committer_date) (some c.committer_date) false cs t d
                others rest (λ h. refl) in
            let old : get c.hash (compute_loop w existing (some c.committer_date) false cs t).1
                ≡ some s =
              compute_loop-other (some c.committer_date) false cs t c.hash n ∙ a ∙ found in
            rw (kept prev new c cs t e)
              (ih.0, ((s, old, (good.0, rw (same good.1) (right good.0))), ih.1))
        | inr e ↦
            let (stat, right, step) = made prev new c cs t e in
            let new' = not (is_known existing c.hash) in
            let t' = upsert c.hash stat t in
            let (known', rest, same') = known_after known c cs k in
            let ih =
              compute_loop-AllRight (some c.committer_date) known' new' cs t' d
                (Agrees-upsert existing c.hash stat cs t n others) rest same' in
            let (s, found, now, total) = get-upsert_self c.hash stat t right.0 in
            let stored : get c.hash (compute_loop w existing (some c.committer_date) new' cs t').1
                ≡ some s =
              compute_loop-other (some c.committer_date) new' cs t' c.hash n ∙ found in
            rw step (ih.0, ((s, stored, (now, right.1 ∙ ap some (sym total))), ih.1))
      ]

-- Where the stats there are were right for the commits that had one, and everything can be read and
-- saved, computeStats succeeds, and then each commit of the branch has a current stat with the
-- project's time since the commit before.
pub compute_stats-AllRight :
    (rt : Runtime) (w : Work) (commits : List ScmCommit) (stats : Table CommitStat)
    → Works w
    → AreDistinct (in_order rt commits)
    → KnownRight w none (in_order rt commits) stats
    → ((compute_stats rt w (some commits) true stats).0 ≡ true)
      × AllRight w none (in_order rt commits) (compute_stats rt w (some commits) true stats).1
unfolding compute_stats
compute_stats-AllRight rt w [] stats works d k =
    (refl, rw (Perm.eq-nil (rt.sort-perm ScmCommit by_committer_date [])) tt)
compute_stats-AllRight rt w (c ∷ cs) stats works d k =
    let sorted = in_order rt (c ∷ cs) in
    compute_loop-AllRight w works stats none none false sorted stats d (Agrees-refl stats sorted) k
      (λ h. refl)
