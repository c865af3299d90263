-- ===== src/CommitService/Stale.antt =====
-- services/commit_service.go: noteHeartbeat, and the stats that repositories/commit_stat.go marks stale.
pub mod Marked
use wakapi.Base.{
  ◌≡◌, refl, sym, ◌∙◌, Bool, true, false, not, ◌&&◌, ◌||◌, List, [], ◌∷◌, Option, none, some, Text,
  text_eq, is_empty, if◌then◌else◌, ℤ, pos, ◌-ℤ◌, ◌≤ℤ◌, ltb_ℤ, eqb_ℤ, All, map, arith, Bool-cases,
  Option-cases, inl, inr, some_inj, some_ne_none, text_eq_refl,
}
use wakapi.Table.{Table, get, put, remove, get-put, get-remove}
use wakapi.CommitService.{CommitStat}

pub record DirtyMark : Type 0 where
  pub at : ℤ
  pub since : ℤ

-- A stat with the date of its commit.
pub record StatRow : Type 0 where
  pub committer_date : ℤ
  pub stat : CommitStat

-- The marks of the service, and the stats of each user.
pub record StaleState : Type 0 where
  pub last_dirty : Table DirtyMark
  pub rows : Text → List StatRow

-- 1 minute
abbrev pub commit_stats_dirty_debounce : ℤ
commit_stats_dirty_debounce = pos 60000000000

unfoldable pub mark_row : (since : ℤ) → StatRow → StatRow
mark_row since r =
    if ltb_ℤ r.committer_date since then r else record r { stat = record r.stat { dirty = true } }

unfoldable pub mark_dirty : Text → (since : ℤ) → (Text → List StatRow) → Text → List StatRow
unfolding mark_row
mark_dirty user since rows u = if text_eq user u then map (mark_row since) (rows u) else rows u

unfoldable pub is_skipped : (time now : ℤ) → Option DirtyMark → Bool
is_skipped time now none = false
is_skipped time now (some prev) =
    ltb_ℤ (now -ℤ prev.at) commit_stats_dirty_debounce && not (ltb_ℤ time prev.since)

-- `marks` is whether MarkDirtyByUserCommittedSince succeeds.
unfoldable pub note_heartbeat :
    (marks : Bool) → (user : Text) → (time now : ℤ) → StaleState → Bool × StaleState
unfolding mark_dirty is_skipped
note_heartbeat marks user time now st =
    if is_empty user || eqb_ℤ time (pos 0)
    then (false, st)
    else if is_skipped time now (get user st.last_dirty)
    then (false, st)
    else if marks
    then (
      true,
      record {
        last_dirty = put user (record { at = now; since = time }) st.last_dirty;
        rows = mark_dirty user time st.rows;
      },
    )
    else (
      false,
      record st {
        last_dirty = remove user (put user (record { at = now; since = time }) st.last_dirty);
      },
    )

-- What becomes of a user's stats when some are computed: each stays or is computed now, and there may
-- be new ones.
pub data Recomputed (now : ℤ) : List StatRow → List StatRow → Type 0 where
  none_left : Recomputed now [] []
  stays :
      {old new : List StatRow} (r : StatRow)
      → Recomputed now old new
      → Recomputed now (r ∷ old) (r ∷ new)
  computed :
      {old new : List StatRow} (r : StatRow) (stat : CommitStat)
      → stat.calculated_at ≡ now
      → Recomputed now old new
      → Recomputed now (r ∷ old) (record r { stat = stat } ∷ new)
  added :
      {old new : List StatRow} (r : StatRow)
      → r.stat.calculated_at ≡ now
      → Recomputed now old new
      → Recomputed now old (r ∷ new)

-- The clock, the marks and the stats from the start of the service on.
pub data Reach : ℤ → StaleState → Type 0 where
  started :
      (now : ℤ) (rows : Text → List StatRow) → Reach now (record { last_dirty = []; rows = rows })
  later :
      {now : ℤ} {st : StaleState} (new_time : ℤ)
      → Reach now st
      → now ≤ℤ new_time
      → Reach new_time st
  heartbeat :
      {now : ℤ} {st : StaleState} (marks : Bool) (user : Text) (time : ℤ)
      → Reach now st
      → Reach now (note_heartbeat marks user time now st).1
  stats_computed :
      {now : ℤ} {st : StaleState} (user : Text) (rows : List StatRow)
      → Reach now st
      → Recomputed now (st.rows user) rows
      → Reach now (record st { rows = λ u. if text_eq user u then rows else st.rows u })
