-- ===== src/DurationService/Time.antt =====
-- services/duration.go: getLive gives no more time than has passed.
use wakapi.Base.{
  ◌≡◌, refl, ap, ◌∙◌, true, false, List, [], ◌∷◌, some, Bool-cases, inl, inr, ℤ, pos, ◌+ℤ◌, ◌≤ℤ◌,
  ltb_ℤ, eqb_ℤ, sum_by, int_laws, parts_of_eq,
}
use wakapi.Runtime.{Runtime}
use wakapi.Heartbeat.{Heartbeat}
use wakapi.Duration.{Duration, time_end, from_heartbeat, hashed}
use wakapi.DurationService.Live.{
  Grouping, LiveParams, push, update_duration_entity, start_duration, elapsed, extended, starts_new,
  follow, group_round, group_all, nothing, get_live,
}
use wakapi.DurationService.Total.{
  table_sum, so_far, so_far-new, so_far-latest, table_sum-push, updated, start_duration_fields,
  sum_by-get_live,
}
use wakapi.DurationService.Counts.{so_far-same, group_round-first, group_round-next}

abbrev pub time_of : Duration → ℤ
time_of d = d.duration

-- The heartbeats come in order of time, none before `t` and none after `u`.
abbrev pub IsAscending : (t u : ℤ) → List Heartbeat → Type 0
IsAscending t u [] = t ≤ℤ u
IsAscending t u (h ∷ hs) = (t ≤ℤ h.time) × IsAscending h.time u hs

-- The time given so far, when counting started at `t0` and the clock is at `now`: none beyond the
-- end of the latest duration, and that end is not ahead.
record InTime (t0 now : ℤ) (g : Grouping) (latest : Duration) : Type 0 where
  is_latest : g.latest ≡ some latest
  nonneg : pos 0 ≤ℤ so_far time_of g
  given : so_far time_of g +ℤ t0 ≤ℤ latest.time +ℤ latest.duration
  end : latest.time +ℤ latest.duration ≤ℤ now

elapsed_bounds :
    (p : LiveParams) (latest d1 : Duration)
    → latest.time +ℤ latest.duration ≤ℤ d1.time
    → (pos 0 ≤ℤ elapsed p latest d1)
      × (latest.time +ℤ latest.duration +ℤ elapsed p latest d1 ≤ℤ d1.time)
unfolding elapsed time_end
elapsed_bounds p latest d1 h =
    elim (Bool-cases (eqb_ℤ (p.begin_of_day d1.time) (p.begin_of_day latest.time))) [
      | inl e ↦ rw e (omega int_laws, omega int_laws)
      | inr e ↦ rw e (omega int_laws, omega int_laws)
    ]

extended-duration :
    (p : LiveParams) (latest d1 : Duration)
    → latest.time +ℤ latest.duration ≤ℤ d1.time
    → (latest.duration ≤ℤ (extended p latest d1).duration)
      × (latest.time +ℤ (extended p latest d1).duration ≤ℤ d1.time)
unfolding extended
extended-duration p latest d1 h =
    let bounds = elapsed_bounds p latest d1 h in
    elim (Bool-cases (ltb_ℤ (elapsed p latest d1) p.interval)) [
      | inl e ↦ rw e (omega (int_laws, bounds.0, bounds.1), omega (int_laws, bounds.0, bounds.1))
      | inr e ↦ rw e (omega (int_laws, bounds.0, bounds.1), omega (int_laws, bounds.0, bounds.1))
    ]

extended-time : (p : LiveParams) (latest d1 : Duration) → (extended p latest d1).time ≡ latest.time
unfolding extended
extended-time p latest d1 = refl

-- The arithmetic of a round: a sum over the groups and the latest duration, which has grown from
-- `old` to `new` and is followed by one of no length, or by none.
grow_sum :
    (t0 groups old new sum sum' time at : ℤ)
    → sum ≡ groups +ℤ old
    → sum' ≡ groups +ℤ new
    → pos 0 ≤ℤ sum
    → sum +ℤ t0 ≤ℤ time +ℤ old
    → old ≤ℤ new
    → time +ℤ new ≤ℤ at
    → (pos 0 ≤ℤ sum') × (sum' +ℤ t0 ≤ℤ time +ℤ new) × (sum' +ℤ t0 ≤ℤ at)
grow_sum t0 groups old new sum sum' time at e e' nonneg given longer ends = (
  omega (int_laws, parts_of_eq _ _ e, parts_of_eq _ _ e'),
  omega (int_laws, parts_of_eq _ _ e, parts_of_eq _ _ e'),
  omega (int_laws, parts_of_eq _ _ e, parts_of_eq _ _ e'),
)

module _ (p : LiveParams) (t0 now : ℤ) (g : Grouping) (latest : Duration) (h : Heartbeat)
    (le : now ≤ℤ h.time) (inv : InTime t0 now g latest) where
  abbrev d1 : Duration
  d1 = start_duration p h

  start_time : (d1.time ≡ h.time) × (d1.duration ≡ pos 0)
  unfolding start_duration from_heartbeat hashed
  start_time = (refl, refl)

  ends_by : latest.time +ℤ latest.duration ≤ℤ d1.time
  ends_by =
      let e : latest.time +ℤ latest.duration ≤ℤ now = inv.end in
      rw start_time.0 (omega (int_laws, e, le))

  grows :
      (latest.duration ≤ℤ (extended p latest d1).duration)
      × (latest.time +ℤ (extended p latest d1).duration ≤ℤ h.time)
  grows =
      let bounds = extended-duration p latest d1 ends_by in
      (bounds.0, omega (int_laws, bounds.1, parts_of_eq _ _ start_time.0))

  sums :
      (sum' : ℤ)
      → sum' ≡ table_sum time_of g.mapping +ℤ (extended p latest d1).duration
      → (pos 0 ≤ℤ sum')
        × (sum' +ℤ t0 ≤ℤ latest.time +ℤ (extended p latest d1).duration)
        × (sum' +ℤ t0 ≤ℤ h.time)
  sums sum' e =
      grow_sum t0 _ latest.duration _ _ sum' latest.time h.time
        (so_far-latest p time_of g latest inv.is_latest) e inv.nonneg inv.given grows.0 grows.1

  follow-InTime_new : starts_new p latest d1 ≡ true → InTime t0 h.time (follow p g latest d1 h) d1
  follow-InTime_new e =
      let s = sums _ (
        so_far-new p time_of g latest d1 h e
        ∙ ap (λ n. table_sum time_of g.mapping +ℤ (extended p latest d1).duration +ℤ n) start_time.1
        ∙ (omega int_laws)) in
      record {
        is_latest = unfold follow in rw e refl;
        nonneg = s.0;
        given = omega (int_laws, s.2, parts_of_eq _ _ start_time.0, parts_of_eq _ _ start_time.1);
        end = omega (int_laws, parts_of_eq _ _ start_time.0, parts_of_eq _ _ start_time.1);
      }

  follow-InTime_same :
      starts_new p latest d1 ≡ false
      → let counted = record (extended p latest d1) {
        num_heartbeats = (extended p latest d1).num_heartbeats +ℤ pos 1;
      } in
        InTime t0 h.time
          (follow p g latest d1 h)
          (update_duration_entity counted h g.entity_times).0
  follow-InTime_same e =
      let counted : Duration = record (extended p latest d1) {
        num_heartbeats = (extended p latest d1).num_heartbeats +ℤ pos 1;
      } in
      let s = sums _ (so_far-same p time_of g latest d1 h e (λ d times. (updated p d h times).1)) in
      let kept = updated p counted h g.entity_times in
      record {
        is_latest = unfold follow in rw e refl;
        nonneg = s.0;
        given = rw (kept.1, kept.2, extended-time p latest d1) s.1;
        end = rw (kept.1, kept.2, extended-time p latest d1) grows.1;
      }

  -- The latest duration after one more heartbeat.
  follow-InTime : (next : Duration) × InTime t0 h.time (follow p g latest d1 h) next
  follow-InTime = elim (Bool-cases (starts_new p latest d1)) [
    | inl e ↦ (d1, follow-InTime_new e)
    | inr e ↦ (_, follow-InTime_same e)
  ]

so_far-InTime :
    (t0 now u : ℤ) (g : Grouping) (latest : Duration)
    → now ≤ℤ u
    → InTime t0 now g latest
    → (pos 0 ≤ℤ so_far time_of g) × (so_far time_of g +ℤ t0 ≤ℤ u)
so_far-InTime t0 now u g latest le inv =
    let given : so_far time_of g +ℤ t0 ≤ℤ latest.time +ℤ latest.duration = inv.given in
    let end : latest.time +ℤ latest.duration ≤ℤ now = inv.end in
    (inv.nonneg, omega (int_laws, given, end, le))

group_all-InTime :
    (p : LiveParams) (t0 now u : ℤ) (hs : List Heartbeat) (g : Grouping) (latest : Duration)
    → IsAscending now u hs
    → InTime t0 now g latest
    → (pos 0 ≤ℤ so_far time_of (group_all p g hs)) × (so_far time_of (group_all p g hs) +ℤ t0 ≤ℤ u)
unfolding group_all
group_all-InTime p t0 now u [] g latest le inv = so_far-InTime t0 now u g latest le inv
group_all-InTime p t0 now u (h ∷ hs) g latest (le, later) inv =
    let next = follow-InTime p t0 now g latest h le inv in
    rw (group_round-next p g latest h inv.is_latest)
      (group_all-InTime p t0 h.time u hs _ next.0 later next.1)

-- The first heartbeat starts a duration of no length.
first-InTime :
    (p : LiveParams) (t : ℤ) (h : Heartbeat)
    → t ≤ℤ h.time
    → InTime t h.time (group_round p nothing h) (start_duration p h)
first-InTime p t h le =
    let fields = start_duration_fields p h in
    rw (group_round-first p nothing h refl) (
      let sum : table_sum time_of (push (start_duration p h) []) ≡ pos 0 =
        table_sum-push time_of (start_duration p h) []
        ∙ (unfold sum_by in omega (int_laws, parts_of_eq _ _ fields.1)) in
      record {
        is_latest = refl;
        nonneg = omega (int_laws, parts_of_eq _ _ sum);
        given =
            omega (
              int_laws,
              le,
              parts_of_eq _ _ sum,
              parts_of_eq _ _ fields.1,
              parts_of_eq _ _ fields.2,
            );
        end = omega (int_laws, parts_of_eq _ _ fields.1, parts_of_eq _ _ fields.2);
      })

-- When the heartbeats come in order of time, none before `t` and none after `u`, the lengths of
-- the durations add up to at least 0 and at most `u` less `t`: no time is counted twice.
pub get_live-within :
    (rt : Runtime) (p : LiveParams) (t u : ℤ) (hs : List Heartbeat)
    → IsAscending t u hs
    → (pos 0 ≤ℤ sum_by time_of (get_live rt p hs)) × (sum_by time_of (get_live rt p hs) +ℤ t ≤ℤ u)
unfolding group_all
get_live-within rt p t u [] le =
    rw (sum_by-get_live rt p time_of []) (unfold sum_by in (omega int_laws, omega (int_laws, le)))
get_live-within rt p t u (h ∷ hs) (le, later) =
    rw (sum_by-get_live rt p time_of (h ∷ hs))
      (group_all-InTime p t h.time u hs _ (start_duration p h) later (first-InTime p t h le))
