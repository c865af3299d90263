-- ===== src/DurationService/Counts.antt =====
-- services/duration.go: getLive loses no heartbeat.
use wakapi.Base.{
  ◌≡◌, refl, ap, ◌∙◌, false, List, [], ◌∷◌, none, some, Option-cases, Text, Bool-cases, inl, inr, ℤ,
  pos, ◌+ℤ◌, sum_by, int_laws,
}
use wakapi.Runtime.{Runtime}
use wakapi.Heartbeat.{Heartbeat}
use wakapi.Duration.{Duration, total_num_heartbeats}
use wakapi.DurationService.Live.{
  Grouping, LiveParams, update_duration_entity, start_duration, extended, starts_new, follow,
  group_round, group_all, nothing, all_groups, get_live,
}
use wakapi.DurationService.Total.{
  table_sum, so_far, so_far-new, so_far-latest, table_sum-push, updated, start_duration_fields,
  sum_by-get_live,
}

abbrev beats : Duration → ℤ
beats d = d.num_heartbeats

-- The sum after a heartbeat that goes on the latest duration.
pub so_far-same :
    (p : LiveParams) (f : Duration → ℤ) (g : Grouping) (latest d1 : Duration) (h : Heartbeat)
    → starts_new p latest d1 ≡ false
    → ((d : Duration) (times : Text → Text → ℤ) → f (update_duration_entity d h times).0 ≡ f d)
    → so_far f (follow p g latest d1 h)
      ≡ table_sum f g.mapping
        +ℤ f (record (extended p latest d1) {
          num_heartbeats = (extended p latest d1).num_heartbeats +ℤ pos 1;
        })
unfolding follow
so_far-same p f g latest d1 h e keep =
    rw e
      (table_sum-push f _ g.mapping ∙ ap (λ n. table_sum f g.mapping +ℤ n) (keep _ g.entity_times))

extended-beats :
    (p : LiveParams) (latest d1 : Duration)
    → (extended p latest d1).num_heartbeats ≡ latest.num_heartbeats
unfolding extended
extended-beats p latest d1 = refl

follow-beats :
    (p : LiveParams) (g : Grouping) (latest : Duration) (h : Heartbeat)
    → g.latest ≡ some latest
    → so_far beats (follow p g latest (start_duration p h) h) ≡ so_far beats g +ℤ pos 1
follow-beats p g latest h now =
    let d1 = start_duration p h in
    let before = so_far-latest p beats g latest now in
    elim (Bool-cases (starts_new p latest d1)) [
      | inl e ↦
          so_far-new p beats g latest d1 h e
          ∙ rw (before, extended-beats p latest d1, (start_duration_fields p h).0) (omega int_laws)
      | inr e ↦
          so_far-same p beats g latest d1 h e (λ d times. (updated p d h times).0)
          ∙ rw (before, extended-beats p latest d1) (omega int_laws)
    ]

so_far-none :
    (f : Duration → ℤ) (g : Grouping) → g.latest ≡ none → so_far f g ≡ table_sum f g.mapping
so_far-none f g e = rw (e, all_groups)

-- The first heartbeat, and one that follows.
pub group_round-first :
    (p : LiveParams) (g : Grouping) (h : Heartbeat)
    → g.latest ≡ none
    → group_round p g h ≡ record g { latest = some (start_duration p h) }
unfolding group_round
group_round-first p g h e = rw (e, group_round)

pub group_round-next :
    (p : LiveParams) (g : Grouping) (latest : Duration) (h : Heartbeat)
    → g.latest ≡ some latest
    → group_round p g h ≡ follow p g latest (start_duration p h) h
unfolding group_round follow
group_round-next p g latest h e = rw (e, group_round)

group_round-beats :
    (p : LiveParams) (g : Grouping) (h : Heartbeat)
    → so_far beats (group_round p g h) ≡ so_far beats g +ℤ pos 1
group_round-beats p g h = elim (Option-cases g.latest) [
  | inl e ↦ rw (group_round-first p g h e) (
      table_sum-push beats (start_duration p h) g.mapping
      ∙ rw (so_far-none beats g e, (start_duration_fields p h).0))
  | inr (latest, e) ↦ rw (group_round-next p g latest h e) (follow-beats p g latest h e)
]

-- The heartbeats of a stream, counted.
abbrev pub count : List Heartbeat → ℤ
count [] = pos 0
count (h ∷ hs) = pos 1 +ℤ count hs

group_all-beats :
    (p : LiveParams) (hs : List Heartbeat) (g : Grouping)
    → so_far beats (group_all p g hs) ≡ so_far beats g +ℤ count hs
unfolding group_all
group_all-beats p [] g = omega int_laws
group_all-beats p (h ∷ hs) g =
    group_all-beats p hs (group_round p g h) ∙ rw (group_round-beats p g h) (omega int_laws)

-- Every heartbeat of the stream counts in one duration, whatever its order, timeouts and days.
pub get_live-total_num_heartbeats :
    (rt : Runtime) (p : LiveParams) (hs : List Heartbeat)
    → total_num_heartbeats (get_live rt p hs) ≡ count hs
unfolding total_num_heartbeats
get_live-total_num_heartbeats rt p hs =
    sum_by-get_live rt p beats hs ∙ group_all-beats p hs nothing ∙ (unfold sum_by in omega int_laws)
