-- ===== src/DurationService/Total.antt =====
-- services/duration.go: what getLive counts, and how much time it gives.
use wakapi.Base.{
  ◌≡◌, refl, ◌∙◌, true, List, [], ◌∷◌, ◌++◌, none, some, Option-cases, some_inj, some_ne_none, Text,
  text_eq, Bool-cases, inl, inr, ℤ, pos, ◌+ℤ◌, sum_by, sum_by-append, sum_by-perm, int_laws,
  parts_of_eq, arith,
}
use wakapi.Runtime.{Runtime}
use wakapi.Table
use wakapi.Table.{Table}
use wakapi.Heartbeat.{Heartbeat}
use wakapi.Duration.{Duration, sorted, by_time, from_heartbeat, hashed}
use wakapi.DurationService.Live.{
  Grouping, LiveParams, push, update_duration_entity, start_duration, extended, starts_new, follow,
  group_all, nothing, all_groups, flatten_values, get_live,
}

-- A measure, summed over the lists of a table.
abbrev pub group_sum : (Duration → ℤ) → Text × List Duration → ℤ
group_sum f e = sum_by f e.1

abbrev pub table_sum : (Duration → ℤ) → Table (List Duration) → ℤ
table_sum f m = sum_by (group_sum f) m

sum_by-flatten_values :
    (f : Duration → ℤ) (m : Table (List Duration)) → sum_by f (flatten_values m) ≡ table_sum f m
unfolding sum_by
sum_by-flatten_values f [] = refl
sum_by-flatten_values f ((k, ds) ∷ m) =
    rw (sum_by-append f ds (flatten_values m), sum_by-flatten_values f m)

-- Steps of the sums below.
sum_cons : (a x y b : ℤ) → x ≡ y +ℤ b → a +ℤ x ≡ a +ℤ y +ℤ b
sum_cons a x y b h = omega (int_laws, parts_of_eq _ _ h)

sum_cons_known : (a x o y b : ℤ) → x +ℤ o ≡ y +ℤ b → a +ℤ x +ℤ o ≡ a +ℤ y +ℤ b
sum_cons_known a x o y b h = omega (int_laws, parts_of_eq _ _ h)

grown : (x o y n : ℤ) {b : ℤ} → x +ℤ o ≡ y +ℤ b → b ≡ o +ℤ n → x ≡ y +ℤ n
grown x o y n {b} h k = omega (int_laws, parts_of_eq _ _ h, parts_of_eq _ _ k)

table_sum-put_new :
    (f : Duration → ℤ) (k : Text) (ds : List Duration) (m : Table (List Duration))
    → Table.get k m ≡ none
    → table_sum f (Table.put k ds m) ≡ table_sum f m +ℤ sum_by f ds
unfolding Table.put Table.get sum_by
table_sum-put_new f k ds [] h = unfold sum_by in omega int_laws
table_sum-put_new f k ds ((j, v) ∷ m) h = elim (Bool-cases (text_eq j k)) [
  | inl e ↦ absurd (some_ne_none (rw e at h))
  | inr e ↦ rw e (sum_cons (sum_by f v) _ _ _ (table_sum-put_new f k ds m (rw e at h)))
]

table_sum-put_known :
    (f : Duration → ℤ) (k : Text) (old ds : List Duration) (m : Table (List Duration))
    → Table.get k m ≡ some old
    → table_sum f (Table.put k ds m) +ℤ sum_by f old ≡ table_sum f m +ℤ sum_by f ds
unfolding Table.put Table.get sum_by
table_sum-put_known f k old ds [] h = cc
table_sum-put_known f k old ds ((j, v) ∷ m) h = elim (Bool-cases (text_eq j k)) [
  | inl e ↦
      let same : v ≡ old = some_inj (rw e at h) in rw e (rw same (unfold sum_by in omega int_laws))
  | inr e ↦
      rw e (sum_cons_known (sum_by f v) _ _ _ _ (table_sum-put_known f k old ds m (rw e at h)))
]

pub table_sum-push :
    (f : Duration → ℤ) (d : Duration) (m : Table (List Duration))
    → table_sum f (push d m) ≡ table_sum f m +ℤ f d
unfolding push
table_sum-push f d m = elim (Option-cases (Table.get d.group_hash m)) [
  | inl e ↦
      rw (e, push)
        (rw (table_sum-put_new f d.group_hash (d ∷ []) m e) (unfold sum_by in omega int_laws))
  | inr (ds, e) ↦
      rw (e, push)
        (grown _ _ _ _ (table_sum-put_known f d.group_hash ds (ds ++ d ∷ []) m e)
          (sum_by-append f ds (d ∷ []) ∙ (unfold sum_by in omega int_laws)))
]

-- A measure, summed over all that has been grouped so far.
abbrev pub so_far : (Duration → ℤ) → Grouping → ℤ
so_far f g = table_sum f (all_groups g)

pub sum_by-get_live :
    (rt : Runtime) (p : LiveParams) (f : Duration → ℤ) (hs : List Heartbeat)
    → sum_by f (get_live rt p hs) ≡ so_far f (group_all p nothing hs)
unfolding get_live sorted
sum_by-get_live rt p f hs =
    sum_by-perm f (rt.sort-perm Duration by_time _)
    ∙ sum_by-flatten_values f _
    ∙ sum_by-perm (group_sum f) (rt.map_order-perm (Text × List Duration) _)

module _ (p : LiveParams) where
  pub so_far-new :
      (f : Duration → ℤ) (g : Grouping) (latest d1 : Duration) (h : Heartbeat)
      → starts_new p latest d1 ≡ true
      → so_far f (follow p g latest d1 h)
        ≡ table_sum f g.mapping +ℤ f (extended p latest d1) +ℤ f d1
  unfolding follow
  so_far-new f g latest d1 h e = rw e (
      rw (table_sum-push f d1 (push (extended p latest d1) g.mapping))
        (rw (table_sum-push f (extended p latest d1) g.mapping)))

  pub so_far-latest :
      (f : Duration → ℤ) (g : Grouping) (latest : Duration)
      → g.latest ≡ some latest
      → so_far f g ≡ table_sum f g.mapping +ℤ f latest
  so_far-latest f g latest e = rw (e, all_groups) (table_sum-push f latest g.mapping)

  pub updated :
      (d : Duration) (h : Heartbeat) (times : Text → Text → ℤ)
      → ((update_duration_entity d h times).0.num_heartbeats ≡ d.num_heartbeats)
        × ((update_duration_entity d h times).0.duration ≡ d.duration)
        × ((update_duration_entity d h times).0.time ≡ d.time)
  unfolding update_duration_entity
  updated d h times = ground arith

  pub start_duration_fields :
      (h : Heartbeat)
      → ((start_duration p h).num_heartbeats ≡ pos 1)
        × ((start_duration p h).duration ≡ pos 0)
        × ((start_duration p h).time ≡ h.time)
  unfolding start_duration from_heartbeat hashed
  start_duration_fields h = (refl, refl, refl)
