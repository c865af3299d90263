-- ===== src/SummaryService/Summarize/Totals.antt =====
-- services/summary.go: what Summarize makes of durations, type by type.
use mathlib.Core.List.{Permᴰ}
use mathlib.Core.Logic.{∥∥₁_elim}
use mathlib.Core.List.Perm
use wakapi.Base.{
  ℕ, subst, ℤ-set, Option, some, some_inj, false, >>=-eq-some, ◌≡◌, refl, ap, sym, ◌∙◌, Bool, true,
  ◌||◌, List, [], ◌∷◌, Text, text_eq, if◌then◌else◌, Bool-cases, inl, inr, ℤ, sum_by, sum_by-perm,
  quot_ℤ, any, All, any-Permᴰ, All-Permᴰ, map, arith,
}
use wakapi.Runtime.{Runtime, IsOrdered, gtb_ℤ-IsLess}
use wakapi.User.{User}
use wakapi.Entity.{SummaryType, project, label, same_type, same_type→eq}
use wakapi.Duration.{Duration, total_num_heartbeats}
use wakapi.Filters.{Filters}
use wakapi.DurationService.Get.{Reads, get}
use wakapi.SummaryService.Merge.{initial}
use wakapi.Summary.{Item, Summary, get_by_type, set_by_type, sorted, by_total, second}
use wakapi.Summary.Totals.{get_by_type-set_by_type}
use wakapi.Summary.Aliases.{picked}
use wakapi.SummaryService.Items.{aggregate_by}
use wakapi.SummaryService.Aggregate.{time_under, aggregate_by-keyed}
use wakapi.SummaryService.Summarize.{
  Container, place, collect, summary_of_durations, summarized_types, summarize,
}

-- The type is one of the list.
abbrev pub among : SummaryType → List SummaryType → Bool
among t ts = any (λ u. same_type u t) ts

get_by_type-place :
    (u t : SummaryType) (items : List Item) (s : Summary)
    → same_type t label ≡ false
    → get_by_type u (place (t, items) s) ≡ (if same_type t u then items else get_by_type u s)
unfolding place same_type
get_by_type-place u label items s h = cc
get_by_type-place u t items s h = get_by_type-set_by_type u t items s

-- Each container has the items that `g` gives its type, which is not that of labels.
abbrev Holds : (SummaryType → List Item) → Container → Type 0
Holds g c = (c.1 ≡ g c.0) × (same_type c.0 label ≡ false)

abbrev has_container : SummaryType → List Container → Bool
has_container t cs = any (λ c. same_type c.0 t) cs

get_by_type-collect :
    (g : SummaryType → List Item) (t : SummaryType) (cs : List Container) (s : Summary)
    → All (Holds g) cs
    → get_by_type t (collect cs s) ≡ (if has_container t cs then g t else get_by_type t s)
unfolding collect any
get_by_type-collect g t [] s h = refl
get_by_type-collect g t ((u, items) ∷ cs) s ((same, ne), hs) =
    get_by_type-collect g t cs (place (u, items) s) hs
    ∙ rw (get_by_type-place t u items s ne) (elim (Bool-cases (same_type u t)) [
      | inl e ↦ ground (arith, e, same, ap g (same_type→eq u t e))
      | inr e ↦ rw e refl
    ])

containers : (SummaryType → List Item) → List SummaryType → List Container
containers g types = map (λ t. (t, g t)) types

containers-Holds :
    (g : SummaryType → List Item) (types : List SummaryType)
    → among label types ≡ false
    → All (Holds g) (containers g types)
unfolding containers any
containers-Holds g [] h = tt
containers-Holds g (t ∷ types) h = ground (arith, containers-Holds g types)

has_container-containers :
    (g : SummaryType → List Item) (t : SummaryType) (types : List SummaryType)
    → has_container t (containers g types) ≡ among t types
unfolding containers any
has_container-containers g t [] = refl
has_container-containers g t (u ∷ types) =
    ap (λ b. same_type u t || b) (has_container-containers g t types)

pub get_by_type-sorted :
    (rt : Runtime) (t : SummaryType) (s : Summary)
    → get_by_type t (sorted rt s) ≡ rt.sort Item by_total (get_by_type t s)
unfolding get_by_type sorted
get_by_type-sorted rt project s = refl
get_by_type-sorted rt _ s = refl

get_by_type_of :
    (t : SummaryType) (s : Summary) (from to beats : ℤ) (l : ℕ)
    → get_by_type t
        (record s { from_time = from; to_time = to; location = l; num_heartbeats = beats })
      ≡ get_by_type t s
unfolding get_by_type
get_by_type_of project s from to beats l = refl
get_by_type_of _ s from to beats l = refl

collected :
    (g : SummaryType → List Item) (t : SummaryType) (types : List SummaryType) (cs : List Container)
    (s : Summary)
    → among label types ≡ false
    → among t types ≡ true
    → Permᴰ (containers g types) cs
    → get_by_type t (collect cs s) ≡ g t
collected g t types cs s h k perm =
    get_by_type-collect g t cs s (All-Permᴰ (Holds g) perm (containers-Holds g types h))
    ∙ rw (sym (any-Permᴰ (λ c. same_type c.0 t) perm))
        (rw (has_container-containers g t types) (rw k refl))

module _ (rt : Runtime) (user : User) (types : List SummaryType) (from to : ℤ) (ds : List Duration)
    (t : SummaryType) (no_labels : among label types ≡ false) (there : among t types ≡ true) where
  abbrev made : Summary
  made = summary_of_durations rt user types from to ds

  gathered : List Container
  gathered = rt.map_order Container (containers (aggregate_by rt ds) types)

  get_by_type-made :
      get_by_type t made
      ≡ rt.sort Item by_total (get_by_type t (collect gathered (initial user.id)))
  unfolding summary_of_durations gathered containers
  get_by_type-made =
      get_by_type-sorted rt t _
      ∙ ap (rt.sort Item by_total) (get_by_type_of t (collect gathered (initial user.id)) _ _ _ _)

  sum-collected :
      (f : Item → ℤ)
      → sum_by f (get_by_type t (collect gathered (initial user.id)))
        ≡ sum_by f (aggregate_by rt ds t)
  unfolding gathered
  sum-collected f =
      ∥∥₁_elim (Perm.symm (rt.map_order-perm Container (containers (aggregate_by rt ds) types)))
        (ℤ-set _ _)
        (λ perm. ap (sum_by f) (collected (aggregate_by rt ds) t types _ _ no_labels there perm))

  pub made-keyed :
      (k : Text)
      → (sum_by (picked (λ j. text_eq j k)) (get_by_type t made)
          ≡ quot_ℤ (sum_by (time_under t k) ds) second)
        × IsOrdered by_total (get_by_type t made)
  made-keyed k = (
    ap (sum_by (picked (λ j. text_eq j k))) get_by_type-made
        ∙ sum_by-perm _ (rt.sort-perm Item by_total _)
        ∙ sum-collected (picked (λ j. text_eq j k))
        ∙ (aggregate_by-keyed rt ds t k).0,
    subst (IsOrdered by_total) (sym get_by_type-made)
        (rt.sort-IsOrdered Item by_total _ (gtb_ℤ-IsLess (λ i. i.total))),
  )

user_id-place : (c : Container) (s : Summary) → (place c s).user_id ≡ s.user_id
unfolding place set_by_type
user_id-place (project, items) s = refl
user_id-place (_, items) s = refl

user_id-collect : (cs : List Container) (s : Summary) → (collect cs s).user_id ≡ s.user_id
unfolding collect
user_id-collect [] s = refl
user_id-collect (c ∷ cs) s = user_id-collect cs (place c s) ∙ user_id-place c s

pub user_id-summary_of_durations :
    (rt : Runtime) (user : User) (types : List SummaryType) (from to : ℤ) (ds : List Duration)
    → (summary_of_durations rt user types from to ds).user_id ≡ user.id
unfolding summary_of_durations sorted
user_id-summary_of_durations rt user types from to ds = user_id-collect _ (initial user.id)

beats-summary_of_durations :
    (rt : Runtime) (user : User) (types : List SummaryType) (from to : ℤ) (ds : List Duration)
    → (summary_of_durations rt user types from to ds).num_heartbeats ≡ total_num_heartbeats ds
unfolding summary_of_durations sorted
beats-summary_of_durations rt user types from to ds = refl

no_labels_summarized : (filters : Option Filters) → among label (summarized_types filters) ≡ false
unfolding summarized_types any same_type
no_labels_summarized filters = ground arith

-- Where Summarize gives a summary, it is that of the durations of the range: for each type that is
-- summarised, the items hold the whole seconds of all durations under each key and descend by total,
-- and the heartbeats are those of the durations.
pub summarize-keyed :
    (rt : Runtime) (reads : Reads) (user : User) (filters : Option Filters)
    (custom_timeout : Option ℤ) (from to : ℤ) (m : Summary) (t : SummaryType) (k : Text)
    → among t (summarized_types filters) ≡ true
    → summarize rt reads user filters custom_timeout from to ≡ some m
    → (ds : List Duration) × (get rt reads user filters custom_timeout false from to ≡ some ds)
      × (sum_by (picked (λ j. text_eq j k)) (get_by_type t m)
          ≡ quot_ℤ (sum_by (time_under t k) ds) second)
      × IsOrdered by_total (get_by_type t m)
      × (m.num_heartbeats ≡ total_num_heartbeats ds)
unfolding summarize
summarize-keyed rt reads user filters custom_timeout from to m t k there h =
    let (ds, got, made) = >>=-eq-some _ _ h in
    let no_labels = no_labels_summarized filters in
    let types = summarized_types filters in
    subst
      (λ m.
        (ds : List Duration) × (get rt reads user filters custom_timeout false from to ≡ some ds)
        × (sum_by (picked (λ j. text_eq j k)) (get_by_type t m)
            ≡ quot_ℤ (sum_by (time_under t k) ds) second)
        × IsOrdered by_total (get_by_type t m)
        × (m.num_heartbeats ≡ total_num_heartbeats ds))
      (some_inj made)
      (
        ds,
        got,
        (made-keyed rt user types from to ds t no_labels there k).0,
        (made-keyed rt user types from to ds t no_labels there k).1,
        beats-summary_of_durations rt user types from to ds,
      )
