-- ===== src/Tests/Durations.antt =====
-- services/duration.go, run on samples.
use mathlib.Core.List.Perm
use wakapi.Runtime.{Runtime}
use wakapi.Base.{
  Perm, ◌≡◌, refl, false, List, [], ◌∷◌, none, some, Text, codes, text_eq, pos, ◌+ℤ◌, ◌-ℤ◌, ◌*ℤ◌,
  ◌≤ℤ◌, sum_by, All, arith,
}
use wakapi.User.{heartbeats_timeout}
use wakapi.Heartbeat.{Heartbeat}
use wakapi.Filters.{is_project_details}
use wakapi.Duration.{
  Duration, augmented, augment_loop, sorted, hashed, time_end, first, last, total_num_heartbeats,
}
use wakapi.DurationService.Live.{LiveParams, get_live}
use wakapi.DurationService.Counts.{count, get_live-total_num_heartbeats}
use wakapi.DurationService.Time.{time_of, get_live-within}
use wakapi.DurationService.Merge.{merge, middle, inner, but_last, filter, get_effective_timeout}
use wakapi.DurationService.Merge.Order.{InOrder, merge-InOrder}
use wakapi.DurationService.Merge.Losses.{lost_between, lost_at_end, merge-total_num_heartbeats}
use wakapi.DurationService.Get.{
  Reads, Passes, get, filled, get_cached, skips_cache, missing_from, get-Passes,
}
use wakapi.Duration.Mappings.{augmented-order}
use wakapi.Table.{Table}
use wakapi.Tests.Samples.{ada, heartbeat, duration, project_hash}
use wakapi.Tests.Sorting.{sample_runtime}
use wakapi.Stable.{insert, stable_sort}

abbrev params : LiveParams
params = record {
  user = ada;
  interval = pos 600;
  include_entities = false;
  begin_of_day = λ t. pos 0;
  hash = project_hash;
}

-- Two heartbeats on one project and one on another, all within the timeout, then one long after.
abbrev morning : List Heartbeat
morning =
    heartbeat (codes "wakapi") (pos 100)
    ∷ heartbeat (codes "wakapi") (pos 200)
    ∷ heartbeat (codes "antenna") (pos 250)
    ∷ heartbeat (codes "antenna") (pos 5000)
    ∷ []

get_live-total_num_heartbeats_example :
    total_num_heartbeats (get_live sample_runtime params morning) ≡ count morning
get_live-total_num_heartbeats_example = get_live-total_num_heartbeats sample_runtime params morning

get_live-within_example :
    (pos 0 ≤ℤ sum_by time_of (get_live sample_runtime params morning))
    × (sum_by time_of (get_live sample_runtime params morning) +ℤ pos 50 ≤ℤ pos 6000)
get_live-within_example =
    get_live-within sample_runtime params (pos 50) (pos 6000) morning
      (omega arith, (omega arith, (omega arith, (omega arith, omega arith))))

abbrev pub cached : List Duration
cached = duration (codes "wakapi") (pos 0) (pos 100) (pos 2) ∷ []

abbrev later : List Duration
later = duration (codes "antenna") (pos 200) (pos 10) (pos 1) ∷ []

abbrev live : List Duration
live = duration (codes "antenna") (pos 150) (pos 10) (pos 1) ∷ later

-- The first duration is extended, and the two others are dropped.
abbrev merged : List Duration
merged = duration (codes "wakapi") (pos 0) (pos 150) (pos 2) ∷ []

merge-cached : merge project_hash ada cached live ≡ some merged
unfolding merge middle inner but_last hashed time_end first last heartbeats_timeout text_eq ◌+ℤ◌
    ◌-ℤ◌ ◌*ℤ◌
merge-cached = refl

merge-InOrder_example : InOrder (pos 0) merged
unfolding ◌+ℤ◌
merge-InOrder_example =
    merge-InOrder project_hash ada (pos 0) cached live merged (omega arith, omega arith, tt)
      (omega arith, omega arith, (omega arith, omega arith, tt)) merge-cached

merge-total_num_heartbeats_example :
    total_num_heartbeats merged
      +ℤ (lost_between ada
            (duration (codes "wakapi") (pos 0) (pos 100) (pos 2))
            (duration (codes "antenna") (pos 150) (pos 10) (pos 1))
          +ℤ lost_at_end later)
    ≡ total_num_heartbeats cached +ℤ total_num_heartbeats live
unfolding last
merge-total_num_heartbeats_example =
    merge-total_num_heartbeats project_hash ada cached later merged
      (duration (codes "wakapi") (pos 0) (pos 100) (pos 2))
      (duration (codes "antenna") (pos 150) (pos 10) (pos 1)) refl merge-cached

-- The cache reaches as far as is asked for.
abbrev pub reads : Reads
reads = record {
  heartbeats = λ start end. some morning;
  durations = λ start end columns. some cached;
  mappings = some [];
  begin_of_day = λ t. pos 0;
  hash = project_hash;
}

pub get-example : get sample_runtime reads ada none none false (pos 0) (pos 100) ≡ some cached
unfolding get filled skips_cache missing_from get_cached filter get_effective_timeout augmented
    augment_loop sorted stable_sort insert is_project_details last time_end heartbeats_timeout
    text_eq ◌+ℤ◌ ◌*ℤ◌
get-example = refl

get-Passes_example : All (Passes none ada) cached
get-Passes_example =
    get-Passes sample_runtime reads ada none none false (pos 0) (pos 100) cached get-example

-- Both endings fit, and the one with more dots counts.
abbrev mappings : Table Text
mappings = (codes "go", codes "Go") ∷ (codes "tmpl.go", codes "Go template") ∷ []

-- Another order of the maps.
swapped {ℓ} : {A : Type ℓ} → List A → List A
swapped [] = []
swapped (x ∷ []) = x ∷ []
swapped (x ∷ y ∷ xs) = y ∷ x ∷ xs

swapped-perm : {A : Type 0} (xs : List A) → Perm (swapped xs) xs
unfolding swapped
swapped-perm [] = Perm.refl []
swapped-perm (x ∷ []) = Perm.refl (x ∷ [])
swapped-perm (x ∷ y ∷ xs) = Perm.swap x y xs

abbrev other_runtime : Runtime
other_runtime = record sample_runtime {
  map_order = λ A xs. swapped xs;
  map_order-perm = λ A xs. swapped-perm xs;
}

augmented-order_example :
    augmented sample_runtime mappings (duration (codes "wakapi") (pos 0) (pos 100) (pos 2))
    ≡ augmented other_runtime mappings (duration (codes "wakapi") (pos 0) (pos 100) (pos 2))
unfolding text_eq
augmented-order_example =
    augmented-order sample_runtime other_runtime mappings
      (duration (codes "wakapi") (pos 0) (pos 100) (pos 2)) ((refl, tt), (tt, tt))
