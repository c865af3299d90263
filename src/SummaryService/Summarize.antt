-- ===== src/SummaryService/Summarize.antt =====
-- services/summary.go: Summarize, which makes a summary of the durations between two times.
-- The goroutines send their items in an order that the runtime leaves open, like that of a map. Of
-- InTZ, which changes how a time is shown and not the time, only the *Location of the start is kept.
pub mod Totals
use wakapi.Base.{
  ◌>>=◌, ◌≡◌, Bool, true, false, List, [], ◌∷◌, ◌++◌, Option, none, some, if◌then◌else◌, ℤ, map,
}
use wakapi.Runtime.{Runtime}
use wakapi.User.{User}
use wakapi.Entity.{SummaryType, label, branch, entity, persisted_summary_types}
use wakapi.Duration.{Duration, first, last, total_num_heartbeats}
use wakapi.Filters.{Filters, is_project_details}
use wakapi.Summary.{Item, Summary, set_by_type, sorted}
use wakapi.SummaryService.Items.{aggregate_by}
use wakapi.SummaryService.Merge.{initial}
use wakapi.DurationService.Get.{Reads, get}

unfoldable pub summarized_types : Option Filters → List SummaryType
summarized_types filters =
    if is_project_details filters
    then persisted_summary_types ++ branch ∷ entity ∷ []
    else persisted_summary_types

abbrev pub Container : Type 0
Container = SummaryType × List Item

-- `switch item.Type`, which has no case for labels.
unfoldable pub place : Container → Summary → Summary
place (label, items) s = s
place (t, items) s = set_by_type t items s

unfoldable pub collect : List Container → Summary → Summary
collect [] s = s
collect (c ∷ cs) s = collect cs (place c s)

-- What is summarised, and the ends, which are the times of the first and of the last duration.
unfoldable pub summary_of_durations :
    Runtime → User → List SummaryType → (from to : ℤ) → List Duration → Summary
summary_of_durations rt user types from to ds =
    let containers = rt.map_order Container (map (λ t. (t, aggregate_by rt ds t)) types) in
    let s = collect containers (initial user.id) in
    sorted rt (record s {
      from_time = elim (first ds) [ none ↦ from | some d ↦ d.time ];
      to_time = elim (last ds) [ none ↦ to | some d ↦ d.time ];
      location = rt.location from to;
      num_heartbeats = total_num_heartbeats ds;
    })

unfoldable pub summarize :
    Runtime → Reads → User → Option Filters → Option ℤ → (from to : ℤ) → Option Summary
summarize rt reads user filters custom_timeout from to = do
  ds ← get rt reads user filters custom_timeout false from to
  some (summary_of_durations rt user (summarized_types filters) from to ds)
