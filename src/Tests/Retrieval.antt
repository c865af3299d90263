-- ===== src/Tests/Retrieval.antt =====
-- services/summary.go, Retrieve, Summarize and Aliased, run on samples.
use wakapi.Base.{
  ◌≡◌, ◌≢◌, ◌↔◌, arith, ◌+ℤ◌, refl, subst, true, false, ◌&&◌, List, [], ◌∷◌, none, some, some_inj,
  codes, text_eq, text_eq_refl, pos, ◌*ℤ◌, quot_ℤ, sum_by, All, any,
}
use wakapi.Runtime.{IsOrdered}
use wakapi.User.{heartbeats_timeout}
use wakapi.Table.{get as lookup}
use wakapi.Entity.{project, label, same_type}
use wakapi.Filters.{is_project_details}
use wakapi.Summary.{
  Summary, get_by_type, by_total, second, seconds, sorted, total_time_by, total_time_by_key,
}
use wakapi.Summary.Apply.{by_from}
use wakapi.Summary.Aliases.{picked, resolved_to}
use wakapi.Duration.{Duration, total_num_heartbeats}
use wakapi.DurationService.Get.{get}
use wakapi.DurationService.Merge.{get_effective_timeout}
use wakapi.SummaryService.Aggregate.{time_under}
use wakapi.SummaryService.Merge.{first_starts, time_in}
use wakapi.SummaryService.Intervals.{fix_zero_duration, get_missing_intervals, gaps, between}
use wakapi.SummaryService.Summarize.{summarize, summarized_types, summary_of_durations}
use wakapi.SummaryService.Summarize.Totals.{summarize-keyed}
use wakapi.SummaryService.Retrieve.{
  Source, retrieved, failed, must_recompute, requires_filtering, existing, generate, pieces,
  retrieve,
}
use wakapi.SummaryService.Retrieve.Pieces.{IsOf, OwnStored}
use wakapi.SummaryService.Retrieve.Outcomes.{retrieve-total, retrieve-failed}
use wakapi.AliasService.{initialize_user}
use wakapi.SummaryService.Labels.{ProjectLabel, mapped_projects, with_project_labels}
use wakapi.SummaryService.Labels.Totals.{labelled, positive, with_project_labels-keyed}
use wakapi.SummaryService.Aliased.{
  processed_filters, Lookups, Retriever, alias_resolver, cache_key, cached_summary, is_whole,
  aliased,
}
use wakapi.SummaryService.Aliased.Times.{aliased-total_time_by_key, aliased-aliased}
use wakapi.Tests.Aliases.{plain, antenna}
use wakapi.SummaryService.Retrieve.Recomputed.{retrieve-durations}
use wakapi.Tests.Samples.{ada, monday, summary_of}
use wakapi.Tests.Sorting.{sample_runtime}
use wakapi.Tests.Services.{calendar}
use wakapi.Tests.Durations.{reads, cached, get-example}

-- Two summaries, one behind the other.
abbrev stored : List Summary
stored = monday ∷ summary_of (pos 200) (pos 300) [] [] ∷ []

abbrev source : Source
source = record {
  runtime = sample_runtime;
  now = pos 1000;
  calendar = calendar;
  stored = λ from to. some stored;
  reads = reads;
}

source-OwnStored : OwnStored source ada.id
source-OwnStored from to ss h =
    subst (All (IsOf ada.id)) (some_inj h) (text_eq_refl ada.id, (text_eq_refl ada.id, tt))

stored_pieces : pieces source ada none none (pos 100) (pos 300) ≡ some stored
unfolding pieces existing must_recompute requires_filtering generate get_effective_timeout
    heartbeats_timeout fix_zero_duration get_missing_intervals gaps between ◌*ℤ◌
stored_pieces = refl

retrieve-total_example :
    (m : Summary) × (retrieve source ada none none (pos 100) (pos 300) ≡ retrieved m)
    × (time_in project (λ k. text_eq k (codes "wakapi")) m
        ≡ sum_by
            (time_in project (λ k. text_eq k (codes "wakapi")))
            (first_starts [] (sample_runtime.sort Summary by_from stored)))
    × (m.num_heartbeats
        ≡ sum_by
            (λ u. u.num_heartbeats)
            (first_starts [] (sample_runtime.sort Summary by_from stored)))
retrieve-total_example =
    retrieve-total source ada none none (pos 100) (pos 300) source-OwnStored stored project
      (λ k. text_eq k (codes "wakapi")) stored_pieces refl

retrieve-failed_example :
    (retrieve source ada none none (pos 100) (pos 300) ≡ failed)
    ↔ (pieces source ada none none (pos 100) (pos 300) ≡ none)
retrieve-failed_example = retrieve-failed source ada none none (pos 100) (pos 300) source-OwnStored

-- Nothing is stored.
abbrev unstored : Source
unstored = record source { stored = λ from to. some [] }

unstored-OwnStored : OwnStored unstored ada.id
unstored-OwnStored from to ss h = subst (All (IsOf ada.id)) (some_inj h) tt

nothing_exists : existing unstored ada none none (pos 0) (pos 100) ≡ some []
unfolding existing must_recompute requires_filtering get_effective_timeout heartbeats_timeout
    fix_zero_duration ◌*ℤ◌
nothing_exists = refl

retrieve-durations_example :
    (m : Summary) × (retrieve unstored ada none none (pos 0) (pos 100) ≡ retrieved m)
    × (time_in project (λ j. text_eq j (codes "wakapi")) m
        ≡ quot_ℤ (sum_by (time_under project (codes "wakapi")) cached) second)
    × (m.num_heartbeats ≡ total_num_heartbeats cached)
unfolding summarized_types any is_project_details same_type
retrieve-durations_example =
    retrieve-durations unstored ada none none (pos 0) (pos 100) cached project (codes "wakapi")
      unstored-OwnStored nothing_exists get-example refl refl

abbrev summarized : Summary
summarized =
    summary_of_durations sample_runtime ada (summarized_types none) (pos 0) (pos 100) cached

summarize-cached : summarize sample_runtime reads ada none none (pos 0) (pos 100) ≡ some summarized
unfolding summarize
summarize-cached = rw get-example refl

summarize-keyed_example :
    (ds : List Duration) × (get sample_runtime reads ada none none false (pos 0) (pos 100)
      ≡ some ds)
    × (sum_by (picked (λ j. text_eq j (codes "wakapi"))) (get_by_type project summarized)
        ≡ quot_ℤ (sum_by (time_under project (codes "wakapi")) ds) second)
    × IsOrdered by_total (get_by_type project summarized)
    × (summarized.num_heartbeats ≡ total_num_heartbeats ds)
unfolding summarized_types any is_project_details same_type
summarize-keyed_example =
    summarize-keyed sample_runtime reads ada none none (pos 0) (pos 100) summarized project
      (codes "wakapi") refl summarize-cached

-- `antenna` stands for `wakapi`.
abbrev lookups : Lookups
lookups = record {
  runtime = sample_runtime;
  naming = plain;
  is_match = text_eq;
  aliases = some (antenna ∷ []);
  projects = some [];
  labels = some [];
  show_time = λ t. [];
  show_number = λ t. [];
  hash = λ f. [];
}

on_monday : Retriever
on_monday from to user filters custom_timeout = some monday

nothing_cached :
    cached_summary lookups
      (pos 0)
      (pos 100)
      (cache_key lookups (pos 0) (pos 100) ada none none)
      false
      []
    ≡ none
unfolding cached_summary lookup
nothing_cached = ground arith

monday-total : total_time_by project monday ≢ pos 0
unfolding total_time_by get_by_type seconds sum_by ◌+ℤ◌ ◌*ℤ◌
monday-total e = ground arith

aliased-total_time_by_key_example :
    (m : Summary) × ((aliased lookups (pos 0) (pos 100) ada on_monday none none false [] []).0
      ≡ some m)
    × (total_time_by_key project (codes "wakapi") m
        ≡ seconds (
            sum_by
              (resolved_to
                (alias_resolver lookups ada.id (initialize_user ada.id lookups.aliases []))
                (λ j. text_eq j (codes "wakapi")))
              (get_by_type project monday)))
unfolding same_type on_monday
aliased-total_time_by_key_example =
    aliased-total_time_by_key lookups (pos 0) (pos 100) ada none none on_monday false [] []
      (antenna ∷ []) monday project (codes "wakapi") nothing_cached refl refl refl monday-total

whole_seconds : (is_whole (pos 0) && is_whole (pos 0)) ≡ true
unfolding is_whole ◌*ℤ◌
whole_seconds = refl

nothing_cached_yet :
    cached_summary lookups
      (pos 0)
      (pos 0)
      (cache_key lookups (pos 0) (pos 0) ada none none)
      false
      []
    ≡ none
unfolding cached_summary lookup
nothing_cached_yet = ground arith

aliased-aliased_example :
    (m : Summary) × ((aliased lookups (pos 0) (pos 0) ada on_monday none none false [] []).0
      ≡ some m)
    × ((aliased lookups
          (pos 0)
          (pos 0)
          ada
          on_monday
          none
          none
          false
          (aliased lookups (pos 0) (pos 0) ada on_monday none none false [] []).1
          []).0
        ≡ some (sorted lookups.runtime m))
    × ((aliased lookups (pos 0) (pos 0) ada on_monday none none false [] []).3
        ≡ processed_filters lookups ada.id [] none)
unfolding on_monday
aliased-aliased_example =
    aliased-aliased lookups (pos 0) (pos 0) ada none none on_monday on_monday false [] [] []
      (antenna ∷ []) monday whole_seconds nothing_cached_yet refl refl

abbrev bears : ProjectLabel
bears = record { id = 0; user_id = ada.id; project_key = codes "wakapi"; label = codes "work" }

with_project_labels-keyed_example :
    sum_by
      (picked (λ j. text_eq j (codes "work")))
      (get_by_type label (with_project_labels sample_runtime (some (bears ∷ [])) monday))
    ≡ positive (sum_by (labelled (mapped_projects monday) (codes "work")) (bears ∷ []))
with_project_labels-keyed_example =
    with_project_labels-keyed sample_runtime (bears ∷ []) (codes "work") monday
