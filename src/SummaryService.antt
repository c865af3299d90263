-- ===== src/SummaryService.antt =====
-- services/summary.go: summaries are generated from durations, merged, and their gaps filled.
pub mod Items
pub mod Aggregate
pub mod MergeItems
pub mod Merge
pub mod Intervals
pub mod Summarize
pub mod Retrieve
pub mod Labels
pub mod Aliased
pub mod Late
