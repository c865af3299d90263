-- ===== src/DurationService.antt =====
-- services/duration.go: durations are computed from heartbeats, cached, merged and filtered.
pub mod Live
pub mod Total
pub mod Counts
pub mod Time
pub mod Merge
pub mod Get
