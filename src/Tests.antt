-- ===== src/Tests.antt =====
-- Runs of the program on concrete inputs, and the theorems applied to them.
mod Sorting
mod Samples
mod Summaries
mod Services
mod Durations
mod Filtering
mod Aliases
mod Aggregation
mod Retrieval
mod Heartbeats
mod Projects
mod Commits
mod Codex
mod Accounts
