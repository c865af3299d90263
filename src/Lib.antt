-- ===== src/Lib.antt =====
-- Wakapi keeps track of coding activity: editors send heartbeats, which are grouped into durations,
-- which are added up into summaries. This library models that pipeline, and the filters and aliases
-- that are applied along it, and beside it the time per commit, the reviews of Codex sessions and the
-- authentication of requests, and proves what they promise.
--
-- The parts, and the code that each is about:
--   Entity          models/summary.go: the types that summaries and filters are keyed by
--   Summary         models/summary.go: Summary and SummaryItem, totals (TotalTimeBy, MaxBy); Fill is
--                   FillBy and FillMissing, Aliases is WithResolvedAliases, Kept KeepOnly, Apply
--                   ApplyFilter and TotalTimeByFilter
--   User            models/user.go: timeouts, subscriptions, validation
--   Heartbeat       models/heartbeat.go and models/canonical_names.go; Augment is Augment
--   Duration        models/duration.go and models/durations.go: NewDurationFromHeartbeat, the hashed
--                   fields, language mappings (Augmented), which Mappings is about
--   Filters         models/filters.go: Filters, MatchDuration, One, CountDistinctTypes; Aliases is
--                   WithAliases and WithProjectLabels
--   SummaryService  services/summary.go: Items is aggregateBy and mergeSummaryItems, Merge is
--                   mergeSummaries, Intervals is getMissingIntervals and fixZeroDuration, Summarize and
--                   Retrieve are what they are named for, Labels is withProjectLabels, Aliased is
--                   Aliased with its cache, Late what is done on a heartbeat that comes in
--   HeartbeatService  services/heartbeat.go: InsertBatch, the operations on the cached counts and
--                   ranges; Entities are the cached sets of entities
--   Leaderboard     models/leaderboard.go; Totals is what TopKeysTotals gives
--   LeaderboardService  services/leaderboard.go: ComputeLeaderboard and what it generates (Generated), with
--                   the table of items of repositories/leaderboard.go, and CountUsers
--   Intervals       models/interval.go and helpers/interval.go: the named intervals; Days is
--                   SplitRangeByDays and CeilDate of utils/date.go
--   AliasService    services/alias.go and models/alias.go: the cache of aliases; Removal and Resolution
--                   are what DeleteMulti, Create and Delete do to it
--   AggregationService  services/aggregation.go: Jobs is generateUserJobs, Locks the lock on users,
--                   Summaries AggregateSummaries up to the queues of the workers
--   ProjectService  services/project.go and models/project_stats.go: GetUserProjectStats, of which
--                   Merged is about the merge by alias, and Answered about the pages and the cache
--   CommitService   services/commit_service.go, models/scm.go, repositories/commit_stat.go and
--                   repositories/scm_pull_request.go: computeStats and accumulateOverlap, on which
--                   Overlap, Totals and Within are; Stale is noteHeartbeat, with the steps that change
--                   marks and stats, which Marked is about; Listing is GetCommits and GetPullRequests,
--                   with Pages on its pages; Pulls is syncPulls, with Collected on what it reads and
--                   Stored on the table that it stores it in
--   CodexTaskService  services/codex_task_service.go and models/codex_task_session.go: Keys are the
--                   external keys, Worklogs is GetWorklogs, with the keys of worklogs, Review is ListReviewQueue and ReviewSession
--   UserService     services/user.go: the caches of users; Steps is a step relation over them, with what
--                   they can hold, and Kept on how long
--   Authenticate    middlewares/authenticate.go and ExtractBearerAuth of utils/auth.go: ServeHTTP, with
--                   Entitled on who is let through, and Proxies on the header of a proxy
--   Collections     utils/collection.go: SubSlice
--   DurationService services/duration.go: Live is getLive, Merge is merge and filter, Get is Get with
--                   getCached
-- Base has the shared names and lemmas, Runtime what Go leaves open, Stable the stable sort, Table a Go
-- map, Table.Shown maps whose elements bear their key. Tests runs the code on samples.
--
-- The durations of DurationService.Get are what SummaryService.Items aggregates into the items of a
-- summary; summaries of adjacent ranges go through SummaryService.Merge, and their gaps, which are
-- computed anew, come from SummaryService.Intervals: SummaryService.Retrieve puts these together.
-- SummaryService.Aliased is given such a retriever and applies AliasService, Labels and Fill to what it
-- retrieves. Filters decide in DurationService.Merge which durations count. Authenticate goes through the
-- caches of UserService; heartbeats that come in make the stats of CommitService stale.
--
-- How the code is read:
--   * A Go string is the list of its bytes, a map an association list in which no key stands twice.
--   * A time is a number of nanoseconds, a time.Duration too; both are integers without bounds. The
--     zero time is 0. Its *Location is left out but for the start of a Summary, in `location`, which
--     mergeSummaries compares as an address: that of a generated summary is a parameter of Runtime.
--   * The float64 seconds of Codex sessions are read as integers in the same order, and their addition,
--     which rounds, is a parameter.
--   * Calendar is what time.Date and the date helpers give in the user's time zone. A zone whose clock
--     skips a midnight is possible; a theorem that needs there to be none has it as a hypothesis.
--   * The order of `range` over a map and of elements that `sort` finds equal is a parameter, Runtime;
--     the theorems hold for every choice.
--   * A method that changes its receiver gives the new value.
--   * A panic is a value: Retrieve has an outcome for it, and ApplyFilter gives none.
--   * Goroutines that share a cache are steps, one after the other and in any order.
--   * The clock, the hash of a duration's fields, strings.ToLower and lancet's Capitalize, the
--     beginning of a day in a time zone, and what the repositories return are parameters.
--   * The loop of fixZeroDuration has as many rounds as there are summaries, one for each; that of
--     generateUserJobs, and that of SplitRangeByDays, has one for each nanosecond up to its end, and each
--     round goes on by more where the calendar does; the other loops recurse on their lists.
--   * What a regular expression, JSON, base64, a SHA-1 hash, a signed cookie or an id token makes of a text
--     is a parameter, and so is what GitHub answers.
--   * syncPulls has as many rounds as it reads pages at most, 50.
--
-- Not modelled: the repositories but for what is named above, which are queries to a database, the HTTP
-- routes, mail, imports, the GitHub client and the log output, the workers' queues, the texts of Codex
-- summaries, the sync of commits, and the other services.
pub mod Base
pub mod Runtime
pub mod Table
pub mod Stable
pub mod Entity
pub mod Summary
pub mod User
pub mod Heartbeat
pub mod HeartbeatService
pub mod Duration
pub mod Filters
pub mod SummaryService
pub mod DurationService
pub mod AliasService
pub mod Leaderboard
pub mod LeaderboardService
pub mod Intervals
pub mod Collections
pub mod ProjectService
pub mod CommitService
pub mod UserService
pub mod Authenticate
pub mod CodexTaskService
pub mod AggregationService
pub mod Tests
