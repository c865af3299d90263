-- ===== src/ProjectService/Answered.antt =====
-- services/project.go: what GetUserProjectStats answers where it has not been asked before.
use wakapi.Base.{ℕ, ◌≡◌, Bool, not, ◌||◌, List, [], none, Text, is_empty, if◌then◌else◌}
use wakapi.Runtime.{Runtime}
use wakapi.Table.{Table, get}
use wakapi.ProjectService.{ProjectStats, max_limit}

module _ (rt : Runtime) (resolve to_lower : Text → Text) (cache_key : ℕ → ℕ → Text → Text)
    (limit offset : ℕ) (search : Text) (skip_cache : Bool) (cache : Table (List ProjectStats)) where
  -- Neither this page nor, without a search, the whole is taken from the cache.
  abbrev pub IsMissed : Type 0
  IsMissed =
      ((if skip_cache then none else get (cache_key limit offset search) cache) ≡ none)
      × ((if skip_cache || not (is_empty search)
            then none
            else get (cache_key max_limit 0 []) cache)
          ≡ none)
