-- ===== src/Tests/Filtering.antt =====
-- models/filters.go, run on samples.
use wakapi.Base.{◌≡◌, refl, ◌&&◌, [], ◌∷◌, codes, text_eq, if◌then◌else◌, pos}
use wakapi.Entity.{summary, ai_model, project, language, editor, os, machine, branch, category}
use wakapi.Duration.{Duration}
use wakapi.Filters.{match_duration, allows}
use wakapi.Filters.Aliases.{
  AliasReverseResolver, with_aliases, allows_aliased, match_duration-with_aliases,
}
use wakapi.Tests.Samples.{duration, only_wakapi}

-- `antenna` is an alias of `wakapi`.
abbrev aliases : AliasReverseResolver
aliases t value = if text_eq value (codes "wakapi") then codes "antenna" ∷ [] else []

abbrev antenna : Duration
antenna = duration (codes "antenna") (pos 0) (pos 10) (pos 1)

abbrev wakapi_time : Duration
wakapi_time = duration (codes "wakapi") (pos 0) (pos 10) (pos 1)

match_duration-with_aliases_example : match_duration (with_aliases aliases only_wakapi) antenna ≡ (
    allows_aliased (aliases (summary project)) only_wakapi.project antenna.project
    && allows_aliased (aliases (summary os)) only_wakapi.os antenna.operating_system
    && allows_aliased (aliases (summary language)) only_wakapi.language antenna.language
    && allows_aliased (aliases (summary editor)) only_wakapi.editor antenna.editor
    && allows_aliased (aliases (summary machine)) only_wakapi.machine antenna.machine
    && allows_aliased (aliases (summary branch)) only_wakapi.branch antenna.branch
    && allows only_wakapi.entity antenna.entity
    && allows_aliased (aliases (summary category)) only_wakapi.category antenna.category
    && allows_aliased (aliases ai_model) only_wakapi.ai_model antenna.ai_model)
match_duration-with_aliases_example = match_duration-with_aliases aliases only_wakapi antenna refl
