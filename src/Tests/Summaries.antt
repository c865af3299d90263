-- ===== src/Tests/Summaries.antt =====
-- models/summary.go and models/user.go, run on samples.
use wakapi.Base.{
  ◌≡◌, ◌≢◌, refl, [], ◌∷◌, some, codes, text_eq, if◌then◌else◌, pos, ◌+ℤ◌, ◌*ℤ◌, sum_by,
}
use wakapi.Entity.{project, language, editor, same_type}
use wakapi.Summary.{
  Summary, get_by_type, seconds, total_time_by, total_time_by_key, first_present,
  find_first_present_type, max_of, max_by, max_by_to_string,
}
use wakapi.Summary.Aliases.{
  AliasResolver, with_resolved_aliases, resolved_to, with_resolved_aliases-total_time_by_key,
}
use wakapi.Tests.Samples.{item, monday, summary_of}

-- `antenna` is another name of `wakapi`.
abbrev one_name : AliasResolver
one_name t key = if text_eq key (codes "antenna") then codes "wakapi" else key

max_by_to_string-monday : max_by_to_string project monday ≡ codes "wakapi"
unfolding max_by_to_string max_by max_of get_by_type
max_by_to_string-monday = refl

with_resolved_aliases-total_time_by_key_example :
    total_time_by_key project (codes "wakapi") (with_resolved_aliases one_name monday)
    ≡ seconds (
        sum_by
          (resolved_to one_name (λ j. text_eq j (codes "wakapi")))
          (get_by_type project monday))
with_resolved_aliases-total_time_by_key_example =
    with_resolved_aliases-total_time_by_key one_name project (codes "wakapi") monday
      (unfold same_type in refl)

present : find_first_present_type monday ≡ some project
unfolding find_first_present_type first_present total_time_by get_by_type sum_by seconds ◌+ℤ◌ ◌*ℤ◌
present = refl

some_languages : get_by_type language monday ≢ []
unfolding get_by_type
some_languages h = cc

no_editors : get_by_type editor monday ≡ []
unfolding get_by_type
no_editors = refl

-- A summary whose languages have been filled once, before more time came in.
abbrev filled_once : Summary
filled_once =
    summary_of (pos 100) (pos 200) (item project (codes "wakapi") (pos 90) ∷ [])
      (item language (codes "unknown") (pos 20) ∷ [])
