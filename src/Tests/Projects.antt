-- ===== src/Tests/Projects.antt =====
-- services/project.go and utils/collection.go, run on samples.
use wakapi.Base.{ℕ, ◌≡◌, refl, List, [], ◌∷◌, some, Text, codes, text_eq, ℤ, pos, if◌then◌else◌}
use wakapi.Collections.{sub_slice, take, drop, slice}
use wakapi.ProjectService.{ProjectStats}

abbrev pages : List ℕ
pages = 1 ∷ 2 ∷ 3 ∷ 4 ∷ []

-- The second page of two, and the page behind the last one, which is the whole.
second_page : sub_slice pages 2 4 ≡ some (3 ∷ 4 ∷ [])
unfolding sub_slice slice take drop
second_page = refl

page_behind : sub_slice pages 6 8 ≡ some pages
unfolding sub_slice slice take drop
page_behind = refl

abbrev stats_of : Text → ℤ → ℤ → ProjectStats
stats_of p n t = record {
  user_id = codes "ada";
  project = p;
  top_language = codes "go";
  count = n;
  first = pos 0;
  last = t;
}

-- Two projects, of which the fork has the other's name for an alias.
abbrev stats : List ProjectStats
stats =
    stats_of (codes "fork") (pos 3) (pos 10)
    ∷ stats_of (codes "notes") (pos 2) (pos 30)
    ∷ stats_of (codes "wakapi") (pos 5) (pos 20)
    ∷ []

abbrev unforked : Text → Text
unforked t = if text_eq t (codes "fork") then codes "wakapi" else t

abbrev page_key : ℕ → ℕ → Text → Text
page_key limit offset wanted = limit ∷ (offset ∷ wanted)
