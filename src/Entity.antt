-- ===== src/Entity.antt =====
-- models/summary.go: the entity types that summaries and filters are keyed by.
-- `SummaryType` has the nine values of `SummaryTypes()`, and `Entity` adds the two `uint8` constants
-- under which a filter may stand and a summary has no items.
use wakapi.Base.{ℕ, ◌≡◌, refl, Bool, true, List, [], ◌∷◌, Text, codes, ◌==◌, ◌↔◌, arith}

pub data SummaryType : Type 0 where
  project language editor os machine label branch entity category : SummaryType

pub data Entity : Type 0 where
  summary : SummaryType → Entity
  ai_model unknown_type : Entity

unfoldable pub type_code : SummaryType → ℕ
type_code project = 0
type_code language = 1
type_code editor = 2
type_code os = 3
type_code machine = 4
type_code label = 5
type_code branch = 6
type_code entity = 7
type_code category = 8

unfoldable pub entity_code : Entity → ℕ
unfolding type_code
entity_code (summary t) = type_code t
entity_code ai_model = 9
entity_code unknown_type = 98

-- Types are compared as the numbers that they are.
unfoldable pub same_type : SummaryType → SummaryType → Bool
unfolding type_code
same_type s t = type_code s == type_code t

abbrev pub summary_types : List SummaryType
summary_types = project ∷ language ∷ editor ∷ os ∷ machine ∷ label ∷ branch ∷ entity ∷ category ∷ []

abbrev pub native_summary_types : List SummaryType
native_summary_types = project ∷ language ∷ editor ∷ os ∷ machine ∷ branch ∷ entity ∷ category ∷ []

abbrev pub persisted_summary_types : List SummaryType
persisted_summary_types = project ∷ language ∷ editor ∷ os ∷ machine ∷ category ∷ []

abbrev pub unknown_summary_key : Text
unknown_summary_key = codes "unknown"

abbrev pub default_project_label : Text
default_project_label = codes "default"

pub same_type_iff : (s t : SummaryType) → (same_type s t ≡ true) ↔ (s ≡ t)
unfolding same_type
same_type_iff s t = ground arith

pub same_type_refl : (t : SummaryType) → same_type t t ≡ true
same_type_refl t = (same_type_iff t t).1 refl

pub same_type→eq : (s t : SummaryType) → same_type s t ≡ true → s ≡ t
same_type→eq s t h = (same_type_iff s t).0 h

pub same_type_comm : (s t : SummaryType) (b : Bool) → same_type s t ≡ b → same_type t s ≡ b
unfolding same_type
same_type_comm s t b h = ground arith
