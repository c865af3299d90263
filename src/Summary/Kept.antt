-- ===== src/Summary/Kept.antt =====
-- models/summary.go: what KeepOnly leaves of a summary.
use wakapi.Base.{
  ◌≡◌, refl, ap, ◌∙◌, Bool, true, false, not, ◌&&◌, List, [], ◌∷◌, if◌then◌else◌, Bool-cases, inl,
  inr, null, any, arith,
}
use wakapi.Entity.{SummaryType, project, Entity, summary, same_type, same_type→eq, summary_types}
use wakapi.Summary.{Summary, get_by_type, set_by_type, has_type, drop_unless, keep_only}
use wakapi.Summary.Totals.{get_by_type-set_by_type}

-- The type is one of the list.
abbrev among : SummaryType → List SummaryType → Bool
among t ts = any (λ u. same_type u t) ts

get_by_type-drop_unless :
    (types : List Entity) (ts : List SummaryType) (t : SummaryType) (s : Summary)
    → get_by_type t (drop_unless types ts s)
      ≡ (if among t ts && not (has_type (summary t) types) then [] else get_by_type t s)
unfolding drop_unless any
get_by_type-drop_unless types [] t s = refl
get_by_type-drop_unless types (u ∷ us) t s = elim (Bool-cases (has_type (summary u) types)) [
  | inl e ↦ rw e (
      get_by_type-drop_unless types us t s ∙ elim (Bool-cases (same_type u t)) [
        | inl k ↦ ground (arith, e, k, ap (λ v. has_type (summary v) types) (same_type→eq u t k))
        | inr k ↦ rw k refl
      ])
  | inr e ↦ rw e (
      get_by_type-drop_unless types us t (set_by_type u [] s)
      ∙ rw (get_by_type-set_by_type t u [] s) (elim (Bool-cases (same_type u t)) [
        | inl k ↦ ground (arith, e, k, ap (λ v. has_type (summary v) types) (same_type→eq u t k))
        | inr k ↦ rw k refl
      ]))
]

among_all : (t : SummaryType) → among t summary_types ≡ true
unfolding any same_type
among_all project = refl
among_all _ = refl

-- With some type to keep, those types keep their items, and all others have none.
get_by_type-keep_only :
    (types : List Entity) (t : SummaryType) (s : Summary)
    → null types ≡ false
    → get_by_type t (keep_only types s)
      ≡ (if has_type (summary t) types then get_by_type t s else [])
unfolding keep_only
get_by_type-keep_only types t s h =
    rw h (get_by_type-drop_unless types summary_types t s ∙ rw (among_all t) (ground arith))
