-- ===== src/SummaryService/Labels/Totals.antt =====
-- services/summary.go: the time of a label, and what withProjectLabels leaves alone.
use wakapi.Base.{
  ◌≡◌, refl, ap, ◌∙◌, false, List, [], ◌∷◌, Option, none, some, Option-cases, Bool-cases, inl, inr,
  Text, text_eq, text_eq→eq, if◌then◌else◌, ℤ, pos, ◌+ℤ◌, ltb_ℤ, sum_by, sum_by-perm, keep,
  int_laws,
}
use wakapi.Runtime.{Runtime}
use wakapi.Table.{Table, IsTable, get, put, get-put, put-IsTable, at, when, measure, sum_by-when}
use wakapi.Entity.{SummaryType, label, same_type}
use wakapi.Summary.{Item, Summary, get_by_type}
use wakapi.Summary.Aliases.{picked}
use wakapi.SummaryService.Items.{sum_by-map}
use wakapi.SummaryService.Labels.{
  ProjectLabel, mapped_projects, label_totals, label_item, with_project_labels,
}

pub get_by_type-with_project_labels :
    (rt : Runtime) (labels : Option (List ProjectLabel)) (t : SummaryType) (s : Summary)
    → same_type t label ≡ false
    → get_by_type t (with_project_labels rt labels s) ≡ get_by_type t s
unfolding with_project_labels get_by_type same_type
get_by_type-with_project_labels rt none t s h = refl
get_by_type-with_project_labels rt (some ls) label s h = cc
get_by_type-with_project_labels rt (some ls) _ s h = refl

-- The total of the project that a label is on, if it is on one of the summary.
abbrev pub project_total : Table Item → ProjectLabel → ℤ
project_total projects l = measure (λ i. i.total) (get l.project_key projects)

abbrev pub labelled : Table Item → Text → ProjectLabel → ℤ
labelled projects k l = if text_eq l.label k then project_total projects l else pos 0

-- A label whose time is not positive has none.
abbrev pub positive : ℤ → ℤ
positive n = if ltb_ℤ (pos 0) n then n else pos 0

at-put :
    (k j : Text) (n : ℤ) (t : Table ℤ)
    → at (λ v. v) k (put j (measure (λ v. v) (get j t) +ℤ n) t)
      ≡ (if text_eq j k then n else pos 0) +ℤ at (λ v. v) k t
at-put k j n t = ap (measure (λ v. v)) (get-put k j _ t) ∙ elim (Bool-cases (text_eq j k)) [
  | inl e ↦ rw e (rw (ap (λ i. at (λ v. v) i t) (text_eq→eq j k e)) (omega int_laws))
  | inr e ↦ rw e (omega int_laws)
]

at-label_totals :
    (projects : Table Item) (k : Text) (ls : List ProjectLabel) (t : Table ℤ)
    → at (λ v. v) k (label_totals projects ls t)
      ≡ sum_by (labelled projects k) ls +ℤ at (λ v. v) k t
unfolding label_totals sum_by
at-label_totals projects k [] t = omega int_laws
at-label_totals projects k (l ∷ ls) t = elim (Option-cases (get l.project_key projects)) [
  | inl e ↦
      rw (e, label_totals)
        (at-label_totals projects k ls t ∙ elim (Bool-cases (text_eq l.label k)) [
          | inl f ↦ rw f (omega int_laws)
          | inr f ↦ rw f (omega int_laws)
        ])
  | inr (p, e) ↦
      rw (e, label_totals)
        (at-label_totals projects k ls _ ∙ rw (at-put k l.label p.total t) (omega int_laws))
]

at-label_totals_nil :
    (projects : Table Item) (k : Text) (ls : List ProjectLabel)
    → at (λ v. v) k (label_totals projects ls []) ≡ sum_by (labelled projects k) ls
unfolding get
at-label_totals_nil projects k ls = at-label_totals projects k ls [] ∙ omega int_laws

label_totals-IsTable :
    (projects : Table Item) (ls : List ProjectLabel) (t : Table ℤ)
    → IsTable t
    → IsTable (label_totals projects ls t)
unfolding label_totals
label_totals-IsTable projects [] t h = h
label_totals-IsTable projects (l ∷ ls) t h = elim (Option-cases (get l.project_key projects)) [
  | inl e ↦ rw (e, label_totals) (label_totals-IsTable projects ls t h)
  | inr (p, e) ↦
      rw (e, label_totals) (label_totals-IsTable projects ls _ (put-IsTable l.label _ t h))
]

sum_by-keep :
    (k : Text) (es : List (Text × ℤ))
    → sum_by (λ e. if text_eq e.0 k then e.1 else pos 0) (keep (λ e. ltb_ℤ (pos 0) e.1) es)
      ≡ sum_by (when positive k) es
unfolding sum_by keep
sum_by-keep k [] = refl
sum_by-keep k ((j, v) ∷ es) = elim (Bool-cases (ltb_ℤ (pos 0) v)) [
  | inl e ↦
      rw (e, keep, sum_by-keep k es)
        (elim (Bool-cases (text_eq j k)) [ inl f ↦ rw f refl | inr f ↦ rw f refl ])
  | inr e ↦
      rw (e, keep, sum_by-keep k es)
        (elim (Bool-cases (text_eq j k)) [
          | inl f ↦ rw f (omega int_laws)
          | inr f ↦ rw f (omega int_laws)
        ])
]

measure-positive : (o : Option ℤ) → measure positive o ≡ positive (measure (λ v. v) o)
measure-positive none = refl
measure-positive (some v) = refl

-- The time under a label is that of the projects which bear it, each counted once for each time that
-- it bears the label, or none where that is not positive.
pub with_project_labels-keyed :
    (rt : Runtime) (ls : List ProjectLabel) (k : Text) (s : Summary)
    → sum_by (picked (λ j. text_eq j k)) (get_by_type label (with_project_labels rt (some ls) s))
      ≡ positive (sum_by (labelled (mapped_projects s) k) ls)
unfolding with_project_labels get_by_type get label_item
with_project_labels-keyed rt ls k s =
    let t = label_totals (mapped_projects s) ls [] in
    let order = rt.map_order (Text × ℤ) t in
    sum_by-map (picked (λ j. text_eq j k)) label_item (keep (λ e. ltb_ℤ (pos 0) e.1) order)
    ∙ sum_by-keep k order
    ∙ sum_by-perm (when positive k) (rt.map_order-perm (Text × ℤ) t)
    ∙ sum_by-when positive k t (label_totals-IsTable (mapped_projects s) ls [] tt)
    ∙ measure-positive (get k t)
    ∙ ap positive (at-label_totals_nil (mapped_projects s) k ls)
