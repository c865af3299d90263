-- ===== src/SummaryService/Labels.antt =====
-- services/summary.go and models/project_label.go: withProjectLabels adds up the time of a label's
-- projects. None is an error of the label service, which leaves the summary as it is.
pub mod Totals
use wakapi.Base.{ℕ, List, [], ◌∷◌, Option, none, some, Text, ℤ, pos, ◌+ℤ◌, ltb_ℤ, keep, map}
use wakapi.Runtime.{Runtime}
use wakapi.Table.{Table, get, put, measure}
use wakapi.Entity.{label}
use wakapi.Summary.{Item, Summary}
use wakapi.SummaryService.Items.{existing_items}

pub record ProjectLabel : Type 0 where
  pub id : ℕ
  pub user_id : Text
  pub project_key : Text
  pub label : Text

-- `mappedProjects`, in which the last item under a key counts.
unfoldable pub mapped_projects : Summary → Table Item
unfolding existing_items
mapped_projects s = existing_items s.projects []

unfoldable pub label_totals : Table Item → List ProjectLabel → Table ℤ → Table ℤ
label_totals projects [] t = t
label_totals projects (l ∷ ls) t = label_totals projects ls (elim (get l.project_key projects) [
  | none ↦ t
  | some p ↦ put l.label (measure (λ n. n) (get l.label t) +ℤ p.total) t
])

unfoldable pub label_item : Text × ℤ → Item
label_item (k, v) = record { id = 0; summary_id = 0; type = label; key = k; total = v }

unfoldable pub with_project_labels : Runtime → Option (List ProjectLabel) → Summary → Summary
unfolding label_totals mapped_projects label_item
with_project_labels rt none s = s
with_project_labels rt (some ls) s =
    let totals = rt.map_order (Text × ℤ) (label_totals (mapped_projects s) ls []) in
    record s { labels = map label_item (keep (λ e. ltb_ℤ (pos 0) e.1) totals) }
