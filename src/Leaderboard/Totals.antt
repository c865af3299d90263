-- ===== src/Leaderboard/Totals.antt =====
-- models/leaderboard.go: TopKeysTotals gives each key its whole total, once.
use wakapi.Base.{
  ◌≡◌, refl, sym, ap, ◌∙◌, Bool, ◌||◌, [], ◌∷◌, Option-cases, Bool-cases, inl, inr, Text, text_eq,
  text_eq_refl, text_eq→eq, if◌then◌else◌, ℤ, pos, ◌+ℤ◌, sum_by, sum_by-perm, any, int_laws, arith,
  ℕ,
}
use wakapi.Runtime.{Runtime, IsOrdered, gtb_ℤ-IsLess}
use wakapi.Table.{Table, IsTable, get, get-put, put-IsTable, at, measure, sum_by-when}
use wakapi.Table.Shown.{IsShown, shown_under, put-IsShown, get-IsShown, sum_by-IsShown}
use wakapi.SummaryService.Items.{sum_by-map}
use wakapi.Leaderboard.{
  LeaderboardItem, Leaderboard, KeyTotal, key_by, is_under, add_total, map_totals, top_keys_totals,
  by_total,
}

either :
    (a b : Bool) (n : ℤ)
    → (if a then pos 1 else if b then pos 1 else n) ≡ (if b || a then pos 1 else n)
either a b n = ground arith

module _ (to_lower : Text → Text) where
  -- The key that an entry shows, in lower case, which it stands under.
  abbrev pub lowered_key : KeyTotal → Text
  lowered_key e = to_lower e.key

  add_total-IsShown :
      (key : Text) (total : ℤ) (t : Table KeyTotal)
      → IsShown lowered_key t
      → IsShown lowered_key (add_total (to_lower key) key total t)
  unfolding add_total
  add_total-IsShown key total t s = elim (Option-cases (get (to_lower key) t)) [
    | inl e ↦
        rw (e, add_total)
          (put-IsShown lowered_key (to_lower key) _ t (text_eq_refl (to_lower key)) s)
    | inr (e, f) ↦
        rw (f, add_total)
          (put-IsShown lowered_key (to_lower key) _ t
            (get-IsShown lowered_key (to_lower key) e t s f) s)
  ]

  add_total-IsTable :
      (lowered key : Text) (total : ℤ) (t : Table KeyTotal)
      → IsTable t
      → IsTable (add_total lowered key total t)
  unfolding add_total
  add_total-IsTable lowered key total t h = elim (Option-cases (get lowered t)) [
    | inl e ↦ rw (e, add_total) (put-IsTable lowered _ t h)
    | inr (e, f) ↦ rw (f, add_total) (put-IsTable lowered _ t h)
  ]

  at-add_total :
      (k lowered key : Text) (total : ℤ) (t : Table KeyTotal)
      → at (λ e. e.total) k (add_total lowered key total t)
        ≡ (if text_eq lowered k then total else pos 0) +ℤ at (λ e. e.total) k t
  unfolding add_total
  at-add_total k lowered key total t = elim (Option-cases (get lowered t)) [
    | inl e ↦
        rw (e, add_total)
          (ap (measure (λ e. e.total)) (get-put k lowered _ t)
            ∙ elim (Bool-cases (text_eq lowered k)) [
              | inl f ↦
                  rw f (rw (ap (λ j. get j t) (sym (text_eq→eq lowered k f)) ∙ e) (omega int_laws))
              | inr f ↦ rw f (omega int_laws)
            ])
    | inr (w, g) ↦
        rw (g, add_total)
          (ap (measure (λ e. e.total)) (get-put k lowered _ t)
            ∙ elim (Bool-cases (text_eq lowered k)) [
              | inl f ↦
                  rw f (rw (ap (λ j. get j t) (sym (text_eq→eq lowered k f)) ∙ g) (omega int_laws))
              | inr f ↦ rw f (omega int_laws)
            ])
  ]

  -- Each entry counts one.
  abbrev counts_one : KeyTotal → ℤ
  counts_one e = pos 1

  counts_one-add_total :
      (k lowered key : Text) (total : ℤ) (t : Table KeyTotal)
      → at counts_one k (add_total lowered key total t)
        ≡ (if text_eq lowered k then pos 1 else at counts_one k t)
  unfolding add_total
  counts_one-add_total k lowered key total t = elim (Option-cases (get lowered t)) [
    | inl e ↦
        rw (e, add_total)
          (ap (measure counts_one) (get-put k lowered _ t)
            ∙ elim (Bool-cases (text_eq lowered k)) [ inl f ↦ rw f refl | inr f ↦ rw f refl ])
    | inr (w, g) ↦
        rw (g, add_total)
          (ap (measure counts_one) (get-put k lowered _ t)
            ∙ elim (Bool-cases (text_eq lowered k)) [ inl f ↦ rw f refl | inr f ↦ rw f refl ])
  ]

  module _ (by : ℕ) where
    -- What an item counts under a key.
    abbrev pub counted : Text → LeaderboardItem → ℤ
    counted k i = if is_under to_lower by k i then i.total else pos 0

    map_totals-IsShown :
        (l : Leaderboard) (t : Table KeyTotal)
        → IsShown lowered_key t
        → IsShown lowered_key (map_totals to_lower by l t)
    unfolding map_totals
    map_totals-IsShown [] t s = s
    map_totals-IsShown (i ∷ l) t s = elim (Option-cases (key_by by i)) [
      | inl e ↦ rw (e, map_totals) (map_totals-IsShown l t s)
      | inr (k, e) ↦
          rw (e, map_totals)
            (map_totals-IsShown l (add_total (to_lower k) k i.total t)
              (add_total-IsShown k i.total t s))
    ]

    map_totals-IsTable :
        (l : Leaderboard) (t : Table KeyTotal) → IsTable t → IsTable (map_totals to_lower by l t)
    unfolding map_totals
    map_totals-IsTable [] t h = h
    map_totals-IsTable (i ∷ l) t h = elim (Option-cases (key_by by i)) [
      | inl e ↦ rw (e, map_totals) (map_totals-IsTable l t h)
      | inr (k, e) ↦
          rw (e, map_totals)
            (map_totals-IsTable l (add_total (to_lower k) k i.total t)
              (add_total-IsTable (to_lower k) k i.total t h))
    ]

    at-map_totals :
        (k : Text) (l : Leaderboard) (t : Table KeyTotal)
        → at (λ e. e.total) k (map_totals to_lower by l t)
          ≡ sum_by (counted k) l +ℤ at (λ e. e.total) k t
    unfolding map_totals sum_by is_under
    at-map_totals k [] t = omega int_laws
    at-map_totals k (i ∷ l) t = elim (Option-cases (key_by by i)) [
      | inl e ↦ rw (e, map_totals, is_under) (rw (at-map_totals k l t) (omega int_laws))
      | inr (j, e) ↦
          rw (e, map_totals, is_under)
            (at-map_totals k l (add_total (to_lower j) j i.total t)
              ∙ rw (at-add_total k (to_lower j) j i.total t) (omega int_laws))
    ]

    counts_one-map_totals :
        (k : Text) (l : Leaderboard) (t : Table KeyTotal)
        → at counts_one k (map_totals to_lower by l t)
          ≡ (if any (is_under to_lower by k) l then pos 1 else at counts_one k t)
    unfolding map_totals any is_under
    counts_one-map_totals k [] t = refl
    counts_one-map_totals k (i ∷ l) t = elim (Option-cases (key_by by i)) [
      | inl e ↦ rw (e, map_totals, is_under) (counts_one-map_totals k l t)
      | inr (j, e) ↦
          rw (e, map_totals, is_under)
            (counts_one-map_totals k l (add_total (to_lower j) j i.total t)
              ∙ rw (counts_one-add_total k (to_lower j) j i.total t) (
                  either (any (is_under to_lower by k) l) (text_eq (to_lower j) k)
                    (at counts_one k t)))
    ]

    sum_by-top_keys_totals :
        (rt : Runtime) (f : KeyTotal → ℤ) (k : Text) (l : Leaderboard)
        → sum_by (shown_under lowered_key f k) (top_keys_totals rt to_lower by l)
          ≡ at f k (map_totals to_lower by l [])
    unfolding top_keys_totals
    sum_by-top_keys_totals rt f k l =
        let t = map_totals to_lower by l [] in
        sum_by-perm (shown_under lowered_key f k) (rt.sort-perm KeyTotal by_total _)
        ∙ sum_by-map (shown_under lowered_key f k) (λ (p : Text × KeyTotal). p.1)
            (rt.map_order (Text × KeyTotal) t)
        ∙ sum_by-perm (λ p. shown_under lowered_key f k p.1) (rt.map_order-perm (Text × KeyTotal) t)
        ∙ sum_by-IsShown lowered_key f k t (map_totals-IsShown l [] tt)
        ∙ sum_by-when f k t (map_totals-IsTable l [] tt)

    -- The totals that TopKeysTotals gives descend. Of the keys that are one in lower case there is one
    -- where an item has such a key, and none otherwise, and its total is that of all these items.
    pub top_keys_totals-keyed :
        (rt : Runtime) (k : Text) (l : Leaderboard)
        → IsOrdered by_total (top_keys_totals rt to_lower by l)
          × (sum_by (shown_under lowered_key (λ e. pos 1) k) (top_keys_totals rt to_lower by l)
              ≡ (if any (is_under to_lower by k) l then pos 1 else pos 0))
          × (sum_by (shown_under lowered_key (λ e. e.total) k) (top_keys_totals rt to_lower by l)
              ≡ sum_by (counted k) l)
    unfolding top_keys_totals get
    top_keys_totals-keyed rt k l = (
      rt.sort-IsOrdered KeyTotal by_total _ (gtb_ℤ-IsLess (λ e. e.total)),
      sum_by-top_keys_totals rt counts_one k l ∙ counts_one-map_totals k l [],
      sum_by-top_keys_totals rt (λ e. e.total) k l ∙ at-map_totals k l [] ∙ omega int_laws,
    )
