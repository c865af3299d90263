-- ===== src/ProjectService/Merged.antt =====
-- services/project.go: GetUserProjectStats merges the statistics of the projects with one alias.
use wakapi.Base.{
  is_empty, Bool-cases, ◌≡◌, refl, sym, ap, ◌∙◌, Bool, true, false, ◌||◌, List, [], ◌∷◌,
  Option-cases, inl, inr, Text, text_eq, text_eq_refl, text_eq→eq, if◌then◌else◌, ℤ, pos, ◌+ℤ◌,
  sum_by, sum_by-perm, any, keep, map, int_laws, parts_of_eq, arith,
}
use wakapi.Runtime.{Runtime, IsOrdered, gtb_ℤ-IsLess}
use wakapi.Table.{IsTable, get, get-put, put-IsTable, at, measure, sum_by-when}
use wakapi.Table.Shown.{IsShown, shown_under, put-IsShown, get-IsShown, sum_by-IsShown}
use wakapi.SummaryService.Items.{sum_by-map}
use wakapi.SummaryService.Aliased.{contains_text}
use wakapi.ProjectService.{
  ProjectStats, Merging, merge_one, merge_stats, is_found, by_last, aggregated_stats,
}

abbrev pub name : ProjectStats → Text
name s = s.project

either :
    (a b : Bool) (n : ℤ)
    → (if a then pos 1 else if b then pos 1 else n) ≡ (if b || a then pos 1 else n)
either a b n = ground arith

-- Whether a name has what is searched for in it.
abbrev pub is_searched : (to_lower : Text → Text) → (search : Text) → Text → Bool
is_searched to_lower search k = is_empty search || contains_text (to_lower search) (to_lower k)

found_same :
    (to_lower : Text → Text) (search k : Text) (v : ProjectStats)
    → text_eq v.project k ≡ true
    → is_found to_lower search v ≡ is_searched to_lower search k
unfolding is_found
found_same to_lower wanted k v e = ap (is_searched to_lower wanted) (text_eq→eq v.project k e)

sum_by_if :
    (found : Bool) (g : ProjectStats → ℤ) (v : ProjectStats) (vs : List ProjectStats)
    → sum_by g (if found then v ∷ vs else vs) ≡ (if found then g v +ℤ sum_by g vs else sum_by g vs)
unfolding sum_by
sum_by_if true g v vs = refl
sum_by_if false g v vs = refl

-- One more element, which counts where it is the same, and is then found where it is wanted.
found_step :
    (found same wanted : Bool) (n rest whole : ℤ)
    → (same ≡ true → found ≡ wanted)
    → rest ≡ (if wanted then whole else pos 0)
    → (if found then (if same then n else pos 0) +ℤ rest else rest)
      ≡ (if wanted then (if same then n else pos 0) +ℤ whole else pos 0)
found_step true true true n rest whole h e = ap (λ m. n +ℤ m) e
found_step true true false n rest whole h e = absurd (cc (h refl))
found_step false true true n rest whole h e = absurd (cc (h refl))
found_step false true false n rest whole h e = e
found_step true false true n rest whole h e = ap (λ m. pos 0 +ℤ m) e
found_step true false false n rest whole h e = omega (int_laws, parts_of_eq _ _ e)
found_step false false true n rest whole h e = omega (int_laws, parts_of_eq _ _ e)
found_step false false false n rest whole h e = e

module _ (resolve : Text → Text) where
  abbrev pub resolves : Text → ProjectStats → Bool
  resolves k s = text_eq (resolve s.project) k

  merge_one-IsTable :
      (s : ProjectStats) (m : Merging) → IsTable m.0 → IsTable (merge_one resolve s m).0
  unfolding merge_one
  merge_one-IsTable s m h = elim (Option-cases (get (resolve s.project) m.0)) [
    | inl e ↦ rw (e, merge_one) (put-IsTable (resolve s.project) _ m.0 h)
    | inr (v, e) ↦ rw (e, merge_one) (put-IsTable (resolve s.project) _ m.0 h)
  ]

  merge_one-IsShown :
      (s : ProjectStats) (m : Merging) → IsShown name m.0 → IsShown name (merge_one resolve s m).0
  unfolding merge_one
  merge_one-IsShown s m h = elim (Option-cases (get (resolve s.project) m.0)) [
    | inl e ↦
        rw (e, merge_one)
          (put-IsShown name (resolve s.project) _ m.0 (text_eq_refl (resolve s.project)) h)
    | inr (v, e) ↦
        rw (e, merge_one)
          (put-IsShown name (resolve s.project) _ m.0
            (get-IsShown name (resolve s.project) v m.0 h e) h)
  ]

  merge_stats-IsTable :
      (ss : List ProjectStats) (m : Merging) → IsTable m.0 → IsTable (merge_stats resolve ss m).0
  unfolding merge_stats
  merge_stats-IsTable [] m h = h
  merge_stats-IsTable (s ∷ ss) m h =
      merge_stats-IsTable ss (merge_one resolve s m) (merge_one-IsTable s m h)

  merge_stats-IsShown :
      (ss : List ProjectStats) (m : Merging)
      → IsShown name m.0
      → IsShown name (merge_stats resolve ss m).0
  unfolding merge_stats
  merge_stats-IsShown [] m h = h
  merge_stats-IsShown (s ∷ ss) m h =
      merge_stats-IsShown ss (merge_one resolve s m) (merge_one-IsShown s m h)

  abbrev count_of : ProjectStats → ℤ
  count_of s = s.count

  abbrev stands_once : ProjectStats → ℤ
  stands_once s = pos 1

  count-merge_one :
      (k : Text) (s : ProjectStats) (m : Merging)
      → at count_of k (merge_one resolve s m).0
        ≡ (if resolves k s then s.count else pos 0) +ℤ at count_of k m.0
  unfolding merge_one
  count-merge_one k s m = elim (Option-cases (get (resolve s.project) m.0)) [
    | inl e ↦
        rw (e, merge_one)
          (ap (measure count_of) (get-put k (resolve s.project) _ m.0)
            ∙ elim (Bool-cases (resolves k s)) [
              | inl f ↦ rw f (
                  rw (ap (λ j. get j m.0) (sym (text_eq→eq (resolve s.project) k f)) ∙ e)
                    (omega int_laws))
              | inr f ↦ rw f (omega int_laws)
            ])
    | inr (v, e) ↦
        rw (e, merge_one)
          (ap (measure count_of) (get-put k (resolve s.project) _ m.0)
            ∙ elim (Bool-cases (resolves k s)) [
              | inl f ↦ rw f (
                  rw (ap (λ j. get j m.0) (sym (text_eq→eq (resolve s.project) k f)) ∙ e)
                    (omega int_laws))
              | inr f ↦ rw f (omega int_laws)
            ])
  ]

  stands_once-merge_one :
      (k : Text) (s : ProjectStats) (m : Merging)
      → at stands_once k (merge_one resolve s m).0
        ≡ (if resolves k s then pos 1 else at stands_once k m.0)
  unfolding merge_one
  stands_once-merge_one k s m = elim (Option-cases (get (resolve s.project) m.0)) [
    | inl e ↦
        rw (e, merge_one)
          (ap (measure stands_once) (get-put k (resolve s.project) _ m.0)
            ∙ elim (Bool-cases (resolves k s)) [ inl f ↦ rw f refl | inr f ↦ rw f refl ])
    | inr (v, e) ↦
        rw (e, merge_one)
          (ap (measure stands_once) (get-put k (resolve s.project) _ m.0)
            ∙ elim (Bool-cases (resolves k s)) [ inl f ↦ rw f refl | inr f ↦ rw f refl ])
  ]

  -- What a project's statistics count under a key.
  abbrev pub counted : Text → ProjectStats → ℤ
  counted k s = if resolves k s then s.count else pos 0

  count-merge_stats :
      (k : Text) (ss : List ProjectStats) (m : Merging)
      → at count_of k (merge_stats resolve ss m).0 ≡ sum_by (counted k) ss +ℤ at count_of k m.0
  unfolding merge_stats sum_by
  count-merge_stats k [] m = omega int_laws
  count-merge_stats k (s ∷ ss) m =
      count-merge_stats k ss (merge_one resolve s m) ∙ rw (count-merge_one k s m) (omega int_laws)

  stands_once-merge_stats :
      (k : Text) (ss : List ProjectStats) (m : Merging)
      → at stands_once k (merge_stats resolve ss m).0
        ≡ (if any (resolves k) ss then pos 1 else at stands_once k m.0)
  unfolding merge_stats any
  stands_once-merge_stats k [] m = refl
  stands_once-merge_stats k (s ∷ ss) m =
      stands_once-merge_stats k ss (merge_one resolve s m)
      ∙ rw (stands_once-merge_one k s m)
          (either (any (resolves k) ss) (resolves k s) (at stands_once k m.0))

  sum_by-found :
      (to_lower : Text → Text) (search : Text) (f : ProjectStats → ℤ) (k : Text)
      (vs : List ProjectStats)
      → sum_by (shown_under name f k) (keep (is_found to_lower search) vs)
        ≡ (if is_searched to_lower search k then sum_by (shown_under name f k) vs else pos 0)
  unfolding keep sum_by
  sum_by-found to_lower wanted f k [] = ground arith
  sum_by-found to_lower wanted f k (v ∷ vs) =
      sum_by_if (is_found to_lower wanted v) (shown_under name f k) v
        (keep (is_found to_lower wanted) vs)
      ∙ found_step (is_found to_lower wanted v) (text_eq v.project k)
          (is_searched to_lower wanted k) (f v) _ _ (found_same to_lower wanted k v)
          (sum_by-found to_lower wanted f k vs)

  sum_by-aggregated_stats :
      (rt : Runtime) (to_lower : Text → Text) (search : Text) (f : ProjectStats → ℤ) (k : Text)
      (raw : List ProjectStats)
      → sum_by (shown_under name f k) (aggregated_stats rt resolve to_lower search raw) ≡ (
          if is_searched to_lower search k
          then at f k (merge_stats resolve raw ([], [])).0
          else pos 0)
  unfolding aggregated_stats
  sum_by-aggregated_stats rt to_lower wanted f k raw =
      let t = (merge_stats resolve raw ([], [])).0 in
      let order = rt.map_order (Text × ProjectStats) t in
      let whole : sum_by (shown_under name f k) (map (λ (p : Text × ProjectStats). p.1) order)
          ≡ at f k t =
        sum_by-map (shown_under name f k) (λ (p : Text × ProjectStats). p.1) order
        ∙ sum_by-perm (λ p. shown_under name f k p.1) (rt.map_order-perm (Text × ProjectStats) t)
        ∙ sum_by-IsShown name f k t (merge_stats-IsShown raw ([], []) tt)
        ∙ sum_by-when f k t (merge_stats-IsTable raw ([], []) tt) in
      sum_by-perm (shown_under name f k) (rt.sort-perm ProjectStats by_last _)
      ∙ sum_by-found to_lower wanted f k (map (λ (p : Text × ProjectStats). p.1) order)
      ∙ ap (λ n. if is_searched to_lower wanted k then n else pos 0) whole

  -- The statistics come with the latest first. Each name that some project resolves to, and that has what
  -- is searched for in it, stands once, with the counts of all projects that resolve to it.
  pub aggregated_stats-counted :
      (rt : Runtime) (to_lower : Text → Text) (search k : Text) (raw : List ProjectStats)
      → IsOrdered by_last (aggregated_stats rt resolve to_lower search raw)
        × (sum_by
              (shown_under name (λ s. pos 1) k)
              (aggregated_stats rt resolve to_lower search raw)
            ≡ (if is_searched to_lower search k
                then if any (resolves k) raw then pos 1 else pos 0
                else pos 0))
        × (sum_by
              (shown_under name (λ s. s.count) k)
              (aggregated_stats rt resolve to_lower search raw)
            ≡ (if is_searched to_lower search k then sum_by (counted k) raw else pos 0))
  unfolding aggregated_stats get
  aggregated_stats-counted rt to_lower wanted k raw = (
    rt.sort-IsOrdered ProjectStats by_last _ (gtb_ℤ-IsLess (λ s. s.last)),
    sum_by-aggregated_stats rt to_lower wanted stands_once k raw
        ∙ ap (λ n. if is_searched to_lower wanted k then n else pos 0)
            (stands_once-merge_stats k raw ([], [])),
    sum_by-aggregated_stats rt to_lower wanted count_of k raw
        ∙ ap (λ n. if is_searched to_lower wanted k then n else pos 0)
            (count-merge_stats k raw ([], []) ∙ omega int_laws),
  )
