-- ===== src/SummaryService/Retrieve/Pieces.antt =====
-- services/summary.go: the summaries that Retrieve merges are at least one, and all of one user.
use wakapi.Base.{
  ℕ, zero, suc, ◌≡◌, ◌∙◌, sym, ap, subst, ◌>>=◌, Bool, true, false, ◌&&◌, List, [], ◌∷◌, ◌++◌,
  Option, some, some_inj, >>=-eq-some, if◌then◌else◌, Bool-cases, inl, inr, Text, text_eq,
  text_eq_refl, ℤ, ltb, ltb_ℤ, eqb_ℤ, All, null, length,
}
use wakapi.User.{User}
use wakapi.Filters.{Filters}
use wakapi.Summary.{Summary}
use wakapi.SummaryService.Intervals.{
  Interval, get_missing_intervals, push_next, fix_rounds, fix_zero_duration, All-append,
}
use wakapi.SummaryService.Summarize.{summarize, summarized_types, summary_of_durations}
use wakapi.DurationService.Get.{get}
use wakapi.SummaryService.Summarize.Totals.{user_id-summary_of_durations}
use wakapi.SummaryService.Retrieve.{Source, must_recompute, existing, generate, pieces}

abbrev pub IsOf : Text → Summary → Type 0
IsOf user_id s = text_eq s.user_id user_id ≡ true

-- The repository answers with summaries of the user who is asked for.
abbrev pub OwnStored : Source → Text → Type 0
OwnStored src user_id =
    (from to : ℤ) (ss : List Summary) → src.stored from to ≡ some ss → All (IsOf user_id) ss

push_next-IsOf :
    (u : Text) (to : ℤ) (ss : List Summary) → All (IsOf u) ss → All (IsOf u) (push_next to ss)
push_next-IsOf u to [] h = tt
push_next-IsOf u to (s ∷ ss) h = elim (Bool-cases (ltb_ℤ s.from_time to)) [
  | inl e ↦ rw e h
  | inr e ↦ rw e h
]

fix_rounds-IsOf :
    (u : Text) (n : ℕ) (ss : List Summary) → All (IsOf u) ss → All (IsOf u) (fix_rounds n ss)
unfolding fix_rounds
fix_rounds-IsOf u zero ss h = h
fix_rounds-IsOf u (suc n) [] h = tt
fix_rounds-IsOf u (suc n) (s ∷ ss) h = elim (Bool-cases (eqb_ℤ s.from_time s.to_time)) [
  | inl e ↦ rw (e, fix_rounds) (h.0, fix_rounds-IsOf u n _ (push_next-IsOf u _ ss h.1))
  | inr e ↦ rw (e, fix_rounds) (h.0, fix_rounds-IsOf u n ss h.1)
]

kept_IsOf :
    (u : Text) (s : Summary) (rest : List Summary) (skipped : Bool)
    → IsOf u s
    → All (IsOf u) rest
    → All (IsOf u) (if skipped then rest else s ∷ rest)
kept_IsOf u s rest true h hs = hs
kept_IsOf u s rest false h hs = (h, hs)

module _ (src : Source) (user : User) (filters : Option Filters) (custom_timeout : Option ℤ) where
  summarize-IsOf :
      (from to : ℤ) (s : Summary)
      → summarize src.runtime src.reads user filters custom_timeout from to ≡ some s
      → IsOf user.id s
  unfolding summarize
  summarize-IsOf from to s h =
      let (ds, got, made) =
        >>=-eq-some (get src.runtime src.reads user filters custom_timeout false from to) _ h in
      let one = summary_of_durations src.runtime user (summarized_types filters) from to ds in
      let own : IsOf user.id one =
        rw (user_id-summary_of_durations src.runtime user (summarized_types filters) from to ds)
          (text_eq_refl user.id) in
      subst (IsOf user.id) (some_inj made) own

  generate-IsOf :
      (count : ℕ) (is : List Interval) (ss : List Summary)
      → generate src user filters custom_timeout count is ≡ some ss
      → All (IsOf user.id) ss
  unfolding generate
  generate-IsOf count [] ss h = subst (All (IsOf user.id)) (some_inj h) tt
  generate-IsOf count (i ∷ is) ss h =
      let (s, got, more) =
        >>=-eq-some (summarize src.runtime src.reads user filters custom_timeout i.start i.end) _
          h in
      let (rest, later, made) =
        >>=-eq-some (generate src user filters custom_timeout count is) _ more in
      let own = summarize-IsOf i.start i.end s got in
      let others = generate-IsOf count is rest later in
      subst (All (IsOf user.id)) (some_inj made)
        (kept_IsOf user.id s rest (ltb 2 count && eqb_ℤ s.from_time s.to_time) own others)

  existing-IsOf :
      (from to : ℤ) (ss : List Summary)
      → OwnStored src user.id
      → existing src user filters custom_timeout from to ≡ some ss
      → All (IsOf user.id) ss
  unfolding existing fix_zero_duration
  existing-IsOf from to ss own h = elim (Bool-cases (must_recompute user filters custom_timeout)) [
    | inl e ↦ subst (All (IsOf user.id)) (some_inj (rw e at h)) tt
    | inr e ↦
        let (found, got, made) = >>=-eq-some (src.stored from to) _ (rw e at h) in
        subst (All (IsOf user.id)) (some_inj made)
          (fix_rounds-IsOf user.id (length found) found (own from to found got))
  ]

  pub pieces-IsOf :
      (from to : ℤ) (ss : List Summary)
      → OwnStored src user.id
      → pieces src user filters custom_timeout from to ≡ some ss
      → All (IsOf user.id) ss
  unfolding pieces
  pieces-IsOf from to ss own h =
      let (found, got, more) = >>=-eq-some (existing src user filters custom_timeout from to) _ h in
      let missing = get_missing_intervals src.calendar from to found false in
      let (made, later, whole) =
        >>=-eq-some (generate src user filters custom_timeout (length missing) missing) _ more in
      subst (All (IsOf user.id)) (some_inj whole) (
        All-append (IsOf user.id) found made (existing-IsOf from to found own got)
          (generate-IsOf (length missing) missing made later))

  whole_cons :
      (from to : ℤ) (made : List Summary)
      → generate src user filters custom_timeout
          (length (get_missing_intervals src.calendar from to [] false))
          (get_missing_intervals src.calendar from to [] false)
        ≡ some made
      → null made ≡ false
  unfolding get_missing_intervals generate
  whole_cons from to made h =
      let (s, got, more) =
        >>=-eq-some (summarize src.runtime src.reads user filters custom_timeout from to) _ h in
      ap null (sym (some_inj more))

  -- Where nothing is stored, the one interval that is missing is the whole range.
  pub pieces_cons :
      (from to : ℤ) (ss : List Summary)
      → pieces src user filters custom_timeout from to ≡ some ss
      → null ss ≡ false
  unfolding pieces
  pieces_cons from to ss h =
      let (found, got, more) = >>=-eq-some (existing src user filters custom_timeout from to) _ h in
      from_found found more
    where
      from_found :
          (found : List Summary)
          → (generate src user filters custom_timeout
                (length (get_missing_intervals src.calendar from to found false))
                (get_missing_intervals src.calendar from to found false)
              >>= (λ generated. some (found ++ generated)))
            ≡ some ss
          → null ss ≡ false
      from_found [] h =
          let missing = get_missing_intervals src.calendar from to [] false in
          let (made, later, whole) =
            >>=-eq-some (generate src user filters custom_timeout (length missing) missing) _ h in
          ap null (sym (some_inj whole)) ∙ whole_cons from to made later
      from_found (s ∷ found) h =
          let missing = get_missing_intervals src.calendar from to (s ∷ found) false in
          let (made, later, whole) =
            >>=-eq-some (generate src user filters custom_timeout (length missing) missing) _ h in
          ap null (sym (some_inj whole))
