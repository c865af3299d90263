-- ===== src/SummaryService/Retrieve/Outcomes.antt =====
-- services/summary.go: what comes of Retrieve, on success, on an error, and on a panic.
use mathlib.Core.List.{Permᴰ}
use mathlib.Core.Logic.{∥∥₁_elim}
use mathlib.Core.List.Perm
use wakapi.Base.{
  ◌≡◌, ◌≢◌, ◌↔◌, ◌⊎◌, refl, sym, ap, subst, ◌∙◌, Bool, true, false, List, [], ◌∷◌, Option, none,
  some, Option-cases, if◌then◌else◌, Bool-cases, inl, inr, Text, text_eq, text_eq→eq, ℤ, sum_by,
  sum_by-perm, All, All-perm, null, eqb_ℤ, pos, ltb_ℤ,
}
use wakapi.Runtime.{Runtime}
use wakapi.User.{User}
use wakapi.Entity.{SummaryType, project, Entity, summary, ai_model, unknown_type}
use wakapi.Filters.{Filters}
use wakapi.Summary.{Summary, get_by_type, sorted, total_time, Item, by_total}
use wakapi.Summary.Apply.{by_from}
use wakapi.Summary.Aliases.{picked}
use wakapi.SummaryService.Merge.{ok, merge_summaries, first_starts, time_in, merge_summaries-total}
use wakapi.SummaryService.Summarize.Totals.{get_by_type-sorted}
use wakapi.SummaryService.Retrieve.{
  Source, Outcome, retrieved, failed, crashed, pieces, with_range, is_selective, with_selection,
  put_together, retrieve,
}
use wakapi.SummaryService.Retrieve.Pieces.{IsOf, OwnStored, pieces-IsOf, pieces_cons}

-- Summaries of one user, at least one, sorted, have a first.
same_user :
    (u : Text) (s : Summary) (ss : List Summary)
    → All (IsOf u) (s ∷ ss)
    → All (λ v. text_eq v.user_id s.user_id ≡ true) ss
same_user u s ss (h, hs) = subst (λ v. All (IsOf v) ss) (sym (text_eq→eq s.user_id u h)) hs

null-Permᴰ : {A : Type 0} {xs ys : List A} → Permᴰ xs ys → null xs ≡ null ys
null-Permᴰ Permᴰ.nil = refl
null-Permᴰ (Permᴰ.cons e d) = refl
null-Permᴰ (Permᴰ.swap e e') = refl
null-Permᴰ (Permᴰ.trans c d) = null-Permᴰ c ∙ null-Permᴰ d

-- What the merged summaries have in sum.
record IsSum (t : SummaryType) (f : Text → Bool) (ss : List Summary) (m : Summary) : Type 0 where
  pub time : time_in t f m ≡ sum_by (time_in t f) (first_starts [] ss)
  pub beats : m.num_heartbeats ≡ sum_by (λ u. u.num_heartbeats) (first_starts [] ss)

merged-IsSum :
    (rt : Runtime) (now : ℤ) (u : Text) (ss : List Summary) (t : SummaryType) (f : Text → Bool)
    → null ss ≡ false
    → All (IsOf u) ss
    → (m : Summary) × (merge_summaries rt now ss ≡ ok m) × IsSum t f ss m
merged-IsSum rt now u [] t f h own = cc
merged-IsSum rt now u (s ∷ ss) t f h own =
    let (m, e, time, beats) = merge_summaries-total rt now s ss t f (same_user u s ss own) in
    (m, e, record { time = time; beats = beats })

time_in_at :
    (t : SummaryType) (f : Text → Bool) (s : Summary) (from to : ℤ)
    → time_in t f (record s { from_time = from; to_time = to }) ≡ time_in t f s
unfolding get_by_type
time_in_at project f s from to = refl
time_in_at _ f s from to = refl

time_in-sorted :
    (rt : Runtime) (t : SummaryType) (f : Text → Bool) (s : Summary)
    → time_in t f (sorted rt s) ≡ time_in t f s
time_in-sorted rt t f s =
    rw (get_by_type-sorted rt t s) (sum_by-perm (picked f) (rt.sort-perm Item by_total _))

IsSum-with_range :
    (t : SummaryType) (f : Text → Bool) (ss : List Summary) (from to : ℤ) (m : Summary)
    → IsSum t f ss m
    → IsSum t f ss (with_range from to m)
unfolding with_range
IsSum-with_range t f ss from to m h =
    let start = if ltb_ℤ m.from_time from then from else m.from_time in
    elim (Bool-cases (eqb_ℤ (total_time (record m { from_time = start })) (pos 0))) [
      | inl e ↦ rw e (record { time = time_in_at t f m from to ∙ h.time; beats = h.beats })
      | inr e ↦ rw e (record { time = time_in_at t f m start m.to_time ∙ h.time; beats = h.beats })
    ]

IsSum-sorted :
    (rt : Runtime) (t : SummaryType) (f : Text → Bool) (ss : List Summary) (m : Summary)
    → IsSum t f ss m
    → IsSum t f ss (sorted rt m)
unfolding sorted
IsSum-sorted rt t f ss m h = record { time = time_in-sorted rt t f m ∙ h.time; beats = h.beats }

-- What is made of the merged summary once the filter is applied.
handed_out : Runtime → Option Summary → Outcome
handed_out rt o = elim o [ none ↦ crashed | some s ↦ retrieved (sorted rt s) ]

handed_out_ne_failed : (rt : Runtime) (o : Option Summary) → handed_out rt o ≢ failed
unfolding handed_out
handed_out_ne_failed rt none h = cc
handed_out_ne_failed rt (some s) h = cc

unselected :
    (filters : Option Filters) (s : Summary)
    → is_selective filters ≡ false
    → with_selection filters s ≡ some s
unfolding with_selection
unselected none s h = refl
unselected (some f) s h = rw h refl

-- The entity is one of the nine that a summary has items of.
abbrev pub is_summary : Entity → Bool
is_summary (summary t) = true
is_summary _ = false

entity_cases :
    (e : Entity) → ((t : SummaryType) × (e ≡ summary t)) ⊎ ((e ≡ ai_model) ⊎ (e ≡ unknown_type))
entity_cases (summary t) = inl (t, refl)
entity_cases ai_model = inr (inl refl)
entity_cases unknown_type = inr (inr refl)

module _ (src : Source) (user : User) (filters : Option Filters) (custom_timeout : Option ℤ)
    (from to : ℤ) (own : OwnStored src user.id) where
  abbrev in_order : List Summary → List Summary
  in_order ss = src.runtime.sort Summary by_from ss

  merged_pieces :
      (ss : List Summary) (t : SummaryType) (f : Text → Bool)
      → pieces src user filters custom_timeout from to ≡ some ss
      → (m : Summary) × (merge_summaries src.runtime src.now (in_order ss) ≡ ok m)
        × IsSum t f (in_order ss) m
  merged_pieces ss t f h =
      let perm = src.runtime.sort-perm Summary by_from ss in
      merged-IsSum src.runtime src.now user.id (in_order ss) t f
        (∥∥₁_elim perm (hlevel) (λ d. null-Permᴰ d)
          ∙ pieces_cons src user filters custom_timeout from to ss h)
        (All-perm (IsOf user.id) (λ s. hlevel) (Perm.symm perm)
          (pieces-IsOf src user filters custom_timeout from to ss own h))

  put_together_ok :
      (ss : List Summary) (m : Summary)
      → merge_summaries src.runtime src.now (in_order ss) ≡ ok m
      → put_together src filters from to ss
        ≡ handed_out src.runtime (with_selection filters (with_range from to m))
  unfolding put_together handed_out
  put_together_ok ss m e = rw (e, put_together) refl

  retrieve-some :
      (ss : List Summary)
      → pieces src user filters custom_timeout from to ≡ some ss
      → retrieve src user filters custom_timeout from to ≡ put_together src filters from to ss
  unfolding retrieve
  retrieve-some ss h = rw (h, retrieve) refl

  -- Where the pieces are there and the filters do not select within the summary, Retrieve gives a
  -- summary. For each type and each set of keys its time is the sum of the times of the pieces, of
  -- which those with one start and one *Location count once, and so are its heartbeats.
  pub retrieve-total :
      (ss : List Summary) (t : SummaryType) (f : Text → Bool)
      → pieces src user filters custom_timeout from to ≡ some ss
      → is_selective filters ≡ false
      → (m : Summary) × (retrieve src user filters custom_timeout from to ≡ retrieved m)
        × (time_in t f m ≡ sum_by (time_in t f) (first_starts [] (in_order ss)))
        × (m.num_heartbeats ≡ sum_by (λ u. u.num_heartbeats) (first_starts [] (in_order ss)))
  unfolding handed_out
  retrieve-total ss t f got unselective =
      let (m, e, sums) = merged_pieces ss t f got in
      let whole = with_range from to m in
      let kept =
        IsSum-sorted src.runtime t f (in_order ss) whole
          (IsSum-with_range t f (in_order ss) from to m sums) in
      (
        sorted src.runtime whole,
        retrieve-some ss got
            ∙ put_together_ok ss m e
            ∙ ap (handed_out src.runtime) (unselected filters whole unselective),
        kept.time,
        kept.beats,
      )

  -- Retrieve fails exactly when reading the stored summaries or generating a missing one does: the
  -- merge, which fails on no summaries and on those of several users, never does.
  pub retrieve-failed :
      (retrieve src user filters custom_timeout from to ≡ failed)
      ↔ (pieces src user filters custom_timeout from to ≡ none)
  unfolding retrieve
  retrieve-failed = (to_none, from_none)
    where
      from_none :
          pieces src user filters custom_timeout from to ≡ none
          → retrieve src user filters custom_timeout from to ≡ failed
      from_none h = rw (h, retrieve) refl

      to_none :
          retrieve src user filters custom_timeout from to ≡ failed
          → pieces src user filters custom_timeout from to ≡ none
      to_none h = elim (Option-cases (pieces src user filters custom_timeout from to)) [
        | inl e ↦ e
        | inr (ss, e) ↦
            let (m, merged, sums) = merged_pieces ss project (λ k. true) e in
            elim (handed_out_ne_failed src.runtime (with_selection filters (with_range from to m))
              (sym (retrieve-some ss e ∙ put_together_ok ss m merged) ∙ h)) [ ]
      ]
