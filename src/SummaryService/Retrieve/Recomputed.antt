-- ===== src/SummaryService/Retrieve/Recomputed.antt =====
-- services/summary.go: where no stored summary is used, Retrieve gives the time of the durations.
use mathlib.Core.Logic.{∥∥₁_elim}
use wakapi.Base.{
  suc, ◌≡◌, refl, sym, ap, ◌∙◌, true, false, List, [], ◌∷◌, Option, some, some_inj, Text, text_eq,
  ℤ, quot_ℤ, sum_by, sum_by-perm, any, length, Perm, Permᴰ, arith, int_laws,
}
use wakapi.User.{User}
use wakapi.Entity.{SummaryType}
use wakapi.Filters.{Filters}
use wakapi.Summary.{Summary, second}
use wakapi.Summary.Apply.{by_from}
use wakapi.Duration.{Duration, total_num_heartbeats}
use wakapi.DurationService.Get.{get}
use wakapi.SummaryService.Aggregate.{time_under}
use wakapi.SummaryService.Intervals.{get_missing_intervals}
use wakapi.SummaryService.Merge.{first_starts, time_in}
use wakapi.SummaryService.Summarize.{summarize, summarized_types, summary_of_durations}
use wakapi.SummaryService.Summarize.Totals.{summarize-keyed, among}
use wakapi.SummaryService.Retrieve.{
  Source, retrieved, existing, generate, pieces, is_selective, retrieve,
}
use wakapi.SummaryService.Retrieve.Pieces.{OwnStored}
use wakapi.SummaryService.Retrieve.Outcomes.{retrieve-total}

length-Permᴰ : {A : Type 0} {xs ys : List A} → Permᴰ xs ys → length xs ≡ length ys
length-Permᴰ Permᴰ.nil = refl
length-Permᴰ (Permᴰ.cons e d) = ap suc (length-Permᴰ d)
length-Permᴰ (Permᴰ.swap e e') = refl
length-Permᴰ (Permᴰ.trans c d) = length-Permᴰ c ∙ length-Permᴰ d

first_starts_alone :
    (f : Summary → ℤ) (xs : List Summary)
    → length xs ≡ 1
    → sum_by f (first_starts [] xs) ≡ sum_by f xs
unfolding any
first_starts_alone f [] h = refl
first_starts_alone f (x ∷ []) h = refl
first_starts_alone f (x ∷ y ∷ xs) h = absurd (omega (arith, h))

-- One summary is the first of its start.
sum-first_starts :
    (f : Summary → ℤ) (xs : List Summary) (s : Summary)
    → Perm xs (s ∷ [])
    → sum_by f (first_starts [] xs) ≡ f s
sum-first_starts f xs s p =
    first_starts_alone f xs (∥∥₁_elim p (hlevel) (λ d. length-Permᴰ d)) ∙ sum_by-perm f p ∙ single
  where
    single : sum_by f (s ∷ []) ≡ f s
    single = unfold sum_by in omega int_laws

module _ (src : Source) (user : User) (filters : Option Filters) (custom_timeout : Option ℤ)
    (from to : ℤ) where
  one_piece :
      (s : Summary)
      → existing src user filters custom_timeout from to ≡ some []
      → summarize src.runtime src.reads user filters custom_timeout from to ≡ some s
      → pieces src user filters custom_timeout from to ≡ some (s ∷ [])
  unfolding pieces get_missing_intervals generate
  one_piece s nothing made = rw (nothing, pieces) (rw (made, generate) refl)

  -- Where no stored summary is used, be it that there is none or that the filters or the timeout do not
  -- allow it, and the filters do not select within the summary, Retrieve gives a summary of the durations
  -- of the range: for each type that is summarised it has under each key the whole seconds of the
  -- durations, and their heartbeats.
  pub retrieve-durations :
      (ds : List Duration) (t : SummaryType) (k : Text)
      → OwnStored src user.id
      → existing src user filters custom_timeout from to ≡ some []
      → get src.runtime src.reads user filters custom_timeout false from to ≡ some ds
      → is_selective filters ≡ false
      → among t (summarized_types filters) ≡ true
      → (m : Summary) × (retrieve src user filters custom_timeout from to ≡ retrieved m)
        × (time_in t (λ j. text_eq j k) m ≡ quot_ℤ (sum_by (time_under t k) ds) second)
        × (m.num_heartbeats ≡ total_num_heartbeats ds)
  unfolding summarize
  retrieve-durations ds t k own nothing got unselective there =
      let s = summary_of_durations src.runtime user (summarized_types filters) from to ds in
      let made : summarize src.runtime src.reads user filters custom_timeout from to ≡ some s =
        rw got refl in
      let (ds', got', keyed, order, beats) =
        summarize-keyed src.runtime src.reads user filters custom_timeout from to s t k there
          made in
      let same : ds' ≡ ds = some_inj (sym got' ∙ got) in
      let (m, done, time, heartbeats) =
        retrieve-total src user filters custom_timeout from to own (s ∷ []) t (λ j. text_eq j k)
          (one_piece s nothing made) unselective in
      let one = src.runtime.sort-perm Summary by_from (s ∷ []) in
      (
        m,
        done,
        time
            ∙ sum-first_starts (time_in t (λ j. text_eq j k)) _ s one
            ∙ keyed
            ∙ ap (λ xs. quot_ℤ (sum_by (time_under t k) xs) second) same,
        heartbeats
            ∙ sum-first_starts (λ u. u.num_heartbeats) _ s one
            ∙ beats
            ∙ ap total_num_heartbeats same,
      )
