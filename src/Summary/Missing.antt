-- ===== src/Summary/Missing.antt =====
-- models/summary.go: what FillMissing makes of a summary.
use wakapi.Base.{
  ◌≡◌, refl, sym, ◌∙◌, Bool, true, false, ◌||◌, ◌&&◌, List, [], ◌∷◌, some, if◌then◌else◌,
  Bool-cases, inl, inr, ◌⊎◌, ℤ, pos, ◌≤ℤ◌, ltb_ℤ, any, keep, null, length, length-keep-lt, ◌==◌,
  not, ◌≢◌, ltb_ℤ_irrefl, arith, sum_by,
}
use wakapi.Entity.{SummaryType, project, same_type, summary_types, same_type_refl, same_type→eq}
use wakapi.Summary.{Summary, get_by_type, total_time_by, find_first_present_type, first_present}
use wakapi.Summary.Totals.{total_time_by-seconds, second_laws}
use wakapi.Summary.Fill.{
  has_key, fill_key, fill_by, fill_by-total, fill_by-eq, fill_by_ne, fill_all, fill_missing,
  missing_types,
}

abbrev has_type : SummaryType → List SummaryType → Bool
has_type u ts = any (λ t. same_type t u) ts

-- A type is ready if its list is empty or already accounts for all the time of the present type.
abbrev IsReady : SummaryType → SummaryType → Summary → Type 0
IsReady p u s = (get_by_type u s ≡ []) ⊎ (total_time_by u s ≡ total_time_by p s)

or_left : (a b : Bool) → (a || b) ≡ false → a ≡ false
or_left a b h = ground arith

or_right : (a b : Bool) → (a || b) ≡ false → b ≡ false
or_right a b h = ground arith

max_zero : (a w : ℤ) → a ≡ pos 0 → pos 0 ≤ℤ w → (if ltb_ℤ a w then w else a) ≡ w
max_zero a w e h = ground arith

pub total_time_by_nil :
    (u : SummaryType) (s : Summary) → get_by_type u s ≡ [] → total_time_by u s ≡ pos 0
unfolding sum_by
total_time_by_nil u s e = rw (total_time_by-seconds u s, e) (omega second_laws)

has_key_nil :
    (u : SummaryType) (s : Summary)
    → get_by_type u s ≡ []
    → has_key (fill_key u) (get_by_type u s) ≡ false
unfolding has_key
has_key_nil u s e = rw e

module _ (p : SummaryType) where
  -- Filling an empty list accounts for all the time.
  fill_by_empty :
      (u : SummaryType) (s : Summary)
      → pos 0 ≤ℤ total_time_by p s
      → get_by_type u s ≡ []
      → total_time_by u (fill_by p u s) ≡ total_time_by p s
  fill_by_empty u s positive e =
      fill_by-total p u s (has_key_nil u s e) ∙ max_zero _ _ (total_time_by_nil u s e) positive

  fill_by_full :
      (u : SummaryType) (s : Summary) → total_time_by u s ≡ total_time_by p s → fill_by p u s ≡ s
  fill_by_full u s e = rw (fill_by-eq p u s) (rw e (rw (ltb_ℤ_irrefl (total_time_by p s))))

  fill_by-total_ne :
      (t u : SummaryType) (s : Summary)
      → same_type t u ≡ false
      → total_time_by u (fill_by p t s) ≡ total_time_by u s
  fill_by-total_ne t u s h =
      rw (total_time_by-seconds u (fill_by p t s), total_time_by-seconds u s, fill_by_ne p t u s h)

  -- A list that accounts for all the time goes on to do so.
  fill_by-full :
      (t u : SummaryType) (s : Summary)
      → total_time_by u s ≡ total_time_by p s
      → total_time_by u (fill_by p t s) ≡ total_time_by p s
  fill_by-full t u s e = elim (Bool-cases (same_type t u)) [
    | inl same ↦ rw (same_type→eq t u same, fill_by_full u s e) e
    | inr other ↦ fill_by-total_ne t u s other ∙ e
  ]

  fill_all-full :
      (ts : List SummaryType) (u : SummaryType) (s : Summary)
      → total_time_by u s ≡ total_time_by p s
      → total_time_by u (fill_all p ts s) ≡ total_time_by p s
  unfolding fill_all
  fill_all-full [] u s e = e
  fill_all-full (t ∷ ts) u s e =
      fill_all-full ts u (fill_by p t s) (fill_by-full t u s e ∙ sym (fill_by-full t p s refl))
      ∙ fill_by-full t p s refl

  fill_all-empty :
      (ts : List SummaryType) (u : SummaryType) (s : Summary)
      → pos 0 ≤ℤ total_time_by p s
      → has_type u ts ≡ true
      → get_by_type u s ≡ []
      → total_time_by u (fill_all p ts s) ≡ total_time_by p s
  unfolding fill_all any
  fill_all-empty [] u s positive h e = cc
  fill_all-empty (t ∷ ts) u s positive h e =
      let present = fill_by-full t p s refl in
      elim (Bool-cases (same_type t u)) [
        | inl same ↦
            let filled = fill_by_empty u s positive e in
            let tu = same_type→eq t u same in
            fill_all-full ts u (fill_by p t s) (rw tu (filled ∙ sym (rw tu at present))) ∙ present
        | inr other ↦
            fill_all-empty ts u (fill_by p t s) (rw present positive) (rw other at h)
              (fill_by_ne p t u s other ∙ e)
            ∙ present
      ]

  fill_all_ne :
      (ts : List SummaryType) (u : SummaryType) (s : Summary)
      → has_type u ts ≡ false
      → get_by_type u (fill_all p ts s) ≡ get_by_type u s
  unfolding fill_all any
  fill_all_ne [] u s h = refl
  fill_all_ne (t ∷ ts) u s h =
      fill_all_ne ts u (fill_by p t s) (or_right (same_type t u) _ h)
      ∙ fill_by_ne p t u s (or_left _ (has_type u ts) h)

null_nil : {A : Type 0} (xs : List A) → null xs ≡ true → xs ≡ []
null_nil [] h = refl
null_nil (x ∷ xs) h = cc

null_cons : {A : Type 0} (xs : List A) → xs ≢ [] → null xs ≡ false
null_cons [] h = absurd (h refl)
null_cons (x ∷ xs) h = refl

null_total :
    (t : SummaryType) (s : Summary) → null (get_by_type t s) ≡ true → total_time_by t s ≡ pos 0
null_total t s h = total_time_by_nil t s (null_nil _ h)

has_type-keep :
    (q : SummaryType → Bool) (u : SummaryType) (ts : List SummaryType)
    → has_type u (keep q ts) ≡ (q u && has_type u ts)
unfolding keep any
has_type-keep q u [] = ground arith
has_type-keep q u (t ∷ ts) = elim (Bool-cases (same_type t u)) [
  | inl same ↦ rw (same_type→eq t u same) (ground (arith, same_type_refl u, has_type-keep q u ts))
  | inr other ↦ ground (arith, has_type-keep q u ts)
]

has_type-all : (u : SummaryType) → has_type u summary_types ≡ true
unfolding any same_type
has_type-all project = refl
has_type-all _ = refl

-- The missing types are those whose lists are empty.
has_type-missing :
    (u : SummaryType) (s : Summary) → has_type u (missing_types s) ≡ null (get_by_type u s)
unfolding missing_types
has_type-missing u s =
    has_type-keep (λ t. null (get_by_type t s)) u summary_types ∙ rw (has_type-all u) (ground arith)

present_nonempty :
    (ts : List SummaryType) (s : Summary) (p : SummaryType)
    → first_present ts s ≡ some p
    → any (λ t. not (null (get_by_type t s))) ts ≡ true
unfolding first_present any
present_nonempty [] s p h = cc
present_nonempty (t ∷ ts) s p h = ground (arith, null_total t s, present_nonempty ts s p)

not_all_missing :
    (s : Summary) (p : SummaryType)
    → find_first_present_type s ≡ some p
    → (length (missing_types s) == length summary_types) ≡ false
unfolding missing_types find_first_present_type
not_all_missing s p h = ground (
  arith,
  length-keep-lt (λ t. null (get_by_type t s)) summary_types (present_nonempty summary_types s p h),
)

fill_missing-eq :
    (s : Summary) (p : SummaryType)
    → find_first_present_type s ≡ some p
    → fill_missing s ≡ fill_all p (missing_types s) s
unfolding fill_missing
fill_missing-eq s p h = rw (not_all_missing s p h) (rw (h, fill_missing))

-- Where some type has time, not less than none, a type without items comes to account for all of
-- the first such type's time.
pub fill_missing-total :
    (s : Summary) (p u : SummaryType)
    → find_first_present_type s ≡ some p
    → pos 0 ≤ℤ total_time_by p s
    → get_by_type u s ≡ []
    → total_time_by u (fill_missing s) ≡ total_time_by p s
fill_missing-total s p u h positive e =
    rw (fill_missing-eq s p h)
      (fill_all-empty p (missing_types s) u s positive (rw (has_type-missing u s, e)) e)

-- Where some type has time, the types that have items keep them as they are.
pub fill_missing-kept :
    (s : Summary) (p u : SummaryType)
    → find_first_present_type s ≡ some p
    → get_by_type u s ≢ []
    → get_by_type u (fill_missing s) ≡ get_by_type u s
fill_missing-kept s p u h ne =
    rw (fill_missing-eq s p h)
      (fill_all_ne p (missing_types s) u s (has_type-missing u s ∙ null_cons _ ne))
