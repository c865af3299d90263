-- ===== src/Table.antt =====
-- Go maps with string keys as association lists with distinct keys.
pub mod Shown
use wakapi.Base.{
  ◌≡◌, refl, false, List, [], ◌∷◌, Option, none, some, Text, text_eq, ℤ, pos, sum_by, int_laws,
  text_eq_refl, text_eq_comm, text_eq→eq, ◌∙◌, if◌then◌else◌, arith, Bool-cases, inl, inr,
}

abbrev pub Table : Type 0 → Type 0
Table V = List (Text × V)

module _ {V : Type 0} where
  unfoldable pub get : Text → Table V → Option V
  get k [] = none
  get k ((j, v) ∷ t) = if text_eq j k then some v else get k t

  unfoldable pub put : Text → V → Table V → Table V
  put k v [] = (k, v) ∷ []
  put k v ((j, w) ∷ t) = if text_eq j k then (j, v) ∷ t else (j, w) ∷ put k v t

  unfoldable pub remove : Text → Table V → Table V
  remove k [] = []
  remove k ((j, v) ∷ t) = let rest = remove k t in if text_eq j k then rest else (j, v) ∷ rest

  pub get-remove :
      (k j : Text) (t : Table V) → get k (remove j t) ≡ (if text_eq j k then none else get k t)
  unfolding get remove
  get-remove k j [] = ground arith
  get-remove k j ((i, w) ∷ t) = elim (Bool-cases (text_eq i j)) [
    | inl e ↦ rw (e, remove) (get-remove k j t ∙ rw (text_eq→eq i j e) (ground arith))
    | inr e ↦ elim (Bool-cases (text_eq i k)) [
      | inl f ↦ rw (e, remove) (rw (f, get) (rw (text_eq_comm j k, ← text_eq→eq i k f) (rw e refl)))
      | inr f ↦ rw (e, remove) (rw (f, get) (get-remove k j t))
    ]
  ]

  -- No entry has the key.
  abbrev pub Fresh : Text → Table V → Type 0
  Fresh k [] = Unit
  Fresh k ((j, v) ∷ t) = (text_eq j k ≡ false) × Fresh k t

  abbrev pub IsTable : Table V → Type 0
  IsTable [] = Unit
  IsTable ((k, v) ∷ t) = Fresh k t × IsTable t

  pub get-put_self : (k : Text) (v : V) (t : Table V) → get k (put k v t) ≡ some v
  unfolding get put
  get-put_self k v [] = ground (arith, text_eq_refl k)
  get-put_self k v ((j, w) ∷ t) = ground (arith, text_eq_refl k, get-put_self k v t)

  pub get-put :
      (k j : Text) (v : V) (t : Table V)
      → get k (put j v t) ≡ (if text_eq j k then some v else get k t)
  unfolding get put
  get-put k j v [] = refl
  get-put k j v ((i, w) ∷ t) = elim (Bool-cases (text_eq i j)) [
    | inl e ↦ rw e (rw (text_eq→eq i j e) (ground arith))
    | inr e ↦ elim (Bool-cases (text_eq i k)) [
      | inl f ↦ rw (e, f) (rw (text_eq_comm j k, ← text_eq→eq i k f) (rw (e, get)))
      | inr f ↦ rw (e, f) (get-put k j v t)
    ]
  ]

  pub Fresh-put :
      (i k : Text) (v : V) (t : Table V) → text_eq k i ≡ false → Fresh i t → Fresh i (put k v t)
  unfolding put
  Fresh-put i k v [] h f = (h, tt)
  Fresh-put i k v ((j, w) ∷ t) h f = ground (arith, Fresh-put i k v t h f.1)

  pub put-IsTable : (k : Text) (v : V) (t : Table V) → IsTable t → IsTable (put k v t)
  unfolding put
  put-IsTable k v [] h = (tt, tt)
  put-IsTable k v ((j, w) ∷ t) h = elim (Bool-cases (text_eq j k)) [
    | inl e ↦ rw e h
    | inr e ↦ rw e (Fresh-put j k v t (text_eq_comm k j ∙ e) h.0, put-IsTable k v t h.1)
  ]

  -- The value under a key, measured; a missing key counts nothing.
  abbrev pub measure : (V → ℤ) → Option V → ℤ
  measure f none = pos 0
  measure f (some v) = f v

  abbrev pub at : (V → ℤ) → Text → Table V → ℤ
  at f k t = measure f (get k t)

  abbrev pub when : (V → ℤ) → Text → Text × V → ℤ
  when f k (j, v) = if text_eq j k then f v else pos 0

  sum_by-Fresh : (f : V → ℤ) (k : Text) (t : Table V) → Fresh k t → sum_by (when f k) t ≡ pos 0
  unfolding sum_by
  sum_by-Fresh f k [] h = refl
  sum_by-Fresh f k ((j, v) ∷ t) h = rw (h.0, sum_by-Fresh f k t h.1) (omega int_laws)

  -- With distinct keys the entries under a key add up to the one that a lookup finds.
  pub sum_by-when :
      (f : V → ℤ) (k : Text) (t : Table V) → IsTable t → sum_by (when f k) t ≡ at f k t
  unfolding sum_by get
  sum_by-when f k [] h = refl
  sum_by-when f k ((j, v) ∷ t) h = elim (Bool-cases (text_eq j k)) [
    | inl e ↦ rw e (rw (sum_by-Fresh f k t (rw (text_eq→eq j k e) at h.0)) (omega int_laws))
    | inr e ↦ rw e (rw (sum_by-when f k t h.1) (omega int_laws))
  ]
