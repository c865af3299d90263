-- ===== src/Table/Shown.antt =====
-- Tables whose values show the key that they stand under.
use wakapi.Base.{
  ◌≡◌, refl, sym, ap, true, [], ◌∷◌, some, some_inj, Bool-cases, inl, inr, Text, text_eq,
  text_eq→eq, if◌then◌else◌, ℤ, pos, sum_by,
}
use wakapi.Table.{Table, get, put, when}

module _ {V : Type 0} (shown : V → Text) where
  abbrev pub IsShown : Table V → Type 0
  IsShown [] = Unit
  IsShown ((k, e) ∷ t) = (text_eq (shown e) k ≡ true) × IsShown t

  -- A value as it counts under a key.
  abbrev pub shown_under : (V → ℤ) → Text → V → ℤ
  shown_under f k e = if text_eq (shown e) k then f e else pos 0

  pub put-IsShown :
      (k : Text) (e : V) (t : Table V)
      → text_eq (shown e) k ≡ true
      → IsShown t
      → IsShown (put k e t)
  unfolding put
  put-IsShown k e [] h s = (h, tt)
  put-IsShown k e ((j, w) ∷ t) h s = elim (Bool-cases (text_eq j k)) [
    | inl f ↦ rw f (rw (text_eq→eq j k f) h, s.1)
    | inr f ↦ rw f (s.0, put-IsShown k e t h s.1)
  ]

  pub get-IsShown :
      (k : Text) (e : V) (t : Table V) → IsShown t → get k t ≡ some e → text_eq (shown e) k ≡ true
  unfolding get
  get-IsShown k e [] s h = cc
  get-IsShown k e ((j, w) ∷ t) s h = elim (Bool-cases (text_eq j k)) [
    | inl f ↦
        let same = some_inj (rw f at h) in rw (ap shown (sym same), text_eq→eq (shown w) j s.0) f
    | inr f ↦ get-IsShown k e t s.1 (rw f at h)
  ]

  pub sum_by-IsShown :
      (f : V → ℤ) (k : Text) (t : Table V)
      → IsShown t
      → sum_by (λ p. shown_under f k p.1) t ≡ sum_by (when f k) t
  unfolding sum_by
  sum_by-IsShown f k [] s = refl
  sum_by-IsShown f k ((j, e) ∷ t) s = rw (text_eq→eq (shown e) j s.0, sum_by-IsShown f k t s.1) refl
