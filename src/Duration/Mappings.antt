-- ===== src/Duration/Mappings.antt =====
-- models/duration.go: the language that the mappings give does not depend on the order in which the
-- map of the mappings is walked.
use mathlib.Core.Logic.{∥∥₁_elim}
use mathlib.Core.List.Perm
use wakapi.Base.{
  ◌≤◌, ◌≡◌, ◌≢◌, refl, sym, ap, subst, ◌∙◌, true, false, [], ◌∷◌, Permᴰ, Bool-cases, inl, inr, Text,
  text_eq, text_eq→eq, text_eq_refl, text_eq_comm, ℤ, negsuc, Perm, arith,
}
use wakapi.Runtime.{Runtime}
use wakapi.Table.{Table, IsTable, Fresh}
use wakapi.Duration.{Duration, has_suffix, count_dots, augment_round, augment_loop, augmented}

-- A suffix has no more dots than the text.
count_dots-suffix : (s t : Text) → has_suffix s t ≡ true → count_dots t ≤ count_dots s
unfolding has_suffix count_dots
count_dots-suffix [] [] h = omega arith
count_dots-suffix [] (c ∷ t) h = cc
count_dots-suffix (c ∷ s) t h = elim (Bool-cases (text_eq (c ∷ s) t)) [
  | inl e ↦ rw (sym (text_eq→eq (c ∷ s) t e)) (omega arith)
  | inr e ↦ ground (arith, count_dots-suffix s t (rw e at h))
]

-- Of two suffixes that begin with a dot, with the same number of dots, there is only one.
one_suffix :
    (s a b : Text)
    → has_suffix s (b'.' ∷ a) ≡ true
    → has_suffix s (b'.' ∷ b) ≡ true
    → count_dots a ≡ count_dots b
    → a ≡ b
unfolding has_suffix count_dots
one_suffix [] a b h k e = cc
one_suffix (c ∷ s) a b h k e = elim (Bool-cases (text_eq (c ∷ s) (b'.' ∷ a))) [
  | inl p ↦ elim (Bool-cases (text_eq (c ∷ s) (b'.' ∷ b))) [
    | inl q ↦ ground (arith, text_eq→eq (c ∷ s) (b'.' ∷ a) p, text_eq→eq (c ∷ s) (b'.' ∷ b) q)
    | inr q ↦
        ground (arith, text_eq→eq (c ∷ s) (b'.' ∷ a) p, count_dots-suffix s (b'.' ∷ b) (rw q at k))
  ]
  | inr p ↦ elim (Bool-cases (text_eq (c ∷ s) (b'.' ∷ b))) [
    | inl q ↦
        ground (arith, text_eq→eq (c ∷ s) (b'.' ∷ b) q, count_dots-suffix s (b'.' ∷ a) (rw p at h))
    | inr q ↦ one_suffix s a b (rw p at h) (rw q at k) e
  ]
]

Fresh-Permᴰ : {V : Type 0} (k : Text) {s t : Table V} → Permᴰ s t → Fresh k s → Fresh k t
Fresh-Permᴰ k Permᴰ.nil h = h
Fresh-Permᴰ k (Permᴰ.cons e d) h = (subst (λ p. text_eq p.0 k ≡ false) e h.0, Fresh-Permᴰ k d h.1)
Fresh-Permᴰ k (Permᴰ.swap {l = l} e e') h =
    (subst (λ p. text_eq p.0 k ≡ false) e' h.1.0, (subst (λ p. text_eq p.0 k ≡ false) e h.0, h.1.1))
Fresh-Permᴰ k (Permᴰ.trans c d) h = Fresh-Permᴰ k d (Fresh-Permᴰ k c h)

IsTable-Permᴰ : {V : Type 0} {s t : Table V} → Permᴰ s t → IsTable s → IsTable t
IsTable-Permᴰ Permᴰ.nil h = h
IsTable-Permᴰ (Permᴰ.cons {a = a} {l₂ = l₂} e d) h =
    (subst (λ p. Fresh p.0 l₂) e (Fresh-Permᴰ a.0 d h.0), IsTable-Permᴰ d h.1)
IsTable-Permᴰ (Permᴰ.swap {a = a} {b = b} {b' = b'} {l = l} e e') h =
    subst (λ p. IsTable (p ∷ b' ∷ l)) e'
      (subst (λ q. IsTable (b ∷ q ∷ l)) e ((text_eq_comm a.0 b.0 ∙ h.0.0, h.1.0), (h.0.1, h.1.1)))
IsTable-Permᴰ (Permᴰ.trans c d) h = IsTable-Permᴰ d (IsTable-Permᴰ c h)

module _ (name : Text) where
  not_one :
      (a b : Text)
      → text_eq a b ≡ false
      → has_suffix name (b'.' ∷ a) ≡ true
      → has_suffix name (b'.' ∷ b) ≡ true
      → count_dots a ≢ count_dots b
  not_one a b h p q e =
      let same = one_suffix name a b p q e in let here = rw same at h in cc (text_eq_refl b)

  rounds_commute :
      (best : ℤ × Text) (m n : Text × Text)
      → text_eq m.0 n.0 ≡ false
      → augment_round name (augment_round name best m) n
        ≡ augment_round name (augment_round name best n) m
  unfolding augment_round
  rounds_commute (p, f) (a, x) (b, y) h = elim (Bool-cases (has_suffix name (b'.' ∷ a))) [
    | inl e ↦ elim (Bool-cases (has_suffix name (b'.' ∷ b))) [
      | inl k ↦ ground (arith, not_one a b h e k)
      | inr k ↦ ground arith
    ]
    | inr e ↦ ground arith
  ]

  augment_loop-Permᴰ :
      {s t : Table Text}
      → Permᴰ s t
      → IsTable s
      → (best : ℤ × Text) → augment_loop name best s ≡ augment_loop name best t
  unfolding augment_loop
  augment_loop-Permᴰ Permᴰ.nil h best = refl
  augment_loop-Permᴰ (Permᴰ.cons {b = b} e d) h best =
      rw e (augment_loop-Permᴰ d h.1 (augment_round name best b))
  augment_loop-Permᴰ (Permᴰ.swap {a = a} {b = b} {l = l} e e') h best =
      rw (← e, ← e')
        (ap (λ v. augment_loop name v l) (rounds_commute best a b (text_eq_comm a.0 b.0 ∙ h.0.0)))
  augment_loop-Permᴰ (Permᴰ.trans c d) h best =
      augment_loop-Permᴰ c h best ∙ augment_loop-Permᴰ d (IsTable-Permᴰ c h) best

best-set : IsSet (ℤ × Text)
best-set = hlevel

pub loops_agree :
    (name : Text) (best : ℤ × Text) (ours theirs mappings : Table Text)
    → IsTable mappings
    → Perm ours mappings
    → Perm theirs mappings
    → augment_loop name best ours ≡ augment_loop name best theirs
loops_agree name best ours theirs mappings h p q = to_given ours p ∙ sym (to_given theirs q)
  where
    to_given :
        (order : Table Text)
        → Perm order mappings
        → augment_loop name best order ≡ augment_loop name best mappings
    to_given order p =
        ∥∥₁_elim (Perm.symm p) (best-set _ _) (λ d. sym (augment_loop-Permᴰ name d h best))

-- The language that a duration is given does not depend on the order in which the mappings, whose
-- endings are distinct, are walked.
pub augmented-order :
    (rt other : Runtime) (mappings : Table Text) (d : Duration)
    → IsTable mappings
    → augmented rt mappings d ≡ augmented other mappings d
unfolding augmented
augmented-order rt other mappings d h =
    let ours = rt.map_order (Text × Text) mappings in
    let theirs = other.map_order (Text × Text) mappings in
    let start : ℤ × Text = (negsuc 0, d.language) in
    let same : augment_loop (b'.' ∷ d.extension) start ours
        ≡ augment_loop (b'.' ∷ d.extension) start theirs =
      loops_agree (b'.' ∷ d.extension) start ours theirs mappings h
        (rt.map_order-perm (Text × Text) mappings) (other.map_order-perm (Text × Text) mappings) in
    ap (λ best. record d { language = best.1 }) same
