-- ===== src/DurationService/Merge/Losses.antt =====
-- services/duration.go: what merge loses. The comment in the code says that the first duration of
-- the later list is kept when the one before it is only extended; it is dropped, and so is the last
-- of a later list of more than one.
use wakapi.Base.{
  ◌≡◌, sym, ap, ◌∙◌, List, [], ◌∷◌, ◌++◌, none, some, some_inj, some_ne_none, text_eq,
  if◌then◌else◌, Bool-cases, inl, inr, ℤ, pos, ◌+ℤ◌, ◌-ℤ◌, ltb_ℤ, sum_by, sum_by-append, int_laws,
  parts_of_eq,
}
use wakapi.User.{User, heartbeats_timeout}
use wakapi.Duration.{Duration, Hasher, hashed, time_end, first, last, total_num_heartbeats}
use wakapi.DurationService.Merge.{but_last, inner, middle, merge}

abbrev beats : Duration → ℤ
beats d = d.num_heartbeats

-- The heartbeats of the first of the later durations, when the two that meet are of two groups and
-- less than the timeout apart.
abbrev pub lost_between : User → Duration → Duration → ℤ
lost_between user left right =
    if ltb_ℤ (right.time -ℤ time_end left) (heartbeats_timeout user)
    then (if text_eq left.group_hash right.group_hash then pos 0 else right.num_heartbeats)
    else pos 0

-- The heartbeats of the last duration after the first.
abbrev pub lost_at_end : List Duration → ℤ
lost_at_end ds = elim (last ds) [ none ↦ pos 0 | some d ↦ d.num_heartbeats ]

sum_cons : (a x y b : ℤ) → x +ℤ b ≡ y → a +ℤ x +ℤ b ≡ a +ℤ y
sum_cons a x y b h = omega (int_laws, parts_of_eq _ _ h)

but_last-beats :
    (ds : List Duration) → sum_by beats (but_last ds) +ℤ lost_at_end ds ≡ sum_by beats ds
unfolding but_last last sum_by
but_last-beats [] = omega int_laws
but_last-beats (x ∷ []) = omega int_laws
but_last-beats (x ∷ y ∷ ds) = sum_cons x.num_heartbeats _ _ _ (but_last-beats (y ∷ ds))

inner-beats :
    (r : Duration) (rest : List Duration)
    → sum_by beats (inner (r ∷ rest)) +ℤ lost_at_end rest ≡ sum_by beats rest
unfolding inner last sum_by
inner-beats r [] = omega int_laws
inner-beats r (e ∷ ds) = but_last-beats (e ∷ ds)

middle-beats :
    (hash : Hasher) (user : User) (left right : Duration)
    → sum_by beats (middle hash user left right) +ℤ lost_between user left right
      ≡ left.num_heartbeats +ℤ right.num_heartbeats
unfolding middle hashed sum_by
middle-beats hash user left right =
    elim (Bool-cases (ltb_ℤ (right.time -ℤ time_end left) (heartbeats_timeout user))) [
      | inr e ↦ rw e (omega int_laws)
      | inl e ↦ rw e (elim (Bool-cases (text_eq left.group_hash right.group_hash)) [
        | inl k ↦ rw k (omega int_laws)
        | inr k ↦ rw k (omega int_laws)
      ])
    ]

-- The sums of the parts, put together.
account :
    (front left d1 mid between right inside end rest : ℤ)
    → front +ℤ left ≡ d1
    → mid +ℤ between ≡ left +ℤ right
    → inside +ℤ end ≡ rest
    → front +ℤ (mid +ℤ inside) +ℤ (between +ℤ end) ≡ d1 +ℤ (right +ℤ rest)
account front left d1 mid between right inside end rest h k l =
    omega (int_laws, parts_of_eq _ _ h, parts_of_eq _ _ k, parts_of_eq _ _ l)

lost_at_end-last :
    (ds : List Duration) (d : Duration) → last ds ≡ some d → lost_at_end ds ≡ d.num_heartbeats
lost_at_end-last ds d e = rw (e, lost_at_end)

-- When durations are merged without an error, and neither list is empty, the heartbeats of the
-- result, with those of the first of the later list where that one is dropped, and those of the
-- last one after it, are the heartbeats of the two lists.
pub merge-total_num_heartbeats :
    (hash : Hasher) (user : User) (d1 rest merged : List Duration) (left right : Duration)
    → last d1 ≡ some left
    → merge hash user d1 (right ∷ rest) ≡ some merged
    → total_num_heartbeats merged +ℤ (lost_between user left right +ℤ lost_at_end rest)
      ≡ total_num_heartbeats d1 +ℤ total_num_heartbeats (right ∷ rest)
unfolding merge first total_num_heartbeats sum_by
merge-total_num_heartbeats hash user d1 rest merged left right l e =
    elim (Bool-cases (ltb_ℤ right.time (time_end left))) [
      | inl c ↦ absurd (some_ne_none (sym (rw (l, c, merge) at e)))
      | inr c ↦
          let parts = some_inj (rw (l, c, merge) at e) in
          ap (λ ds. sum_by beats ds +ℤ (lost_between user left right +ℤ lost_at_end rest))
            (sym parts)
          ∙ rw
              (
                sum_by-append beats (but_last d1)
                    (middle hash user left right ++ inner (right ∷ rest)),
                sum_by-append beats (middle hash user left right) (inner (right ∷ rest)),
              )
              (account _ left.num_heartbeats _ _ _ right.num_heartbeats _ _ _
                (ap (λ n. sum_by beats (but_last d1) +ℤ n) (sym (lost_at_end-last d1 left l))
                  ∙ but_last-beats d1)
                (middle-beats hash user left right) (inner-beats right rest))
    ]
