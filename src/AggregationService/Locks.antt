-- ===== src/AggregationService/Locks.antt =====
-- services/aggregation.go: the lock on users whose aggregation is in progress.
use wakapi.Base.{
  ◌≡◌, refl, sym, ap, ◌∙◌, Bool, true, false, not, ◌&&◌, ◌||◌, List, [], ◌∷◌, ◌++◌, none, some,
  some_inj, some_ne_none, Text, text_eq, text_eq→eq, Bool-cases, inl, inr, any, keep, arith,
}
use wakapi.AggregationService.{contains, lock_users, unlock_users}

contains-append :
    (u : Text) (xs ys : List Text) → contains u (xs ++ ys) ≡ (contains u xs || contains u ys)
unfolding contains any
contains-append u [] ys = refl
contains-append u (x ∷ xs) ys = ground (arith, contains-append u xs ys)

contains-keep :
    (u : Text) (p : Text → Bool) (xs : List Text) → contains u (keep p xs) ≡ (contains u xs && p u)
unfolding contains any keep
contains-keep u p [] = refl
contains-keep u p (x ∷ xs) = elim (Bool-cases (text_eq x u)) [
  | inl e ↦ ground (arith, e, ap p (text_eq→eq x u e), contains-keep u p xs)
  | inr e ↦ ground (arith, e, contains-keep u p xs)
]

-- A user who is in both lists.
shared :
    (u : Text) (users in_progress : List Text)
    → contains u users ≡ true
    → contains u in_progress ≡ true
    → any (λ v. contains v in_progress) users ≡ true
unfolding contains any
shared u [] in_progress h k = cc
shared u (x ∷ xs) in_progress h k = elim (Bool-cases (text_eq x u)) [
  | inl e ↦ ground (arith, k, ap (λ v. contains v in_progress) (text_eq→eq x u e))
  | inr e ↦ ground (arith, shared u xs in_progress (rw e at h) k)
]

locked :
    (users in_progress busy : List Text)
    → lock_users users in_progress ≡ some busy
    → (any (λ v. contains v in_progress) users ≡ false) × (in_progress ++ users ≡ busy)
unfolding lock_users
locked users in_progress busy h = elim (Bool-cases (any (λ v. contains v in_progress) users)) [
  | inl e ↦ absurd (some_ne_none (sym (rw e at h)))
  | inr e ↦ (e, some_inj (rw e at h))
]

contains-busy :
    (users in_progress busy : List Text) (u : Text)
    → lock_users users in_progress ≡ some busy
    → contains u busy ≡ (contains u in_progress || contains u users)
contains-busy users in_progress busy u h =
    ap (contains u) (sym (locked users in_progress busy h).1) ∙ contains-append u in_progress users

refused :
    (users in_progress : List Text)
    → any (λ v. contains v in_progress) users ≡ true
    → lock_users users in_progress ≡ none
unfolding lock_users
refused users in_progress h = rw h refl

unlocked :
    (users in_progress : List Text) (u : Text)
    → any (λ v. contains v in_progress) users ≡ false
    → ((contains u in_progress || contains u users) && not (contains u users))
      ≡ contains u in_progress
unlocked users in_progress u free = ground (arith, free, shared u users in_progress)

-- While users are locked, no one can lock any of them.
lock_users-lock_users :
    (users other in_progress busy : List Text) (u : Text)
    → lock_users users in_progress ≡ some busy
    → contains u users ≡ true
    → contains u other ≡ true
    → lock_users other busy ≡ none
lock_users-lock_users users other in_progress busy u h mine theirs =
    refused other busy
      (shared u other busy theirs (contains-busy users in_progress busy u h ∙ ground (arith, mine)))

-- Unlocking what has been locked leaves in progress who was before.
pub unlock_users-lock_users :
    (users in_progress busy : List Text) (u : Text)
    → lock_users users in_progress ≡ some busy
    → contains u (unlock_users users busy) ≡ contains u in_progress
unfolding unlock_users
unlock_users-lock_users users in_progress busy u h =
    contains-keep u _ busy
    ∙ ap (λ b. b && not (contains u users)) (contains-busy users in_progress busy u h)
    ∙ unlocked users in_progress u (locked users in_progress busy h).0
