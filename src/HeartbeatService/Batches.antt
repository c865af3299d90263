-- ===== src/HeartbeatService/Batches.antt =====
-- services/heartbeat.go: of the heartbeats of a batch that share a hash, InsertBatch stores the first.
use mathlib.Core.Option
use wakapi.Base.{
  ◌≡◌, refl, ◌∙◌, sym, ap, Bool, List, [], ◌∷◌, Option, none, some, Bool-cases, inl, inr, Text,
  text_eq, text_eq_refl, text_eq→eq, if◌then◌else◌, any, arith,
}
use wakapi.Heartbeat.{Heartbeat, Naming, sanitize}
use wakapi.HeartbeatService.{filter_batch}

-- The first heartbeat with the hash.
abbrev pub find_hash : Text → List Heartbeat → Option Heartbeat
find_hash k [] = none
find_hash k (h ∷ hs) = if text_eq h.hash k then some h else find_hash k hs

abbrev pub IsDeduplicated : List Heartbeat → Type 0
IsDeduplicated [] = Unit
IsDeduplicated (h ∷ hs) = (find_hash h.hash hs ≡ none) × IsDeduplicated hs

abbrev has_hash : Text → List Text → Bool
has_hash k hashes = any (λ j. text_eq j k) hashes

hash-sanitize : (n : Naming) (h : Heartbeat) → (sanitize n h).hash ≡ h.hash
unfolding sanitize
hash-sanitize n h = refl

find_hash-filter_batch :
    (n : Naming) (k : Text) (hashes : List Text) (hs : List Heartbeat)
    → find_hash k (filter_batch n hashes hs)
      ≡ (if has_hash k hashes then none else Option.map (sanitize n) (find_hash k hs))
unfolding filter_batch any sanitize
find_hash-filter_batch n k hashes [] = ground arith
find_hash-filter_batch n k hashes (h ∷ hs) = elim (Bool-cases (has_hash h.hash hashes)) [
  | inl e ↦ elim (Bool-cases (text_eq h.hash k)) [
    | inl f ↦
        rw (e, f)
          (find_hash-filter_batch n k hashes hs
            ∙ rw (ap (λ j. has_hash j hashes) (sym (text_eq→eq h.hash k f)) ∙ e) refl)
    | inr f ↦ rw (e, f) (find_hash-filter_batch n k hashes hs)
  ]
  | inr e ↦ elim (Bool-cases (text_eq h.hash k)) [
    | inl f ↦
        rw (e, hash-sanitize n h, f)
          (rw (ap (λ j. has_hash j hashes) (sym (text_eq→eq h.hash k f)) ∙ e) refl)
    | inr f ↦
        rw (e, hash-sanitize n h, f)
          (find_hash-filter_batch n k (h.hash ∷ hashes) hs ∙ rw (f, any) refl)
  ]
]

filter_batch-IsDeduplicated :
    (n : Naming) (hashes : List Text) (hs : List Heartbeat)
    → IsDeduplicated (filter_batch n hashes hs)
unfolding filter_batch any
filter_batch-IsDeduplicated n hashes [] = tt
filter_batch-IsDeduplicated n hashes (h ∷ hs) = elim (Bool-cases (has_hash h.hash hashes)) [
  | inl e ↦ rw e (filter_batch-IsDeduplicated n hashes hs)
  | inr e ↦
      rw (e, hash-sanitize n h)
        (
          find_hash-filter_batch n h.hash (h.hash ∷ hashes) hs ∙ rw (text_eq_refl h.hash, any) refl,
          filter_batch-IsDeduplicated n (h.hash ∷ hashes) hs,
        )
]

-- What InsertBatch hands to the repository has each hash once, and under each hash the first
-- heartbeat of the batch, sanitized.
pub filter_batch-firsts :
    (n : Naming) (k : Text) (hs : List Heartbeat)
    → (find_hash k (filter_batch n [] hs) ≡ Option.map (sanitize n) (find_hash k hs))
      × IsDeduplicated (filter_batch n [] hs)
unfolding any
filter_batch-firsts n k hs = (find_hash-filter_batch n k [] hs, filter_batch-IsDeduplicated n [] hs)
