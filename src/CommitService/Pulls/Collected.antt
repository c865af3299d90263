-- ===== src/CommitService/Pulls/Collected.antt =====
-- services/commit_service.go: syncPulls misses no pull request that fits its pages.
use wakapi.Base.{
  ℕ, zero, suc, ◌+◌, ◌*◌, ◌-◌, ◌≤◌, ◌<◌, ◌≡◌, refl, sym, subst, ◌∙◌, ap, Bool, true, false, not,
  ◌||◌, List, [], ◌∷◌, ◌++◌, Option, some, Text, ℤ, ltb, ltb_ℤ, All, map, keep, length, arith,
  Bool-cases, inl, inr, append_nil, append_assoc, keep-append, length-append,
}
use mathlib.Core.List.{map-append}
use wakapi.Collections.{take, drop}
use wakapi.CommitService.Pulls.{
  GithubPull, ScmPullRequest, map_pull, is_older, scan, pull_loop, collected_pulls,
  pull_sync_per_page,
}

module _ {A : Type 0} where
  take-append-drop : (n : ℕ) (xs : List A) → take n xs ++ drop n xs ≡ xs
  unfolding take drop
  take-append-drop zero xs = refl
  take-append-drop (suc n) [] = refl
  take-append-drop (suc n) (x ∷ xs) = ap (λ ys. x ∷ ys) (take-append-drop n xs)

  drop_short : (n : ℕ) (xs : List A) → length (take n xs) < n → drop n xs ≡ []
  unfolding take drop
  drop_short zero xs h = absurd (omega arith)
  drop_short (suc n) [] h = refl
  drop_short (suc n) (x ∷ xs) h = drop_short n xs (omega (arith, h))

  drop_nil : (n : ℕ) → drop {A = A} n [] ≡ []
  unfolding drop
  drop_nil zero = refl
  drop_nil (suc n) = refl

  drop-drop : (m n : ℕ) (xs : List A) → drop n (drop m xs) ≡ drop (m + n) xs
  unfolding drop
  drop-drop zero n xs = ap (λ k. drop k xs) (omega arith)
  drop-drop (suc m) n [] = drop_nil n ∙ sym (drop_nil (suc m + n))
  drop-drop (suc m) n (x ∷ xs) =
      drop-drop m n xs ∙ ap (λ k. drop k (x ∷ xs)) {x = suc (m + n)} {y = suc m + n} (omega arith)

-- The most recently updated first.
abbrev pub IsDescending : List GithubPull → Type 0
IsDescending [] = Unit
IsDescending (p ∷ ps) = All (λ q. ltb_ℤ p.updated_at q.updated_at ≡ false) ps × IsDescending ps

abbrev pub is_new : (watermark : ℤ) → GithubPull → Bool
is_new watermark p = not (is_older watermark p)

IsDescending-append : (xs ys : List GithubPull) → IsDescending (xs ++ ys) → IsDescending ys
IsDescending-append [] ys h = h
IsDescending-append (x ∷ xs) ys h = IsDescending-append xs ys h.1

keep_older :
    (w : ℤ) (p : GithubPull) (ps : List GithubPull)
    → is_older w p ≡ true
    → All (λ q. ltb_ℤ p.updated_at q.updated_at ≡ false) ps
    → keep (is_new w) ps ≡ []
unfolding keep is_older
keep_older w p [] e h = refl
keep_older w p (q ∷ ps) e (h, hs) = ground (arith, keep_older w p ps e hs, h, e)

scan_stopped :
    (w : ℤ) (xs ys : List GithubPull)
    → IsDescending (xs ++ ys)
    → (scan w xs).1 ≡ true
    → keep (is_new w) (xs ++ ys) ≡ (scan w xs).0
unfolding scan keep
scan_stopped w [] ys d h = cc
scan_stopped w (x ∷ xs) ys (d, ds) h = elim (Bool-cases (is_older w x)) [
  | inl e ↦ rw (e, scan) (keep_older w x (xs ++ ys) e d)
  | inr e ↦ rw (e, scan) (ap (λ zs. x ∷ zs) (scan_stopped w xs ys ds (rw (scan, e) at h)))
]

scan_through :
    (w : ℤ) (xs : List GithubPull)
    → (scan w xs).1 ≡ false
    → ((scan w xs).0 ≡ xs) × (keep (is_new w) xs ≡ xs)
unfolding scan keep
scan_through w [] h = (refl, refl)
scan_through w (x ∷ xs) h = elim (Bool-cases (is_older w x)) [
  | inl e ↦ let no = rw (scan, e) at h in cc
  | inr e ↦
      let rest = scan_through w xs (rw (scan, e) at h) in
      rw (e, scan) (ap (λ zs. x ∷ zs) rest.0, ap (λ zs. x ∷ zs) rest.1)
]

-- The provider's pages are the parts of one list.
abbrev pub Provides : (ℕ → Option (List GithubPull)) → List GithubPull → Type 0
Provides list_pulls all =
    (page : ℕ)
    → list_pulls page ≡ some (take pull_sync_per_page (drop ((page - 1) * pull_sync_per_page) all))

no_more : {A : Type 0} (xs : List A) → length xs ≤ 0 → xs ≡ []
no_more [] h = refl
no_more (x ∷ xs) h = absurd (omega arith)

few_left :
    (w : ℤ) (chunk rest : List GithubPull) (rounds : ℕ)
    → keep (is_new w) chunk ≡ chunk
    → pull_sync_per_page ≤ length chunk
    → length (keep (is_new w) (chunk ++ rest)) ≤ suc rounds * pull_sync_per_page
    → length (keep (is_new w) rest) ≤ rounds * pull_sync_per_page
few_left w chunk rest rounds kept full h =
    let parts =
      ap length (keep-append (is_new w) chunk rest)
      ∙ length-append (keep (is_new w) chunk) (keep (is_new w) rest) in
    let same = ap length kept in omega (arith, parts, same, full, h)

module _ (list_pulls : ℕ → Option (List GithubPull)) (repo_id : Text) (w : ℤ)
    (all : List GithubPull) (provides : Provides list_pulls all) where
  abbrev left : ℕ → List GithubPull
  left page = drop ((page - 1) * pull_sync_per_page) all

  pull_round_ends :
      (rounds page : ℕ) (collected : List ScmPullRequest) (pulls : List GithubPull)
      → list_pulls page ≡ some pulls
      → (ltb (length pulls) pull_sync_per_page || (scan w pulls).1) ≡ true
      → pull_loop list_pulls repo_id w (suc rounds) page collected
        ≡ some (collected ++ map (map_pull repo_id) (scan w pulls).0)
  unfolding pull_loop
  pull_round_ends rounds page collected pulls e h = rw (e, h, pull_loop) refl

  pull_round_goes_on :
      (rounds page : ℕ) (collected : List ScmPullRequest) (pulls : List GithubPull)
      → list_pulls page ≡ some pulls
      → (ltb (length pulls) pull_sync_per_page || (scan w pulls).1) ≡ false
      → pull_loop list_pulls repo_id w (suc rounds) page collected
        ≡ pull_loop list_pulls repo_id w rounds
            (page + 1)
            (collected ++ map (map_pull repo_id) (scan w pulls).0)
  unfolding pull_loop
  pull_round_goes_on rounds page collected pulls e h = rw (e, h, pull_loop) refl

  abbrev gives : List ScmPullRequest → List GithubPull → Option (List ScmPullRequest)
  gives collected ps = some (collected ++ map (map_pull repo_id) ps)

  next_page : (page : ℕ) → 1 ≤ page → drop pull_sync_per_page (left page) ≡ left (page + 1)
  next_page page p =
      drop-drop ((page - 1) * pull_sync_per_page) pull_sync_per_page all
      ∙ ap (λ n. drop n all) (omega arith)

  through_whole :
      (rounds page : ℕ) (collected : List ScmPullRequest) (chunk rest : List GithubPull)
      → (scan w chunk).1 ≡ false
      → pull_loop list_pulls repo_id w rounds
          (page + 1)
          (collected ++ map (map_pull repo_id) (scan w chunk).0)
        ≡ gives (collected ++ map (map_pull repo_id) (scan w chunk).0) (keep (is_new w) rest)
      → pull_loop list_pulls repo_id w rounds
          (page + 1)
          (collected ++ map (map_pull repo_id) (scan w chunk).0)
        ≡ gives collected (keep (is_new w) (chunk ++ rest))
  through_whole rounds page collected chunk rest e ih =
      let f = map_pull repo_id in
      let (same, kept) = scan_through w chunk e in
      ih
      ∙ ap some (
          append_assoc collected (map f (scan w chunk).0) (map f (keep (is_new w) rest))
          ∙ ap (λ ps. collected ++ ps)
              (rw (same, keep-append (is_new w) chunk rest, kept)
                (sym (map-append f chunk (keep (is_new w) rest)))))

  pull_loop-keep :
      (rounds page : ℕ) (collected : List ScmPullRequest)
      → 1 ≤ page
      → IsDescending (left page)
      → length (keep (is_new w) (left page)) ≤ rounds * pull_sync_per_page
      → pull_loop list_pulls repo_id w rounds page collected
        ≡ gives collected (keep (is_new w) (left page))
  unfolding pull_loop
  pull_loop-keep zero page collected p d h =
      rw (no_more (keep (is_new w) (left page)) (omega (arith, h)))
        (ap some (sym (append_nil collected)))
  pull_loop-keep (suc rounds) page collected p d h =
      let chunk = take pull_sync_per_page (left page) in
      let rest = drop pull_sync_per_page (left page) in
      let whole : chunk ++ rest ≡ left page = take-append-drop pull_sync_per_page (left page) in
      elim (Bool-cases (scan w chunk).1) [
        | inl e ↦
            pull_round_ends rounds page collected chunk (provides page) (ground (arith, e))
            ∙ ap (gives collected)
                (sym (scan_stopped w chunk rest (rw whole d) e) ∙ ap (keep (is_new w)) whole)
        | inr e ↦ elim (Bool-cases (ltb (length chunk) pull_sync_per_page)) [
          | inl short ↦
              let (same, kept) = scan_through w chunk e in
              let ends : chunk ≡ left page =
                sym (append_nil chunk)
                ∙ ap (λ ps. chunk ++ ps)
                    (sym (drop_short pull_sync_per_page (left page) (ground (arith, short))))
                ∙ whole in
              pull_round_ends rounds page collected chunk (provides page) (ground (arith, short))
              ∙ ap (gives collected) (same ∙ sym kept ∙ ap (keep (is_new w)) ends)
          | inr full ↦
              let next = next_page page p in
              let few : length (keep (is_new w) rest) ≤ rounds * pull_sync_per_page =
                few_left w chunk rest rounds (scan_through w chunk e).1 (ground (arith, full))
                  (rw whole h) in
              pull_round_goes_on rounds page collected chunk (provides page)
                (ground (arith, e, full))
              ∙ through_whole rounds page collected chunk rest e (
                  pull_loop-keep rounds (page + 1)
                    (collected ++ map (map_pull repo_id) (scan w chunk).0) (omega arith)
                    (subst IsDescending next (IsDescending-append chunk rest (rw whole d)))
                    (rw (← next) few)
                  ∙ ap
                      (λ ps.
                        gives (collected ++ map (map_pull repo_id) (scan w chunk).0)
                          (keep (is_new w) ps))
                      (sym next))
              ∙ ap (λ ps. gives collected (keep (is_new w) ps)) whole
        ]
      ]

-- What is collected: the pull requests that are not older than the watermark, if they are 5000 at most.
pub collected_pulls-keep :
    (list_pulls : ℕ → Option (List GithubPull)) (repo_id : Text) (w : ℤ) (all : List GithubPull)
    → Provides list_pulls all
    → IsDescending all
    → length (keep (is_new w) all) ≤ 5000
    → collected_pulls list_pulls repo_id (some w)
      ≡ some (map (map_pull repo_id) (keep (is_new w) all))
unfolding collected_pulls drop
collected_pulls-keep list_pulls repo_id w all provides d h =
    pull_loop-keep list_pulls repo_id w all provides 50 1 [] (omega arith) d h
