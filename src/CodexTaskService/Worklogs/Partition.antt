-- ===== src/CodexTaskService/Worklogs/Partition.antt =====
-- services/codex_task_service.go: how GetWorklogs divides the sessions, and what a worklog says of its own.
use wakapi.Base.{
  ◌≡◌, refl, ◌∙◌, ap, true, false, List, [], ◌∷◌, ◌++◌, Option, none, some, keep, Bool-cases, inl,
  inr, append_assoc,
}
use wakapi.Stable.{stable_sort}
use wakapi.CodexTaskService.{CodexTaskSession, CodexText, should_include}
use wakapi.CodexTaskService.Worklogs.{
  Group, members, group_of, group_loop, should_split, worklog_groups, by_start,
}

-- All sessions of the groups, in order.
abbrev pub flatten : List Group → List CodexTaskSession
flatten [] = []
flatten (g ∷ gs) = members g ++ flatten gs

-- Each session but the first goes on from the one before, and the group's last is the last.
abbrev pub IsJoined :
    CodexText
    → (first : CodexTaskSession) → List CodexTaskSession
    → (last : CodexTaskSession) → Type 0
IsJoined x first [] last = first ≡ last
IsJoined x first (s ∷ ss) last = (should_split x first s ≡ false) × IsJoined x s ss last

-- And the first session of a group does not go on from the last of the group before.
abbrev pub AreSeparate : CodexText → List Group → Type 0
AreSeparate x [] = Unit
AreSeparate x (g ∷ []) = IsJoined x g.first g.others g.last
AreSeparate x (g ∷ h ∷ gs) =
    IsJoined x g.first g.others g.last
    × (should_split x g.last h.first ≡ true)
    × AreSeparate x (h ∷ gs)

module _ (x : CodexText) where
  -- What becomes of the open group at the next session.
  left_out :
      (o : Option Group) (s : CodexTaskSession) (ss : List CodexTaskSession)
      → should_include x s ≡ false
      → group_loop x o (s ∷ ss) ≡ group_loop x o ss
  unfolding group_loop
  left_out none s ss h = rw (h, group_loop) refl
  left_out (some g) s ss h = rw (h, group_loop) refl

  begins :
      (s : CodexTaskSession) (ss : List CodexTaskSession)
      → should_include x s ≡ true
      → group_loop x none (s ∷ ss) ≡ group_loop x (some (group_of s)) ss
  unfolding group_loop
  begins s ss h = rw (h, group_loop) refl

  splits :
      (g : Group) (s : CodexTaskSession) (ss : List CodexTaskSession)
      → should_include x s ≡ true
      → should_split x g.last s ≡ true
      → group_loop x (some g) (s ∷ ss) ≡ g ∷ group_loop x (some (group_of s)) ss
  unfolding group_loop
  splits g s ss h k = rw (h, k, group_loop) refl

  abbrev joined : Group → CodexTaskSession → Group
  joined g s = record { first = g.first; others = g.others ++ s ∷ []; last = s }

  joins :
      (g : Group) (s : CodexTaskSession) (ss : List CodexTaskSession)
      → should_include x s ≡ true
      → should_split x g.last s ≡ false
      → group_loop x (some g) (s ∷ ss) ≡ group_loop x (some (joined g s)) ss
  unfolding group_loop
  joins g s ss h k = rw (h, k, group_loop) refl

  flatten-group_loop :
      (g : Group) (ss : List CodexTaskSession)
      → flatten (group_loop x (some g) ss) ≡ members g ++ keep (should_include x) ss
  unfolding group_loop keep
  flatten-group_loop g [] = refl
  flatten-group_loop g (s ∷ ss) = elim (Bool-cases (should_include x s)) [
    | inl e ↦ elim (Bool-cases (should_split x g.last s)) [
      | inl f ↦
          ap flatten (splits g s ss e f)
          ∙ rw e (ap (λ ys. members g ++ ys) (flatten-group_loop (group_of s) ss))
      | inr f ↦
          ap flatten (joins g s ss e f)
          ∙ flatten-group_loop (joined g s) ss
          ∙ rw e (append_assoc (members g) (s ∷ []) (keep (should_include x) ss))
    ]
    | inr e ↦ ap flatten (left_out (some g) s ss e) ∙ rw e (flatten-group_loop g ss)
  ]

  flatten-groups :
      (ss : List CodexTaskSession) → flatten (group_loop x none ss) ≡ keep (should_include x) ss
  unfolding group_loop keep
  flatten-groups [] = refl
  flatten-groups (s ∷ ss) = elim (Bool-cases (should_include x s)) [
    | inl e ↦ ap flatten (begins s ss e) ∙ rw e (flatten-group_loop (group_of s) ss)
    | inr e ↦ ap flatten (left_out none s ss e) ∙ rw e (flatten-groups ss)
  ]

  IsJoined-append :
      (first last s : CodexTaskSession) (ss : List CodexTaskSession)
      → IsJoined x first ss last
      → should_split x last s ≡ false
      → IsJoined x first (ss ++ s ∷ []) s
  IsJoined-append first last s [] h k = (rw h k, refl)
  IsJoined-append first last s (t ∷ ts) h k = (h.0, IsJoined-append t last s ts h.1 k)

  -- The groups from an open one on begin with its first session.
  Starts : Group → List Group → Type 0
  Starts g [] = ⊥
  Starts g (h ∷ gs) = h.first ≡ g.first

  starts : (g : Group) (ss : List CodexTaskSession) → Starts g (group_loop x (some g) ss)
  unfolding group_loop Starts
  starts g [] = refl
  starts g (s ∷ ss) = elim (Bool-cases (should_include x s)) [
    | inl e ↦ elim (Bool-cases (should_split x g.last s)) [
      | inl f ↦ rw (splits g s ss e f) refl
      | inr f ↦ rw (joins g s ss e f) (starts (joined g s) ss)
    ]
    | inr e ↦ rw (left_out (some g) s ss e) (starts g ss)
  ]

  AreSeparate-cons :
      (g h : Group) (gs : List Group)
      → IsJoined x g.first g.others g.last
      → should_split x g.last h.first ≡ true
      → Starts h gs
      → AreSeparate x gs
      → AreSeparate x (g ∷ gs)
  unfolding Starts
  AreSeparate-cons g h [] j s st a = elim st [ ]
  AreSeparate-cons g h (h' ∷ gs) j s st a = (j, rw st s, a)

  AreSeparate-group_loop :
      (g : Group) (ss : List CodexTaskSession)
      → IsJoined x g.first g.others g.last
      → AreSeparate x (group_loop x (some g) ss)
  unfolding group_loop
  AreSeparate-group_loop g [] j = j
  AreSeparate-group_loop g (s ∷ ss) j = elim (Bool-cases (should_include x s)) [
    | inl e ↦ elim (Bool-cases (should_split x g.last s)) [
      | inl f ↦ rw (splits g s ss e f) (
          AreSeparate-cons g (group_of s) (group_loop x (some (group_of s)) ss) j f
            (starts (group_of s) ss) (AreSeparate-group_loop (group_of s) ss refl))
      | inr f ↦
          rw (joins g s ss e f)
            (AreSeparate-group_loop (joined g s) ss (IsJoined-append g.first g.last s g.others j f))
    ]
    | inr e ↦ rw (left_out (some g) s ss e) (AreSeparate-group_loop g ss j)
  ]

  AreSeparate-groups : (ss : List CodexTaskSession) → AreSeparate x (group_loop x none ss)
  unfolding group_loop
  AreSeparate-groups [] = tt
  AreSeparate-groups (s ∷ ss) = elim (Bool-cases (should_include x s)) [
    | inl e ↦ rw (begins s ss e) (AreSeparate-group_loop (group_of s) ss refl)
    | inr e ↦ rw (left_out none s ss e) (AreSeparate-groups ss)
  ]

  -- The sessions that are included, in the order of their starts, are those of the worklogs, each once
  -- and in that order; a worklog goes on as long as sessions follow on one another, and no further.
  pub worklog_groups-flatten :
      (sessions : List CodexTaskSession)
      → (flatten (worklog_groups x sessions)
          ≡ keep (should_include x) (stable_sort by_start sessions))
        × AreSeparate x (worklog_groups x sessions)
  unfolding worklog_groups
  worklog_groups-flatten sessions = (
    flatten-groups (stable_sort by_start sessions),
    AreSeparate-groups (stable_sort by_start sessions),
  )
