-- ===== src/CodexTaskService/Keys.antt =====
-- services/codex_task_service.go: the keys of worklogs, which tell the chat, the day and the project.
use wakapi.Base.{
  ℕ, zero, suc, ◌+◌, ◌-◌, ◌≤◌, ◌<◌, Bool, true, false, ◌&&◌, ◌||◌, List, [], ◌∷◌, ◌++◌, Text, codes,
  text_eq, is_empty, if◌then◌else◌, ltb, leb, ◌==◌, length, length-append, arith, Bool-cases, inl,
  inr,
}
use wakapi.Collections.{take}
use wakapi.CodexTaskService.{CodexTaskSession, CodexText}

-- `strings.Split(s, ":")`
unfoldable pub split_colons : (part : Text) → Text → List Text
split_colons part [] = part ∷ []
split_colons part (c ∷ cs) = elim (c == b':') [
  | true ↦ part ∷ split_colons [] cs
  | false ↦ split_colons (part ++ c ∷ []) cs
]

-- `strings.TrimLeft`, `strings.TrimRight` and `strings.Trim` of one character.
unfoldable pub trim_left : ℕ → Text → Text
trim_left d [] = []
trim_left d (c ∷ cs) = let rest = trim_left d cs in if c == d then rest else c ∷ cs

unfoldable pub trim_right : ℕ → Text → Text
trim_right d [] = []
trim_right d (c ∷ cs) =
    let rest = trim_right d cs in if is_empty rest && c == d then [] else c ∷ rest

unfoldable pub trim_char : ℕ → Text → Text
unfolding trim_left trim_right
trim_char d t = trim_right d (trim_left d t)

unfoldable pub is_allowed : ℕ → Bool
is_allowed c =
    leb b'a' c && leb c b'z'
    || leb b'A' c && leb c b'Z'
    || leb b'0' c && leb c b'9'
    || c == b'-'
    || c == b'_'
    || c == b'.'

-- Each run of other bytes becomes one dash; no byte of a rune beyond ASCII is allowed.
unfoldable pub dashed : (previous_dash : Bool) → Text → Text
unfolding is_allowed
dashed previous_dash [] = []
dashed previous_dash (c ∷ cs) =
    let kept = c ∷ dashed false cs in
    let first = b'-' ∷ dashed true cs in
    let again = dashed true cs in
    if is_allowed c then kept else if previous_dash then again else first

unfoldable pub shortened_part : CodexText → (max : ℕ) → Text → Text
unfolding trim_char take
shortened_part x max cleaned =
    let suffix = b'-' ∷ x.short_hash cleaned in
    if ltb 0 max && ltb max (length cleaned)
    then if ltb (length suffix) max
      then trim_char b'-' (take (max - length suffix) cleaned) ++ suffix
      else trim_char b'-' (take max cleaned)
    else cleaned

unfoldable pub safe_external_key_part : CodexText → (max : ℕ) → Text → Text
unfolding dashed trim_char shortened_part
safe_external_key_part x max value =
    let cleaned = trim_char b'-' (dashed false (x.trim value)) in
    shortened_part x max (if is_empty cleaned then codes "unknown" else cleaned)

unfoldable pub shorten_external_key : CodexText → (max : ℕ) → Text → Text
unfolding trim_right take
shorten_external_key x max value =
    let suffix = b':' ∷ x.short_hash value in
    if max == 0 || leb (length value) max
    then value
    else if ltb (length suffix) max
    then trim_right b':' (take (max - length suffix) value) ++ suffix
    else x.short_hash value

-- The installation and the chat. EqualFold is by lower case, since "codex" is ASCII.
unfoldable pub chat_external_key_parts : CodexText → Text → Text × Text
unfolding split_colons safe_external_key_part
chat_external_key_parts x key = elim (split_colons [] (x.trim key)) [
  | a ∷ b ∷ c ∷ d ∷ rest ↦
      if text_eq (x.to_lower a) (codes "codex")
      then (safe_external_key_part x 64 b, safe_external_key_part x 96 c)
      else (codes "external", safe_external_key_part x 96 key)
  | _ ↦ (codes "external", safe_external_key_part x 96 key)
]

unfoldable pub full_group_key : CodexText → CodexTaskSession → Text
unfolding chat_external_key_parts safe_external_key_part
full_group_key x s =
    let (installation, chat) = chat_external_key_parts x s.external_key in
    codes "codex:chat:"
    ++ (installation
        ++ (codes ":"
            ++ (chat
                ++ (codes ":"
                    ++ (x.day s.started_at
                        ++ (codes ":" ++ safe_external_key_part x 64 s.project))))))

unfoldable pub worklog_group_key : CodexText → CodexTaskSession → Text
unfolding full_group_key shorten_external_key
worklog_group_key x s = shorten_external_key x 240 (full_group_key x s)

pub length-take-le : (n : ℕ) (t : Text) → length (take n t) ≤ n
unfolding take
length-take-le zero t = omega arith
length-take-le (suc n) [] = omega arith
length-take-le (suc n) (c ∷ cs) = omega (arith, length-take-le n cs)

length-trim_left-le : (d : ℕ) (t : Text) → length (trim_left d t) ≤ length t
unfolding trim_left
length-trim_left-le d [] = omega arith
length-trim_left-le d (c ∷ cs) = ground (arith, length-trim_left-le d cs)

length-trim_right-le : (d : ℕ) (t : Text) → length (trim_right d t) ≤ length t
unfolding trim_right
length-trim_right-le d [] = omega arith
length-trim_right-le d (c ∷ cs) = ground (arith, length-trim_right-le d cs)

length-trim_char-le : (d : ℕ) (t : Text) → length (trim_char d t) ≤ length t
unfolding trim_char
length-trim_char-le d t =
    omega (arith, length-trim_left-le d t, length-trim_right-le d (trim_left d t))

length-cut-le :
    (cut : Text → Text) (n max : ℕ) (t suffix : Text)
    → ((u : Text) → length (cut u) ≤ length u)
    → n + length suffix ≤ max
    → length (cut (take n t) ++ suffix) ≤ max
length-cut-le cut n max t suffix h k =
    omega (arith, length-append (cut (take n t)) suffix, h (take n t), length-take-le n t, k)

pub length-shortened_part :
    (x : CodexText) (max : ℕ) (t : Text) → 0 < max → length (shortened_part x max t) ≤ max
unfolding shortened_part
length-shortened_part x max t p =
    let suffix = b'-' ∷ x.short_hash t in
    elim (Bool-cases (ltb 0 max && ltb max (length t))) [
      | inl e ↦ elim (Bool-cases (ltb (length suffix) max)) [
        | inl f ↦
            rw (e, f)
              (length-cut-le (trim_char b'-') (max - length suffix) max t suffix
                (length-trim_char-le b'-') (ground (arith, f)))
        | inr f ↦
            rw (e, f) (omega (arith, length-trim_char-le b'-' (take max t), length-take-le max t))
      ]
      | inr e ↦ rw e (ground (arith, e))
    ]

pub length-shorten_external_key :
    (x : CodexText) (max : ℕ) (t : Text)
    → length (x.short_hash t) ≤ 12
    → 13 ≤ max
    → length (shorten_external_key x max t) ≤ max
unfolding shorten_external_key
length-shorten_external_key x max t h p =
    let suffix = b':' ∷ x.short_hash t in
    elim (Bool-cases (max == 0 || leb (length t) max)) [
      | inl e ↦ rw e (ground (arith, e, p))
      | inr e ↦ elim (Bool-cases (ltb (length suffix) max)) [
        | inl f ↦
            rw (e, f)
              (length-cut-le (trim_right b':') (max - length suffix) max t suffix
                (length-trim_right-le b':') (ground (arith, f)))
        | inr f ↦ rw (e, f) (omega (arith, h, p))
      ]
    ]
