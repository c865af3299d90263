-- ===== src/Intervals/Names.antt =====
-- helpers/interval.go: each name of an interval is read as that interval.
use wakapi.Base.{
  ◌≡◌, inl, inr, subst, true, List, [], ◌∷◌, some, arith, Text, text_eq, text_eq→eq, Bool-cases,
  any, All,
}
use wakapi.Intervals.{IntervalKey, today, aliases, has_alias, first_with, parse_interval}

-- What holds of each of some texts holds of a text that is one of them.
any_text :
    (P : Text → Type 0) (s : Text) (ts : List Text)
    → any (λ e. text_eq e s) ts ≡ true
    → All P ts
    → P s
unfolding any
any_text P s [] h a = cc
any_text P s (t ∷ ts) h a = elim (Bool-cases (text_eq t s)) [
  | inl e ↦ subst P (text_eq→eq t s e) a.0
  | inr e ↦ any_text P s ts (rw e at h) a.1
]

parse_interval-aliases : (k : IntervalKey) → All (λ e. parse_interval e ≡ some k) (aliases k)
unfolding parse_interval first_with has_alias aliases any text_eq
parse_interval-aliases today = ground arith
parse_interval-aliases _ = ground arith

-- A name of an interval is read as that interval.
pub parse_interval-alias :
    (k : IntervalKey) (s : Text) → has_alias s k ≡ true → parse_interval s ≡ some k
unfolding has_alias
parse_interval-alias k s h =
    any_text (λ e. parse_interval e ≡ some k) s (aliases k) h (parse_interval-aliases k)
