-- ===== src/User.antt =====
-- models/user.go: the fields of a user that the modelled code reads, and what is computed from them.
-- The clock, the server's configuration and third-party checks are arguments.
use wakapi.Base.{
  ◌≡◌, Bool, true, false, not, ◌&&◌, ◌||◌, Option, none, some, Text, if◌then◌else◌, ℤ, pos, ◌-ℤ◌,
  ◌*ℤ◌, ltb_ℤ, eqb_ℤ, length, leb, codes, text_eq, any, ◌==◌, arith,
}

pub record User : Type 0 where
  pub id : Text
  pub email : Text
  pub location : Text
  pub start_of_week : ℤ
  pub share_data_max_days : ℤ
  pub share_editors : Bool
  pub share_languages : Bool
  pub share_projects : Bool
  pub share_oss : Bool
  pub share_machines : Bool
  pub share_labels : Bool
  pub has_data : Bool
  pub public_leaderboard : Bool
  pub subscribed_until : Option ℤ
  pub exclude_unknown_projects : Bool
  pub heartbeats_timeout_sec : ℤ

-- `10 * time.Minute` in nanoseconds.
abbrev pub default_heartbeats_timeout : ℤ
default_heartbeats_timeout = pos 600000000000

unfoldable pub heartbeats_timeout : User → ℤ
heartbeats_timeout u =
    if ltb_ℤ (pos 0) u.heartbeats_timeout_sec
    then u.heartbeats_timeout_sec *ℤ pos 1000000000
    else default_heartbeats_timeout

-- The weekday, with the user that the method corrects.
unfoldable pub start_of_week_day : User → ℤ × User
start_of_week_day u =
    if ltb_ℤ u.start_of_week (pos 0) || ltb_ℤ (pos 6) u.start_of_week
    then (pos 1, record u { start_of_week = pos 1 })
    else (u.start_of_week, u)

unfoldable pub has_active_subscription_strict : (now : ℤ) → User → Bool
has_active_subscription_strict now u = elim u.subscribed_until [
  | none ↦ false
  | some until ↦ ltb_ℤ now until
]

unfoldable pub has_active_subscription : (enabled : Bool) (now : ℤ) → User → Bool
unfolding has_active_subscription_strict
has_active_subscription enabled now u = enabled && has_active_subscription_strict now u

-- `99 * 365 * 24 * time.Hour`
abbrev pub long_ago : ℤ
long_ago = pos 3122064000000000000

unfoldable pub subscription_expired_since : (enabled : Bool) (now : ℤ) → User → Bool × ℤ
subscription_expired_since enabled now u =
    if not enabled then (false, pos 0) else (elim u.subscribed_until [
      | none ↦ (true, long_ago)
      | some until ↦ (not (ltb_ℤ (now -ℤ until) (pos 0)), now -ℤ until)
    ])

unfoldable pub any_data_shared : User → Bool
any_data_shared u =
    not (eqb_ℤ u.share_data_max_days (pos 0))
    && (u.share_editors || u.share_languages || u.share_projects || u.share_oss || u.share_machines
        || u.share_labels)

unfoldable pub validate_username : Text → Bool
unfolding any
validate_username name =
    leb 1 (length name) && not (text_eq name (codes "current")) && not (any (λ c. c == b' ') name)

unfoldable pub validate_password : Text → Bool
validate_password password = leb 6 (length password)

unfoldable pub validate_start_of_week : ℤ → Bool
validate_start_of_week day = not (ltb_ℤ day (pos 0)) && not (ltb_ℤ (pos 6) day)

-- When subscriptions are enabled, a user's subscription counts as expired exactly when it is not
-- active.
expired-iff-inactive :
    (now : ℤ) (u : User)
    → (subscription_expired_since true now u).0 ≡ not (has_active_subscription true now u)
unfolding subscription_expired_since has_active_subscription ◌-ℤ◌
expired-iff-inactive now u = ground arith
