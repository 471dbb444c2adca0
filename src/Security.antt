-- ===== src/Security.antt =====
-- pkg/security/security.go: locking an account after failed logins, and a limit on each user's
-- requests. Each operation holds a mutex for its whole run. A map is a function; counters stay far
-- below the largest int.
pub mod Run
pub mod Lockout
pub mod Windows
mod Tests
use ridesharing.Prelude.{
  ℕ, suc, ◌+◌, ◌-◌, String, Bool, true, false, ◌&&◌, Option, none, some, ltb, leb, ◌==◌, same_text,
  if◌then◌else◌,
}
use ridesharing.Models.{Uuid, Time}

-- The struct `attemptInfo`; the zero time is `none`.
pub record AttemptInfo : Type 0 where
  pub fail_count : ℕ
  pub locked_at : Option Time

-- The settings of a `LoginAttemptTracker`, and its map.
pub record Limits : Type 0 where
  pub max_fails : ℕ
  pub lock_dur : ℕ

abbrev pub Attempts : Type 0
Attempts = String → Option AttemptInfo

-- `NewLoginAttemptTracker`.
abbrev pub no_attempts : Attempts
no_attempts email = none

abbrev pub put : String → Option AttemptInfo → Attempts → Attempts
put email info attempts x = if same_text x email then info else attempts x

module _ (t : Limits) where
  -- `!info.lockedAt.IsZero() && now.Sub(info.lockedAt) > t.lockDur`.
  abbrev pub is_expired : Time → Option AttemptInfo → Bool
  is_expired now none = false
  is_expired now (some info) = elim info.locked_at [
    | none ↦ false
    | some at ↦ ltb (at + t.lock_dur) now
  ]

  -- `IsLocked`.
  unfoldable pub is_locked : Time → String → Attempts → Bool × Attempts
  is_locked now email attempts = elim (attempts email) [
    | none ↦ (false, attempts)
    | some info ↦
        if is_expired now (some info)
        then (false, put email none attempts)
        else (leb t.max_fails info.fail_count, attempts)
  ]

  -- The entry that `RecordFailure` leaves.
  abbrev pub failed : Time → Option AttemptInfo → AttemptInfo
  failed now none =
      if leb t.max_fails 1
      then record { fail_count = 1; locked_at = some now }
      else record { fail_count = 1; locked_at = none }
  failed now (some info) =
      if leb t.max_fails (suc info.fail_count)
      then record { fail_count = suc info.fail_count; locked_at = some now }
      else record info { fail_count = suc info.fail_count }

  -- `RecordFailure`; true if the account is now locked.
  unfoldable pub record_failure : Time → String → Attempts → Bool × Attempts
  record_failure now email attempts =
      let info = failed now (attempts email) in
      (leb t.max_fails info.fail_count, put email (some info) attempts)

  -- `RecordSuccess`.
  unfoldable pub record_success : String → Attempts → Attempts
  record_success email attempts = put email none attempts

  -- `RemainingAttempts`.
  unfoldable pub remaining_attempts : String → Attempts → ℕ
  remaining_attempts email attempts = elim (attempts email) [
    | none ↦ t.max_fails
    | some info ↦ t.max_fails - info.fail_count
  ]

  -- One pass of `cleanup`.
  unfoldable pub cleanup : Time → Attempts → Attempts
  cleanup now attempts email = if is_expired now (attempts email) then none else attempts email

-- The struct `userWindow`.
pub record UserWindow : Type 0 where
  pub count : ℕ
  pub reset_at : Time

-- The settings of a `UserRateLimiter`. The key of its map is the text of the user's id.
pub record RateLimit : Type 0 where
  pub max_reqs : ℕ
  pub window : ℕ

abbrev pub Users : Type 0
Users = Uuid → Option UserWindow

module _ (rl : RateLimit) where
  -- The window that a request falls into: the stored one, or a new one, with a second reading of the
  -- clock.
  abbrev pub current_window : Time → Time → Option UserWindow → UserWindow
  current_window now later none = record { count = 0; reset_at = later + rl.window }
  current_window now later (some w) =
      if ltb w.reset_at now then record { count = 0; reset_at = later + rl.window } else w

  abbrev pub count_request : UserWindow → UserWindow
  count_request w = record w { count = suc w.count }

  -- The middleware: whether the request goes on, how many requests the user has left, and the map. A
  -- request without a user is not limited, and gets no header.
  unfoldable pub limit : Time → Time → Option Uuid → Users → (Bool × Option ℕ) × Users
  limit now later none users = ((true, none), users)
  limit now later (some user) users =
      let w = count_request (current_window now later (users user)) in
      (
        (leb w.count rl.max_reqs, some (rl.max_reqs - w.count)),
        λ x. if x == user then some w else users x,
      )

  -- One pass of `cleanup`.
  unfoldable pub drop_windows : Time → Users → Users
  drop_windows now users x = elim (users x) [
    | none ↦ none
    | some w ↦ if ltb w.reset_at now then none else some w
  ]
