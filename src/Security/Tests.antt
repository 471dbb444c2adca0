-- ===== src/Security/Tests.antt =====
-- pkg/security on small inputs: three attempts, a lock of 60, and two requests in a window of 10.
use ridesharing.Prelude.{
  suc, ◌≤◌, ◌+◌, ◌≡◌, ◌↔◌, refl, arith, true, some, none, List, [], ◌∷◌, length,
}
use ridesharing.Security.{Limits, RateLimit, Users, no_attempts, is_locked}
use ridesharing.Security.Run.{
  Attempt, failure, success, check, sweep, run, account_run, run-account,
}
use ridesharing.Security.Lockout.{counted, last_time, lockout_iff}
use ridesharing.Security.Windows.{Event, request, drop_old, requests, min, admitted, window_quota}

abbrev limits : Limits
limits = record { max_fails = 3; lock_dur = 60 }

abbrev logins : List Attempt
logins =
    failure 10 "ann" ∷ success "bob" ∷ failure 20 "ann" ∷ check 25 "bob" ∷ failure 30 "ann" ∷ []

run-account_example : run limits logins no_attempts "ann" ≡ account_run limits "ann" logins none
run-account_example = run-account limits "ann" logins no_attempts

-- A check while the lock holds, and a cleanup of the lock that has run out; then three more failures.
abbrev locked_twice : List Attempt
locked_twice =
    failure 10 "ann"
    ∷ success "bob"
    ∷ failure 20 "ann"
    ∷ failure 30 "ann"
    ∷ check 40 "ann"
    ∷ sweep 100
    ∷ failure 110 "ann"
    ∷ failure 120 "ann"
    ∷ check 121 "ann"
    ∷ failure 130 "ann"
    ∷ []

counted-locked_twice : counted limits "ann" locked_twice [] ≡ 130 ∷ 120 ∷ 110 ∷ []
unfolding counted
counted-locked_twice = refl

lockout_iff_example :
    ((is_locked limits 140 "ann" (run limits locked_twice no_attempts)).0 ≡ true) ↔ (
      (3 ≤ length (counted limits "ann" locked_twice []))
      × (140 ≤ last_time (counted limits "ann" locked_twice []) + 60))
lockout_iff_example = lockout_iff limits "ann" locked_twice 140 (omega arith)

abbrev rate : RateLimit
rate = record { max_reqs = 2; window = 10 }

abbrev events : List Event
events = request 3 3 (some 7) ∷ request 4 4 (some 8) ∷ drop_old 5 ∷ request 9 9 (some 7) ∷ []

abbrev no_users : Users
no_users x = none

window_quota_example :
    admitted rate 7 (request 1 1 (some 7) ∷ events) no_users ≡ min (suc (requests 7 events)) 2
window_quota_example =
    window_quota rate 7 events no_users 1 1 tt
      (omega arith, (omega arith, (omega arith, (omega arith, tt))))
