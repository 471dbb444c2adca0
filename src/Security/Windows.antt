-- ===== src/Security/Windows.antt =====
-- pkg/security/security.go: how many requests of a user `UserRateLimiter` lets through.
use ridesharing.Prelude.{
  ℕ, suc, ◌+◌, ◌-◌, ◌≤◌, ◌<◌, ◌≡◌, refl, Bool, false, Option, none, some, List, [], ◌∷◌, arith, All,
  if◌then◌else◌, leb, ◌==◌, ==_iff, ==-refl, Bool-cases, inl, inr,
}
use ridesharing.Models.{Uuid, Time}
use ridesharing.Security.{RateLimit, UserWindow, Users, limit, drop_windows}

-- A request, with its two readings of the clock, or a pass of the cleanup.
pub data Event : Type 0 where
  request : Time → Time → Option Uuid → Event
  drop_old : Time → Event

abbrev pub time_of : Event → Time
time_of (request now later user) = now
time_of (drop_old now) = now

abbrev pub is_by : Uuid → Option Uuid → Bool
is_by x none = false
is_by x (some user) = x == user

-- How many requests of the user there are.
unfoldable pub requests : Uuid → List Event → ℕ
requests x [] = 0
requests x (request now later user ∷ es) =
    let rest = requests x es in if is_by x user then suc rest else rest
requests x (drop_old now ∷ es) = requests x es

abbrev pub min : ℕ → ℕ → ℕ
min a b = if leb a b then a else b

module _ (rl : RateLimit) where
  -- How many of them go on.
  unfoldable pub admitted : Uuid → List Event → Users → ℕ
  admitted x [] users = 0
  admitted x (request now later user ∷ es) users =
      let (verdict, users') = limit rl now later user users in
      let rest = admitted x es users' in
      if is_by x user then (if verdict.0 then suc rest else rest) else rest
  admitted x (drop_old now ∷ es) users = admitted x es (drop_windows rl now users)

  in_window :
      (x : Uuid) (es : List Event) (users : Users) (w : UserWindow)
      → users x ≡ some w
      → All (λ e. time_of e ≤ w.reset_at) es
      → admitted x es users ≡ min (requests x es) (rl.max_reqs - w.count)
  unfolding admitted requests limit drop_windows
  in_window x [] users w live h = ground arith
  in_window x (request now later none ∷ es) users w live h = in_window x es users w live h.1
  in_window x (request now later (some user) ∷ es) users w live h = elim (Bool-cases (x == user)) [
    | inl own ↦ ground (
      arith,
      ==_iff x user,
      in_window x es (limit rl now later (some user) users).1 (record w { count = suc w.count })
          (ground arith) h.1,
    )
    | inr foreign ↦
        ground (arith, in_window x es (limit rl now later (some user) users).1 w (ground arith) h.1)
  ]
  in_window x (drop_old now ∷ es) users w live h =
      in_window x es (drop_windows rl now users) w (ground arith) h.1

  -- A user whose window is over, or who has none.
  abbrev pub Idle : Time → Option UserWindow → Type 0
  Idle now none = Unit
  Idle now (some w) = w.reset_at < now

  opened :
      (x : Uuid) (users : Users) (now later : Time) (info : Option UserWindow)
      → users x ≡ info
      → Idle now info
      → (limit rl now later (some x) users).1 x
        ≡ some (record { count = 1; reset_at = later + rl.window })
  unfolding limit
  opened x users now later none same idle = ground (arith, ==-refl x)
  opened x users now later (some w) same idle = ground (arith, ==-refl x)

  first_allowed :
      (x : Uuid) (users : Users) (now later : Time) (info : Option UserWindow)
      → users x ≡ info
      → Idle now info
      → (limit rl now later (some x) users).0.0 ≡ leb 1 rl.max_reqs
  unfolding limit
  first_allowed x users now later none same idle = ground (arith, ==-refl x)
  first_allowed x users now later (some w) same idle = ground (arith, ==-refl x)

  -- A request of a user without a running window opens one, and until it is over, with any requests of
  -- others and passes of the cleanup between, exactly as many requests of the user go on as there
  -- are, but `maxReqs` at most.
  pub window_quota :
      (x : Uuid) (es : List Event) (users : Users) (now later : Time)
      → Idle now (users x)
      → All (λ e. time_of e ≤ later + rl.window) es
      → admitted x (request now later (some x) ∷ es) users ≡ min (suc (requests x es)) rl.max_reqs
  unfolding admitted
  window_quota x es users now later idle h = ground (
    arith,
    ==-refl x,
    first_allowed x users now later (users x) refl idle,
    in_window x es (limit rl now later (some x) users).1
        (record { count = 1; reset_at = later + rl.window })
        (opened x users now later (users x) refl idle) h,
  )
