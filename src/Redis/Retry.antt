-- ===== src/Redis/Retry.antt =====
-- pkg/redis/redis.go: `AcquireWithRetry`.
use mathlib.Core.Path.{subst}
use ridesharing.Prelude.{
  ℕ, zero, suc, ◌+◌, ◌≤◌, ◌≡◌, refl, Bool, true, false, Option, none, some, List, arith, ◌∙◌,
}
use ridesharing.Models.{Time}
use ridesharing.Errors.{Error, Result, ok, err}
use ridesharing.Database.{actions, Env, World, Lease}
use ridesharing.Redis.{DistLock, set_nx, acquire, acquire_with_retry}

-- A SETNX that took the lock at that time left these leases.
abbrev pub Took : DistLock → List Lease → Type 0
Took l after = (t : Time) × (before : List Lease) × (set_nx l t before ≡ (true, after))

module _ {Float : Type 0} (env : Env) (l : DistLock) where
  abbrev pub Attempted : ℕ → World Float → Result Bool × World Float → Type 0
  Attempted n w o =
      (o.1.trips ≤ w.trips + n)
      × (o.1.tables ≡ w.tables)
      × (o.0 ≡ ok true → Took l o.1.leases)
      × (o.0 ≡ ok false → (o.1.trips ≡ w.trips + n) × (o.1.leases ≡ w.leases))

  -- The first round trip of an attempt.
  abbrev tried : World Float → Bool × List Lease
  tried w = set_nx l (env.now w.trips) w.leases

  acquire_cases :
      (w : World Float) (r : Result Bool) (w' : World Float)
      → acquire env l w ≡ (r, w')
      → (w'.trips ≡ suc w.trips)
        × (w'.tables ≡ w.tables)
        × (r ≡ ok true → tried w ≡ (true, w'.leases))
        × (r ≡ ok false → w'.leases ≡ w.leases)
  unfolding actions acquire
  acquire_cases w r w' h = ground arith

  after_wait : ℕ → World Float → Option Error → Result Bool × World Float
  after_wait n w (some e) = (err e, w)
  after_wait n w none = acquire_with_retry env l n w

  -- What `AcquireWithRetry` does after an attempt, with n attempts left.
  next : ℕ → Result Bool × World Float → Result Bool × World Float
  next n (ok true, w) = (ok true, w)
  next n (ok false, w) = after_wait n w (env.done w.trips)
  next n (err e, w) = (err e, w)

  acquire_with_retry-next :
      (n : ℕ) (w : World Float) → next n (acquire env l w) ≡ acquire_with_retry env l (suc n) w
  unfolding actions acquire_with_retry next after_wait
  acquire_with_retry-next n w = ground arith

  longer :
      (n : ℕ) (w w' : World Float) (o : Result Bool × World Float)
      → w'.trips ≡ suc w.trips
      → w'.tables ≡ w.tables
      → w'.leases ≡ w.leases
      → Attempted n w' o
      → Attempted (suc n) w o
  longer n w w' (r, w₂) trips tables leases h = (
    omega (arith, h.0),
    h.1 ∙ tables,
    h.2,
    λ lost. (omega (arith, (h.3 lost).0), (h.3 lost).1 ∙ leases),
  )

  retried :
      (n : ℕ) (w w' : World Float)
      → w'.trips ≡ suc w.trips
      → w'.tables ≡ w.tables
      → w'.leases ≡ w.leases
      → Attempted n w' (acquire_with_retry env l n w')
      → Attempted (suc n) w (next n (ok false, w'))
  unfolding next after_wait
  retried n w w' trips tables leases h = waited (env.done w'.trips)
    where
      waited : (d : Option Error) → Attempted (suc n) w (after_wait n w' d)
      waited none = longer n w w' (acquire_with_retry env l n w') trips tables leases h
      waited (some e) = (omega (arith, trips), tables, (λ c. cc c), λ c. cc c)

  -- `AcquireWithRetry` makes at most as many attempts as it is allowed and changes no table; when it
  -- returns true, a SETNX has taken the lock and left the leases as they now are; and when it returns
  -- false, every attempt was made and no lease has changed.
  pub acquire_with_retry_lem :
      (n : ℕ) (w : World Float) → Attempted n w (acquire_with_retry env l n w)
  unfolding actions acquire_with_retry next after_wait
  acquire_with_retry_lem zero w = (omega arith, refl, (λ e. cc e), λ e. (omega arith, refl))
  acquire_with_retry_lem (suc n) w =
      subst (Attempted (suc n) w) (acquire_with_retry-next n w)
        (attempt (λ v. acquire_with_retry_lem n v) (acquire env l w) refl)
    where
      attempt :
          ((v : World Float) → Attempted n v (acquire_with_retry env l n v))
          → (o : Result Bool × World Float) → acquire env l w ≡ o
          → Attempted (suc n) w (next n o)
      attempt again (ok true, w') same =
          let f = acquire_cases w (ok true) w' same in
          (omega (arith, f.0), f.1, (λ e. (env.now w.trips, w.leases, f.2 refl)), λ e. cc e)
      attempt again (err e, w') same =
          let f = acquire_cases w (err e) w' same in
          (omega (arith, f.0), f.1, (λ c. cc c), λ c. cc c)
      attempt again (ok false, w') same =
          let f = acquire_cases w (ok false) w' same in retried n w w' f.0 f.1 (f.3 refl) (again w')
