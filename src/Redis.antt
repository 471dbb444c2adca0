-- ===== src/Redis.antt =====
-- pkg/redis/redis.go: the distributed lock, SETNX with a time to live and compare-and-delete.
pub mod Silent
pub mod Exclusion
pub mod Retry
mod Tests
use Prim.Native.String.{◌++◌}
use ridesharing.Prelude.{
  ℕ, zero, suc, ◌+◌, String, Bool, true, false, ◌&&◌, Option, none, some, List, [], ◌∷◌, ltb, ◌==◌,
  same_text, if◌then◌else◌,
}
use ridesharing.Errors.{wrapped, ok, err}
use ridesharing.Models.{Uuid, Time}
use ridesharing.Database.{Env, Lease, World, Action, pure, ◌>>=◌, map_err, tick}

pub record DistLock : Type 0 where
  pub key : String
  pub value : Uuid
  pub ttl : ℕ

-- GET: the value of a key that has not expired.
unfoldable pub get : String → Time → List Lease → Option Uuid
get k now [] = none
get k now (l ∷ ls) =
    if same_text l.key k && ltb now l.expires_at then some l.value else get k now ls

-- DEL.
unfoldable pub delete : String → List Lease → List Lease
delete k [] = []
delete k (l ∷ ls) = if same_text l.key k then delete k ls else l ∷ delete k ls

-- SET key value NX PX ttl.
abbrev pub set_nx : DistLock → Time → List Lease → Bool × List Lease
set_nx l now leases = elim (get l.key now leases) [
  | some _ ↦ (false, leases)
  | none ↦ (
    true,
    record { key = l.key; value = l.value; expires_at = now + l.ttl } ∷ delete l.key leases,
  )
]

-- The Lua script of `Release`.
abbrev pub compare_and_delete : DistLock → Time → List Lease → Unit {0} × List Lease
compare_and_delete l now leases = elim (get l.key now leases) [
  | none ↦ (tt, leases)
  | some v ↦ (tt, if v == l.value then delete l.key leases else leases)
]

module _ {Float : Type 0} (env : Env) where
  -- A command that the server runs at once, at the time of the clock.
  pub command : {A : Type 0} → (Time → List Lease → A × List Lease) → Action Float A
  command run w = elim (env.fault w.trips) [
    | some e ↦ (err e, tick w)
    | none ↦
        let (a, leases) = run (env.now w.trips) w.leases in
        (ok a, record (tick w) { leases = leases })
  ]

  -- `NewDistLock`; the value is unique for each holder.
  unfoldable pub new_dist_lock : String → ℕ → World Float → DistLock
  new_dist_lock key ttl w = record { key = "lock:" ++ key; value = env.fresh w.trips; ttl = ttl }

  -- `Acquire`.
  unfoldable pub acquire : DistLock → Action Float Bool
  unfolding command
  acquire l = map_err (wrapped "acquire lock") (command (set_nx l))

  -- `Release`.
  unfoldable pub release : DistLock → Action Float (Unit {0})
  unfolding command
  release l = map_err (wrapped "release lock") (command (compare_and_delete l))

  -- The `select` of the retry loop: the context is done, or the backoff has passed.
  abbrev wait_retry : Action Float (Unit {0})
  wait_retry w = elim (env.done w.trips) [ some e ↦ (err e, w) | none ↦ (ok tt, w) ]

  -- `AcquireWithRetry`.
  unfoldable pub acquire_with_retry : DistLock → ℕ → Action Float Bool
  unfolding acquire
  acquire_with_retry l zero = pure false
  acquire_with_retry l (suc n) =
      let retry : Action Float Bool = wait_retry >>= λ _. acquire_with_retry l n in
      acquire l >>= λ acquired. if acquired then pure true else retry
