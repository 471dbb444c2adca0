-- ===== src/Redis/Silent.antt =====
-- pkg/redis/redis.go: the lock commands, the tables and the events.
use ridesharing.Prelude.{ℕ, zero, suc, ◌≡◌, arith}
use ridesharing.Database.{actions, Env, World}
use ridesharing.Redis.{DistLock, acquire, release, acquire_with_retry}

module _ {Float : Type 0} (env : Env) (l : DistLock) where
  abbrev Silent : World Float → World Float → Type 0
  Silent w w' = (w'.tables ≡ w.tables) × (w'.events ≡ w.events)

  pub acquire-Silent : (w : World Float) → Silent w (acquire env l w).1
  unfolding actions acquire
  acquire-Silent w = ground arith

  pub release-Silent : (w : World Float) → Silent w (release env l w).1
  unfolding actions release
  release-Silent w = ground arith

  pub acquire_with_retry-Silent :
      (n : ℕ) (w : World Float) → Silent w (acquire_with_retry env l n w).1
  unfolding actions acquire_with_retry
  acquire_with_retry-Silent zero w = ground arith
  acquire_with_retry-Silent (suc n) w =
      ground (arith, acquire-Silent w, acquire_with_retry-Silent n (acquire env l w).1)
