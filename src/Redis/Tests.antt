-- ===== src/Redis/Tests.antt =====
-- pkg/redis with two holders of one key.
use ridesharing.Prelude.{false, ℕ, ◌+◌, ◌<◌, ◌≡◌, refl, none, some, List, [], ◌∷◌, arith}
use ridesharing.Security.{no_attempts}
use ridesharing.Database.{Env, Lease, World}
use ridesharing.Redis.{DistLock, get, set_nx, acquire_with_retry}
use ridesharing.Redis.Exclusion.{Command, take_lock, give_back, run, taken, lock_exclusive}
use ridesharing.Redis.Retry.{Attempted, acquire_with_retry_lem}

abbrev mine : DistLock
mine = record { key = "lock:ride:match"; value = 1; ttl = 50 }

abbrev theirs : DistLock
theirs = record { key = "lock:ride:match"; value = 2; ttl = 50 }

abbrev commands : List Command
commands = take_lock theirs 20 ∷ give_back theirs 30 ∷ []

lock_exclusive_example :
    (taken "lock:ride:match" commands (set_nx mine 10 []).1 ≡ 0)
    × ((now : ℕ)
        → now < 10 + 50
        → get "lock:ride:match" now (run commands (set_nx mine 10 []).1) ≡ some 1)
unfolding get
lock_exclusive_example =
    lock_exclusive mine 10 [] commands refl
      (((omega arith), omega arith), (((omega arith), omega arith), tt))

abbrev held : List Lease
held = record { key = "lock:ride:match"; value = 1; expires_at = 60 } ∷ []

abbrev env : Env
env = record {
  fault = λ n. none;
  carried_out = λ n. false;
  now = λ n. n;
  fresh = λ n. n;
  done = λ n. none;
}

abbrev world : World ℕ
world = record {
  tables = record { users = []; drivers = []; rides = []; locations = []; payments = [] };
  trips = 0;
  leases = held;
  events = [];
  captured = [];
  attempts = no_attempts;
}

acquire_with_retry_lem_example : Attempted env mine 3 world (acquire_with_retry env mine 3 world)
acquire_with_retry_lem_example = acquire_with_retry_lem env mine 3 world
