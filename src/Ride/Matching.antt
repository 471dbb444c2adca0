-- ===== src/Ride/Matching.antt =====
-- internal/ride/service.go: the service, its events, and matching a ride with the nearest driver.
use ridesharing.Prelude.{
  ℕ, String, Bool, not, ◌&&◌, Option, none, some, List, [], ◌∷◌, ◌++◌, if◌then◌else◌,
}
use ridesharing.Errors.{plain, wrapped, Result, ok}
use ridesharing.Models.{Ride, NearbyDriver, matched}
use ridesharing.Floats.{Float64}
use ridesharing.Database.{Env, Action, pure, ◌>>=◌, ◌>>◌, fail_if, map_err, tick, with_tx}
use ridesharing.Redis.{DistLock, new_dist_lock, acquire_with_retry, release}
use ridesharing.Ride.Surge.{SurgeEngine}
use ridesharing.Ride.Repository.{update_status}

-- 5*time.Second, in nanoseconds.
abbrev pub lock_ttl : ℕ
lock_ttl = 5_000_000_000

module _ (F : Float64) where
  open F use {Float, of_int}

  -- The struct `Service`: its surge engine, whether the producer and the Redis client are there, and
  -- the location service, whose answers depend on the number of round trips made before the call.
  pub record Service : Type 0 where
    pub surge : SurgeEngine F
    pub producer : Bool
    pub rdb : Bool
    pub nearby_drivers : ℕ → Float → Float → Float → Result (List (NearbyDriver Float))
    pub active_driver_count : ℕ → Float → Float → Float → Result ℕ
    -- json.Marshal of an event succeeds
    pub can_marshal : String → Ride Float → Bool

  module _ (env : Env) (s : Service) where
    -- A call of the location service.
    abbrev pub call : {A : Type 0} → (ℕ → Result A) → Action Float A
    call answer w = (answer w.trips, tick w)

    -- `publishEvent`: the event is marshalled at once and handed to the producer.
    unfoldable pub publish_event : String → Ride Float → Action Float (Unit {0})
    publish_event event ride w =
        if s.producer && s.can_marshal event ride
        then (
          ok tt,
          record w {
            events =
                w.events
                ++ (record { event = event; ride = ride; timestamp = env.now w.trips } ∷ []);
          },
        )
        else (ok tt, w)

    -- `defer lock.Release(ctx)`: whatever the body returns, the lock is released, and an error of the
    -- release is dropped.
    abbrev pub releasing : {A : Type 0} → DistLock → Action Float A → Action Float A
    releasing lock body w = let (r, w') = body w in (r, (release env lock w').1)

    -- `matchDriver` once the drivers are known. The ride comes back as the code leaves it.
    unfoldable pub choose_nearest :
        Ride Float
        → List (NearbyDriver Float)
        → Action Float (Option (NearbyDriver Float) × Ride Float)
    choose_nearest ride [] = pure (none, ride)
    choose_nearest ride (nearest ∷ _) =
        let ride' = record ride { status = matched; driver_id = some nearest.driver_id } in
        map_err (wrapped "update ride status")
          (with_tx env (update_status env ride.id matched (some nearest.driver_id)))
        >> publish_event "ride.matched" ride'
        >> pure (some nearest, ride')

    -- `matchDriver` once the lock is held.
    unfoldable pub assign_nearest :
        Ride Float → Action Float (Option (NearbyDriver Float) × Ride Float)
    assign_nearest ride = do
      drivers ←
          map_err (wrapped "find nearby drivers")
            (call (λ n. s.nearby_drivers n ride.pickup_lat ride.pickup_long (of_int 10)))
      choose_nearest ride drivers

    -- `matchDriver` with the lock that it creates.
    unfoldable pub match_locked :
        DistLock → Ride Float → Action Float (Option (NearbyDriver Float) × Ride Float)
    match_locked lock ride = do
      fail_if (not s.rdb) (plain "redis not available for distributed locking")
      acquired ← map_err (wrapped "acquire matching lock") (acquire_with_retry env lock 3)
      fail_if (not acquired) (plain "could not acquire matching lock")
      releasing lock (assign_nearest ride)

    -- `matchDriver`.
    unfoldable pub match_driver :
        Ride Float → Action Float (Option (NearbyDriver Float) × Ride Float)
    match_driver ride w = match_locked (new_dist_lock env "ride:match" lock_ttl w) ride w
