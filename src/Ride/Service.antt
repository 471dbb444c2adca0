-- ===== src/Ride/Service.antt =====
-- internal/ride/service.go: requesting, accepting, completing and cancelling a ride.
pub mod Handlers
pub mod Request
pub mod Success
pub mod Trip
use ridesharing.Prelude.{
  ℕ, suc, ◌*◌, String, Bool, true, false, not, ◌&&◌, ◌||◌, Option, none, some, List, [], ◌∷◌, ◌++◌,
  ◌==◌, if◌then◌else◌,
}
use ridesharing.Errors.{
  Error, plain, wrapped, not_found, bad_request, forbidden, conflict, internal, or_internal,
  error_text, Result, ok, err,
}
use ridesharing.Models.{
  Uuid, Time, Ride, NearbyDriver, RideStatus, requested, matched, enroute, completed, cancelled,
}
use ridesharing.Floats.{Float64}
use ridesharing.Geo.{haversine, estimate_eta, whole_seconds, estimate_fare}
use ridesharing.Database.{
  Env, World, RideEvent, Action, pure, fail, ◌>>=◌, ◌>>◌, fail_if, map_err, attempt, or_zero, tick,
  with_tx,
}
use ridesharing.Redis.{DistLock, new_dist_lock, acquire_with_retry, release}
use ridesharing.Ride.Fsm.{validate_transition}
use ridesharing.Ride.Surge.{SurgeEngine, calculate}
use ridesharing.Ride.Matching.{Service, call, publish_event, match_driver}
use ridesharing.Ride.Repository.{
  same_id, create, get_by_id, get_by_id_for_update, update_status, set_started, set_completed,
  count_active_in_area, get_active_by_rider, get_history, count_by_user,
}

-- 10*time.Minute, in nanoseconds.
abbrev pub demand_window : ℕ
demand_window = 600_000_000_000

abbrev pub is_some : {A : Type 0} → Option A → Bool
is_some none = false
is_some (some a) = true

module _ (F : Float64) where
  open F use {Float, of_int}

  pub record RideRequest : Type 0 where
    pub pickup_lat : Float
    pub pickup_long : Float
    pub dropoff_lat : Float
    pub dropoff_long : Float

  pub record RideResponse : Type 0 where
    pub ride : Ride Float
    pub matched_driver : Option (NearbyDriver Float)

  module _ (env : Env) (s : Service F) where
    -- The ride that `RequestRide` builds.
    unfoldable pub new_ride : Uuid → RideRequest → ℕ → ℕ → Ride Float
    new_ride rider req active_count driver_count =
        let dist_km = haversine F req.pickup_lat req.pickup_long req.dropoff_lat req.dropoff_long in
        let surge_multiplier = calculate F s.surge active_count driver_count in
        record {
          id = 0;
          rider_id = rider;
          driver_id = none;
          pickup_lat = req.pickup_lat;
          pickup_long = req.pickup_long;
          dropoff_lat = req.dropoff_lat;
          dropoff_long = req.dropoff_long;
          status = requested;
          fare = estimate_fare F dist_km surge_multiplier;
          surge_multiplier = surge_multiplier;
          estimated_eta = some (whole_seconds F (estimate_eta F dist_km));
          distance_km = some dist_km;
          started_at = none;
          ended_at = none;
          created_at = 0;
          updated_at = 0;
        }

    -- What `RequestRide` makes of the outcome of the matching: after an error the ride stays requested.
    abbrev pub after_match :
        Ride Float → Result (Option (NearbyDriver Float) × Ride Float) → RideResponse
    after_match ride (err e) = record { ride = ride; matched_driver = none }
    after_match ride (ok (driver, ride')) = record { ride = ride'; matched_driver = driver }

    -- `RequestRide`.
    unfoldable pub request_ride : Uuid → RideRequest → Action Float RideResponse
    unfolding publish_event
    request_ride rider req = do
      active ← map_err (internal "failed to check active rides") (get_active_by_rider env rider)
      fail_if (is_some active) (conflict "you already have an active ride")
      active_count ← or_zero 0 (count_active_in_area env demand_window)
      driver_count ←
          or_zero 0
            (call F env s (λ n. s.active_driver_count n req.pickup_lat req.pickup_long (of_int 10)))
      ride ←
          map_err (internal "failed to create ride")
            (create env F.hundredths (new_ride rider req active_count driver_count))
      outcome ← attempt (match_driver F env s ride)
      publish_event F env s "ride.requested" (after_match ride outcome).ride
      pure (after_match ride outcome)

    -- The row that a handler locked, or `NotFound`.
    abbrev or_not_found : Option (Ride Float) → Action Float (Ride Float)
    or_not_found none = fail (not_found "ride not found")
    or_not_found (some r) = pure r

    abbrev check_transition : RideStatus → RideStatus → Action Float (Unit {0})
    check_transition from to = elim (validate_transition from to) [
      | none ↦ pure tt
      | some e ↦ fail (bad_request (error_text e))
    ]

    -- The transaction of `AcceptRide`.
    unfoldable pub accept_tx : Uuid → Uuid → Action Float (Ride Float)
    accept_tx ride_id driver_id = do
      ride ← get_by_id_for_update env ride_id >>= or_not_found
      fail_if (not (same_id ride.driver_id driver_id))
          (forbidden "you are not assigned to this ride")
      check_transition ride.status enroute
      set_started env ride_id
      pure (record ride { status = enroute })

    -- `AcceptRide`.
    unfoldable pub accept_ride : Uuid → Uuid → Action Float (Ride Float)
    unfolding publish_event
    accept_ride ride_id driver_id = do
      ride ←
          map_err (or_internal "failed to accept ride") (with_tx env (accept_tx ride_id driver_id))
      publish_event F env s "ride.started" ride
      pure ride

    -- The transaction of `CompleteRide`.
    unfoldable pub complete_tx : Uuid → Uuid → Action Float (Ride Float)
    complete_tx ride_id driver_id = do
      ride ← get_by_id_for_update env ride_id >>= or_not_found
      fail_if (not (same_id ride.driver_id driver_id))
          (forbidden "you are not assigned to this ride")
      check_transition ride.status completed
      set_completed env ride_id ride.fare
      pure (record ride { status = completed })

    -- `CompleteRide`.
    unfoldable pub complete_ride : Uuid → Uuid → Action Float (Ride Float)
    unfolding publish_event
    complete_ride ride_id driver_id = do
      ride ←
          map_err (or_internal "failed to complete ride")
            (with_tx env (complete_tx ride_id driver_id))
      publish_event F env s "ride.completed" ride
      pure ride

    -- The transaction of `CancelRide`.
    unfoldable pub cancel_tx : Uuid → Uuid → Action Float (Ride Float)
    cancel_tx ride_id user_id = do
      ride ← get_by_id_for_update env ride_id >>= or_not_found
      let is_rider = ride.rider_id == user_id
      let is_driver = same_id ride.driver_id user_id
      fail_if (not is_rider && not is_driver) (forbidden "you are not part of this ride")
      check_transition ride.status cancelled
      update_status env ride_id cancelled none
      pure (record ride { status = cancelled })

    -- `CancelRide`.
    unfoldable pub cancel_ride : Uuid → Uuid → Action Float (Ride Float)
    unfolding publish_event
    cancel_ride ride_id user_id = do
      ride ← map_err (or_internal "failed to cancel ride") (with_tx env (cancel_tx ride_id user_id))
      publish_event F env s "ride.cancelled" ride
      pure ride

    -- `GetRide`.
    unfoldable pub get_ride : Uuid → Action Float (Ride Float)
    get_ride ride_id =
        map_err (internal "failed to get ride") (get_by_id env ride_id) >>= or_not_found

    -- `GetRideHistory`.
    unfoldable pub get_ride_history : Uuid → ℕ → ℕ → Action Float (List (Ride Float) × ℕ)
    get_ride_history user limit offset = do
      rides ← map_err (internal "failed to get ride history") (get_history env user limit offset)
      total ← map_err (internal "failed to count rides") (count_by_user env user)
      pure (rides, total)
