-- ===== src/Ride/Service/Success.antt =====
-- internal/ride/service.go: when AcceptRide, CompleteRide and CancelRide return the ride.
use ridesharing.Prelude.{ℕ, suc, ◌≡◌, ◌⊎◌, none, some, arith}
use ridesharing.Prelude.Table.{find}
use ridesharing.Errors.{ok}
use ridesharing.Models.{Uuid, Ride, requested, matched, enroute, completed, cancelled}
use ridesharing.Floats.{Float64}
use ridesharing.Database.{actions, Env, World, with_tx, round_trip, commit}
use ridesharing.Ride.Fsm.{can_transition, validate_transition}
use ridesharing.Ride.Repository.{
  ride_key, get_by_id_for_update, set_started, set_completed, update_status,
}
use ridesharing.Ride.Matching.{Service, publish_event}
use ridesharing.Ride.Service.{
  accept_tx, accept_ride, complete_tx, complete_ride, cancel_tx, cancel_ride,
}

module _ (F : Float64) (env : Env) (s : Service F) where
  open F use {Float}

  -- When no round trip fails, the driver of a matched ride can accept it.
  pub accept_ride_succeeds :
      (id driver : Uuid) (w : World Float) (row : Ride Float)
      → ((n : ℕ) → env.fault n ≡ none)
      → find ride_key id w.tables.rides ≡ some row
      → row.driver_id ≡ some driver
      → row.status ≡ matched
      → (accept_ride F env s id driver w).0 ≡ ok (record row { status = enroute })
  unfolding actions accept_ride accept_tx with_tx round_trip commit get_by_id_for_update set_started
      validate_transition can_transition publish_event
  accept_ride_succeeds id driver w row up found assigned status =
      ground
        (arith, up w.trips, up (suc w.trips), up (suc (suc w.trips)), up (suc (suc (suc w.trips))))

  -- When no round trip fails, the driver of a ride under way can complete it.
  pub complete_ride_succeeds :
      (id driver : Uuid) (w : World Float) (row : Ride Float)
      → ((n : ℕ) → env.fault n ≡ none)
      → find ride_key id w.tables.rides ≡ some row
      → row.driver_id ≡ some driver
      → row.status ≡ enroute
      → (complete_ride F env s id driver w).0 ≡ ok (record row { status = completed })
  unfolding actions complete_ride complete_tx with_tx round_trip commit get_by_id_for_update
      set_completed validate_transition can_transition publish_event
  complete_ride_succeeds id driver w row up found assigned status =
      ground
        (arith, up w.trips, up (suc w.trips), up (suc (suc w.trips)), up (suc (suc (suc w.trips))))

  -- When no round trip fails, the rider of a ride that is not over can cancel it, and so can its
  -- driver.
  pub cancel_ride_succeeds :
      (id user : Uuid) (w : World Float) (row : Ride Float)
      → ((n : ℕ) → env.fault n ≡ none)
      → find ride_key id w.tables.rides ≡ some row
      → (row.rider_id ≡ user) ⊎ (row.driver_id ≡ some user)
      → (row.status ≡ requested) ⊎ (row.status ≡ matched) ⊎ (row.status ≡ enroute)
      → (cancel_ride F env s id user w).0 ≡ ok (record row { status = cancelled })
  unfolding actions cancel_ride cancel_tx with_tx round_trip commit get_by_id_for_update
      update_status validate_transition can_transition publish_event
  cancel_ride_succeeds id user w row up found party status =
      ground
        (arith, up w.trips, up (suc w.trips), up (suc (suc w.trips)), up (suc (suc (suc w.trips))))
