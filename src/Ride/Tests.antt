-- ===== src/Ride/Tests.antt =====
-- internal/ride run on small inputs: one ride of the rider 7, requested, accepted and completed.
mod Boundary
use ridesharing.Prelude.{
  false, if◌then◌else◌, ◌==◌, ℕ, ◌≤◌, ◌≡◌, refl, ◌⊎◌, ◌↔◌, inr, arith, true, none, some, List, [],
  ◌∷◌, length,
}
use ridesharing.Prelude.Table.{find, update}
use ridesharing.Errors.{Error, app, plain, wrapped, internal, user_exists, forbidden_error, ok, err}
use ridesharing.Security.{no_attempts}
use ridesharing.Models.{Ride, NearbyDriver, RideStatus, matched, enroute, completed, cancelled}
use ridesharing.Floats.Fixed.{fixed, fixed-IsIeee}
use ridesharing.Geo.{degrees_to_radians, haversine, estimate_eta, whole_seconds, estimate_fare}
use ridesharing.Database.{actions, Env, Tables, World, with_tx, round_trip, commit, exec, query}
use ridesharing.Redis.{get, delete, new_dist_lock, acquire, release, acquire_with_retry}
use ridesharing.Ride.Fsm.{status_text, valid_transitions, can_transition, validate_transition}
use ridesharing.Ride.Fsm.Paths.{◌⟶◌, Trail, can_transition_iff}
use ridesharing.Ride.Surge.{new_surge_engine, scale, tenths, calculate}
use ridesharing.Ride.Surge.Bounds.{calculate_bounds}
use ridesharing.Ride.Repository.{
  ride_key, update_rides, started, ended, with_status, insert_newest, newest_first, active_row,
  create, get_by_id, get_by_id_for_update, update_status, set_started, set_completed,
  count_active_in_area, get_active_by_rider,
}
use ridesharing.Ride.Invariant.{IsValid}
use ridesharing.Ride.Matching.{
  Service, publish_event, choose_nearest, assign_nearest, match_locked, match_driver,
}
use ridesharing.Ride.Service.{
  RideRequest, RideResponse, new_ride, request_ride, accept_tx, accept_ride, complete_tx,
  complete_ride, cancel_tx, cancel_ride,
}
use ridesharing.Ride.Service.Request.{Placed}
use ridesharing.Ride.Service.Request.Outcome.{request_ride_ok}
use ridesharing.Ride.Service.Handlers.{status_before, accept_ride_ok, cancel_ride_ok}
use ridesharing.Ride.Run.{Command, request, accept, complete, run}
use ridesharing.Ride.Run.History.{
  Follows, statuses, active_of, run_one_active, run_final, run-Trail,
}

-- Every round trip succeeds; the clock and the generator count.
abbrev env : Env
env = record {
  fault = λ n. none;
  carried_out = λ n. false;
  now = λ n. n;
  fresh = λ n. n;
  done = λ n. none;
}

abbrev near : NearbyDriver ℕ
near = record { driver_id = 9; lat = 0; long = 0; distance_km = 100; estimated_eta = 2 }

abbrev service : Service fixed
service = record {
  surge = new_surge_engine fixed;
  producer = true;
  rdb = true;
  nearby_drivers = λ n lat long radius. ok (near ∷ []);
  active_driver_count = λ n lat long radius. ok 1;
  can_marshal = λ event ride. true;
}

abbrev no_rows : Tables ℕ
no_rows = record { users = []; drivers = []; rides = []; locations = []; payments = [] }

abbrev start : World ℕ
start = record {
  tables = no_rows;
  trips = 0;
  leases = [];
  events = [];
  captured = [];
  attempts = no_attempts;
}

abbrev trip : RideRequest fixed
trip = record { pickup_lat = 0; pickup_long = 0; dropoff_lat = 100; dropoff_long = 100 }

no_rows-IsValid : IsValid no_rows
no_rows-IsValid = record { unique = tt; formed = tt; single = tt }

abbrev one_trip : List (Command fixed)
one_trip = request 7 trip ∷ accept 3 9 ∷ complete 3 9 ∷ []

run_one_active_example :
    length (active_of 7 (run fixed env service one_trip start).tables.rides) ≤ 1
run_one_active_example = run_one_active fixed env service one_trip start 7 no_rows-IsValid

abbrev after_request : World ℕ
after_request = (request_ride fixed env service 7 trip start).1

-- For a test that runs the service.
unfoldable running : Unit {0}
unfolding actions with_tx round_trip commit exec query find update degrees_to_radians haversine
    estimate_eta whole_seconds estimate_fare new_dist_lock acquire release get delete
    acquire_with_retry status_text valid_transitions can_transition validate_transition scale tenths
    calculate insert_newest newest_first active_row create get_by_id get_by_id_for_update
    update_status set_started set_completed count_active_in_area get_active_by_rider publish_event
    choose_nearest assign_nearest match_locked match_driver new_ride request_ride accept_tx
    accept_ride complete_tx complete_ride cancel_tx cancel_ride
running = tt

abbrev ride : RideStatus → Ride ℕ
ride status = record {
  id = 3;
  rider_id = 7;
  driver_id = some 9;
  pickup_lat = 0;
  pickup_long = 0;
  dropoff_lat = 100;
  dropoff_long = 100;
  status = status;
  fare = 350;
  surge_multiplier = 100;
  estimated_eta = some 0;
  distance_km = some 0;
  started_at = none;
  ended_at = none;
  created_at = 3;
  updated_at = 3;
}

abbrev placed : RideResponse fixed
placed = record { ride = ride matched; matched_driver = some near }

request_ride-start : (request_ride fixed env service 7 trip start).0 ≡ ok placed
unfolding running
request_ride-start = refl

request_ride_ok_example :
    Placed no_rows 7
      (ride matched)
      (some near)
      (request_ride fixed env service 7 trip start).1.tables
request_ride_ok_example =
    request_ride_ok fixed env service 7 trip start placed no_rows-IsValid request_ride-start

abbrev stored : RideStatus → World ℕ
stored status = record start { tables = record no_rows { rides = ride status ∷ [] } }

matched-IsValid : IsValid (stored matched).tables
unfolding running
matched-IsValid = record {
  unique = (refl, tt);
  formed = ((refl, refl, refl), tt);
  single = ((λ active. tt), tt);
}

cancelled-IsValid : IsValid (stored cancelled).tables
unfolding running
cancelled-IsValid = record {
  unique = (refl, tt);
  formed = (refl, tt);
  single = ((λ active. tt), tt);
}

-- The answer of the insertion is lost.
abbrev lossy : Env
lossy = record env {
  fault = λ n. if n == 3 then some (plain "timeout") else none;
  carried_out = λ n. true;
}

abbrev not_created : Error
not_created = internal "failed to create ride" (wrapped "create ride" (plain "timeout"))

find-stored :
    (status : RideStatus) → find ride_key 3 (stored status).tables.rides ≡ some (ride status)
unfolding running
find-stored status = refl

abbrev two_calls : List (Command fixed)
two_calls = accept 3 9 ∷ complete 3 9 ∷ []

run-Trail_example :
    (r' : Ride ℕ) × (find ride_key 3 (run fixed env service two_calls (stored matched)).tables.rides
      ≡ some r')
    × (r'.rider_id ≡ 7)
    × ((n : ℕ) × Follows matched (statuses fixed env service 3 two_calls (stored matched)) n
        × Trail n matched r'.status
        × (n ≤ 3))
run-Trail_example =
    run-Trail fixed env service two_calls (stored matched) 3 (ride matched) matched-IsValid
      (find-stored matched)

run_final_example :
    find ride_key 3 (run fixed env service two_calls (stored cancelled)).tables.rides
    ≡ some (ride cancelled)
run_final_example =
    run_final fixed env service two_calls (stored cancelled) 3 (ride cancelled) cancelled-IsValid
      (find-stored cancelled) (inr refl)

accept_ride-stored : (accept_ride fixed env service 3 9 (stored matched)).0 ≡ ok (ride enroute)
unfolding running
accept_ride-stored = refl

accept_ride_ok_example :
    (find ride_key 3 (stored matched).tables.rides ≡ some (ride matched))
    × ((ride enroute).driver_id ≡ some 9)
    × (enroute ≡ enroute)
    × ((accept_ride fixed env service 3 9 (stored matched)).1.tables ≡ record no_rows {
      rides = record (ride enroute) { started_at = some 2; updated_at = 2 } ∷ [];
    })
unfolding update
accept_ride_ok_example =
    accept_ride_ok fixed env service 3 9 (stored matched) (ride enroute) accept_ride-stored

abbrev other_driver : Error
other_driver = app 403 forbidden_error "you are not assigned to this ride"

accept_ride-other : (accept_ride fixed env service 3 8 (stored matched)).0 ≡ err other_driver
unfolding running
accept_ride-other = refl

cancel_ride-stored : (cancel_ride fixed env service 3 7 (stored enroute)).0 ≡ ok (ride cancelled)
unfolding running
cancel_ride-stored = refl

status_before-stored : status_before fixed env service 3 (stored enroute) ≡ enroute
unfolding running
status_before-stored = refl

cancel_ride_ok_example :
    (find ride_key 3 (stored enroute).tables.rides
      ≡ some
          (record (ride cancelled) { status = status_before fixed env service 3 (stored enroute) }))
    × (((ride cancelled).rider_id ≡ 7) ⊎ ((ride cancelled).driver_id ≡ some 7))
    × (can_transition (status_before fixed env service 3 (stored enroute)) cancelled ≡ true)
    × (cancelled ≡ cancelled)
    × ((cancel_ride fixed env service 3 7 (stored enroute)).1.tables
        ≡ record no_rows { rides = record (ride cancelled) { updated_at = 2 } ∷ [] })
unfolding update
cancel_ride_ok_example =
    cancel_ride_ok fixed env service 3 7 (stored enroute) (ride cancelled) cancel_ride-stored

can_transition_iff_example : (can_transition enroute completed ≡ true) ↔ (enroute ⟶ completed)
can_transition_iff_example = can_transition_iff enroute completed

calculate_bounds_example :
    (fixed.le 100 (calculate fixed (new_surge_engine fixed) 12 4) ≡ true)
    × (fixed.le (calculate fixed (new_surge_engine fixed) 12 4) 300 ≡ true)
calculate_bounds_example = calculate_bounds fixed fixed-IsIeee 12 4 (omega arith) (omega arith)
