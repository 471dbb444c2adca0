-- ===== src/Ride/Service/Trip.antt =====
-- internal/ride/service.go: a whole trip, from RequestRide to CompleteRide.
use mathlib.Core.Option
use ridesharing.Prelude.{ℕ, ◌≡◌, refl, ap, ◌∙◌, some, none}
use ridesharing.Prelude.Table.{find, find-update_self}
use ridesharing.Errors.{ok}
use ridesharing.Models.{Uuid, Ride, NearbyDriver, matched, enroute, completed}
use ridesharing.Floats.{Float64}
use ridesharing.Database.{Env, World}
use ridesharing.Ride.Repository.{ride_key, started}
use ridesharing.Ride.Invariant.{IsValid}
use ridesharing.Ride.Matching.{Service}
use ridesharing.Ride.Service.{RideRequest, RideResponse, request_ride, accept_ride, complete_ride}
use ridesharing.Ride.Service.Handlers.{update_time, accept_ride_ok}
use ridesharing.Ride.Service.Request.Outcome.{request_ride_ok}
use ridesharing.Ride.Service.Success.{accept_ride_succeeds, complete_ride_succeeds}

module _ (F : Float64) (env : Env) (s : Service F) where
  open F use {Float}

  -- The world after the driver has accepted.
  abbrev pub accepted : Uuid → Uuid → World Float → World Float
  accepted id driver w = (accept_ride F env s id driver w).1

  find-accepted :
      (id driver : Uuid) (w : World Float) (row r : Ride Float)
      → (accept_ride F env s id driver w).0 ≡ ok r
      → find ride_key id w.tables.rides ≡ some row
      → find ride_key id (accepted id driver w).tables.rides
        ≡ some (started (update_time F env s w) row)
  find-accepted id driver w row r done found =
      ap (λ t. find ride_key id t.rides) (accept_ride_ok F env s id driver w r done).3
      ∙ find-update_self ride_key id (started (update_time F env s w)) w.tables.rides (λ x. refl)
      ∙ ap (Option.map (started (update_time F env s w))) found

  -- When no round trip fails, and RequestRide returns a ride with a driver: AcceptRide by that driver
  -- returns the ride enroute, and then CompleteRide by that driver returns it completed, with the
  -- rider, the driver and the fare of the request.
  pub trip_succeeds :
      (rider : Uuid) (req : RideRequest F) (w : World Float) (resp : RideResponse F)
      (d : NearbyDriver Float)
      → IsValid w.tables
      → ((n : ℕ) → env.fault n ≡ none)
      → (request_ride F env s rider req w).0 ≡ ok resp
      → resp.matched_driver ≡ some d
      → let w' = (request_ride F env s rider req w).1 in
        let id = resp.ride.id in
        (r₁ r₂ : Ride Float) × ((accept_ride F env s id d.driver_id w').0 ≡ ok r₁)
        × ((complete_ride F env s id d.driver_id (accepted id d.driver_id w')).0 ≡ ok r₂)
        × (r₁.status ≡ enroute)
        × (r₂.status ≡ completed)
        × (r₂.rider_id ≡ rider)
        × (r₂.driver_id ≡ some d.driver_id)
        × (r₂.fare ≡ resp.ride.fare)
  trip_succeeds rider req w resp d valid up done matched_with =
      let p = request_ride_ok F env s rider req w resp valid done in
      let w' = (request_ride F env s rider req w).1 in
      let id = resp.ride.id in
      let out : (resp.ride.status ≡ matched) × (resp.ride.driver_id ≡ some d.driver_id) =
        rw matched_with at p.outcome in
      let first =
        accept_ride_succeeds F env s id d.driver_id w' p.row up p.stored (p.same_ride.1 ∙ out.1)
          (p.same_ride.0 ∙ out.0) in
      let row = started (update_time F env s w') p.row in
      (
        record p.row { status = enroute },
        record row { status = completed },
        first,
        complete_ride_succeeds F env s id d.driver_id (accepted id d.driver_id w') row up
            (find-accepted id d.driver_id w' p.row _ first p.stored) (p.same_ride.1 ∙ out.1) refl,
        refl,
        refl,
        p.same_ride.2 ∙ p.requester,
        p.same_ride.1 ∙ out.1,
        p.same_ride.3,
      )
