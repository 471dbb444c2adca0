-- ===== src/Ride/Grpc.antt =====
-- internal/ride/grpc_server.go and handler.go: the ride service behind gRPC, and its HTTP handlers.
use ridesharing.Prelude.{ℕ, String, Option, none, List, map}
use mathlib.Core.Option
use ridesharing.Errors.{Error, Result}
use ridesharing.Models.{Time, Ride, other}
use ridesharing.Pagination.{ℤ}
use ridesharing.Floats.{Float64}
use ridesharing.Database.{Env, Action, ◌>>=◌, pure}
use ridesharing.Rpc.{GrpcLibrary, to_int32, invoke, parsed}
use ridesharing.Http.{Reply, json, error_json, Context, Handler, with_user, bind_json, respond_to}
use ridesharing.Ride.Fsm.{status_text}
use ridesharing.Ride.Matching.{Service}
use ridesharing.Ride.Service.{
  RideRequest, request_ride, accept_ride, complete_ride, cancel_ride, get_ride, get_ride_history,
}

-- `handleError` of the handlers of rides, users and payments.
abbrev pub handle_error : {A : Type 0} → Error → Reply A
handle_error e = error_json 500 "internal server error" none

module _ (F : Float64) where
  open F use {Float, of_int}

  -- `pb.Ride`.
  pub record PbRide : Type 0 where
    pub id : String
    pub rider_id : String
    pub driver_id : Option String
    pub pickup_lat : Float
    pub pickup_long : Float
    pub dropoff_lat : Float
    pub dropoff_long : Float
    pub status : String
    pub fare : Float
    pub surge_multiplier : Float
    pub estimated_eta : Option ℤ
    pub distance_km : Option Float
    pub started_at : Option Time
    pub ended_at : Option Time
    pub created_at : Time
    pub updated_at : Time

  -- `pb.RideRequest`.
  pub record PbRideRequest : Type 0 where
    pub rider_id : String
    pub pickup_lat : Float
    pub pickup_long : Float
    pub dropoff_lat : Float
    pub dropoff_long : Float

  pub record PbRideHistory : Type 0 where
    pub rides : List PbRide
    pub total : ℤ

  -- `models.Ride{}`.
  abbrev empty_ride : Ride Float
  empty_ride = record {
    id = 0;
    rider_id = 0;
    driver_id = none;
    pickup_lat = of_int 0;
    pickup_long = of_int 0;
    dropoff_lat = of_int 0;
    dropoff_long = of_int 0;
    status = other "";
    fare = of_int 0;
    surge_multiplier = of_int 0;
    estimated_eta = none;
    distance_km = none;
    started_at = none;
    ended_at = none;
    created_at = 0;
    updated_at = 0;
  }

  -- `mapPBRide`.
  abbrev pub map_pb_ride : PbRide → Ride Float
  map_pb_ride r = empty_ride

  module _ (g : GrpcLibrary) (env : Env) (s : Service F) where
    -- `buildPBRide`.
    unfoldable pub build_pb_ride : Ride Float → PbRide
    build_pb_ride r = record {
      id = g.uuid_text r.id;
      rider_id = g.uuid_text r.rider_id;
      driver_id = Option.map g.uuid_text r.driver_id;
      pickup_lat = r.pickup_lat;
      pickup_long = r.pickup_long;
      dropoff_lat = r.dropoff_lat;
      dropoff_long = r.dropoff_long;
      status = status_text r.status;
      fare = r.fare;
      surge_multiplier = r.surge_multiplier;
      estimated_eta = Option.map to_int32 r.estimated_eta;
      distance_km = r.distance_km;
      started_at = r.started_at;
      ended_at = r.ended_at;
      created_at = r.created_at;
      updated_at = r.updated_at;
    }

    -- `GRPCServer.RequestRide`.
    unfoldable pub serve_request_ride : PbRideRequest → Action Float PbRide
    serve_request_ride req = parsed g req.rider_id λ rider.
        request_ride F env s rider (record {
          pickup_lat = req.pickup_lat;
          pickup_long = req.pickup_long;
          dropoff_lat = req.dropoff_lat;
          dropoff_long = req.dropoff_long;
        })
        >>= λ resp. pure (build_pb_ride resp.ride)

    -- `GRPCServer.AcceptRide`, `CompleteRide` and `CancelRide`, with the texts of both ids.
    unfoldable pub serve_accept_ride : String → String → Action Float PbRide
    serve_accept_ride ride driver =
        parsed g ride
          λ id. parsed g driver λ by. accept_ride F env s id by >>= λ r. pure (build_pb_ride r)

    unfoldable pub serve_complete_ride : String → String → Action Float PbRide
    serve_complete_ride ride driver =
        parsed g ride
          λ id. parsed g driver λ by. complete_ride F env s id by >>= λ r. pure (build_pb_ride r)

    unfoldable pub serve_cancel_ride : String → String → Action Float PbRide
    serve_cancel_ride ride user =
        parsed g ride
          λ id. parsed g user λ by. cancel_ride F env s id by >>= λ r. pure (build_pb_ride r)

    -- `GRPCServer.GetRide`.
    unfoldable pub serve_get_ride : String → Action Float PbRide
    serve_get_ride ride = parsed g ride λ id. get_ride F env s id >>= λ r. pure (build_pb_ride r)

    -- `GRPCServer.RideHistory`. Its one caller asks for a limit and an offset that are not negative.
    unfoldable pub serve_ride_history : String → ℕ → ℕ → Action Float PbRideHistory
    serve_ride_history user limit offset = parsed g user λ id.
        get_ride_history F env s id limit offset >>= λ page.
        pure (record { rides = map build_pb_ride page.0; total = to_int32 page.1 })

    abbrev pub answer : ℕ → Action Float PbRide → Handler Float (Ride Float)
    answer code call = respond_to (invoke g call) handle_error (λ r. json code (map_pb_ride r))

    -- `Handler.RequestRide`, with what binding the body gives.
    unfoldable pub post_request_ride : Context → Result (RideRequest F) → Handler Float (Ride Float)
    unfolding invoke serve_request_ride
    post_request_ride c body = bind_json body λ req. with_user c λ rider. answer 201 (
        serve_request_ride (record {
          rider_id = g.uuid_text rider;
          pickup_lat = req.pickup_lat;
          pickup_long = req.pickup_long;
          dropoff_lat = req.dropoff_lat;
          dropoff_long = req.dropoff_long;
        }))

    -- `Handler.GetRide`, with the id of the path.
    unfoldable pub get_ride_by_id : String → Handler Float (Ride Float)
    unfolding invoke serve_get_ride
    get_ride_by_id id = answer 200 (serve_get_ride id)

    -- `Handler.AcceptRide`, `CompleteRide` and `CancelRide`, with the id of the path.
    unfoldable pub post_accept_ride : Context → String → Handler Float (Ride Float)
    unfolding invoke serve_accept_ride
    post_accept_ride c id =
        with_user c λ driver. answer 200 (serve_accept_ride id (g.uuid_text driver))

    unfoldable pub post_complete_ride : Context → String → Handler Float (Ride Float)
    unfolding invoke serve_complete_ride
    post_complete_ride c id =
        with_user c λ driver. answer 200 (serve_complete_ride id (g.uuid_text driver))

    unfoldable pub post_cancel_ride : Context → String → Handler Float (Ride Float)
    unfolding invoke serve_cancel_ride
    post_cancel_ride c id = with_user c λ user. answer 200 (serve_cancel_ride id (g.uuid_text user))

    -- `Handler.RideHistory`.
    unfoldable pub ride_history : Context → Handler Float PbRideHistory
    unfolding invoke serve_ride_history
    ride_history c = with_user c λ user.
        respond_to (invoke g (serve_ride_history (g.uuid_text user) 10 0)) handle_error (json 200)
