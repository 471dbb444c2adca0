-- ===== src/Payment/Grpc.antt =====
-- internal/payment/grpc_server.go and handler.go: the payment service behind gRPC, and its HTTP
-- handlers.
use ridesharing.Prelude.{String, none}
use ridesharing.Errors.{Error, Result}
use ridesharing.Models.{Time, Payment}
use ridesharing.Database.{Env, Action, ◌>>=◌, pure}
use ridesharing.Rpc.{GrpcLibrary, invoke, parsed}
use ridesharing.Http.{Reply, json, error_json, Handler, bind_json, respond_to}
use ridesharing.Payment.{Service, charge_ride, get_payment}

module _ (Float : Type 0) where
  -- `pb.Payment`.
  pub record PbPayment : Type 0 where
    pub id : String
    pub ride_id : String
    pub amount : Float
    pub currency : String
    pub status : String
    pub stripe_txn_id : String
    pub created_at : Time

  -- The request of `Handler.ChargeRide`, and `pb.ChargeRideRequest`.
  pub record ChargeRequest : Type 0 where
    pub ride_id : String
    pub amount : Float

-- `handleError`.
abbrev pub handle_error : {A : Type 0} → Error → Reply A
handle_error e = error_json 500 "internal server error" none

-- `mapPBPayment`: `models.Payment{}`, with the zero of the amounts.
abbrev pub map_pb_payment : {Float : Type 0} → Float → PbPayment Float → Payment Float
map_pb_payment zero p = record {
  id = 0;
  ride_id = 0;
  amount = zero;
  currency = "";
  status = "";
  stripe_txn_id = "";
  created_at = 0;
}

module _ {Float : Type 0} (g : GrpcLibrary) (env : Env) (s : Service Float) where
  -- `buildPBPayment`.
  abbrev pub build_pb_payment : Payment Float → PbPayment Float
  build_pb_payment p = record {
    id = g.uuid_text p.id;
    ride_id = g.uuid_text p.ride_id;
    amount = p.amount;
    currency = p.currency;
    status = p.status;
    stripe_txn_id = p.stripe_txn_id;
    created_at = p.created_at;
  }

  -- `GRPCServer.ChargeRide`.
  unfoldable pub serve_charge_ride : ChargeRequest Float → Action Float (PbPayment Float)
  serve_charge_ride req =
      parsed g req.ride_id λ id. charge_ride env s id req.amount >>= λ p. pure (build_pb_payment p)

  -- `GRPCServer.GetPayment`.
  unfoldable pub serve_get_payment : String → Action Float (PbPayment Float)
  serve_get_payment ride =
      parsed g ride λ id. get_payment env s id >>= λ p. pure (build_pb_payment p)

  module _ (zero : Float) where
    abbrev answer : Action Float (PbPayment Float) → Handler Float (Payment Float)
    answer call = respond_to (invoke g call) handle_error (λ p. json 200 (map_pb_payment zero p))

    -- `Handler.ChargeRide`, with what binding the body gives.
    unfoldable pub post_charge_ride : Result (ChargeRequest Float) → Handler Float (Payment Float)
    unfolding invoke serve_charge_ride
    post_charge_ride body = bind_json body λ req. answer (serve_charge_ride req)

    -- `Handler.GetPayment`, with the id of the path.
    unfoldable pub get_payment_by_ride : String → Handler Float (Payment Float)
    unfolding invoke serve_get_payment
    get_payment_by_ride ride = answer (serve_get_payment ride)
