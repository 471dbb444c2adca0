-- ===== src/Payment.antt =====
-- internal/payment/payment.go: charging a ride once, through a payment provider.
pub mod Charges
pub mod Repeats
pub mod Grpc
mod Stripe
mod Tests
use ridesharing.Prelude.{
  ℕ, suc, String, Bool, true, false, Option, none, some, List, [], ◌∷◌, ◌++◌, ◌==◌, same_text,
  if◌then◌else◌,
}
use ridesharing.Prelude.Table.{find, update}
use ridesharing.Errors.{Error, plain, wrapped, not_found, internal, Result, ok, err}
use ridesharing.Models.{Uuid, Time, Payment}
use ridesharing.Database.{
  Env, World, Tables, Action, pure, fail, ◌>>=◌, ◌>>◌, map_err, or_zero, tick, exec, query,
}

module _ {Float : Type 0} where
  abbrev pub payment_key : Payment Float → Uuid
  payment_key p = p.id

  abbrev pub ride_of : Payment Float → Uuid
  ride_of p = p.ride_id

  abbrev pub update_payments :
      (List (Payment Float) → List (Payment Float)) → Tables Float → Tables Float
  update_payments f t = record t { payments = f t.payments }

  abbrev pub set_status : String → Payment Float → Payment Float
  set_status status p = record p { status = status }

  abbrev pub stored_amount : (Float → Float) → Payment Float → Payment Float
  stored_amount hundredths p = record p { amount = hundredths p.amount }

  module _ (env : Env) where
    -- `Create`: the payment comes back with the generated columns filled in; its row has the amount as
    -- the column keeps it.
    unfoldable pub create : (Float → Float) → Payment Float → Action Float (Payment Float)
    unfolding exec
    create hundredths p = map_err (wrapped "create payment") (
        exec env (λ n t.
          let row = record p { id = env.fresh n; created_at = env.now n } in
          elim (find payment_key row.id t.payments) [
            | some _ ↦ err (plain "duplicate key value violates unique constraint")
            | none ↦
                ok (row, update_payments (λ rows. rows ++ (stored_amount hundredths row ∷ [])) t)
          ]))

    -- `GetByRideID`: the first row that the server returns, in the order of insertion; `none` without
    -- a row.
    unfoldable pub get_by_ride_id : Uuid → Action Float (Option (Payment Float))
    unfolding query
    get_by_ride_id ride_id =
        map_err (wrapped "get payment") (query env (λ n t. find ride_of ride_id t.payments))

    -- `UpdateStatus`.
    unfoldable pub update_status : Uuid → String → Action Float (Unit {0})
    unfolding exec
    update_status id status =
        exec env (λ n t. ok (tt, update_payments (update payment_key id (set_status status)) t))

-- The interface `PaymentGateway`: what the provider answers at the n-th round trip.
pub record PaymentGateway (Float : Type 0) : Type 0 where
  pub create_payment_intent : ℕ → Float → String → Result String
  pub capture_payment : ℕ → String → Result (Unit {0})
  pub refund : ℕ → String → Float → Result String

-- `Service`: the provider, and what the column `amount`, a NUMERIC(10, 2), gives back for a float64.
pub record Service (Float : Type 0) : Type 0 where
  pub gateway : PaymentGateway Float
  pub hundredths : Float → Float

module _ {Float : Type 0} (env : Env) (s : Service Float) where
  -- The calls of the provider. A capture that succeeds takes the money.
  abbrev create_payment_intent : Float → String → Action Float String
  create_payment_intent amount currency w =
      (s.gateway.create_payment_intent w.trips amount currency, tick w)

  abbrev capture_payment : String → Action Float (Unit {0})
  capture_payment txn_id w = elim (s.gateway.capture_payment w.trips txn_id) [
    | err e ↦ (err e, tick w)
    | ok _ ↦ (ok tt, record (tick w) { captured = w.captured ++ (txn_id ∷ []) })
  ]

  -- The record that `ChargeRide` stores.
  abbrev pub new_payment : Uuid → Float → String → Payment Float
  new_payment ride_id amount txn_id = record {
    id = 0;
    ride_id = ride_id;
    amount = amount;
    currency = "USD";
    status = "completed";
    stripe_txn_id = txn_id;
    created_at = 0;
  }

  -- `ChargeRide` where no completed payment was found.
  unfoldable pub charge : Uuid → Float → Action Float (Payment Float)
  charge ride_id amount = do
    txn_id ← map_err (internal "payment processing failed") (create_payment_intent amount "USD")
    map_err (internal "payment capture failed") (capture_payment txn_id)
    map_err (internal "failed to record payment")
        (create env s.hundredths (new_payment ride_id amount txn_id))

  -- `existing != nil && existing.Status == "completed"`.
  abbrev pub is_charged : Option (Payment Float) → Bool
  is_charged none = false
  is_charged (some p) = same_text p.status "completed"

  abbrev pub return_or_charge : Uuid → Float → Option (Payment Float) → Action Float (Payment Float)
  return_or_charge ride_id amount none = charge ride_id amount
  return_or_charge ride_id amount (some p) =
      if same_text p.status "completed" then pure p else charge ride_id amount

  -- `ChargeRide`: an error of the lookup counts as no payment.
  unfoldable pub charge_ride : Uuid → Float → Action Float (Payment Float)
  charge_ride ride_id amount =
      or_zero none (get_by_ride_id env ride_id) >>= return_or_charge ride_id amount

  abbrev found_payment : Option (Payment Float) → Action Float (Payment Float)
  found_payment none = fail (not_found "payment not found")
  found_payment (some p) = pure p

  -- `GetPayment`.
  unfoldable pub get_payment : Uuid → Action Float (Payment Float)
  get_payment ride_id =
      map_err (internal "failed to get payment") (get_by_ride_id env ride_id) >>= found_payment
