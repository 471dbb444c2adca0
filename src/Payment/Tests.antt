-- ===== src/Payment/Tests.antt =====
-- internal/payment on a small table, with a provider that accepts everything.
use ridesharing.Prelude.{
  false, ℕ, zero, suc, ◌+◌, ◌*◌, ◌/◌, ◌==◌, ◌≡◌, refl, ◌⊎◌, none, some, [], ◌∷◌,
}
use ridesharing.Prelude.Table.{find}
use ridesharing.Errors.{Error, plain, ok, err}
use ridesharing.Security.{no_attempts}
use ridesharing.Models.{Payment}
use ridesharing.Database.{actions, Env, Tables, World, tick, exec, query}
use ridesharing.Payment.{Service, ride_of, create, get_by_ride_id, charge, charge_ride}
use ridesharing.Payment.Stripe.{Draws, stripe_stub}
use ridesharing.Payment.Charges.{charge_ride_ok}
use ridesharing.Payment.Repeats.{
  IsSettled, IsKept, charge_ride-IsSettled, charge_ride_repeat, charge_ride_lookup_fault,
}

abbrev env : Env
env = record {
  fault = λ n. none;
  carried_out = λ n. false;
  now = λ n. n;
  fresh = λ n. n;
  done = λ n. none;
}

abbrev timeout : Error
timeout = plain "timeout"

abbrev first_down : Env
first_down = record env { fault = λ n. elim n [ zero ↦ some timeout | suc m ↦ none ] }

-- A thousandth is one, so the column keeps tens.
abbrev service : Service ℕ
service = record {
  gateway = record {
    create_payment_intent = λ n amount currency. ok "pi_1";
    capture_payment = λ n txn_id. ok tt;
    refund = λ n txn_id amount. ok "re_1";
  };
  hundredths = λ x. (x + 5) / 10 * 10;
}

abbrev no_rows : Tables ℕ
no_rows = record { users = []; drivers = []; rides = []; locations = []; payments = [] }

abbrev start : World ℕ
start = record {
  tables = no_rows;
  trips = 0;
  leases = [];
  events = [];
  captured = [];
  attempts = no_attempts;
}

abbrev payment : ℕ → Payment ℕ
payment amount = record {
  id = 3;
  ride_id = 5;
  amount = amount;
  currency = "USD";
  status = "completed";
  stripe_txn_id = "pi_1";
  created_at = 3;
}

no_rows-IsSettled : IsSettled no_rows
no_rows-IsSettled = record { single = tt; completed = tt }

abbrev paid : World ℕ
paid = record start { tables = record no_rows { payments = payment 760 ∷ [] } }

charge_ride-start : (charge_ride env service 5 755 start).0 ≡ ok (payment 755)
unfolding actions exec query find create get_by_ride_id charge charge_ride
charge_ride-start = refl

charge_ride_ok_example :
    let after = (charge_ride env service 5 755 start).1 in
    ((find ride_of 5 [] ≡ some (payment 755))
      × ((payment 755).status ≡ "completed")
      × (after.tables ≡ no_rows)
      × (after.captured ≡ []))
    ⊎ ((after.captured ≡ "pi_1" ∷ [])
        × (after.tables ≡ record no_rows { payments = payment 760 ∷ [] })
        × ((payment 755).ride_id ≡ 5)
        × ((payment 755).amount ≡ 755)
        × ((payment 755).status ≡ "completed"))
charge_ride_ok_example = charge_ride_ok env service 5 755 start (payment 755) charge_ride-start

charge_ride-IsSettled_example : IsSettled (charge_ride env service 5 755 start).1.tables
charge_ride-IsSettled_example = charge_ride-IsSettled env service 5 755 start refl no_rows-IsSettled

charge_ride_repeat_example :
    let after = (charge_ride env service 5 755 start).1 in
    (q : Payment ℕ) × IsKept env service (payment 755) 755 q
    × (charge_ride env service 5 900 after ≡ (ok q, tick after))
charge_ride_repeat_example =
    charge_ride_repeat env service 5 755 900 start (payment 755) refl no_rows-IsSettled
      charge_ride-start refl

find-paid : find ride_of 5 paid.tables.payments ≡ some (payment 760)
unfolding find
find-paid = refl

charge_ride_lookup_fault_example :
    (charge_ride first_down service 5 755 paid).1.captured ≡ "pi_1" ∷ []
charge_ride_lookup_fault_example =
    charge_ride_lookup_fault first_down service 5 755 paid (payment 760) timeout "pi_1" find-paid
      refl refl refl refl

-- The stub's ids, where every character that is drawn is the first.
abbrev draws : Draws
draws = record { declines = λ n. n == 7; int_n = λ n i. 0 }

stub_id :
    (stripe_stub {Float = ℕ} draws (λ n. 1_700_000_000_123_456_789)).create_payment_intent 1 755
      "USD"
    ≡ ok "pi_aaaaaaaaaaaaaaaa_1700000000123"
unfolding stripe_stub
stub_id = refl

stub_declines :
    (stripe_stub {Float = ℕ} draws (λ n. 0)).create_payment_intent 7 755 "USD"
    ≡ err (plain "stripe: card declined (simulated)")
unfolding stripe_stub
stub_declines = refl
