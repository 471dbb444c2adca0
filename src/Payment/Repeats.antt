-- ===== src/Payment/Repeats.antt =====
-- internal/payment/payment.go: charging a ride again, and reading its payment.
use mathlib.Core.Path.{subst}
use ridesharing.Prelude.{
  suc, ◌≡◌, ◌⊎◌, refl, ap, inl, inr, String, none, some, [], ◌∷◌, ◌++◌, arith, All, same_text, true,
  Option-cases,
}
use ridesharing.Prelude.Table.{find, find-append, find-All, Unique, append-Unique, append-All}
use ridesharing.Errors.{Error, Result, ok, err}
use ridesharing.Models.{Uuid, Payment}
use ridesharing.Database.{actions, Env, World, Tables, tick}
use ridesharing.Payment.{
  Service, ride_of, update_payments, create, get_by_ride_id, charge, charge_ride, get_payment,
}
use ridesharing.Payment.Charges.{charge_ok, charge_ride_err}

-- No ride has two payments, and all payments are completed.
pub record IsSettled {Float : Type 0} (t : Tables Float) : Type 0 where
  pub single : Unique ride_of t.payments
  pub completed : All (λ p. p.status ≡ "completed") t.payments

is_completed : (s : String) → s ≡ "completed" → same_text s "completed" ≡ true
is_completed s h = ap (λ x. same_text x "completed") h

module _ {Float : Type 0} (env : Env) (s : Service Float) where
  -- A completed payment that the lookup finds is returned, and nothing happens.
  charge_ride_found :
      (ride_id : Uuid) (amount : Float) (w : World Float) (p : Payment Float)
      → env.fault w.trips ≡ none
      → find ride_of ride_id w.tables.payments ≡ some p
      → p.status ≡ "completed"
      → charge_ride env s ride_id amount w ≡ (ok p, tick w)
  unfolding actions charge_ride get_by_ride_id
  charge_ride_found ride_id amount w p up found done = ground (arith, is_completed p.status done)

  charge_ride_new :
      (ride_id : Uuid) (amount : Float) (w : World Float)
      → env.fault w.trips ≡ none
      → find ride_of ride_id w.tables.payments ≡ none
      → charge_ride env s ride_id amount w ≡ charge env s ride_id amount (tick w)
  unfolding actions charge_ride get_by_ride_id
  charge_ride_new ride_id amount w up missing = ground arith

  -- A payment as it was returned, or with the amount that the column keeps.
  abbrev pub IsKept : Payment Float → Float → Payment Float → Type 0
  IsKept p amount q = (q ≡ p) ⊎ (q ≡ record p { amount = s.hundredths amount })

  stored :
      (ride_id : Uuid) (amount : Float) (w : World Float) (p : Payment Float)
      → env.fault w.trips ≡ none
      → IsSettled w.tables
      → (charge_ride env s ride_id amount w).0 ≡ ok p
      → (q : Payment Float) × (find ride_of ride_id
            (charge_ride env s ride_id amount w).1.tables.payments
          ≡ some q)
        × (q.status ≡ "completed")
        × IsKept p amount q
  stored ride_id amount w p up settled h =
      elim (Option-cases (find ride_of ride_id w.tables.payments)) [
        | inl missing ↦
            let news =
              charge_ok env s ride_id amount (tick w) p
                (ground (arith, charge_ride_new ride_id amount w up missing)) in
            let row : Payment Float = record p { amount = s.hundredths amount } in
            (
              row,
              ground (
                arith,
                charge_ride_new ride_id amount w up missing,
                news,
                find-append ride_of ride_id row w.tables.payments,
              ),
              news.4,
              inr refl,
            )
        | inr (q, found) ↦
            let done = find-All ride_of _ ride_id w.tables.payments settled.completed found in
            (
              q,
              ground (arith, charge_ride_found ride_id amount w q up found done),
              done,
              inl (ground (arith, charge_ride_found ride_id amount w q up found done)),
            )
      ]

  -- Where no ride has two payments and all payments are completed, that is so after ChargeRide,
  -- whatever it returns, if its lookup does not fail.
  pub charge_ride-IsSettled :
      (ride_id : Uuid) (amount : Float) (w : World Float)
      → env.fault w.trips ≡ none
      → IsSettled w.tables
      → IsSettled (charge_ride env s ride_id amount w).1.tables
  charge_ride-IsSettled ride_id amount w up settled =
      outcome (charge_ride env s ride_id amount w) refl
    where
      added :
          (p : Payment Float)
          → find ride_of ride_id w.tables.payments ≡ none
          → p.ride_id ≡ ride_id
          → p.status ≡ "completed"
          → IsSettled (update_payments (λ rows. rows ++ (p ∷ [])) w.tables)
      added p missing same done = record {
        single = append-Unique ride_of p _ (rw same missing) settled.single;
        completed = append-All _ p _ done settled.completed;
      }

      outcome :
          (o : Result (Payment Float) × World Float)
          → charge_ride env s ride_id amount w ≡ o
          → IsSettled o.1.tables
      outcome (err e, w') same =
          let left = charge_ride_err env s ride_id amount w e (ap (λ o. o.0) same) in
          elim left.0 [
            | inl kept ↦ subst IsSettled (ground arith) settled
            | inr (p, same_ride, done, tables) ↦
                elim (Option-cases (find ride_of ride_id w.tables.payments)) [
                  | inl missing ↦ subst IsSettled (ground arith) (added p missing same_ride done)
                  | inr (q, found) ↦
                      let paid =
                        find-All ride_of _ ride_id w.tables.payments settled.completed found in
                      absurd (ground (arith, charge_ride_found ride_id amount w q up found paid))
                ]
          ]
      outcome (ok p, w') same = elim (Option-cases (find ride_of ride_id w.tables.payments)) [
        | inl missing ↦
            let news =
              charge_ok env s ride_id amount (tick w) p
                (ground (arith, charge_ride_new ride_id amount w up missing)) in
            subst IsSettled (ground (arith, charge_ride_new ride_id amount w up missing, news))
              (added (record p { amount = s.hundredths amount }) missing news.2 news.4)
        | inr (q, found) ↦
            let done = find-All ride_of _ ride_id w.tables.payments settled.completed found in
            subst IsSettled (ground (arith, charge_ride_found ride_id amount w q up found done))
              settled
      ]

  -- Where no ride has two payments and all are completed: after a ChargeRide that returned a payment,
  -- charging the same ride again, with any amount, returns that payment, or that payment with its
  -- amount as the column keeps it; captures nothing and changes no table, if the lookups of both calls
  -- do not fail.
  pub charge_ride_repeat :
      (ride_id : Uuid) (amount again : Float) (w : World Float) (p : Payment Float)
      → env.fault w.trips ≡ none
      → IsSettled w.tables
      → (charge_ride env s ride_id amount w).0 ≡ ok p
      → let after = (charge_ride env s ride_id amount w).1 in
        env.fault after.trips ≡ none
        → (q : Payment Float) × IsKept p amount q
          × (charge_ride env s ride_id again after ≡ (ok q, tick after))
  charge_ride_repeat ride_id amount again w p up settled h up' =
      let (q, found, done, same) = stored ride_id amount w p up settled h in
      (q, same, charge_ride_found ride_id again _ q up' found done)

  -- Under the same conditions GetPayment returns that payment too.
  pub get_payment-charge_ride :
      (ride_id : Uuid) (amount : Float) (w : World Float) (p : Payment Float)
      → env.fault w.trips ≡ none
      → IsSettled w.tables
      → (charge_ride env s ride_id amount w).0 ≡ ok p
      → let after = (charge_ride env s ride_id amount w).1 in
        env.fault after.trips ≡ none
        → (q : Payment Float) × IsKept p amount q
          × (get_payment env s ride_id after ≡ (ok q, tick after))
  unfolding actions get_payment get_by_ride_id
  get_payment-charge_ride ride_id amount w p up settled h up' =
      let (q, found, done, same) = stored ride_id amount w p up settled h in (q, same, ground arith)

  -- A lookup that fails makes ChargeRide take the money again: even where the table holds a completed
  -- payment of the ride, when the lookup fails and the provider accepts, one more transaction is
  -- captured.
  pub charge_ride_lookup_fault :
      (ride_id : Uuid) (amount : Float) (w : World Float) (p : Payment Float) (e : Error)
      (txn_id : String)
      → find ride_of ride_id w.tables.payments ≡ some p
      → p.status ≡ "completed"
      → env.fault w.trips ≡ some e
      → s.gateway.create_payment_intent (suc w.trips) amount "USD" ≡ ok txn_id
      → s.gateway.capture_payment (suc (suc w.trips)) txn_id ≡ ok tt
      → (charge_ride env s ride_id amount w).1.captured ≡ w.captured ++ (txn_id ∷ [])
  unfolding actions charge_ride get_by_ride_id charge create
  charge_ride_lookup_fault ride_id amount w p e txn_id found done down intent captured =
      ground arith
