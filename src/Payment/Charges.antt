-- ===== src/Payment/Charges.antt =====
-- internal/payment/payment.go: what one ChargeRide does to the money taken and to the payments.
use mathlib.Core.Path.{subst}
use ridesharing.Prelude.{
  same_text_iff, suc, ◌≡◌, refl, ◌⊎◌, inl, inr, String, some, List, [], ◌∷◌, ◌++◌, arith, length,
  length-append, ◌∙◌,
}
use ridesharing.Prelude.Table.{find}
use ridesharing.Errors.{Error, Result, ok, err}
use ridesharing.Models.{Uuid, Payment}
use ridesharing.Database.{actions, Env, World, tick}
use ridesharing.Payment.{
  Service, stored_amount, new_payment, ride_of, create, get_by_ride_id, charge, charge_ride,
}

length-snoc : {A : Type 0} (xs : List A) (x : A) → length (xs ++ (x ∷ [])) ≡ suc (length xs)
length-snoc xs x = length-append xs (x ∷ []) ∙ omega arith

module _ {Float : Type 0} (env : Env) (s : Service Float) where
  pub charge_ok :
      (ride_id : Uuid) (amount : Float) (w : World Float) (p : Payment Float)
      → (charge env s ride_id amount w).0 ≡ ok p
      → ((charge env s ride_id amount w).1.captured ≡ w.captured ++ (p.stripe_txn_id ∷ []))
        × ((charge env s ride_id amount w).1.tables ≡ record w.tables {
          payments = w.tables.payments ++ (record p { amount = s.hundredths amount } ∷ []);
        })
        × (p.ride_id ≡ ride_id)
        × (p.amount ≡ amount)
        × (p.status ≡ "completed")
  unfolding actions charge create
  charge_ok ride_id amount w p h = ground arith

  -- What a failed charge leaves behind: no payment, or one completed payment of the ride, which was
  -- stored though the answer was lost; and no transaction captured, or one.
  abbrev pub Unfinished : Uuid → World Float → World Float → Type 0
  Unfinished ride_id w after =
      ((after.tables ≡ w.tables)
        ⊎ ((p : Payment Float) × (p.ride_id ≡ ride_id)
            × (p.status ≡ "completed")
            × (after.tables ≡ record w.tables { payments = w.tables.payments ++ (p ∷ []) })))
      × ((after.captured ≡ w.captured) ⊎ (length after.captured ≡ suc (length w.captured)))

  -- The row of a charge that starts in that world.
  abbrev lost_row : Uuid → Float → String → World Float → Payment Float
  lost_row ride_id amount txn_id w =
      let n = suc (suc w.trips) in
      stored_amount s.hundredths (record (new_payment env s ride_id amount txn_id) {
        id = env.fresh n;
        created_at = env.now n;
      })

  pub charge_err :
      (ride_id : Uuid) (amount : Float) (w : World Float) (e : Error)
      → (charge env s ride_id amount w).0 ≡ err e
      → Unfinished ride_id w (charge env s ride_id amount w).1
  unfolding actions charge create
  charge_err ride_id amount w e h =
      answered (s.gateway.create_payment_intent w.trips amount "USD") refl
    where
      answered :
          (r : Result String)
          → s.gateway.create_payment_intent w.trips amount "USD" ≡ r
          → Unfinished ride_id w (charge env s ride_id amount w).1
      answered (err x) same = (inl (ground arith), ground arith)
      answered (ok txn_id) same =
          let row = lost_row ride_id amount txn_id w in
          let tables : ((charge env s ride_id amount w).1.tables ≡ w.tables)
              ⊎ ((charge env s ride_id amount w).1.tables
                  ≡ record w.tables { payments = w.tables.payments ++ (row ∷ []) }) =
            ground arith in
          (
            elim tables [ inl kept ↦ inl kept | inr added ↦ inr (row, refl, refl, added) ],
            ground (arith, length-snoc w.captured txn_id),
          )

  -- When ChargeRide returns a payment, then either it was already stored as the completed payment of
  -- the ride, and nothing is taken or stored; or its transaction, and no other, is captured, and the
  -- payment, completed, with the ride and the amount asked for, is stored behind the others, where the
  -- column keeps two decimals of the amount.
  pub charge_ride_ok :
      (ride_id : Uuid) (amount : Float) (w : World Float) (p : Payment Float)
      → (charge_ride env s ride_id amount w).0 ≡ ok p
      → let after = (charge_ride env s ride_id amount w).1 in
        ((find ride_of ride_id w.tables.payments ≡ some p)
          × (p.status ≡ "completed")
          × (after.tables ≡ w.tables)
          × (after.captured ≡ w.captured))
        ⊎ ((after.captured ≡ w.captured ++ (p.stripe_txn_id ∷ []))
            × (after.tables ≡ record w.tables {
              payments = w.tables.payments ++ (record p { amount = s.hundredths amount } ∷ []);
            })
            × (p.ride_id ≡ ride_id)
            × (p.amount ≡ amount)
            × (p.status ≡ "completed"))
  unfolding actions charge_ride get_by_ride_id
  charge_ride_ok ride_id amount w p h =
      ground (arith, charge_ok ride_id amount (tick w) p, same_text_iff p.status "completed")

  by_charge :
      (ride_id : Uuid) (amount : Float) (w : World Float) (e : Error)
      → (charge_ride env s ride_id amount w).0 ≡ err e
      → ((charge env s ride_id amount (tick w)).0 ≡ err e)
        × ((charge env s ride_id amount (tick w)).1 ≡ (charge_ride env s ride_id amount w).1)
  unfolding actions charge_ride get_by_ride_id
  by_charge ride_id amount w e h = ground arith

  -- A ChargeRide that fails stores nothing, or one payment whose answer was lost; it has captured
  -- nothing, or one transaction.
  pub charge_ride_err :
      (ride_id : Uuid) (amount : Float) (w : World Float) (e : Error)
      → (charge_ride env s ride_id amount w).0 ≡ err e
      → Unfinished ride_id w (charge_ride env s ride_id amount w).1
  charge_ride_err ride_id amount w e h =
      let (fails, same) = by_charge ride_id amount w e h in
      subst (Unfinished ride_id w) same (charge_err ride_id amount (tick w) e fails)
