-- ===== src/Ride/Service/Handlers.antt =====
-- internal/ride/service.go: AcceptRide, CompleteRide and CancelRide on success and on failure.
use ridesharing.Prelude.{ℕ, suc, ◌≡◌, ◌⊎◌, none, some, arith, true}
use ridesharing.Prelude.Table.{find, update}
use ridesharing.Errors.{Error, ok, err}
use ridesharing.Models.{Uuid, Ride, RideStatus, matched, enroute, completed, cancelled}
use ridesharing.Floats.{Float64}
use ridesharing.Database.{actions, Env, World, tick}
use ridesharing.Database.Atomic.{with_tx_ok, with_tx_fails, with_tx-events}
use ridesharing.Ride.Fsm.{can_transition, validate_transition}
use ridesharing.Ride.Repository.{
  ride_key, update_rides, started, ended, with_status, get_by_id_for_update, set_started,
  set_completed, update_status,
}
use ridesharing.Ride.Matching.{Service}
use ridesharing.Ride.Service.{
  accept_tx, accept_ride, complete_tx, complete_ride, cancel_tx, cancel_ride,
}

module _ (F : Float64) (env : Env) (s : Service F) where
  open F use {Float}

  -- The time of the third round trip of a handler: Begin, SELECT … FOR UPDATE, UPDATE.
  abbrev pub update_time : World Float → ℕ
  update_time w = env.now (suc (suc w.trips))

  accept_tx_ok :
      (id driver : Uuid) (w : World Float) (r : Ride Float)
      → (accept_tx F env s id driver w).0 ≡ ok r
      → (find ride_key id w.tables.rides ≡ some (record r { status = matched }))
        × (r.driver_id ≡ some driver)
        × (r.status ≡ enroute)
        × ((accept_tx F env s id driver w).1.tables
            ≡ update_rides (update ride_key id (started (env.now (suc w.trips)))) w.tables)
  unfolding actions accept_tx get_by_id_for_update set_started validate_transition
  accept_tx_ok id driver w r h = ground arith

  accept_tx-events :
      (id driver : Uuid) (w : World Float) → (accept_tx F env s id driver w).1.events ≡ w.events
  unfolding actions accept_tx get_by_id_for_update set_started
  accept_tx-events id driver w = ground arith

  -- When AcceptRide returns a ride: the stored ride was matched, and assigned to the calling driver;
  -- the returned one differs from it in its status only, now enroute; and the stored one is now
  -- enroute, with the start and update times set, and no other row or table has changed.
  pub accept_ride_ok :
      (id driver : Uuid) (w : World Float) (r : Ride Float)
      → (accept_ride F env s id driver w).0 ≡ ok r
      → (find ride_key id w.tables.rides ≡ some (record r { status = matched }))
        × (r.driver_id ≡ some driver)
        × (r.status ≡ enroute)
        × ((accept_ride F env s id driver w).1.tables ≡ record w.tables {
          rides =
              update ride_key id
                (λ row. record row {
                  status = enroute;
                  started_at = some (update_time w);
                  updated_at = update_time w;
                })
                w.tables.rides;
        })
  unfolding actions accept_ride
  accept_ride_ok id driver w r h =
      ground
        (arith, with_tx_ok env (accept_tx F env s id driver) w r, accept_tx_ok id driver (tick w) r)

  -- When AcceptRide fails, at whatever point, no table has changed and no event is published.
  pub accept_ride_err :
      (id driver : Uuid) (w : World Float) (e : Error)
      → (accept_ride F env s id driver w).0 ≡ err e
      → ((accept_ride F env s id driver w).1.tables ≡ w.tables)
        × ((accept_ride F env s id driver w).1.events ≡ w.events)
  unfolding actions accept_ride
  accept_ride_err id driver w e h = ground (
    arith,
    with_tx_fails env (accept_tx F env s id driver) w,
    with_tx-events env (accept_tx F env s id driver) w (accept_tx-events id driver (tick w)),
  )

  complete_tx_ok :
      (id driver : Uuid) (w : World Float) (r : Ride Float)
      → (complete_tx F env s id driver w).0 ≡ ok r
      → (find ride_key id w.tables.rides ≡ some (record r { status = enroute }))
        × (r.driver_id ≡ some driver)
        × (r.status ≡ completed)
        × ((complete_tx F env s id driver w).1.tables
            ≡ update_rides (update ride_key id (ended r.fare (env.now (suc w.trips)))) w.tables)
  unfolding actions complete_tx get_by_id_for_update set_completed validate_transition
  complete_tx_ok id driver w r h = ground arith

  complete_tx-events :
      (id driver : Uuid) (w : World Float) → (complete_tx F env s id driver w).1.events ≡ w.events
  unfolding actions complete_tx get_by_id_for_update set_completed
  complete_tx-events id driver w = ground arith

  pub complete_ride_ok :
      (id driver : Uuid) (w : World Float) (r : Ride Float)
      → (complete_ride F env s id driver w).0 ≡ ok r
      → (find ride_key id w.tables.rides ≡ some (record r { status = enroute }))
        × (r.driver_id ≡ some driver)
        × (r.status ≡ completed)
        × ((complete_ride F env s id driver w).1.tables ≡ record w.tables {
          rides =
              update ride_key id
                (λ row. record row {
                  status = completed;
                  fare = r.fare;
                  ended_at = some (update_time w);
                  updated_at = update_time w;
                })
                w.tables.rides;
        })
  unfolding actions complete_ride
  complete_ride_ok id driver w r h = ground (
    arith,
    with_tx_ok env (complete_tx F env s id driver) w r,
    complete_tx_ok id driver (tick w) r,
  )

  pub complete_ride_err :
      (id driver : Uuid) (w : World Float) (e : Error)
      → (complete_ride F env s id driver w).0 ≡ err e
      → ((complete_ride F env s id driver w).1.tables ≡ w.tables)
        × ((complete_ride F env s id driver w).1.events ≡ w.events)
  unfolding actions complete_ride
  complete_ride_err id driver w e h = ground (
    arith,
    with_tx_fails env (complete_tx F env s id driver) w,
    with_tx-events env (complete_tx F env s id driver) w (complete_tx-events id driver (tick w)),
  )

  -- The status that a ride had when it was cancelled.
  abbrev pub status_before : Uuid → World Float → RideStatus
  status_before id w = elim (find ride_key id w.tables.rides) [
    | none ↦ cancelled
    | some row ↦ row.status
  ]

  cancel_tx_ok :
      (id user : Uuid) (w : World Float) (r : Ride Float)
      → (cancel_tx F env s id user w).0 ≡ ok r
      → (find ride_key id w.tables.rides ≡ some (record r { status = status_before id w }))
        × ((r.rider_id ≡ user) ⊎ (r.driver_id ≡ some user))
        × (can_transition (status_before id w) cancelled ≡ true)
        × (r.status ≡ cancelled)
        × ((cancel_tx F env s id user w).1.tables
            ≡ update_rides
                (update ride_key id (with_status cancelled none (env.now (suc w.trips))))
                w.tables)
  unfolding actions cancel_tx get_by_id_for_update update_status validate_transition
  cancel_tx_ok id user w r h = ground arith

  cancel_tx-events :
      (id user : Uuid) (w : World Float) → (cancel_tx F env s id user w).1.events ≡ w.events
  unfolding actions cancel_tx get_by_id_for_update update_status
  cancel_tx-events id user w = ground arith

  -- When CancelRide returns a ride: the stored ride was requested, matched or enroute, and the caller
  -- is its rider or its driver; the returned one differs from it in its status only, now cancelled;
  -- and the stored one is now cancelled, with the update time set, and nothing else has changed.
  pub cancel_ride_ok :
      (id user : Uuid) (w : World Float) (r : Ride Float)
      → (cancel_ride F env s id user w).0 ≡ ok r
      → (find ride_key id w.tables.rides ≡ some (record r { status = status_before id w }))
        × ((r.rider_id ≡ user) ⊎ (r.driver_id ≡ some user))
        × (can_transition (status_before id w) cancelled ≡ true)
        × (r.status ≡ cancelled)
        × ((cancel_ride F env s id user w).1.tables ≡ record w.tables {
          rides =
              update ride_key id
                (λ row. record row { status = cancelled; updated_at = update_time w })
                w.tables.rides;
        })
  unfolding actions cancel_ride
  cancel_ride_ok id user w r h =
      ground
        (arith, with_tx_ok env (cancel_tx F env s id user) w r, cancel_tx_ok id user (tick w) r)

  pub cancel_ride_err :
      (id user : Uuid) (w : World Float) (e : Error)
      → (cancel_ride F env s id user w).0 ≡ err e
      → ((cancel_ride F env s id user w).1.tables ≡ w.tables)
        × ((cancel_ride F env s id user w).1.events ≡ w.events)
  unfolding actions cancel_ride
  cancel_ride_err id user w e h = ground (
    arith,
    with_tx_fails env (cancel_tx F env s id user) w,
    with_tx-events env (cancel_tx F env s id user) w (cancel_tx-events id user (tick w)),
  )
