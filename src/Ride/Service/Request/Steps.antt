-- ===== src/Ride/Service/Request/Steps.antt =====
-- internal/ride/service.go: the steps of RequestRide, one by one.
use mathlib.Core.Option
use ridesharing.Prelude.{
  inl, inr, ◌≡◌, refl, sym, ap, ◌∙◌, Option, none, some, List, [], ◌∷◌, ◌++◌, arith, String,
}
use ridesharing.Prelude.Table.{find, update, find-append, find-update_self, find-update_ne}
use ridesharing.Errors.{Result, ok, err, plain, wrapped}
use ridesharing.Models.{Uuid, Ride, NearbyDriver, requested, matched}
use ridesharing.Floats.{Float64}
use ridesharing.Database.{Env, Tables, World, Action, with_tx, tick}
use ridesharing.Database.Triple.{
  Ensures, Post, bind_rule, then_rule, pure_rule, map_err_rule, fail_if_keeps, silent_rule,
  sure_rule, with_tx_rule, query_rule, exec_rule, Returns, weaken,
}
use ridesharing.Redis.{DistLock, new_dist_lock, release}
use ridesharing.Redis.Silent.{acquire_with_retry-Silent, release-Silent}
use ridesharing.Ride.Repository.{
  ride_key, inserted, with_status, update_rides, create, update_status, active_row,
  get_active_by_rider,
}
use ridesharing.Ride.Repository.Queries.{active_row-none}
use ridesharing.Ride.Invariant.{IsValid, NoneActive}
use ridesharing.Ride.Invariant.Updates.{insert-IsValid, update-IsValid}
use ridesharing.Ride.Matching.{
  Service, releasing, publish_event, choose_nearest, assign_nearest, match_locked, match_driver,
  lock_ttl,
}
use ridesharing.Ride.Service.Request.{Failed, Placed}

module _ {Float : Type 0} (env : Env) where
  -- The check for an active ride.
  pub get_active_by_rider-Ensures :
      (rider : Uuid) (before : Tables Float)
      → Ensures
          (λ t. t ≡ before)
          (get_active_by_rider env rider)
          (λ a t. (t ≡ before) × (a ≡ none → NoneActive rider before.rides))
          (λ t. t ≡ before)
  unfolding get_active_by_rider
  get_active_by_rider-Ensures rider before =
      weaken (λ a t. (t ≡ before) × (a ≡ none → NoneActive rider before.rides))
        (map_err_rule (wrapped "get active ride")
          (query_rule env (λ n t. active_row rider t.rides)))
        (λ t p. p)
        (λ a t q. (
          q.0,
          λ e.
              active_row-none rider before.rides
                (ap (λ (x : Tables Float). active_row rider x.rides) (sym q.0) ∙ sym q.1.1 ∙ e),
        ))
        (λ t p. p)

  inserted-Placed :
      (hundredths : Float → Float) (id now : Uuid) (r : Ride Float) (before : Tables Float)
      → IsValid before
      → r.status ≡ requested
      → r.driver_id ≡ none
      → NoneActive r.rider_id before.rides
      → find ride_key id before.rides ≡ none
      → Placed before r.rider_id
          (record r { id = id; created_at = now; updated_at = now })
          none
          (update_rides (λ rows. rows ++ (inserted hundredths id now r ∷ [])) before)
  inserted-Placed hundredths id now r before v s d none_active fresh = record {
    valid = insert-IsValid (inserted hundredths id now r) before fresh (ground arith) none_active v;
    kept = λ k row e.
        ground (arith, find-append ride_key k (inserted hundredths id now r) before.rides);
    new = fresh;
    requester = refl;
    row = inserted hundredths id now r;
    stored = ground (arith, find-append ride_key id (inserted hundredths id now r) before.rides);
    same_ride = ground arith;
    outcome = (s, d);
  }

  -- `Create` of a new requested ride.
  pub create-Ensures :
      (hundredths : Float → Float) (r : Ride Float) (before : Tables Float)
      → IsValid before
      → r.status ≡ requested
      → r.driver_id ≡ none
      → NoneActive r.rider_id before.rides
      → Ensures
          (λ t. t ≡ before)
          (create env hundredths r)
          (λ r' t. Placed before r.rider_id r' none t)
          (Failed before r.rider_id)
  unfolding create
  create-Ensures hundredths r before v s d none_active = map_err_rule (wrapped "create ride") (
      exec_rule env _
        (λ n t e. inserts (env.fresh n) (env.now n) t e (find ride_key (env.fresh n) t.rides) refl)
        (λ t e. inl e) (λ r' t p. inr (r', p)))
    where
      inserts :
          (id now : Uuid) (t : Tables Float)
          → t ≡ before
          → (o : Option (Ride Float)) → o ≡ find ride_key id t.rides
          → Returns env
              (λ r' t. Placed before r.rider_id r' none t)
              (elim o [
                | some x ↦ err (plain "duplicate key value violates unique constraint")
                | none ↦ ok (
                  record r { id = id; created_at = now; updated_at = now },
                  update_rides (λ rows. rows ++ (inserted hundredths id now r ∷ [])) t,
                )
              ])
      inserts id now t e none fresh =
          rw e (inserted-Placed hundredths id now r before v s d none_active (rw e at (sym fresh)))
      inserts id now t e (some x) taken = tt

  -- Assigning a driver to the new ride.
  matched-Placed :
      (before : Tables Float) (rider : Uuid) (r : Ride Float) (d : NearbyDriver Float) (now : Uuid)
      (t : Tables Float)
      → Placed before rider r none t
      → Placed before rider
          (record r { status = matched; driver_id = some d.driver_id })
          (some d)
          (update_rides (update ride_key r.id (with_status matched (some d.driver_id) now)) t)
  matched-Placed before rider r d now t p = record {
    valid =
        update-IsValid r.id (with_status matched (some d.driver_id) now) t (λ x. refl)
          (λ x e. ground (arith, p.stored, p.same_ride, p.outcome)) p.valid;
    kept = λ k row e.
        find-update_ne ride_key k r.id _ t.rides (λ x. refl)
          (λ same. cc (ap (λ j. find ride_key j before.rides) same, p.new, e))
        ∙ p.kept k row e;
    new = p.new;
    requester = p.requester;
    row = with_status matched (some d.driver_id) now p.row;
    stored =
        find-update_self ride_key r.id _ t.rides (λ x. refl)
        ∙ ap (Option.map (with_status matched (some d.driver_id) now)) p.stored;
    same_ride = ground (arith, p.same_ride);
    outcome = (refl, refl);
  }

  -- The transaction of `matchDriver`.
  pub assign-Ensures :
      (before : Tables Float) (rider : Uuid) (r : Ride Float) (d : NearbyDriver Float)
      → Ensures
          (Placed before rider r none)
          (with_tx env (update_status env r.id matched (some d.driver_id)))
          (λ _.
            Placed before rider
              (record r { status = matched; driver_id = some d.driver_id })
              (some d))
          (Placed before rider r none)
  unfolding update_status
  assign-Ensures before rider r d = with_tx_rule env (
      map_err_rule (wrapped "update ride status") (
        exec_rule env
          (λ n t. ok (
            tt,
            update_rides (update ride_key r.id (with_status matched (some d.driver_id) (env.now n)))
                t,
          ))
          (λ n t p. matched-Placed before rider r d (env.now n) t p) (λ t p. tt) (λ a t p. tt)))

module _ (F : Float64) (env : Env) (s : Service F) where
  open F use {Float, of_int}

  pub publish_event_sure :
      (event : String) (r : Ride Float) (w : World Float)
      → ((publish_event F env s event r w).0 ≡ ok tt)
        × ((publish_event F env s event r w).1.tables ≡ w.tables)
  unfolding publish_event
  publish_event_sure event r w = ground arith

  -- The driver and the ride that the matching hands back are those of the tables.
  abbrev pub AfterMatch :
      Tables Float → Uuid → Option (NearbyDriver Float) × Ride Float → Tables Float → Type 0
  AfterMatch before rider (d, r') = Placed before rider r' d

  choose_nearest-Ensures :
      (before : Tables Float) (rider : Uuid) (r : Ride Float) (drivers : List (NearbyDriver Float))
      → Ensures
          (Placed before rider r none)
          (choose_nearest F env s r drivers)
          (AfterMatch before rider)
          (Placed before rider r none)
  unfolding choose_nearest
  choose_nearest-Ensures before rider r [] = pure_rule {Q = AfterMatch before rider} (none, r)
  choose_nearest-Ensures before rider r (d ∷ ds) =
      then_rule
        (then_rule
          (map_err_rule (wrapped "update ride status") (assign-Ensures env before rider r d))
          (sure_rule _ (publish_event_sure _ _)))
        (pure_rule {Q = AfterMatch before rider}
          (some d, record r { status = matched; driver_id = some d.driver_id }))

  assign_nearest-Ensures :
      (before : Tables Float) (rider : Uuid) (r : Ride Float)
      → Ensures
          (Placed before rider r none)
          (assign_nearest F env s r)
          (AfterMatch before rider)
          (Placed before rider r none)
  unfolding assign_nearest
  assign_nearest-Ensures before rider r =
      bind_rule
        (map_err_rule (wrapped "find nearby drivers") (
          silent_rule
            (λ w. (s.nearby_drivers w.trips r.pickup_lat r.pickup_long (of_int 10), tick w))
            (λ w. refl)))
        (choose_nearest-Ensures before rider r)

  releasing-Ensures :
      {A : Type 0} {P E : Tables Float → Type 0} {Q : A → Tables Float → Type 0} (lock : DistLock)
      {m : Action Float A}
      → Ensures P m Q E
      → Ensures P (releasing F env s lock m) Q E
  releasing-Ensures {A} {P} {E} {Q} lock {m} e = record { run = λ w p. post (m w) (e.run w p) }
    where
      post : (o : Result A × World Float) → Post Q E o → Post Q E (o.0, (release env lock o.1).1)
      post (ok a, w) q = rw (release-Silent env lock w).0 q
      post (err x, w) q = rw (release-Silent env lock w).0 q

  match_locked-Ensures :
      (before : Tables Float) (rider : Uuid) (lock : DistLock) (r : Ride Float)
      → Ensures
          (Placed before rider r none)
          (match_locked F env s lock r)
          (AfterMatch before rider)
          (Placed before rider r none)
  unfolding match_locked
  match_locked-Ensures before rider lock r = then_rule (fail_if_keeps _ _) (
      bind_rule
        (map_err_rule (wrapped "acquire matching lock")
          (silent_rule _ (λ w. (acquire_with_retry-Silent env lock 3 w).0)))
        λ acquired.
          then_rule (fail_if_keeps _ _)
            (releasing-Ensures lock (assign_nearest-Ensures before rider r)))

  -- Matching keeps the invariant and the other rides, whether it succeeds or not; and if it finds a
  -- driver, the stored ride is matched with that driver.
  pub match_driver-Ensures :
      (before : Tables Float) (rider : Uuid) (r : Ride Float)
      → Ensures
          (Placed before rider r none)
          (match_driver F env s r)
          (AfterMatch before rider)
          (Placed before rider r none)
  unfolding match_driver
  match_driver-Ensures before rider r = record {
    run = λ w p.
        (match_locked-Ensures before rider (new_dist_lock env "ride:match" lock_ttl w) r).run w p;
  }
