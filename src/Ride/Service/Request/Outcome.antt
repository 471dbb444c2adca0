-- ===== src/Ride/Service/Request/Outcome.antt =====
-- internal/ride/service.go: RequestRide as a whole.
use ridesharing.Prelude.{ℕ, ◌≡◌, ◌⊎◌, inl, refl, none, arith}
use mathlib.Core.Path.{subst}
use ridesharing.Errors.{Error, Result, ok, err, internal}
use ridesharing.Models.{Uuid, Ride}
use ridesharing.Floats.{Float64}
use ridesharing.Database.{actions, Env, Tables, World, ◌>>=◌, ◌>>◌, attempt, pure}
use ridesharing.Database.Triple.{
  Ensures, Post, bind_rule, then_rule, pure_rule, map_err_rule, attempt_rule, or_zero_rule,
  silent_rule, sure_rule, fail_if_fact, with_fact, weaken,
}
use ridesharing.Ride.Repository.{create, count_active_in_area}
use ridesharing.Ride.Invariant.{IsValid, NoneActive}
use ridesharing.Ride.Matching.{Service, match_driver, publish_event}
use ridesharing.Ride.Service.{
  RideRequest, RideResponse, new_ride, after_match, request_ride, is_some, demand_window,
}
use ridesharing.Ride.Service.Request.{Placed, Failed}
use ridesharing.Ride.Service.Request.Steps.{
  get_active_by_rider-Ensures, create-Ensures, match_driver-Ensures, publish_event_sure,
}

module _ (F : Float64) (env : Env) (s : Service F) where
  open F use {Float, of_int}

  count-Silent :
      (since : ℕ) (w : World Float) → (count_active_in_area env since w).1.tables ≡ w.tables
  unfolding actions count_active_in_area
  count-Silent since w = ground arith

  Responds : Tables Float → Uuid → RideResponse F → Tables Float → Type 0
  Responds before rider resp t = Placed before rider resp.ride resp.matched_driver t

  create_new :
      (rider : Uuid) (req : RideRequest F) (before : Tables Float)
      → IsValid before
      → (active_count driver_count : ℕ) → NoneActive rider before.rides
      → Ensures
          (λ t. t ≡ before)
          (create env F.hundredths (new_ride F env s rider req active_count driver_count))
          (λ r t. Placed before rider r none t)
          (Failed before rider)
  unfolding new_ride
  create_new rider req before v a d none_active =
      create-Ensures env F.hundredths (new_ride F env s rider req a d) before v refl refl
        none_active

  matching :
      (rider : Uuid) (before : Tables Float) (r : Ride Float)
      → Ensures
          (Placed before rider r none)
          (attempt (match_driver F env s r) >>= λ outcome.
            publish_event F env s "ride.requested" (after_match F env s r outcome).ride
            >> pure (after_match F env s r outcome))
          (Responds before rider)
          (Failed before rider)
  unfolding Responds
  matching rider before r =
      bind_rule
        (attempt_rule
          (λ outcome t.
            Placed before rider (after_match F env s r outcome).ride
              (after_match F env s r outcome).matched_driver t)
          (match_driver-Ensures F env s before rider r) (λ a t p. p) (λ e t p. p))
        λ outcome.
          then_rule (sure_rule _ (publish_event_sure F env s _ _))
            (pure_rule {Q = Responds before rider} _)

  request_ride-Ensures :
      (rider : Uuid) (req : RideRequest F) (before : Tables Float)
      → IsValid before
      → Ensures
          (λ t. t ≡ before)
          (request_ride F env s rider req)
          (Responds before rider)
          (Failed before rider)
  unfolding request_ride Responds
  request_ride-Ensures rider req before v =
      bind_rule
        (map_err_rule (internal "failed to check active rides") (
          weaken _ (get_active_by_rider-Ensures env rider before) (λ t p. p) (λ a t p. p)
            (λ t p. inl p)))
        λ active.
          then_rule
            (weaken _
              (fail_if_fact {E = λ t. t ≡ before} (is_some active) _ (λ t p. p.0)
                (λ t p e. p.1 (ground arith)))
              (λ t p. p) (λ a t p. p) (λ t p. inl p))
            (with_fact λ none_active.
              bind_rule (or_zero_rule 0 (silent_rule _ (count-Silent demand_window)))
                λ active_count.
                  bind_rule (or_zero_rule 0 (silent_rule _ (λ w. refl))) λ driver_count.
                    bind_rule
                      (map_err_rule (internal "failed to create ride")
                        (create_new rider req before v active_count driver_count none_active))
                      (matching rider before))

  -- In tables that satisfy the invariant, when RequestRide returns a ride: the ride is stored under an
  -- id that was not there before, for the rider that asked, as matched with the returned driver or as
  -- requested without one; every other ride is as it was; and the invariant holds again.
  pub request_ride_ok :
      (rider : Uuid) (req : RideRequest F) (w : World Float) (resp : RideResponse F)
      → IsValid w.tables
      → (request_ride F env s rider req w).0 ≡ ok resp
      → Placed w.tables rider resp.ride resp.matched_driver
          (request_ride F env s rider req w).1.tables
  unfolding Responds
  request_ride_ok rider req w resp v h =
      post (request_ride F env s rider req w) h
        ((request_ride-Ensures rider req w.tables v).run w refl)
    where
      post :
          (o : Result (RideResponse F) × World Float)
          → o.0 ≡ ok resp
          → Post (Responds w.tables rider) (Failed w.tables rider) o
          → Placed w.tables rider resp.ride resp.matched_driver o.1.tables
      post (ok a, w') e p =
          subst (λ (x : RideResponse F). Placed w.tables rider x.ride x.matched_driver w'.tables)
            (ground arith) p
      post (err e, w') c p = cc c

  pub request_ride_err :
      (rider : Uuid) (req : RideRequest F) (w : World Float) (e : Error)
      → IsValid w.tables
      → (request_ride F env s rider req w).0 ≡ err e
      → let after = (request_ride F env s rider req w).1.tables in
        (after ≡ w.tables) ⊎ ((r : Ride Float) × Placed w.tables rider r none after)
  request_ride_err rider req w e v h =
      post (request_ride F env s rider req w) h
        ((request_ride-Ensures rider req w.tables v).run w refl)
    where
      post :
          (o : Result (RideResponse F) × World Float)
          → o.0 ≡ err e
          → Post (Responds w.tables rider) (Failed w.tables rider) o
          → Failed w.tables rider o.1.tables
      post (ok a, w') c p = cc c
      post (err x, w') c p = p
