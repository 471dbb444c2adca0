-- ===== src/Ride/Run/Steps.antt =====
-- internal/ride/service.go: what one call does to every stored ride.
use ridesharing.Prelude.{
  ℕ, ◌≡◌, refl, sym, ap, ◌∙◌, ◌⊎◌, inl, inr, true, false, none, some, arith, ◌==◌, ==_iff,
  Bool-cases,
}
use mathlib.Core.Option
use mathlib.Core.Path.{subst}
use ridesharing.Prelude.Table.{find, update, find-update_self, find-update_ne}
use ridesharing.Errors.{Result, ok, err}
use ridesharing.Models.{Uuid, Ride, cancelled}
use ridesharing.Floats.{Float64}
use ridesharing.Database.{actions, Env, Tables, World}
use ridesharing.Ride.Fsm.{can_transition}
use ridesharing.Ride.Repository.{
  ride_key, is_active, update_rides, started, ended, with_status, get_by_id, get_history,
  count_by_user,
}
use ridesharing.Ride.Invariant.{IsValid, IsFormed, is_set}
use ridesharing.Ride.Invariant.Updates.{Settles, update-IsValid}
use ridesharing.Ride.Matching.{Service}
use ridesharing.Ride.Service.{
  RideRequest, RideResponse, accept_ride, complete_ride, cancel_ride, request_ride, get_ride,
  get_ride_history,
}
use ridesharing.Ride.Service.Handlers.{
  update_time, accept_ride_ok, accept_ride_err, complete_ride_ok, complete_ride_err, cancel_ride_ok,
  cancel_ride_err, status_before,
}
use ridesharing.Ride.Service.Request.Outcome.{request_ride_ok, request_ride_err}
use ridesharing.Ride.Run.{Command, request, accept, complete, cancel, get, history, step}

module _ {Float : Type 0} where
  -- A ride stays as it was, or takes one allowed transition and keeps its id, rider, driver and fare.
  abbrev pub Evolves : Ride Float → Ride Float → Type 0
  Evolves r r' =
      (r' ≡ r)
      ⊎ ((can_transition r.status r'.status ≡ true)
          × (r'.id ≡ r.id)
          × (r'.rider_id ≡ r.rider_id)
          × (r'.driver_id ≡ r.driver_id)
          × (r'.fare ≡ r.fare))

  -- Every ride of the first tables is still there, and has evolved.
  abbrev pub Develops : Tables Float → Tables Float → Type 0
  Develops t t' =
      (id : Uuid) (r : Ride Float)
      → find ride_key id t.rides ≡ some r
      → (r' : Ride Float) × (find ride_key id t'.rides ≡ some r') × Evolves r r'

  -- One call: the invariant is kept, and every ride develops.
  abbrev pub Preserves : Tables Float → Tables Float → Type 0
  Preserves t t' = IsValid t' × Develops t t'

  same-Preserves : (t t' : Tables Float) → IsValid t → t' ≡ t → Preserves t t'
  same-Preserves t t' v e = rw e (v, λ id r h. (r, h, inl refl))

  update-Preserves :
      (k : Uuid) (f : Ride Float → Ride Float) (t : Tables Float) (old : Ride Float)
      → IsValid t
      → ((r : Ride Float) → (f r).id ≡ r.id)
      → find ride_key k t.rides ≡ some old
      → Settles f old
      → (IsFormed old → IsFormed (f old))
      → Evolves old (f old)
      → Preserves t (update_rides (update ride_key k f) t)
  update-Preserves k f t old v same found settles formed evolves = (
    update-IsValid k f t same
        (λ r e.
          subst (λ x. Settles f x × (IsFormed x → IsFormed (f x))) (ground arith) (settles, formed))
        v,
    develops,
  )
    where
      develops : Develops t (update_rides (update ride_key k f) t)
      develops id r h = elim (Bool-cases (id == k)) [
        | inl hit ↦
            let at_k : find ride_key k t.rides ≡ some r =
              ap (λ j. find ride_key j t.rides) (sym ((==_iff id k).0 hit)) ∙ h in
            (
              f old,
              ap (λ j. find ride_key j (update ride_key k f t.rides)) ((==_iff id k).0 hit)
                  ∙ find-update_self ride_key k f t.rides same
                  ∙ ap (Option.map f) found,
              subst (λ x. Evolves x (f old)) (ground (arith, at_k)) evolves,
            )
        | inr miss ↦
            (r, find-update_ne ride_key id k f t.rides same (λ e. ground arith) ∙ h, inl refl)
      ]

module _ (F : Float64) (env : Env) (s : Service F) where
  open F use {Float}

  request-Preserves :
      (rider : Uuid) (req : RideRequest F) (w : World Float)
      → IsValid w.tables
      → Preserves w.tables (request_ride F env s rider req w).1.tables
  request-Preserves rider req w v = by_outcome (request_ride F env s rider req w).0 refl
    where
      by_outcome :
          (o : Result (RideResponse F))
          → (request_ride F env s rider req w).0 ≡ o
          → Preserves w.tables (request_ride F env s rider req w).1.tables
      by_outcome (ok resp) e =
          let p = request_ride_ok F env s rider req w resp v e in
          (p.valid, λ id r h. (r, p.kept id r h, inl refl))
      by_outcome (err x) e = elim (request_ride_err F env s rider req w x v e) [
        | inl same ↦ same-Preserves _ _ v same
        | inr (r, p) ↦ (p.valid, λ id r h. (r, p.kept id r h, inl refl))
      ]

  accept-Preserves :
      (id driver : Uuid) (w : World Float)
      → IsValid w.tables
      → Preserves w.tables (accept_ride F env s id driver w).1.tables
  unfolding can_transition
  accept-Preserves id driver w v = by_outcome (accept_ride F env s id driver w).0 refl
    where
      by_outcome :
          (o : Result (Ride Float))
          → (accept_ride F env s id driver w).0 ≡ o
          → Preserves w.tables (accept_ride F env s id driver w).1.tables
      by_outcome (ok r) e =
          let p = accept_ride_ok F env s id driver w r e in
          rw p.3 (
            update-Preserves id (started (update_time F env s w)) w.tables _ v (λ x. refl) p.0
              (refl, λ _. refl) (λ g. (g.0, refl, g.2)) (inr (refl, refl, refl, refl, refl)))
      by_outcome (err x) e = same-Preserves _ _ v (accept_ride_err F env s id driver w x e).0

  complete-Preserves :
      (id driver : Uuid) (w : World Float)
      → IsValid w.tables
      → Preserves w.tables (complete_ride F env s id driver w).1.tables
  unfolding can_transition
  complete-Preserves id driver w v = by_outcome (complete_ride F env s id driver w).0 refl
    where
      by_outcome :
          (o : Result (Ride Float))
          → (complete_ride F env s id driver w).0 ≡ o
          → Preserves w.tables (complete_ride F env s id driver w).1.tables
      by_outcome (ok r) e =
          let p = complete_ride_ok F env s id driver w r e in
          rw p.3 (
            update-Preserves id (ended r.fare (update_time F env s w)) w.tables _ v (λ x. refl) p.0
              (refl, λ _. refl) (λ g. (g.0, g.1, refl)) (inr (refl, refl, refl, refl, refl)))
      by_outcome (err x) e = same-Preserves _ _ v (complete_ride_err F env s id driver w x e).0

  -- What may be cancelled was active and had not ended.
  cancellable :
      (r : Ride Float)
      → can_transition r.status cancelled ≡ true
      → (is_active r.status ≡ true) × (IsFormed r → is_set r.ended_at ≡ false)
  unfolding can_transition
  cancellable r h = ground arith

  cancel-Preserves :
      (id user : Uuid) (w : World Float)
      → IsValid w.tables
      → Preserves w.tables (cancel_ride F env s id user w).1.tables
  cancel-Preserves id user w v = by_outcome (cancel_ride F env s id user w).0 refl
    where
      by_outcome :
          (o : Result (Ride Float))
          → (cancel_ride F env s id user w).0 ≡ o
          → Preserves w.tables (cancel_ride F env s id user w).1.tables
      by_outcome (ok r) e =
          let p = cancel_ride_ok F env s id user w r e in
          rw p.4 (
            update-Preserves id (with_status cancelled none (update_time F env s w)) w.tables _ v
              (λ x. refl) p.0
              (refl, λ _. (cancellable (record r { status = status_before F env s id w }) p.2).0)
              (λ g. (cancellable (record r { status = status_before F env s id w }) p.2).1 g)
              (inr (p.2, refl, refl, refl, refl)))
      by_outcome (err x) e = same-Preserves _ _ v (cancel_ride_err F env s id user w x e).0

  get-same : (id : Uuid) (w : World Float) → (get_ride F env s id w).1.tables ≡ w.tables
  unfolding actions get_ride get_by_id
  get-same id w = ground arith

  history-same :
      (user : Uuid) (limit offset : ℕ) (w : World Float)
      → (get_ride_history F env s user limit offset w).1.tables ≡ w.tables
  unfolding actions get_ride_history get_history count_by_user
  history-same user limit offset w = ground arith

  -- Every call of the ride service, whatever fails in it, keeps the invariant; loses no ride; and
  -- leaves each ride as it was, or moves it along one transition that `CanTransition` allows, with
  -- its id, rider, driver and fare unchanged.
  pub step-Preserves :
      (c : Command F) (w : World Float)
      → IsValid w.tables
      → Preserves w.tables (step F env s c w).tables
  unfolding step
  step-Preserves (request rider req) w v = request-Preserves rider req w v
  step-Preserves (accept id driver) w v = accept-Preserves id driver w v
  step-Preserves (complete id driver) w v = complete-Preserves id driver w v
  step-Preserves (cancel id user) w v = cancel-Preserves id user w v
  step-Preserves (get id) w v = same-Preserves _ _ v (get-same id w)
  step-Preserves (history user limit offset) w v =
      same-Preserves _ _ v (history-same user limit offset w)
