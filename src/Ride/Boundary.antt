-- ===== src/Ride/Boundary.antt =====
-- internal/ride/handler.go and grpc_server.go: who can change a ride through the gateway, and what the
-- gateway answers.
use mathlib.Core.Path.{subst}
use ridesharing.Prelude.{◌≡◌, ◌⊎◌, refl, ◌∙◌, inl, inr, String, none, some, true, arith}
use ridesharing.Prelude.Table.{find}
use ridesharing.Errors.{Error, Result-cases, ok, err}
use ridesharing.Models.{Uuid, Ride, matched, enroute, cancelled}
use ridesharing.Floats.{Float64}
use ridesharing.Database.{actions, Env, Tables, World, Action, ◌>>=◌, pure}
use ridesharing.Database.Leaves.{Leaves, bind-Leaves, pure-Leaves, invoke-Leaves, parsed-Leaves}
use ridesharing.Rpc.{GrpcLibrary, IsUuidText, invoke, parsed}
use ridesharing.Http.{Context, error_json}
use ridesharing.Ride.Fsm.{can_transition}
use ridesharing.Ride.Repository.{ride_key}
use ridesharing.Ride.Matching.{Service}
use ridesharing.Ride.Service.{accept_ride, complete_ride, cancel_ride}
use ridesharing.Ride.Service.Handlers.{
  accept_ride_ok, accept_ride_err, complete_ride_ok, complete_ride_err, cancel_ride_ok,
  cancel_ride_err, status_before,
}
use ridesharing.Ride.Grpc.{
  build_pb_ride, serve_accept_ride, serve_complete_ride, serve_cancel_ride, post_accept_ride,
  post_complete_ride, post_cancel_ride,
}

-- The tables are as before, unless something held of them.
module _ {Float : Type 0} (Q : Tables Float → Type 0) where
  abbrev pub ChangesIf : Tables Float → Tables Float → Type 0
  ChangesIf t t' = (t' ≡ t) ⊎ Q t

  abbrev pub same : (t : Tables Float) → ChangesIf t t
  same t = inl refl

  pub join : (t u v : Tables Float) → ChangesIf t u → ChangesIf u v → ChangesIf t v
  join t u v (inr q) b = inr q
  join t u v (inl e) (inl f) = inl (f ∙ e)
  join t u v (inl e) (inr q) = inr (subst Q e q)

module _ (F : Float64) (g : GrpcLibrary) (text : IsUuidText g) (env : Env) (s : Service F) where
  open F use {Float}

  -- The path names a stored ride with this property.
  abbrev pub Named : String → (Ride Float → Type 0) → Tables Float → Type 0
  Named path P t =
      (id : Uuid) × (g.parse_uuid path ≡ ok id)
      × ((r : Ride Float) × (find ride_key id t.rides ≡ some r) × P r)

  abbrev pub IsMatchedWith : Uuid → Ride Float → Type 0
  IsMatchedWith user r = (r.driver_id ≡ some user) × (r.status ≡ matched)

  abbrev pub IsDrivenBy : Uuid → Ride Float → Type 0
  IsDrivenBy user r = (r.driver_id ≡ some user) × (r.status ≡ enroute)

  abbrev pub IsPartOf : Uuid → Ride Float → Type 0
  IsPartOf user r =
      ((r.rider_id ≡ user) ⊎ (r.driver_id ≡ some user)) × (can_transition r.status cancelled ≡ true)

  accept_own :
      (path : String) (id user : Uuid)
      → g.parse_uuid path ≡ ok id
      → Leaves (ChangesIf (Named path (IsMatchedWith user))) (accept_ride F env s id user)
  accept_own path id user e w = elim (Result-cases (accept_ride F env s id user w).0) [
    | inl (x, fails) ↦ inl (accept_ride_err F env s id user w x fails).0
    | inr (r, done) ↦
        let p = accept_ride_ok F env s id user w r done in
        inr (id, e, (record r { status = matched }, p.0, (p.1, refl)))
  ]

  complete_own :
      (path : String) (id user : Uuid)
      → g.parse_uuid path ≡ ok id
      → Leaves (ChangesIf (Named path (IsDrivenBy user))) (complete_ride F env s id user)
  complete_own path id user e w = elim (Result-cases (complete_ride F env s id user w).0) [
    | inl (x, fails) ↦ inl (complete_ride_err F env s id user w x fails).0
    | inr (r, done) ↦
        let p = complete_ride_ok F env s id user w r done in
        inr (id, e, (record r { status = enroute }, p.0, (p.1, refl)))
  ]

  cancel_own :
      (path : String) (id user : Uuid)
      → g.parse_uuid path ≡ ok id
      → Leaves (ChangesIf (Named path (IsPartOf user))) (cancel_ride F env s id user)
  cancel_own path id user e w = elim (Result-cases (cancel_ride F env s id user w).0) [
    | inl (x, fails) ↦ inl (cancel_ride_err F env s id user w x fails).0
    | inr (r, done) ↦
        let p = cancel_ride_ok F env s id user w r done in
        inr (id, e, (record r { status = status_before F env s id w }, p.0, (p.1, p.2)))
  ]

  -- A method with the two ids: the second is the text of the user.
  method_own :
      (P : Ride Float → Type 0) (path : String) (user : Uuid)
      (call : Uuid → Uuid → Action Float (Ride Float))
      → ((id : Uuid) → g.parse_uuid path ≡ ok id → Leaves (ChangesIf (Named path P)) (call id user))
      → Leaves (ChangesIf (Named path P)) (
          parsed g path λ id.
            parsed g (g.uuid_text user) λ by. call id by >>= λ r. pure (build_pb_ride F g env s r))
  method_own P path user call own =
      parsed-Leaves (ChangesIf (Named path P)) (same _) (join _) g path _ λ id e.
        parsed-Leaves (ChangesIf (Named path P)) (same _) (join _) g (g.uuid_text user) _ λ by f.
          let is_user : by ≡ user = ground (arith, text.parse-text user) in
          rw is_user (
            bind-Leaves (ChangesIf (Named path P)) (same _) (join _) (call id user) _ (own id e)
              (λ r.
                pure-Leaves (ChangesIf (Named path P)) (same _) (join _)
                  (build_pb_ride F g env s r)))

  -- For a user who is signed in, whatever the path, and whatever is lost or fails: a POST to accept,
  -- complete or cancel a ride changes a table only if the path names a stored ride, of which the user
  -- is the driver, and which is matched, to accept it; the driver, and which is enroute, to complete
  -- it; the rider or the driver, and which may become cancelled, to cancel it.
  pub post_own :
      (c : Context) (user : Uuid) (path : String) (w : World Float)
      → c.user_id ≡ some user
      → ChangesIf
          (Named path (IsMatchedWith user))
          w.tables
          (post_accept_ride F g env s c path w).1.tables
        × ChangesIf
            (Named path (IsDrivenBy user))
            w.tables
            (post_complete_ride F g env s c path w).1.tables
        × ChangesIf
            (Named path (IsPartOf user))
            w.tables
            (post_cancel_ride F g env s c path w).1.tables
  unfolding post_accept_ride post_complete_ride post_cancel_ride serve_accept_ride
      serve_complete_ride serve_cancel_ride
  post_own c user path w signed_in = rw signed_in (
    invoke-Leaves (ChangesIf (Named path (IsMatchedWith user))) (same _) (join _) g
        (serve_accept_ride F g env s path (g.uuid_text user))
        (method_own (IsMatchedWith user) path user (accept_ride F env s)
          (λ id e. accept_own path id user e))
        w,
    invoke-Leaves (ChangesIf (Named path (IsDrivenBy user))) (same _) (join _) g
        (serve_complete_ride F g env s path (g.uuid_text user))
        (method_own (IsDrivenBy user) path user (complete_ride F env s)
          (λ id e. complete_own path id user e))
        w,
    invoke-Leaves (ChangesIf (Named path (IsPartOf user))) (same _) (join _) g
        (serve_cancel_ride F g env s path (g.uuid_text user))
        (method_own (IsPartOf user) path user (cancel_ride F env s)
          (λ id e. cancel_own path id user e))
        w,
  )

  -- For a user who is signed in and a path that is the text of an id: whatever error AcceptRide,
  -- CompleteRide or CancelRide returns, also one with the status 403, 404 or 409, the POST is answered
  -- 500 with the one message, which says nothing of it.
  pub post_refused :
      (c : Context) (user id : Uuid) (path : String) (w : World Float) (e : Error)
      → c.user_id ≡ some user
      → g.parse_uuid path ≡ ok id
      → ((accept_ride F env s id user w).0 ≡ err e
          → (post_accept_ride F g env s c path w).0 ≡ error_json 500 "internal server error" none)
        × ((complete_ride F env s id user w).0 ≡ err e
            → (post_complete_ride F g env s c path w).0
              ≡ error_json 500 "internal server error" none)
        × ((cancel_ride F env s id user w).0 ≡ err e
            → (post_cancel_ride F g env s c path w).0 ≡ error_json 500 "internal server error" none)
  unfolding actions post_accept_ride post_complete_ride post_cancel_ride serve_accept_ride
      serve_complete_ride serve_cancel_ride invoke
  post_refused c user id path w e signed_in parses = (
    (λ h. ground (arith, text.parse-text user)),
    (λ h. ground (arith, text.parse-text user)),
    (λ h. ground (arith, text.parse-text user)),
  )
