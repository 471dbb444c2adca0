-- ===== src/Auth/Boundary.antt =====
-- internal/auth/grpc_server.go and handler.go: what a client of the gateway sees of the auth service.
use ridesharing.Prelude.{
  ℕ, suc, Bool, ◌||◌, ◌≡◌, ◌≢◌, refl, ap, inl, inr, true, false, none, some, arith, ◌==◌, same_text,
  if◌then◌else◌,
}
use ridesharing.Errors.{Error, Result-cases, ok, error_text, as_app_error}
use ridesharing.Database.{actions, Env, World, tick}
use ridesharing.Rpc.{GrpcLibrary, invoke}
use ridesharing.Http.{error_json, status_of}
use ridesharing.Security.{record_failure}
use ridesharing.Auth.Repository.{find_email, get_by_email}
use ridesharing.Auth.Service.{Service, RegisterRequest, AuthResponse, register}
use ridesharing.Auth.Login.{lock_check, WrongPassword, login_refused}
use ridesharing.Auth.Grpc.{
  map_error, handle_error, GatewayRegisterRequest, GatewayLoginRequest, post_register, post_login,
  serve_register, serve_login,
}

-- The statuses that both switches know.
abbrev pub is_mapped : ℕ → Bool
is_mapped n = n == 400 || n == 401 || n == 403 || n == 404 || n == 409 || n == 429

-- What an error of the auth service is to a client of the gateway: an application error, also one that
-- is wrapped, keeps its status and its message where the status is 400, 401, 403, 404, 409 or 429, and
-- has status 500 where it is another; any other error has status 500 and its own text.
pub handle_error-map_error :
    {A : Type 0} (e : Error)
    → handle_error {A = A} (map_error e) ≡ elim (as_app_error e) [
      | some (n, message) ↦ error_json (if is_mapped n then n else 500) message none
      | none ↦ error_json 500 (error_text e) none
    ]
unfolding handle_error map_error
handle_error-map_error e = ground arith

abbrev as_sent : GatewayRegisterRequest → RegisterRequest
as_sent req = record {
  email = req.email;
  password = req.password;
  name = req.name;
  phone = req.phone;
  role = req.role;
  vehicle_type = "";
  license_plate = "";
}

module _ {Float : Type 0} (g : GrpcLibrary) (env : Env) (s : Service) (rating : Float) where
  -- A driver without a vehicle is not registered.
  register_bare_driver :
      (req : RegisterRequest) (w : World Float)
      → same_text req.role "driver" ≡ true
      → same_text req.vehicle_type "" ≡ true
      → ((resp : AuthResponse) → (register env s rating req w).0 ≢ ok resp)
        × ((register env s rating req w).1.tables ≡ w.tables)
  unfolding actions register get_by_email
  register_bare_driver req w role vehicle = ((λ resp e. ground arith), ground arith)

  -- Whatever is lost on the way: for a request to register a driver, with whatever vehicle, the
  -- gateway does not answer 201, and no table has changed.
  pub post_register_driver :
      (req : GatewayRegisterRequest) (w : World Float)
      → req.role ≡ "driver"
      → (status_of (post_register g env s rating (ok req) w).0 ≢ 201)
        × ((post_register g env s rating (ok req) w).1.tables ≡ w.tables)
  unfolding actions post_register invoke serve_register handle_error map_error
  post_register_driver req w role =
      let bare = register_bare_driver (as_sent req) w (ap (λ r. same_text r "driver") role) refl in
      elim (Result-cases (register env s rating (as_sent req) w).0) [
        | inr (resp, done) ↦ absurd (bare.0 resp done)
        | inl (e, fails) ↦ ((λ h. ground (arith, bare.1)), ground (arith, bare.1))
      ]

  -- Where no message is lost, the account is not locked and the lookup does not fail: a login with an
  -- unknown email and one with a wrong password get the same answer, 401 and one message, and both
  -- count as a failure of the account.
  pub post_login_refused :
      (req : GatewayLoginRequest) (w : World Float)
      → let email = s.normalize req.email in
        ((n : ℕ) → g.lost_request n ≡ none)
        → ((n : ℕ) → g.lost_answer n ≡ none)
        → (lock_check env s rating email w).0 ≡ false
        → env.fault w.trips ≡ none
        → WrongPassword env s rating req.password (find_email email w.tables.users)
        → post_login g env s rating (ok req) w ≡ (
          error_json 401 "invalid email or password" none,
          record (tick w) {
            attempts =
                (record_failure s.lockout
                  (env.now (suc w.trips))
                  email
                  (lock_check env s rating email w).1).1;
          },
        )
  unfolding actions post_login invoke serve_login handle_error map_error as_app_error
  post_login_refused req w sent answered free up refused =
      let service = login_refused env s rating req.email req.password w free up refused in
      ground (arith, sent w.trips, answered (suc w.trips), service)
