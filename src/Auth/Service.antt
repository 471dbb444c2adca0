-- ===== src/Auth/Service.antt =====
-- internal/auth/service.go: registering, logging in and refreshing.
use ridesharing.Prelude.{
  ℕ, String, Bool, true, false, ◌&&◌, ◌||◌, Option, none, some, same_text, if◌then◌else◌,
}
use ridesharing.Errors.{
  Error, bad_request, unauthorized, conflict, internal, too_many_requests, Result, ok, err,
}
use ridesharing.Models.{Uuid, User}
use ridesharing.Security.{Limits, is_locked, record_failure, record_success}
use ridesharing.Jwt.{JwtLibrary, TokenPair, generate_token_pair, validate_refresh_token}
use ridesharing.Database.{Env, Action, pure, fail, ◌>>=◌, ◌>>◌, fail_if, map_err, with_tx}
use ridesharing.Auth.Repository.{create_driver, create_user, get_by_email, get_by_id}

pub record RegisterRequest : Type 0 where
  pub email : String
  pub password : String
  pub name : String
  pub phone : String
  pub role : String
  pub vehicle_type : String
  pub license_plate : String

pub record AuthResponse : Type 0 where
  pub access_token : String
  pub refresh_token : String
  pub expires_in : ℕ
  pub user : User

-- `Service`, with what it uses of other code: strings.ToLower(strings.TrimSpace(s)), and bcrypt, whose
-- salt depends on the number of round trips made before.
pub record Service : Type 0 where
  pub jwt : JwtLibrary
  pub jwt_secret : String
  pub jwt_exp : ℕ
  pub lockout : Limits
  pub normalize : String → String
  pub generate_from_password : ℕ → String → Result String
  pub compare_hash_and_password : String → String → Option Error

-- The settings of the tracker that `NewService` makes: 1000 failures, and 15 minutes.
abbrev pub new_lockout : Limits
new_lockout = record { max_fails = 1000; lock_dur = 900_000_000_000 }

abbrev pub response : User → TokenPair → AuthResponse
response user pair = record {
  access_token = pair.access_token;
  refresh_token = pair.refresh_token;
  expires_in = pair.expires_in;
  user = user;
}

abbrev pub lacks_vehicle : RegisterRequest → Bool
lacks_vehicle req =
    same_text req.role "driver" && (same_text req.vehicle_type "" || same_text req.license_plate "")

abbrev pub is_some : Option User → Bool
is_some none = false
is_some (some u) = true

abbrev pub wrong_login : Error
wrong_login = unauthorized "invalid email or password"

module _ {Float : Type 0} (env : Env) (s : Service) (default_rating : Float) where
  -- A call of the token library, at the time of the clock.
  unfoldable pub issue : User → Action Float TokenPair
  issue user w =
      (generate_token_pair s.jwt (env.now w.trips) user.id user.role s.jwt_secret s.jwt_exp, w)

  -- The end of the three handlers.
  unfoldable pub respond : User → Action Float AuthResponse
  unfolding issue
  respond user = do
    pair ← map_err (internal "failed to generate tokens") (issue user)
    pure (response user pair)

  -- bcrypt.GenerateFromPassword.
  unfoldable pub hash_password : String → Action Float String
  hash_password password w = (s.generate_from_password w.trips password, w)

  -- `CreateDriver` if the role is driver.
  abbrev pub driver_row : RegisterRequest → User → Action Float (Unit {0})
  driver_row req user =
      if same_text req.role "driver"
      then (create_driver env default_rating user.id req.vehicle_type req.license_plate >> pure tt)
      else pure tt

  -- The transaction of `Register`.
  unfoldable pub register_tx : RegisterRequest → String → String → Action Float User
  register_tx req email hash = do
    user ← create_user env email hash req.name req.phone req.role
    driver_row req user
    pure user

  -- `Register`.
  unfoldable pub register : RegisterRequest → Action Float AuthResponse
  register req = do
    let email = s.normalize req.email
    existing ← map_err (internal "failed to check existing user") (get_by_email env email)
    fail_if (is_some existing) (conflict "user with this email already exists")
    fail_if (lacks_vehicle req)
        (bad_request "vehicle_type and license_plate are required for drivers")
    hash ← map_err (internal "failed to hash password") (hash_password req.password)
    user ← map_err (internal "failed to create user") (with_tx env (register_tx req email hash))
    respond user

  -- The calls of the tracker.
  abbrev check_lock : String → Action Float Bool
  check_lock email w =
      let (locked, attempts) = is_locked s.lockout (env.now w.trips) email w.attempts in
      (ok locked, record w { attempts = attempts })

  abbrev count_failure : String → Action Float (Unit {0})
  count_failure email w = (
    ok tt,
    record w { attempts = (record_failure s.lockout (env.now w.trips) email w.attempts).1 },
  )

  abbrev clear_failures : String → Action Float (Unit {0})
  clear_failures email w =
      (ok tt, record w { attempts = record_success s.lockout email w.attempts })

  -- `Login` once the account is known not to be locked and the user is looked up.
  unfoldable pub check_password : String → String → Option User → Action Float AuthResponse
  check_password email password none = count_failure email >> fail wrong_login
  check_password email password (some user) =
      elim (s.compare_hash_and_password user.password_hash password) [
        | some e ↦ count_failure email >> fail wrong_login
        | none ↦ clear_failures email >> respond user
      ]

  -- `Login`.
  unfoldable pub login : String → String → Action Float AuthResponse
  login email_text password = do
    let email = s.normalize email_text
    locked ← check_lock email
    fail_if locked (too_many_requests "account temporarily locked due to too many failed attempts")
    user ← map_err (internal "failed to look up user") (get_by_email env email)
    check_password email password user

  -- The token's claims, at the time of the clock; the library's error is replaced.
  abbrev refresh_claims : String → Action Float Uuid
  refresh_claims token w = (
    elim (validate_refresh_token s.jwt (env.now w.trips) token s.jwt_secret) [
      | err e ↦ err (unauthorized "invalid refresh token")
      | ok claims ↦ ok claims.user_id
    ],
    w,
  )

  abbrev existing_user : Option User → Action Float User
  existing_user none = fail (unauthorized "user no longer exists")
  existing_user (some user) = pure user

  -- `RefreshToken`.
  unfoldable pub refresh_token : String → Action Float AuthResponse
  refresh_token token = do
    id ← refresh_claims token
    user ← map_err (internal "failed to look up user") (get_by_id env id) >>= existing_user
    respond user
