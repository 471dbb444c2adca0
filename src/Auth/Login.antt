-- ===== src/Auth/Login.antt =====
-- internal/auth/service.go: what `Login` answers, also after `Register`.
use ridesharing.Prelude.{
  ℕ, suc, ◌≡◌, refl, String, Bool, false, Option, none, some, arith, same_text_iff,
}
use ridesharing.Errors.{Error, ok, err}
use ridesharing.Models.{Uuid, User}
use ridesharing.Security.{Attempts, is_locked, record_failure, record_success}
use ridesharing.Jwt.{TokenPair, generate_token_pair}
use ridesharing.Database.{actions, Env, World, Tables, tick}
use ridesharing.Auth.Repository.{find_email, add_user, get_by_email}
use ridesharing.Auth.Service.{
  Service, RegisterRequest, AuthResponse, login, check_password, respond, issue, response,
  wrong_login, register,
}
use ridesharing.Auth.Accounts.{find_email-append}
use ridesharing.Auth.Register.{with_driver, register_ok}

module _ {Float : Type 0} (env : Env) (s : Service) (rating : Float) where
  -- What the tracker answers about the account when the login begins.
  abbrev pub lock_check : String → World Float → Bool × Attempts
  lock_check email w = is_locked s.lockout (env.now w.trips) email w.attempts

  -- When Login returns, the account was not locked, the user is the one with the normalised email, the
  -- password matches its hash, no table has changed, and the account's failures are forgotten.
  pub login_ok :
      (email_text password : String) (w : World Float) (resp : AuthResponse)
      → (login env s rating email_text password w).0 ≡ ok resp
      → let email = s.normalize email_text in
        ((lock_check email w).0 ≡ false)
        × (find_email email w.tables.users ≡ some resp.user)
        × (s.compare_hash_and_password resp.user.password_hash password ≡ none)
        × ((login env s rating email_text password w).1.tables ≡ w.tables)
        × ((login env s rating email_text password w).1.attempts
            ≡ record_success s.lockout email (lock_check email w).1)
  unfolding actions login get_by_email check_password respond issue
  login_ok email_text password w resp h = ground arith

  -- The user with that email does not exist, or has another password.
  abbrev pub WrongPassword : String → Option User → Type 0
  WrongPassword password none = Unit
  WrongPassword password (some user) =
      (e : Error) × (s.compare_hash_and_password user.password_hash password ≡ some e)

  -- When the account is not locked and the lookup does not fail, an unknown email and a wrong password
  -- get the same answer, and both count as a failure of the account.
  pub login_refused :
      (email_text password : String) (w : World Float)
      → let email = s.normalize email_text in
        (lock_check email w).0 ≡ false
        → env.fault w.trips ≡ none
        → WrongPassword password (find_email email w.tables.users)
        → login env s rating email_text password w ≡ (
          err wrong_login,
          record (tick w) {
            attempts =
                (record_failure s.lockout (env.now (suc w.trips)) email (lock_check email w).1).1;
          },
        )
  unfolding actions login get_by_email check_password
  login_refused email_text password w free up refused =
      looked_up (find_email (s.normalize email_text) w.tables.users) refl refused
    where
      looked_up :
          (o : Option User)
          → find_email (s.normalize email_text) w.tables.users ≡ o
          → WrongPassword password o
          → login env s rating email_text password w ≡ (
            err wrong_login,
            record (tick w) {
              attempts =
                  (record_failure s.lockout
                    (env.now (suc w.trips))
                    (s.normalize email_text)
                    (lock_check (s.normalize email_text) w).1).1;
            },
          )
      looked_up none same h = ground arith
      looked_up (some user) same h = ground (arith, h.1)

  with_driver-users :
      (req : RegisterRequest) (n : ℕ) (id : Uuid) (t : Tables Float)
      → (with_driver env s rating req n id t).users ≡ t.users
  with_driver-users req n id t = ground arith

  log_in_found :
      (email_text password : String) (w : World Float) (user : User) (pair : TokenPair)
      → (lock_check (s.normalize email_text) w).0 ≡ false
      → env.fault w.trips ≡ none
      → find_email (s.normalize email_text) w.tables.users ≡ some user
      → s.compare_hash_and_password user.password_hash password ≡ none
      → generate_token_pair s.jwt (env.now (suc w.trips)) user.id user.role s.jwt_secret s.jwt_exp
        ≡ ok pair
      → (login env s rating email_text password w).0 ≡ ok (response user pair)
  unfolding actions login get_by_email check_password respond issue
  log_in_found email_text password w user pair free up found match signed = ground arith

  registered_found :
      (req : RegisterRequest) (w : World Float) (resp : AuthResponse)
      → (register env s rating req w).0 ≡ ok resp
      → find_email (s.normalize req.email) (register env s rating req w).1.tables.users
        ≡ some resp.user
  registered_found req w resp h =
      let r = register_ok env s rating req w resp h in
      ground (
        arith,
        r,
        with_driver-users req (suc (suc (suc w.trips))) resp.user.id (add_user resp.user w.tables),
        find_email-append (s.normalize req.email) resp.user w.tables.users r.0,
        (same_text_iff resp.user.email (s.normalize req.email)).1 r.2,
      )

  -- After a Register that returned, with bcrypt accepting the passwords that it hashed: a login with
  -- the same email and password returns the registered user, with the tokens of that moment, when the
  -- account is not locked, the lookup does not fail and the tokens can be signed.
  pub login-register :
      (req : RegisterRequest) (w : World Float) (resp : AuthResponse) (pair : TokenPair)
      → ((n : ℕ) (password hash : String)
          → s.generate_from_password n password ≡ ok hash
          → s.compare_hash_and_password hash password ≡ none)
      → (register env s rating req w).0 ≡ ok resp
      → let after = (register env s rating req w).1 in
        (lock_check (s.normalize req.email) after).0 ≡ false
        → env.fault after.trips ≡ none
        → generate_token_pair s.jwt
            (env.now (suc after.trips))
            resp.user.id
            resp.user.role
            s.jwt_secret
            s.jwt_exp
          ≡ ok pair
        → (login env s rating req.email req.password after).0 ≡ ok (response resp.user pair)
  login-register req w resp pair bcrypt h free up signed =
      log_in_found req.email req.password (register env s rating req w).1 resp.user pair free up
        (registered_found req w resp h)
        (bcrypt (suc w.trips) req.password resp.user.password_hash
          (register_ok env s rating req w resp h).5)
        signed
