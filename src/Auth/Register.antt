-- ===== src/Auth/Register.antt =====
-- internal/auth/service.go: what `Register` does to the tables.
use ridesharing.Prelude.{
  ℕ, suc, ◌≡◌, refl, ◌⊎◌, String, true, none, [], ◌∷◌, ◌++◌, arith, same_text, if◌then◌else◌,
}
use ridesharing.Prelude.Table.{find}
use ridesharing.Errors.{Error, app, app_of, status, plain, wrapped, Result, ok, err}
use ridesharing.Models.{Uuid, User}
use ridesharing.Database.{actions, Env, World, Tables, tick}
use ridesharing.Database.Atomic.{with_tx_ok, with_tx_fails}
use ridesharing.Auth.Repository.{
  user_key, driver_key, find_email, is_role, new_user, add_user, create_user, create_driver,
  get_by_email,
}
use ridesharing.Auth.Service.{
  Service, RegisterRequest, AuthResponse, register, register_tx, respond, hash_password, issue,
}

-- The field `Message` of an application error.
abbrev pub message : Error → String
message (plain m) = ""
message (wrapped m e) = ""
message (app c k m) = m
message (app_of c k m e) = m
message (status c m) = m

module _ {Float : Type 0} (env : Env) (s : Service) (rating : Float) where
  -- The row of the driver, if the user is one.
  abbrev pub with_driver : RegisterRequest → ℕ → Uuid → Tables Float → Tables Float
  with_driver req n id t =
      if same_text req.role "driver"
      then record t {
        drivers =
            t.drivers
            ++ (record {
              user_id = id;
              vehicle_type = req.vehicle_type;
              license_plate = req.license_plate;
              is_available = true;
              rating = rating;
              created_at = env.now n;
              updated_at = env.now n;
            }
                ∷ []);
      }
      else t

  pub register_tx_ok :
      (req : RegisterRequest) (email hash : String) (w : World Float) (u : User)
      → (register_tx env s rating req email hash w).0 ≡ ok u
      → (find_email email w.tables.users ≡ none)
        × (find user_key u.id w.tables.users ≡ none)
        × (is_role req.role ≡ true)
        × (u ≡ new_user env w.trips email hash req.name req.phone req.role)
        × ((register_tx env s rating req email hash w).1.tables
            ≡ with_driver req (suc w.trips) u.id (add_user u w.tables))
        × (same_text req.role "driver" ≡ true → find driver_key u.id w.tables.drivers ≡ none)
  unfolding actions register_tx create_user create_driver
  register_tx_ok req email hash w u h = ground arith

  -- What is known once `Register` has returned.
  abbrev pub Registered : RegisterRequest → World Float → AuthResponse → Tables Float → Type 0
  Registered req w resp after =
      let email = s.normalize req.email in
      (find_email email w.tables.users ≡ none)
      × (is_role req.role ≡ true)
      × (resp.user.email ≡ email)
      × (resp.user.role ≡ req.role)
      × (resp.user.name ≡ req.name)
      × (s.generate_from_password (suc w.trips) req.password ≡ ok resp.user.password_hash)
      × (after
          ≡ with_driver req (suc (suc (suc w.trips))) resp.user.id
              (record w.tables { users = w.tables.users ++ (resp.user ∷ []) }))
      × (find user_key resp.user.id w.tables.users ≡ none)
      × (same_text req.role "driver" ≡ true → find driver_key resp.user.id w.tables.drivers ≡ none)
      × (resp.user.phone ≡ req.phone)

  -- When Register returns, the normalised email belonged to no user, and the role is rider or driver;
  -- the one new user has that email, the role, name and phone of the request, and the hash of the
  -- password; and a driver, and only a driver, has a row with the vehicle and the plate, available;
  -- neither had a row of that id before. Nothing else has changed.
  pub register_ok :
      (req : RegisterRequest) (w : World Float) (resp : AuthResponse)
      → (register env s rating req w).0 ≡ ok resp
      → Registered req w resp (register env s rating req w).1.tables
  unfolding actions register get_by_email hash_password respond issue
  register_ok req w resp h = hashed (s.generate_from_password (suc w.trips) req.password) refl
    where
      hashed :
          (o : Result String)
          → s.generate_from_password (suc w.trips) req.password ≡ o
          → Registered req w resp (register env s rating req w).1.tables
      hashed (err e) same = absurd (ground arith)
      hashed (ok hash) same = ground (
        arith,
        with_tx_ok env (register_tx env s rating req (s.normalize req.email) hash) (tick w)
            resp.user,
        register_tx_ok req (s.normalize req.email) hash (tick (tick w)) resp.user,
      )

  -- A Register that fails has changed no table, or it failed to make the tokens.
  pub register_err :
      (req : RegisterRequest) (w : World Float) (e : Error)
      → (register env s rating req w).0 ≡ err e
      → ((register env s rating req w).1.tables ≡ w.tables)
        ⊎ (message e ≡ "failed to generate tokens")
  unfolding actions register get_by_email hash_password respond
  register_err req w e h = hashed (s.generate_from_password (suc w.trips) req.password) refl
    where
      hashed :
          (o : Result String)
          → s.generate_from_password (suc w.trips) req.password ≡ o
          → ((register env s rating req w).1.tables ≡ w.tables)
            ⊎ (message e ≡ "failed to generate tokens")
      hashed (err x) same = ground arith
      hashed (ok hash) same = ground (
        arith,
        with_tx_fails env (register_tx env s rating req (s.normalize req.email) hash) (tick w),
      )
