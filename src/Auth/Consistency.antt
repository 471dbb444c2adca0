-- ===== src/Auth/Consistency.antt =====
-- internal/auth/service.go: `Register` and the consistency of the accounts.
use mathlib.Core.Path.{subst, sym}
use ridesharing.Prelude.{
  ℕ, suc, ◌≡◌, refl, ap, ◌⊎◌, inl, inr, String, true, none, some, List, [], ◌∷◌, ◌++◌, arith, All,
  same_text, same_text_iff, Bool-cases, ==-refl,
}
use ridesharing.Prelude.Table.{find, append-Unique, append-All, find-append}
use ridesharing.Errors.{Result, ok, err}
use ridesharing.Models.{User, Driver}
use ridesharing.Database.{actions, Env, World, Tables, with_tx, tick}
use ridesharing.Database.Atomic.{with_tx_ok, with_tx_fails}
use ridesharing.Auth.Repository.{
  user_key, driver_key, find_email, new_driver, add_user, add_driver, get_by_email,
}
use ridesharing.Auth.Service.{
  Service, RegisterRequest, register, register_tx, respond, hash_password,
}
use ridesharing.Auth.Accounts.{
  IsConsistent, HasUser, HasRow, IsComplete, IsSound, append-UniqueEmail, users-append,
  append-HasRow,
}
use ridesharing.Auth.Register.{with_driver, register_tx_ok}

new_user_found :
    (u : User) (us : List User)
    → find user_key u.id us ≡ none
    → find user_key u.id (us ++ (u ∷ [])) ≡ some u
new_user_found u us h = ground (arith, find-append user_key u.id u us, ==-refl u.id)

module _ {Float : Type 0} where
  still_users :
      (u : User) (us : List User) (ds : List (Driver Float))
      → All (λ d. HasUser us (driver_key d)) ds
      → All (λ d. HasUser (us ++ (u ∷ [])) (driver_key d)) ds
  still_users u us [] h = tt
  still_users u us (d ∷ ds) h =
      ((h.0.0, users-append (driver_key d) u us h.0.0 h.0.1), still_users u us ds h.1)

  add_user-IsConsistent :
      (u : User) (t : Tables Float)
      → IsConsistent t
      → find user_key u.id t.users ≡ none
      → find_email u.email t.users ≡ none
      → IsConsistent (add_user u t)
  add_user-IsConsistent u t c id email = record {
    ids = append-Unique user_key u t.users id c.ids;
    emails = append-UniqueEmail u t.users email c.emails;
    one_driver = c.one_driver;
    drivers_are_users = still_users u t.users t.drivers c.drivers_are_users;
  }

  add_driver-IsConsistent :
      (d : Driver Float) (t : Tables Float)
      → IsConsistent t
      → find driver_key d.user_id t.drivers ≡ none
      → HasUser t.users d.user_id
      → IsConsistent (add_driver d t)
  add_driver-IsConsistent d t c missing user = record {
    ids = c.ids;
    emails = c.emails;
    one_driver = append-Unique driver_key d t.drivers missing c.one_driver;
    drivers_are_users = append-All _ d t.drivers user c.drivers_are_users;
  }

module _ {Float : Type 0} (env : Env) (s : Service) (rating : Float) where
  with_driver-IsConsistent :
      (req : RegisterRequest) (n : ℕ) (u : User) (t : Tables Float)
      → IsConsistent t
      → find user_key u.id t.users ≡ none
      → find_email u.email t.users ≡ none
      → (same_text req.role "driver" ≡ true → find driver_key u.id t.drivers ≡ none)
      → IsConsistent (with_driver env s rating req n u.id (add_user u t))
  with_driver-IsConsistent req n u t c id email driver =
      let added = add_user-IsConsistent u t c id email in
      elim (Bool-cases (same_text req.role "driver")) [
        | inl drives ↦ rw drives (
            add_driver-IsConsistent
              (new_driver env n rating u.id req.vehicle_type req.license_plate) (add_user u t) added
              (driver drives) (u, new_user_found u t.users id))
        | inr rides ↦ rw rides added
      ]

  with_driver-IsComplete :
      (req : RegisterRequest) (n : ℕ) (u : User) (t : Tables Float)
      → IsComplete t
      → u.role ≡ req.role
      → (same_text req.role "driver" ≡ true → find driver_key u.id t.drivers ≡ none)
      → IsComplete (with_driver env s rating req n u.id (add_user u t))
  with_driver-IsComplete req n u t c role driver = elim (Bool-cases (same_text req.role "driver")) [
    | inl drives ↦
        let d = new_driver env n rating u.id req.vehicle_type req.license_plate in
        rw drives (
          append-All (HasRow (t.drivers ++ (d ∷ []))) u t.users
            (λ h. (
              d,
              ground (arith, driver drives, find-append driver_key u.id d t.drivers, ==-refl u.id),
            ))
            (append-HasRow d t.drivers t.users c))
    | inr rides ↦ rw rides (
        append-All (HasRow t.drivers) u t.users
          (λ h. absurd (ground (arith, same_text_iff req.role "driver"))) c)
  ]

  tx-IsSound :
      (req : RegisterRequest) (email hash : String) (w : World Float)
      → IsSound w.tables
      → IsSound (with_tx env (register_tx env s rating req email hash) w).1.tables
  tx-IsSound req email hash w c =
      outcome (with_tx env (register_tx env s rating req email hash) w) refl
    where
      outcome :
          (o : Result User × World Float)
          → with_tx env (register_tx env s rating req email hash) w ≡ o
          → IsSound o.1.tables
      outcome (err e, w') same =
          subst IsSound
            (ground (arith, with_tx_fails env (register_tx env s rating req email hash) w)) c
      outcome (ok u, w') same =
          let done =
            with_tx_ok env (register_tx env s rating req email hash) w u
              (ap (λ (o : Result User × World Float). o.0) same) in
          let f = register_tx_ok env s rating req email hash (tick w) u done.0 in
          subst IsSound (ground arith) (
            with_driver-IsConsistent req (suc (suc w.trips)) u w.tables c.0 f.1
                (ground (arith, f.0)) f.5,
            with_driver-IsComplete req (suc (suc w.trips)) u w.tables c.1 (ground (arith, f.3)) f.5,
          )

  register_cases :
      (req : RegisterRequest) (w : World Float) (hash : String)
      → s.generate_from_password (suc w.trips) req.password ≡ ok hash
      → ((register env s rating req w).1.tables ≡ w.tables)
        ⊎ ((with_tx env
              (register_tx env s rating req (s.normalize req.email) hash)
              (tick w)).1.tables
            ≡ (register env s rating req w).1.tables)
  unfolding actions register get_by_email hash_password respond
  register_cases req w hash same = ground arith

  -- Whatever Register returns, where a commit that fails has no effect: if no two users have the same id
  -- or email, no user has two driver rows, every driver row has a user and every user with the role
  -- driver has a driver row, then that is so afterwards.
  pub register-IsSound :
      (req : RegisterRequest) (w : World Float)
      → IsSound w.tables
      → IsSound (register env s rating req w).1.tables
  unfolding actions register get_by_email hash_password
  register-IsSound req w c = hashed (s.generate_from_password (suc w.trips) req.password) refl
    where
      hashed :
          (o : Result String)
          → s.generate_from_password (suc w.trips) req.password ≡ o
          → IsSound (register env s rating req w).1.tables
      hashed (err e) same = subst IsSound (ground arith) c
      hashed (ok hash) same = elim (register_cases req w hash same) [
        | inl kept ↦ subst IsSound (sym kept) c
        | inr moved ↦ subst IsSound moved (tx-IsSound req (s.normalize req.email) hash (tick w) c)
      ]
