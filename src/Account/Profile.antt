-- ===== src/Account/Profile.antt =====
-- internal/user/service.go: what UpdateProfile and SetAvailability change.
use ridesharing.Prelude.{
  ℕ, suc, ◌≡◌, refl, ◌⊎◌, String, Bool, false, Option, none, some, arith, same_text, same_text_iff,
  if◌then◌else◌,
}
use ridesharing.Prelude.Table.{find, update}
use ridesharing.Errors.{Error, ok, err}
use ridesharing.Models.{Uuid, User}
use ridesharing.Database.{actions, Env, World}
use ridesharing.Auth.Repository.{user_key, driver_key}
use ridesharing.Account.{
  UpdateProfileRequest, with_profile, with_availability, update_drivers, select_user, select_driver,
  get_by_id, set_profile, update_driver, set_available, or_old, update_base, update_vehicle,
  update_profile, set_availability,
}

-- The role of a stored user.
abbrev pub role_of : Option User → String
role_of none = ""
role_of (some u) = u.role

module _ {Float : Type 0} (env : Env) where
  -- The round trips of `GetByID` for that user.
  abbrev pub after_read : User → World Float → ℕ
  after_read u w = if same_text u.role "driver" then suc (suc w.trips) else suc w.trips

  -- For a stored user, whatever UpdateProfile returns: the users are as before, or the row of that user,
  -- and no other, has the name and the phone of the request, the old one where the request leaves one
  -- empty, and a new update time; and the drivers change only if the user is a driver.
  pub update_profile_users :
      (id : Uuid) (req : UpdateProfileRequest) (w : World Float) (u : User)
      → find user_key id w.tables.users ≡ some u
      → let after = (update_profile env id req w).1.tables in
        ((after.users ≡ w.tables.users)
          ⊎ (after.users
              ≡ update user_key id
                  (with_profile
                    (or_old req.name u.name)
                    (or_old req.phone u.phone)
                    (env.now (after_read u w)))
                  w.tables.users))
        × (same_text u.role "driver" ≡ false → after.drivers ≡ w.tables.drivers)
  unfolding actions update_profile get_by_id select_user select_driver update_base update_vehicle
      set_profile update_driver
  update_profile_users id req w u found = ground arith

  -- When SetAvailability succeeds, the user is stored with the role driver, and the row of that driver,
  -- and no other, has the given availability and a new update time; when it fails, no table has
  -- changed, or the change was carried out and its answer lost.
  pub set_availability_cases :
      (id : Uuid) (available : Bool) (w : World Float)
      → let after = (set_availability env id available w).1.tables in
        ((set_availability env id available w).0 ≡ ok tt
          → (role_of (find user_key id w.tables.users) ≡ "driver")
            × (after
                ≡ update_drivers
                    (update driver_key id
                      (with_availability available (env.now (suc (suc w.trips)))))
                    w.tables))
        × ((e : Error)
            → (set_availability env id available w).0 ≡ err e
            → (after ≡ w.tables)
              ⊎ (after
                  ≡ update_drivers
                      (update driver_key id
                        (with_availability available (env.now (suc (suc w.trips)))))
                      w.tables))
  unfolding actions set_availability get_by_id select_user select_driver set_available
  set_availability_cases id available w =
      (looked_up (find user_key id w.tables.users) refl, λ e h. ground arith)
    where
      looked_up :
          (o : Option User)
          → find user_key id w.tables.users ≡ o
          → (set_availability env id available w).0 ≡ ok tt
          → (role_of (find user_key id w.tables.users) ≡ "driver")
            × ((set_availability env id available w).1.tables
                ≡ update_drivers
                    (update driver_key id
                      (with_availability available (env.now (suc (suc w.trips)))))
                    w.tables)
      looked_up none same h = ground arith
      looked_up (some u) same h = ground (arith, same_text_iff u.role "driver")
