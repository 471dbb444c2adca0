-- ===== src/Account.antt =====
-- internal/user/repository.go and internal/user/service.go: profiles and availability.
pub mod Profile
pub mod Grpc
pub mod Boundary
mod Tests
use ridesharing.Prelude.{
  ℕ, String, Bool, true, false, not, ◌&&◌, ◌||◌, Option, none, some, List, same_text, if◌then◌else◌,
}
use ridesharing.Prelude.Table.{find, update}
use ridesharing.Errors.{Error, wrapped, bad_request, not_found, internal, Result, ok, err}
use ridesharing.Models.{Uuid, Time, User, Driver, UserWithDriver}
use ridesharing.Database.{
  Env, World, Tables, Action, pure, fail, ◌>>=◌, ◌>>◌, fail_if, map_err, exec, query,
}
use ridesharing.Auth.Repository.{user_key, driver_key}

-- What the UPDATE statements set.
abbrev pub with_profile : String → String → Time → User → User
with_profile name phone now u = record u { name = name; phone = phone; updated_at = now }

module _ {Float : Type 0} where
  abbrev pub with_vehicle : String → String → Time → Driver Float → Driver Float
  with_vehicle vehicle_type license_plate now d = record d {
    vehicle_type = vehicle_type;
    license_plate = license_plate;
    updated_at = now;
  }

  abbrev pub with_availability : Bool → Time → Driver Float → Driver Float
  with_availability available now d = record d { is_available = available; updated_at = now }

  abbrev pub update_users : (List User → List User) → Tables Float → Tables Float
  update_users f t = record t { users = f t.users }

  abbrev pub update_drivers :
      (List (Driver Float) → List (Driver Float)) → Tables Float → Tables Float
  update_drivers f t = record t { drivers = f t.drivers }

  module _ (env : Env) where
    -- The two SELECT statements. The hash of the password is not read.
    unfoldable pub select_user : Uuid → Action Float (Option User)
    unfolding query
    select_user id = map_err (wrapped "get user") (
        query env (λ n t. elim (find user_key id t.users) [
          | none ↦ none
          | some u ↦ some (record u { password_hash = "" })
        ]))

    unfoldable pub select_driver : Uuid → Action Float (Option (Driver Float))
    unfolding query
    select_driver id =
        map_err (wrapped "get driver") (query env (λ n t. find driver_key id t.drivers))

    -- The second query of `GetByID`, for a driver.
    abbrev pub add_driver_row : Uuid → Option User → Action Float (Option (UserWithDriver Float))
    add_driver_row id none = pure none
    add_driver_row id (some u) =
        if same_text u.role "driver"
        then (select_driver id >>= λ d. pure (some (record { user = u; driver = d })))
        else pure (some (record { user = u; driver = none }))

    -- `GetByID`; no row is `none`.
    unfoldable pub get_by_id : Uuid → Action Float (Option (UserWithDriver Float))
    get_by_id id = select_user id >>= add_driver_row id

    -- `UpdateProfile` of the repository.
    unfoldable pub set_profile : Uuid → String → String → Action Float (Unit {0})
    unfolding exec
    set_profile id name phone = map_err (wrapped "update profile") (
        exec env (λ n t.
          ok (tt, update_users (update user_key id (with_profile name phone (env.now n))) t)))

    -- `UpdateDriver`.
    unfoldable pub update_driver : Uuid → String → String → Action Float (Unit {0})
    unfolding exec
    update_driver id vehicle_type license_plate = map_err (wrapped "update driver") (
        exec env (λ n t. ok (
          tt,
          update_drivers
              (update driver_key id (with_vehicle vehicle_type license_plate (env.now n))) t,
        )))

    -- `SetAvailability` of the repository.
    unfoldable pub set_available : Uuid → Bool → Action Float (Unit {0})
    unfolding exec
    set_available id available = map_err (wrapped "set availability") (
        exec env (λ n t.
          ok (
            tt,
            update_drivers (update driver_key id (with_availability available (env.now n))) t,
          )))

pub record UpdateProfileRequest : Type 0 where
  pub name : String
  pub phone : String
  pub vehicle_type : String
  pub license_plate : String

abbrev pub is_empty : String → Bool
is_empty s = same_text s ""

-- `if x == "" { x = old }`.
abbrev pub or_old : String → String → String
or_old new old = if is_empty new then old else new

module _ {Float : Type 0} (env : Env) where
  abbrev pub or_not_found : Option (UserWithDriver Float) → Action Float (UserWithDriver Float)
  or_not_found none = fail (not_found "user not found")
  or_not_found (some u) = pure u

  -- `GetProfile`.
  unfoldable pub get_profile : Uuid → Action Float (UserWithDriver Float)
  get_profile id =
      map_err (internal "failed to get user profile") (get_by_id env id) >>= or_not_found

  -- The old value of a driver's field, where there is a driver row.
  abbrev pub old_field : (Driver Float → String) → Option (Driver Float) → String
  old_field field none = ""
  old_field field (some d) = field d

  -- The two updates of `UpdateProfile`.
  unfoldable pub update_base :
      Uuid → UpdateProfileRequest → UserWithDriver Float → Action Float (Unit {0})
  update_base id req existing =
      if not (is_empty req.name) || not (is_empty req.phone)
      then map_err (internal "failed to update profile") (
          set_profile env id (or_old req.name existing.user.name)
            (or_old req.phone existing.user.phone))
      else pure tt

  unfoldable pub update_vehicle :
      Uuid → UpdateProfileRequest → UserWithDriver Float → Action Float (Unit {0})
  update_vehicle id req existing =
      if same_text existing.user.role "driver"
        && (not (is_empty req.vehicle_type) || not (is_empty req.license_plate))
      then map_err (internal "failed to update driver profile") (
          update_driver env id
            (or_old req.vehicle_type (old_field (λ d. d.vehicle_type) existing.driver))
            (or_old req.license_plate (old_field (λ d. d.license_plate) existing.driver)))
      else pure tt

  -- `UpdateProfile`; it returns what `GetByID` then reads.
  unfoldable pub update_profile :
      Uuid → UpdateProfileRequest → Action Float (Option (UserWithDriver Float))
  update_profile id req = do
    existing ← map_err (internal "failed to get user") (get_by_id env id) >>= or_not_found
    update_base id req existing
    update_vehicle id req existing
    get_by_id env id

  -- `SetAvailability`.
  unfoldable pub set_availability : Uuid → Bool → Action Float (Unit {0})
  set_availability id available = do
    user ← map_err (internal "failed to get user") (get_by_id env id) >>= or_not_found
    fail_if (not (same_text user.user.role "driver"))
        (bad_request "only drivers can set availability")
    map_err (internal "failed to set availability") (set_available env id available)
