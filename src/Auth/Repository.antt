-- ===== src/Auth/Repository.antt =====
-- internal/auth/repository.go: the statements on the tables `users` and `drivers`.
use ridesharing.Prelude.{
  ℕ, String, Bool, true, not, ◌||◌, Option, none, some, List, [], ◌∷◌, ◌++◌, same_text,
  if◌then◌else◌,
}
use ridesharing.Prelude.Table.{find}
use ridesharing.Errors.{plain, wrapped, ok, err}
use ridesharing.Models.{Uuid, User, Driver}
use ridesharing.Database.{Env, Tables, Action, map_err, exec, query}

abbrev pub user_key : User → Uuid
user_key u = u.id

-- WHERE email = $1; the column is unique.
unfoldable pub find_email : String → List User → Option User
find_email email [] = none
find_email email (u ∷ us) = if same_text u.email email then some u else find_email email us

-- The values of the type `user_role`.
abbrev pub is_role : String → Bool
is_role role = same_text role "rider" || same_text role "driver"

abbrev pub new_user : Env → ℕ → String → String → String → String → String → User
new_user env n email password_hash name phone role = record {
  id = env.fresh n;
  email = email;
  password_hash = password_hash;
  name = name;
  phone = phone;
  role = role;
  created_at = env.now n;
  updated_at = env.now n;
}

module _ {Float : Type 0} where
  abbrev pub driver_key : Driver Float → Uuid
  driver_key d = d.user_id

  abbrev pub add_user : User → Tables Float → Tables Float
  add_user u t = record t { users = t.users ++ (u ∷ []) }

  abbrev pub add_driver : Driver Float → Tables Float → Tables Float
  add_driver d t = record t { drivers = t.drivers ++ (d ∷ []) }

  module _ (env : Env) where
    -- `CreateUser`. The id and the email are unique, and the role is one of the type's two.
    unfoldable pub create_user : String → String → String → String → String → Action Float User
    unfolding exec
    create_user email password_hash name phone role = map_err (wrapped "create user") (
        exec env (λ n t.
          let u = new_user env n email password_hash name phone role in
          if not (is_role role)
          then err (plain "invalid input value for enum user_role")
          else elim (find user_key u.id t.users) [
            | some _ ↦ err (plain "duplicate key value violates unique constraint")
            | none ↦ elim (find_email email t.users) [
              | some _ ↦ err (plain "duplicate key value violates unique constraint")
              | none ↦ ok (u, add_user u t)
            ]
          ]))

    -- `GetByEmail`; no row is `none`.
    unfoldable pub get_by_email : String → Action Float (Option User)
    unfolding query
    get_by_email email =
        map_err (wrapped "get user by email") (query env (λ n t. find_email email t.users))

    -- `GetByID`.
    unfoldable pub get_by_id : Uuid → Action Float (Option User)
    unfolding query
    get_by_id id = map_err (wrapped "get user by id") (query env (λ n t. find user_key id t.users))

    abbrev pub new_driver : ℕ → Float → Uuid → String → String → Driver Float
    new_driver n rating user_id vehicle_type license_plate = record {
      user_id = user_id;
      vehicle_type = vehicle_type;
      license_plate = license_plate;
      is_available = true;
      rating = rating;
      created_at = env.now n;
      updated_at = env.now n;
    }

    -- `CreateDriver`. The rating is the column's default; the user of a driver exists, and has no other
    -- driver row.
    unfoldable pub create_driver : Float → Uuid → String → String → Action Float (Driver Float)
    unfolding exec
    create_driver rating user_id vehicle_type license_plate = map_err (wrapped "create driver") (
        exec env (λ n t.
          let d = new_driver n rating user_id vehicle_type license_plate in
          elim (find driver_key user_id t.drivers) [
            | some _ ↦ err (plain "duplicate key value violates unique constraint")
            | none ↦ elim (find user_key user_id t.users) [
              | none ↦ err (plain "violates foreign key constraint")
              | some _ ↦ ok (d, add_driver d t)
            ]
          ]))
