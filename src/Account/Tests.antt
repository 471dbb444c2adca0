-- ===== src/Account/Tests.antt =====
-- internal/user on a table with one driver.
use ridesharing.Prelude.{false, ℕ, refl, true, none, some, [], ◌∷◌}
use ridesharing.Models.{User, Driver}
use ridesharing.Security.{no_attempts}
use ridesharing.Database.{Env, World}
use ridesharing.Prelude.{Bool}
use ridesharing.Errors.{Result}
use ridesharing.Rpc.Unary.{unary, unary-IsUuidText}
use ridesharing.Http.{Context}
use ridesharing.Account.{UpdateProfileRequest}
use ridesharing.Account.Grpc.{put_profile, put_availability}
use ridesharing.Account.Boundary.{OnlyOwn, put_own}

abbrev env : Env
env = record {
  fault = λ n. none;
  carried_out = λ n. false;
  now = λ n. n;
  fresh = λ n. n;
  done = λ n. none;
}

abbrev ann : User
ann = record {
  id = 2;
  email = "ann@x.org";
  password_hash = "#";
  name = "Ann";
  phone = "1";
  role = "driver";
  created_at = 0;
  updated_at = 0;
}

abbrev car : Driver ℕ
car = record {
  user_id = 2;
  vehicle_type = "car";
  license_plate = "A 1";
  is_available = true;
  rating = 5;
  created_at = 0;
  updated_at = 0;
}

abbrev world : World ℕ
world = record {
  tables = record {
    users = ann ∷ [];
    drivers = car ∷ [];
    rides = [];
    locations = [];
    payments = [];
  };
  trips = 0;
  leases = [];
  events = [];
  captured = [];
  attempts = no_attempts;
}

abbrev new_phone : UpdateProfileRequest
new_phone = record { name = ""; phone = "2"; vehicle_type = ""; license_plate = "" }

abbrev signed_in : Context
signed_in = record { user_id = some 2; user_role = some "driver" }

put_own_example :
    ((body : Result UpdateProfileRequest)
      → OnlyOwn env 2 world.tables (put_profile unary env signed_in "aa" body world).1.tables)
    × ((body : Result Bool)
        → OnlyOwn env 2 world.tables
            (put_availability unary env signed_in "aa" body world).1.tables)
put_own_example = put_own unary unary-IsUuidText env signed_in 2 "aa" world refl
