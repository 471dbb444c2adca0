-- ===== src/Auth/Tests.antt =====
-- internal/auth on an empty table, with the role for a token and the password behind a # for its hash.
use Prim.Native.String.{◌++◌}
use ridesharing.Prelude.{
  ◌≢◌, ℕ, suc, ◌≡◌, refl, String, false, none, some, [], ◌∷◌, same_text, same_text_iff, arith,
  if◌then◌else◌,
}
use ridesharing.Errors.{plain, conflict, ok, err}
use ridesharing.Errors.{wrapped, as_app_error}
use ridesharing.Database.{tick}
use ridesharing.Rpc.Unary.{unary}
use ridesharing.Http.{error_json, status_of}
use ridesharing.Auth.Grpc.{
  map_error, handle_error, GatewayRegisterRequest, GatewayLoginRequest, post_register, post_login,
}
use ridesharing.Auth.Boundary.{handle_error-map_error, post_register_driver, post_login_refused}
use ridesharing.Models.{User}
use ridesharing.Security.{no_attempts, is_locked, record_failure, record_success}
use ridesharing.Jwt.{TokenPair, JwtLibrary, generate_token_pair}
use ridesharing.Database.{actions, Env, Tables, World, exec, query, round_trip, commit, with_tx}
use ridesharing.Prelude.Table.{find}
use ridesharing.Auth.Repository.{find_email, create_user, create_driver, get_by_email}
use ridesharing.Auth.Service.{
  Service, RegisterRequest, new_lockout, hash_password, issue, respond, register_tx, register,
  check_password, login, response,
}
use ridesharing.Auth.Accounts.{IsConsistent, IsSound}
use ridesharing.Auth.Register.{Registered, register_ok}
use ridesharing.Auth.Consistency.{register-IsSound}
use ridesharing.Auth.Login.{lock_check, login-register}

abbrev env : Env
env = record {
  fault = λ n. none;
  carried_out = λ n. false;
  now = λ n. n;
  fresh = λ n. n;
  done = λ n. none;
}

abbrev jwt : JwtLibrary
jwt = record {
  new_numeric_date = λ t. t;
  signed_string = λ c secret. ok c.role;
  parse_with_claims = λ now s key. err (plain "no parser");
}

abbrev service : Service
service = record {
  jwt = jwt;
  jwt_secret = "secret";
  jwt_exp = 60;
  lockout = new_lockout;
  normalize = λ s. s;
  generate_from_password = λ n password. ok ("#" ++ password);
  compare_hash_and_password =
      λ hash password. if same_text hash ("#" ++ password) then none else some (plain "mismatch");
}

abbrev no_rows : Tables ℕ
no_rows = record { users = []; drivers = []; rides = []; locations = []; payments = [] }

abbrev start : World ℕ
start = record {
  tables = no_rows;
  trips = 0;
  leases = [];
  events = [];
  captured = [];
  attempts = no_attempts;
}

abbrev request : RegisterRequest
request = record {
  email = "ann@x.org";
  password = "long enough";
  name = "Ann";
  phone = "";
  role = "driver";
  vehicle_type = "car";
  license_plate = "A 1";
}

abbrev ann : User
ann = record {
  id = 2;
  email = "ann@x.org";
  password_hash = "#" ++ "long enough";
  name = "Ann";
  phone = "";
  role = "driver";
  created_at = 2;
  updated_at = 2;
}

abbrev tokens : TokenPair
tokens = record { access_token = "driver"; refresh_token = "driver"; expires_in = 0 }

unfoldable running : Unit {0}
unfolding actions exec query round_trip commit with_tx find find_email create_user create_driver
    get_by_email hash_password issue respond register_tx register generate_token_pair check_password
    login is_locked record_failure record_success
running = tt

register-start : (register env service 5 request start).0 ≡ ok (response ann tokens)
unfolding running
register-start = refl

register_ok_example :
    Registered env service 5 request start
      (response ann tokens)
      (register env service 5 request start).1.tables
register_ok_example = register_ok env service 5 request start (response ann tokens) register-start

no_rows-IsConsistent : IsConsistent no_rows
no_rows-IsConsistent = record { ids = tt; emails = tt; one_driver = tt; drivers_are_users = tt }

register-IsSound_example : IsSound (register env service 5 request start).1.tables
register-IsSound_example = register-IsSound env service 5 request start (no_rows-IsConsistent, tt)

hash_lem :
    (n : ℕ) (password hash : String)
    → service.generate_from_password n password ≡ ok hash
    → service.compare_hash_and_password hash password ≡ none
hash_lem n password hash h = ground (arith, same_text_iff hash ("#" ++ password))

after_free :
    (lock_check env service 5 "ann@x.org" (register env service 5 request start).1).0 ≡ false
unfolding running
after_free = refl

signed_later :
    generate_token_pair jwt
      (env.now (suc (register env service 5 request start).1.trips))
      2
      "driver"
      "secret"
      60
    ≡ ok tokens
unfolding running
signed_later = refl

login-register_example :
    (login env service 5 "ann@x.org" "long enough" (register env service 5 request start).1).0
    ≡ ok (response ann tokens)
login-register_example =
    login-register env service 5 request start (response ann tokens) tokens hash_lem register-start
      after_free refl signed_later

abbrev known : World ℕ
known = record start { tables = record no_rows { users = ann ∷ [] } }

login-known : (login env service 5 "ann@x.org" "long enough" known).0 ≡ ok (response ann tokens)
unfolding running
login-known = refl

-- The endpoints of the gateway, over a wire that loses nothing.
handle_error-map_error_example :
    handle_error {A = ℕ} (map_error (wrapped "save" (conflict "user exists")))
    ≡ error_json 409 "user exists" none
unfolding as_app_error
handle_error-map_error_example = handle_error-map_error (wrapped "save" (conflict "user exists"))

abbrev body : GatewayRegisterRequest
body = record {
  email = "ann@x.org";
  password = "long enough";
  name = "Ann";
  phone = "";
  role = "driver";
  vehicle_type = "car";
  license_plate = "A 1";
}

post_register_driver_example :
    (status_of (post_register unary env service 5 (ok body) start).0 ≢ 201)
    × ((post_register unary env service 5 (ok body) start).1.tables ≡ no_rows)
post_register_driver_example = post_register_driver unary env service 5 body start refl

abbrev guess : GatewayLoginRequest
guess = record { email = "ann@x.org"; password = "guess" }

post_login_refused_example : post_login unary env service 5 (ok guess) known ≡ (
  error_json 401 "invalid email or password" none,
  record (tick known) {
    attempts =
        (record_failure new_lockout 1 "ann@x.org" (lock_check env service 5 "ann@x.org" known).1).1;
  },
)
unfolding running
post_login_refused_example =
    post_login_refused unary env service 5 guess known (λ n. refl) (λ n. refl) refl refl
      (plain "mismatch", refl)
