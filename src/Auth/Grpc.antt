-- ===== src/Auth/Grpc.antt =====
-- internal/auth/grpc_server.go and handler.go: the auth service behind gRPC, and its HTTP handlers.
use ridesharing.Prelude.{ℕ, String, none, some, ◌==◌, if◌then◌else◌}
use ridesharing.Errors.{
  Error, Code, invalid_argument, unauthenticated, permission_denied, code_not_found, already_exists,
  resource_exhausted, code_internal, other_code, status, Result, error_text, as_app_error,
}
use ridesharing.Models.{Time, User}
use ridesharing.Pagination.{ℤ}
use ridesharing.Database.{Env, Action, map_err, ◌>>=◌, pure}
use ridesharing.Rpc.{GrpcLibrary, to_int32, invoke}
use ridesharing.Http.{Reply, json, error_json, Handler, bind_json, respond_to}
use ridesharing.Auth.Service.{Service, AuthResponse, register, login, refresh_token}

-- The switch of `mapError`.
abbrev pub code_of : ℕ → Code
code_of n =
    if n == 400
    then invalid_argument
    else if n == 401
    then unauthenticated
    else if n == 403
    then permission_denied
    else if n == 404
    then code_not_found
    else if n == 409
    then already_exists
    else if n == 429
    then resource_exhausted
    else code_internal

-- `mapError`, of an error.
unfoldable pub map_error : Error → Error
map_error e = elim (as_app_error e) [
  | some (n, message) ↦ status (code_of n) message
  | none ↦ status code_internal (error_text e)
]

-- The switch of `handleError`.
abbrev pub http_status : Code → ℕ
http_status unauthenticated = 401
http_status already_exists = 409
http_status invalid_argument = 400
http_status resource_exhausted = 429
http_status code_not_found = 404
http_status permission_denied = 403
http_status code_internal = 500
http_status (other_code n) = 500

-- `handleError`.
unfoldable pub handle_error : {A : Type 0} → Error → Reply A
handle_error (status code message) = error_json (http_status code) message none
handle_error e = error_json 500 "internal server error" none

-- `pb.User` and `pb.AuthResponse`.
pub record PbUser : Type 0 where
  pub id : String
  pub email : String
  pub name : String
  pub phone : String
  pub role : String
  pub created_at : Time
  pub updated_at : Time

pub record PbAuthResponse : Type 0 where
  pub access_token : String
  pub refresh_token : String
  pub expires_in : ℤ
  pub user : PbUser

-- `pb.RegisterRequest`: the message has no field for the vehicle.
pub record PbRegisterRequest : Type 0 where
  pub email : String
  pub password : String
  pub name : String
  pub phone : String
  pub role : String

-- `GatewayAuthResponse`; the user in it is `&models.User{}`.
pub record GatewayAuthResponse : Type 0 where
  pub access_token : String
  pub refresh_token : String
  pub expires_in : ℤ
  pub user : User

-- `GatewayRegisterRequest` and `GatewayLoginRequest`.
pub record GatewayRegisterRequest : Type 0 where
  pub email : String
  pub password : String
  pub name : String
  pub phone : String
  pub role : String
  pub vehicle_type : String
  pub license_plate : String

pub record GatewayLoginRequest : Type 0 where
  pub email : String
  pub password : String

-- `models.User{}`: the zero value.
abbrev pub empty_user : User
empty_user = record {
  id = 0;
  email = "";
  password_hash = "";
  name = "";
  phone = "";
  role = "";
  created_at = 0;
  updated_at = 0;
}

-- `mapPBAuthResponse`.
abbrev pub map_pb_auth_response : PbAuthResponse → GatewayAuthResponse
map_pb_auth_response resp = record {
  access_token = resp.access_token;
  refresh_token = resp.refresh_token;
  expires_in = resp.expires_in;
  user = empty_user;
}

abbrev pub build_pb_user : GrpcLibrary → User → PbUser
build_pb_user g u = record {
  id = g.uuid_text u.id;
  email = u.email;
  name = u.name;
  phone = u.phone;
  role = u.role;
  created_at = u.created_at;
  updated_at = u.updated_at;
}

module _ {Float : Type 0} (g : GrpcLibrary) (env : Env) (s : Service) (rating : Float) where
  -- `buildAuthResponse`.
  abbrev pub build_auth_response : AuthResponse → PbAuthResponse
  build_auth_response resp = record {
    access_token = resp.access_token;
    refresh_token = resp.refresh_token;
    expires_in = to_int32 resp.expires_in;
    user = build_pb_user g resp.user;
  }

  -- A method of `GRPCServer`: the error is mapped, the answer is built.
  abbrev serve : Action Float AuthResponse → Action Float PbAuthResponse
  serve call = map_err map_error call >>= λ resp. pure (build_auth_response resp)

  -- `GRPCServer.Register`: the fields that are not copied are empty.
  unfoldable pub serve_register : PbRegisterRequest → Action Float PbAuthResponse
  serve_register req = serve (
      register env s rating (record {
        email = req.email;
        password = req.password;
        name = req.name;
        phone = req.phone;
        role = req.role;
        vehicle_type = "";
        license_plate = "";
      }))

  -- `GRPCServer.Login`.
  unfoldable pub serve_login : String → String → Action Float PbAuthResponse
  serve_login email password = serve (login env s rating email password)

  -- `GRPCServer.Refresh`.
  unfoldable pub serve_refresh : String → Action Float PbAuthResponse
  serve_refresh token = serve (refresh_token env s rating token)

  abbrev answer : ℕ → Action Float PbAuthResponse → Handler Float GatewayAuthResponse
  answer code call =
      respond_to (invoke g call) handle_error (λ resp. json code (map_pb_auth_response resp))

  -- `Handler.Register`, with what binding the body gives.
  unfoldable pub post_register : Result GatewayRegisterRequest → Handler Float GatewayAuthResponse
  unfolding invoke serve_register
  post_register body = bind_json body λ req. answer 201 (
      serve_register (record {
        email = req.email;
        password = req.password;
        name = req.name;
        phone = req.phone;
        role = req.role;
      }))

  -- `Handler.Login`.
  unfoldable pub post_login : Result GatewayLoginRequest → Handler Float GatewayAuthResponse
  unfolding invoke serve_login
  post_login body = bind_json body λ req. answer 200 (serve_login req.email req.password)

  -- `Handler.Refresh`.
  unfoldable pub post_refresh : Result String → Handler Float GatewayAuthResponse
  unfolding invoke serve_refresh
  post_refresh body = bind_json body λ token. answer 200 (serve_refresh token)
