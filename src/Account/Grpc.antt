-- ===== src/Account/Grpc.antt =====
-- internal/user/grpc_server.go and handler.go: the user service behind gRPC, and its HTTP handlers.
use ridesharing.Prelude.{String, Bool, true, not, Option, none, some, same_text, if◌then◌else◌}
use ridesharing.Errors.{Error, forbidden_error, plain, Result}
use ridesharing.Models.{Time, Driver, UserWithDriver}
use ridesharing.Database.{Env, Action, ◌>>=◌, ◌>>◌, pure, fail}
use ridesharing.Rpc.{GrpcLibrary, invoke, parsed}
use ridesharing.Auth.Grpc.{PbUser, build_pb_user, empty_user}
use mathlib.Core.Option
use ridesharing.Http.{
  Reply, json, error_json, bare, Context, Handler, reply, with_user, bind_json, respond_to,
}
use ridesharing.Account.{UpdateProfileRequest, get_profile, update_profile, set_availability}

-- `pb.UpdateProfileRequest`.
pub record PbUpdateProfile : Type 0 where
  pub user_id : String
  pub name : Option String
  pub phone : Option String
  pub vehicle_type : Option String
  pub license_plate : Option String

-- `handleError`.
abbrev pub handle_error : {A : Type 0} → Error → Reply A
handle_error e = error_json 500 "internal server error" none

-- A field that is set only if it is not empty; and one that is read, with the empty text for none.
abbrev pub set_field : String → Option String
set_field s = if same_text s "" then none else some s

abbrev pub field_or_empty : Option String → String
field_or_empty none = ""
field_or_empty (some s) = s

-- `models.UserWithDriver{User: models.User{}}`.
abbrev empty_profile : {Float : Type 0} → UserWithDriver Float
empty_profile = record { user = empty_user; driver = none }

module _ (Float : Type 0) where
  -- `pb.Driver` and `pb.GetProfileResponse`.
  pub record PbDriver : Type 0 where
    pub user_id : String
    pub vehicle_type : String
    pub license_plate : String
    pub is_available : Bool
    pub rating : Float
    pub created_at : Time
    pub updated_at : Time

  pub record PbProfile : Type 0 where
    pub user : PbUser
    pub driver : Option PbDriver

-- `mapPBGetProfileResponse`.
abbrev pub map_pb_get_profile_response : {Float : Type 0} → PbProfile Float → UserWithDriver Float
map_pb_get_profile_response resp = empty_profile

-- The update request of `GRPCServer.UpdateProfile`.
abbrev pub update_request : PbUpdateProfile → UpdateProfileRequest
update_request req = record {
  name = field_or_empty req.name;
  phone = field_or_empty req.phone;
  vehicle_type = field_or_empty req.vehicle_type;
  license_plate = field_or_empty req.license_plate;
}

-- The message that `Handler.UpdateProfile` sends.
abbrev pub update_message : String → UpdateProfileRequest → PbUpdateProfile
update_message id req = record {
  user_id = id;
  name = set_field req.name;
  phone = set_field req.phone;
  vehicle_type = set_field req.vehicle_type;
  license_plate = set_field req.license_plate;
}

module _ {Float : Type 0} (g : GrpcLibrary) (env : Env) where
  abbrev build_pb_driver : Driver Float → PbDriver Float
  build_pb_driver d = record {
    user_id = g.uuid_text d.user_id;
    vehicle_type = d.vehicle_type;
    license_plate = d.license_plate;
    is_available = d.is_available;
    rating = d.rating;
    created_at = d.created_at;
    updated_at = d.updated_at;
  }

  -- `buildGetProfileResponse`.
  abbrev pub build_get_profile_response : UserWithDriver Float → PbProfile Float
  build_get_profile_response usr = record {
    user = build_pb_user g usr.user;
    driver = Option.map build_pb_driver usr.driver;
  }

  -- `GRPCServer.GetProfile`.
  unfoldable pub serve_get_profile : String → Action Float (PbProfile Float)
  serve_get_profile user =
      parsed g user λ id. get_profile env id >>= λ usr. pure (build_get_profile_response usr)

  -- The end of `GRPCServer.UpdateProfile`. A user who is gone when the profile is read again is a nil
  -- pointer: the method panics, and the caller gets an error.
  abbrev pub reread_profile : Option (UserWithDriver Float) → Action Float (PbProfile Float)
  reread_profile none = fail (plain "nil pointer dereference")
  reread_profile (some u) = pure (build_get_profile_response u)

  -- `GRPCServer.UpdateProfile`.
  unfoldable pub serve_update_profile : PbUpdateProfile → Action Float (PbProfile Float)
  serve_update_profile req =
      parsed g req.user_id λ id. update_profile env id (update_request req) >>= reread_profile

  -- `GRPCServer.SetAvailability`.
  unfoldable pub serve_set_availability : String → Bool → Action Float Bool
  serve_set_availability user available =
      parsed g user λ id. set_availability env id available >> pure true

  -- `Handler.GetProfile`, with the id of the path.
  unfoldable pub get_profile_by_id : String → Handler Float (UserWithDriver Float)
  unfolding invoke serve_get_profile
  get_profile_by_id id =
      respond_to (invoke g (serve_get_profile id)) handle_error
        (λ resp. json 200 (map_pb_get_profile_response resp))

  -- `Handler.UpdateProfile`.
  unfoldable pub put_profile :
      Context → String → Result UpdateProfileRequest → Handler Float (UserWithDriver Float)
  unfolding invoke serve_update_profile
  put_profile c id body = with_user c λ user.
      if not (same_text (g.uuid_text user) id)
      then reply (error_json 403 "can only update your own profile" (some forbidden_error))
      else bind_json body λ req.
        respond_to (invoke g (serve_update_profile (update_message id req))) handle_error
          (λ resp. json 200 (map_pb_get_profile_response resp))

  -- `Handler.SetAvailability`.
  unfoldable pub put_availability : Context → String → Result Bool → Handler Float (Unit {0})
  unfolding invoke serve_set_availability
  put_availability c id body = with_user c λ user.
      if not (same_text (g.uuid_text user) id)
      then reply (error_json 403 "can only update your own availability" (some forbidden_error))
      else bind_json body λ available.
        respond_to (invoke g (serve_set_availability id available)) handle_error (λ done. bare 204)
