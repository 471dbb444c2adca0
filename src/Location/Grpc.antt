-- ===== src/Location/Grpc.antt =====
-- internal/location/grpc_server.go, grpc_client.go and handler.go: the location service behind gRPC,
-- the adapter that the ride service calls it by, and its HTTP handlers.
use ridesharing.Prelude.{String, Bool, true, not, none, some, List, map, same_text, if◌then◌else◌}
use ridesharing.Errors.{
  unauthorized_error, forbidden_error, validation_error, internal_error, invalid_coordinates, plain,
  status, Result, ok, err, error_text,
}
use ridesharing.Models.{Uuid, NearbyDriver}
use ridesharing.Pagination.{ℤ}
use ridesharing.Floats.{Float64}
use ridesharing.Database.{Env, tick}
use ridesharing.Rpc.{GrpcLibrary, to_int32, on_wire}
use ridesharing.Http.{Reply, json, error_json, Context}
use ridesharing.Location.{
  GeoServers, Stores, Call, update_location, get_nearby_drivers, active_driver_count,
}

module _ (Float : Type 0) where
  -- `pb.NearbyDriver`.
  pub record PbNearbyDriver : Type 0 where
    pub driver_id : String
    pub lat : Float
    pub long : Float
    pub distance_km : Float
    pub estimated_eta : ℤ

  -- `models.NearbyDriver` as a client has it: the ETA is any int.
  pub record FoundDriver : Type 0 where
    pub driver_id : Uuid
    pub lat : Float
    pub long : Float
    pub distance_km : Float
    pub estimated_eta : ℤ

  -- `UpdateLocationRequest` of the handler.
  pub record Position : Type 0 where
    pub lat : Float
    pub long : Float

abbrev map_error : {A : Type 0} → GrpcLibrary → Result A → Result A
map_error g (ok a) = ok a
map_error g (err e) = err (on_wire g e)

-- A call of a method of the service.
abbrev pub invoke_call : {Float Geo A : Type 0} → GrpcLibrary → Call Float Geo A → Call Float Geo A
invoke_call g method st = elim (g.lost_request st.world.trips) [
  | some (c, m) ↦ (err (status c m), record st { world = tick st.world })
  | none ↦
      let (r, st') = method st in
      elim (g.lost_answer st'.world.trips) [
        | some (c, m) ↦ (err (status c m), st')
        | none ↦ (map_error g r, st')
      ]
]

abbrev pub map_ok : {Float Geo A B : Type 0} → (A → B) → Call Float Geo A → Call Float Geo B
map_ok f call st = let (r, st') = call st in (elim r [ ok a ↦ ok (f a) | err e ↦ err e ], st')

-- `uuid.Parse` with its error dropped, which leaves uuid.Nil.
abbrev parse_or_nil : GrpcLibrary → String → Uuid
parse_or_nil g s = elim (g.parse_uuid s) [ err e ↦ 0 | ok id ↦ id ]

abbrev pub to_pb : {Float : Type 0} → GrpcLibrary → NearbyDriver Float → PbNearbyDriver Float
to_pb g d = record {
  driver_id = g.uuid_text d.driver_id;
  lat = d.lat;
  long = d.long;
  distance_km = d.distance_km;
  estimated_eta = to_int32 d.estimated_eta;
}

abbrev pub from_pb : {Float : Type 0} → GrpcLibrary → PbNearbyDriver Float → FoundDriver Float
from_pb g d = record {
  driver_id = parse_or_nil g d.driver_id;
  lat = d.lat;
  long = d.long;
  distance_km = d.distance_km;
  estimated_eta = d.estimated_eta;
}

module _ (F : Float64) {Geo : Type 0} (g : GrpcLibrary) (srv : GeoServers F.Float Geo)
    (env : Env) where
  open F use {Float, of_int, le}

  -- `GRPCServer.UpdateLocation`, `GetNearbyDrivers` and `ActiveDriverCount`.
  unfoldable pub serve_update_location : String → Float → Float → Call Float Geo Bool
  serve_update_location user lat long st = elim (g.parse_uuid user) [
    | err e ↦ (err e, st)
    | ok id ↦ map_ok (λ done. true) (update_location F g srv env id lat long) st
  ]

  unfoldable pub serve_get_nearby_drivers :
      Float → Float → Float → Call Float Geo (List (PbNearbyDriver Float))
  serve_get_nearby_drivers lat long radius_km =
      map_ok (map (to_pb g)) (get_nearby_drivers F g srv env lat long radius_km)

  unfoldable pub serve_active_driver_count : Float → Float → Float → Call Float Geo ℤ
  serve_active_driver_count lat long radius_km =
      map_ok to_int32 (active_driver_count F g srv env lat long radius_km)

  -- `GRPCClient.UpdateLocation`, `GetNearbyDrivers` and `ActiveDriverCount`.
  unfoldable pub client_update_location : Uuid → Float → Float → Call Float Geo Bool
  unfolding serve_update_location
  client_update_location user lat long =
      invoke_call g (serve_update_location (g.uuid_text user) lat long)

  unfoldable pub client_get_nearby_drivers :
      Float → Float → Float → Call Float Geo (List (FoundDriver Float))
  unfolding serve_get_nearby_drivers
  client_get_nearby_drivers lat long radius_km =
      map_ok (map (from_pb g)) (invoke_call g (serve_get_nearby_drivers lat long radius_km))

  unfoldable pub client_active_driver_count : Float → Float → Float → Call Float Geo ℤ
  unfolding serve_active_driver_count
  client_active_driver_count lat long radius_km =
      invoke_call g (serve_active_driver_count lat long radius_km)

  abbrev Handler : Type 0 → Type 0
  Handler A = Stores Float Geo → Reply A × Stores Float Geo

  abbrev respond_to : {A B : Type 0} → Call Float Geo B → String → (B → Reply A) → Handler A
  respond_to call message on_answer st =
      let (r, st') = call st in
      (elim r [ ok b ↦ on_answer b | err e ↦ error_json 500 message (some internal_error) ], st')

  abbrev pub update_for : Uuid → Result (Position Float) → Handler String
  update_for user body st = elim body [
    | err e ↦ (error_json 400 (error_text e) (some validation_error), st)
    | ok req ↦
        respond_to (invoke_call g (serve_update_location (g.uuid_text user) req.lat req.long))
          "failed to update location" (λ done. json 200 "location updated") st
  ]

  -- `Handler.UpdateLocation`, with what binding the body gives; a context without a role is a panic.
  unfoldable pub post_update_location : Context → Result (Position Float) → Handler String
  unfolding serve_update_location
  post_update_location c body st = elim c.user_id [
    | none ↦ (error_json 401 "unauthorized" (some unauthorized_error), st)
    | some user ↦ elim c.user_role [
      | none ↦ (error_json 500 "internal server error" (some internal_error), st)
      | some role ↦
          if not (same_text role "driver")
          then (error_json 403 "only drivers can update location" (some forbidden_error), st)
          else update_for user body st
    ]
  ]

  -- `parseFloat`, over strconv.ParseFloat.
  abbrev parse_float : (String → Result Float) → String → Result Float
  parse_float parse s = if same_text s "" then err (plain "empty parameter") else parse s

  abbrev radius_or_default : Result Float → Float
  radius_or_default (err e) = of_int 5
  radius_or_default (ok radius) = if le radius (of_int 0) then of_int 5 else radius

  -- `Handler.NearbyDrivers`, with the texts of its three parameters.
  unfoldable pub get_nearby :
      (String → Result Float) → String → String → String → Handler (List (FoundDriver Float))
  unfolding serve_get_nearby_drivers
  get_nearby parse lat_text long_text radius_text st = elim (parse_float parse lat_text) [
    | err e ↦ (error_json 400 "invalid lat parameter" (some invalid_coordinates), st)
    | ok lat ↦ elim (parse_float parse long_text) [
      | err e ↦ (error_json 400 "invalid long parameter" (some invalid_coordinates), st)
      | ok long ↦
          respond_to
            (invoke_call g (
              serve_get_nearby_drivers lat long
                (radius_or_default (parse_float parse radius_text))))
            "failed to get nearby drivers" (λ ds. json 200 (map (from_pb g) ds)) st
    ]
  ]
