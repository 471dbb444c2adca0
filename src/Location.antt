-- ===== src/Location.antt =====
-- internal/location/location.go: where drivers are, in a geo set of Redis and in PostgreSQL.
pub mod Grpc
pub mod Order
pub mod Answers
pub mod Boundary
mod Tests
use ridesharing.Prelude.{
  ℕ, String, Bool, true, false, not, ◌&&◌, ◌||◌, Option, none, some, List, [], ◌∷◌, ◌++◌, map,
  length, if◌then◌else◌,
}
use ridesharing.Prelude.Table.{find}
use ridesharing.Errors.{Error, plain, wrapped, Result, ok, err}
use ridesharing.Models.{Uuid, Time, Location, NearbyDriver}
use ridesharing.Floats.{Float64}
use ridesharing.Geo.{estimate_eta, whole_seconds}
use ridesharing.Database.{Env, Tables, World, Action, map_err, tick, exec, query}
use ridesharing.Rpc.{GrpcLibrary}
use ridesharing.Postgis.{NearbyRow, find_nearby_drivers}

abbrev pub redis_geo_key : String
redis_geo_key = "drivers:locations"

module _ (Float : Type 0) where
  -- `redis.GeoLocation`: a member that GEOSEARCH finds.
  pub record GeoLocation : Type 0 where
    pub name : String
    pub longitude : Float
    pub latitude : Float
    pub dist : Float

  -- The servers: GEOADD, ZREM and GEOSEARCH (centre, radius in kilometres and count, sorted ASC) of
  -- Redis on what it keeps under a key, and the distances of PostGIS.
  pub record GeoServers (Geo : Type 0) : Type 0 where
    pub geo_add : String → String → Float → Float → Geo → Geo
    pub z_rem : String → String → Geo → Geo
    pub geo_search : String → Float → Float → Float → ℕ → Geo → List GeoLocation
    pub st_distance : Float → Float → Float → Float → Float
    pub st_d_within : Float → Float → Float → Float → Float → Bool

  -- What the service changes: Redis, and the world of the other calls.
  pub record Stores (Geo : Type 0) : Type 0 where
    pub geo : Geo
    pub world : World Float

abbrev pub Call : Type 0 → Type 0 → Type 0 → Type 0
Call Float Geo A = Stores Float Geo → Result A × Stores Float Geo

module _ (F : Float64) {Geo : Type 0} (g : GrpcLibrary) (srv : GeoServers F.Float Geo)
    (env : Env) where
  open F use {Float, of_int, mul, div, le, lt}

  -- A call of the database.
  abbrev in_world : {A : Type 0} → Action Float A → Call Float Geo A
  in_world m st = let (r, w) = m st.world in (r, record st { world = w })

  abbrev pub location_key : Location Float → Uuid
  location_key l = l.id

  -- `Repository.Insert`.
  abbrev pub new_location : Uuid → Uuid → Float → Float → Time → Location Float
  new_location id user lat long now = record {
    id = id;
    user_id = user;
    lat = lat;
    long = long;
    timestamp = now;
  }

  unfoldable pub insert : Uuid → Float → Float → Action Float (Unit {0})
  unfolding exec
  insert user lat long = map_err (wrapped "insert location") (
      exec env (λ n t.
        let row = new_location (env.fresh n) user lat long (env.now n) in
        elim (find location_key row.id t.locations) [
          | some _ ↦ err (plain "duplicate key value violates unique constraint")
          | none ↦ ok (tt, record t { locations = t.locations ++ (row ∷ []) })
        ]))

  -- ORDER BY distance_meters ASC.
  unfoldable pub put_by_distance : NearbyRow Float → List (NearbyRow Float) → List (NearbyRow Float)
  put_by_distance r [] = r ∷ []
  put_by_distance r (x ∷ xs) =
      let rest = put_by_distance r xs in
      if le r.distance_meters x.distance_meters then r ∷ x ∷ xs else x ∷ rest

  unfoldable pub order_by_distance : List (NearbyRow Float) → List (NearbyRow Float)
  unfolding put_by_distance
  order_by_distance [] = []
  order_by_distance (x ∷ xs) = put_by_distance x (order_by_distance xs)

  abbrev pub driver_at : Uuid → Float → Float → Float → NearbyDriver Float
  driver_at id lat long km = record {
    driver_id = id;
    lat = lat;
    long = long;
    distance_km = km;
    estimated_eta = whole_seconds F (estimate_eta F km);
  }

  abbrev pub from_row : NearbyRow Float → NearbyDriver Float
  from_row r =
      driver_at r.driver_id r.driver_lat r.driver_long (div r.distance_meters (of_int 1000))

  -- `Repository.FindNearby`.
  unfoldable pub find_nearby : Float → Float → Float → Action Float (List (NearbyDriver Float))
  unfolding query order_by_distance find_nearby_drivers
  find_nearby lat long radius_meters = map_err (wrapped "find nearby drivers") (
      query env (λ n t. map from_row (
        order_by_distance
          (find_nearby_drivers srv.st_distance srv.st_d_within le lat long radius_meters t))))

  -- A command of Redis.
  abbrev command : {A : Type 0} → (Geo → A × Geo) → Call Float Geo A
  command run st = elim (env.fault st.world.trips) [
    | some e ↦ (err e, record st { world = tick st.world })
    | none ↦ let (a, geo) = run st.geo in (ok a, record { geo = geo; world = tick st.world })
  ]

  -- `Cache.UpdateLocation`.
  unfoldable pub cache_update_location : Uuid → Float → Float → Call Float Geo (Unit {0})
  cache_update_location user lat long =
      command (λ geo. (tt, srv.geo_add redis_geo_key (g.uuid_text user) long lat geo))

  -- `Cache.RemoveDriver`.
  unfoldable pub remove_driver : Uuid → Call Float Geo (Unit {0})
  remove_driver user = command (λ geo. (tt, srv.z_rem redis_geo_key (g.uuid_text user) geo))

  -- The loop of `Cache.NearbyDrivers`, which skips a member whose name is no id.
  unfoldable pub found_drivers : List (GeoLocation Float) → List (NearbyDriver Float)
  found_drivers [] = []
  found_drivers (r ∷ rs) =
      let rest = found_drivers rs in
      elim (g.parse_uuid r.name) [
        | err e ↦ rest
        | ok id ↦ driver_at id r.latitude r.longitude r.dist ∷ rest
      ]

  -- `Cache.NearbyDrivers`.
  unfoldable pub cache_nearby_drivers :
      Float → Float → Float → Call Float Geo (List (NearbyDriver Float))
  unfolding found_drivers
  cache_nearby_drivers lat long radius_km st =
      let (r, st') =
        command (λ geo. (srv.geo_search redis_geo_key long lat radius_km 20 geo, geo)) st in
      (elim r [ err e ↦ err (wrapped "redis geosearch" e) | ok rs ↦ ok (found_drivers rs) ], st')

  -- `Service.UpdateLocation`: an error of the cache is logged only.
  unfoldable pub update_location : Uuid → Float → Float → Call Float Geo (Unit {0})
  unfolding cache_update_location insert
  update_location user lat long st =
      let (cached, st') = cache_update_location user lat long st in
      in_world (map_err (wrapped "persist location") (insert user lat long)) st'

  -- `Service.GetNearbyDrivers`.
  abbrev pub fall_back : Float → Float → Float → Call Float Geo (List (NearbyDriver Float))
  fall_back lat long radius_km =
      in_world (
        map_err (wrapped "find nearby drivers")
          (find_nearby lat long (mul radius_km (of_int 1000))))

  unfoldable pub get_nearby_drivers :
      Float → Float → Float → Call Float Geo (List (NearbyDriver Float))
  unfolding cache_nearby_drivers find_nearby
  get_nearby_drivers lat long radius_km st =
      let (r, st') = cache_nearby_drivers lat long radius_km st in
      elim r [
        | err e ↦ fall_back lat long radius_km st'
        | ok drivers ↦ elim drivers [
          | [] ↦ fall_back lat long radius_km st'
          | d ∷ ds ↦ (ok (d ∷ ds), st')
        ]
      ]

  -- `Service.ActiveDriverCount`.
  unfoldable pub active_driver_count : Float → Float → Float → Call Float Geo ℕ
  unfolding cache_nearby_drivers
  active_driver_count lat long radius_km st =
      let (r, st') = cache_nearby_drivers lat long radius_km st in
      (elim r [ err e ↦ err e | ok drivers ↦ ok (length drivers) ], st')

  -- `ParseRadius`, over strconv.ParseFloat.
  unfoldable pub parse_radius : (String → Result Float) → String → Result Float
  parse_radius parse_float s = elim (parse_float s) [
    | err e ↦ err (wrapped "invalid radius" e)
    | ok val ↦
        if le val (of_int 0) || lt (of_int 100) val
        then err (plain "radius must be between 0 and 100 km")
        else ok val
  ]
