-- ===== src/Location/Tests.antt =====
-- internal/location: one driver in the cache, and two in the tables, the farther first.
use ridesharing.Prelude.{
  All, ◌<◌, ℕ, ◌≡◌, refl, none, some, true, false, Bool, ◌*◌, ◌+◌, List, [], ◌∷◌, ◌++◌, map, arith,
}
use ridesharing.Errors.{ok}
use ridesharing.Models.{Uuid, Time, Driver, Location, NearbyDriver}
use ridesharing.Security.{no_attempts}
use ridesharing.Pagination.{pos}
use ridesharing.Floats.Fixed.{fixed, fixed-IsIeee}
use ridesharing.Geo.{estimate_eta, whole_seconds}
use ridesharing.Database.{actions, Env, Tables, query, exec}
use ridesharing.Rpc.Unary.{unary, unary-IsUuidText, letters, count_letters}
use ridesharing.Http.{Context, json}
use ridesharing.Prelude.Table.{find}
use ridesharing.Postgis.{candidates, put_candidate, distinct_on, find_nearby_drivers}
use ridesharing.Location.{
  active_driver_count, GeoServers, Stores, put_by_distance, order_by_distance, found_drivers,
  find_nearby, insert, cache_update_location, cache_nearby_drivers, update_location,
  get_nearby_drivers,
}
use ridesharing.Location.Order.{IsAscending, IsGeoServers}
use ridesharing.Location.Answers.{get_nearby_drivers-IsAscending}
use ridesharing.Location.Grpc.{
  Position, client_get_nearby_drivers, client_active_driver_count, post_update_location,
  serve_update_location,
}
use ridesharing.Location.Boundary.{as_found, client-serve, post_update_location_ok}

abbrev env : Env
env = record {
  fault = λ n. none;
  carried_out = λ n. false;
  now = λ n. n;
  fresh = λ n. n;
  done = λ n. none;
}

-- A cache that finds nothing.
abbrev servers : GeoServers ℕ (Unit {0})
servers = record {
  geo_add = λ key name long lat geo. geo;
  z_rem = λ key name geo. geo;
  geo_search = λ key long lat radius n geo. [];
  st_distance = λ lat long to_lat to_long. lat + long;
  st_d_within = λ lat long to_lat to_long radius. true;
}

servers-IsGeoServers : IsGeoServers fixed servers
servers-IsGeoServers = record {
  search-ascending = λ key long lat radius n geo. tt;
  search-count = λ key long lat radius n geo. omega arith;
  distance-number = λ lat long to_lat to_long. ground arith;
}

abbrev car : Uuid → Bool → Driver ℕ
car id free = record {
  user_id = id;
  vehicle_type = "sedan";
  license_plate = "ABC";
  is_available = free;
  rating = 5;
  created_at = 0;
  updated_at = 0;
}

abbrev seen : Uuid → Uuid → ℕ → Time → Location ℕ
seen id user metres at = record { id = id; user_id = user; lat = metres; long = 0; timestamp = at }

-- Driver 4 is far away now, driver 5 is nearer, and driver 6, the nearest, is not free.
abbrev tables : Tables ℕ
tables = record {
  users = [];
  drivers = car 4 true ∷ car 5 true ∷ car 6 false ∷ [];
  rides = [];
  locations =
      seen 11 4 100_000 1 ∷ seen 12 5 200_000 2 ∷ seen 13 6 100 3 ∷ seen 14 4 900_000 4 ∷ [];
  payments = [];
}

abbrev start : Stores ℕ (Unit {0})
start = record {
  geo = tt;
  world = record {
    tables = tables;
    trips = 0;
    leases = [];
    events = [];
    captured = [];
    attempts = no_attempts;
  };
}

abbrev at_km : Uuid → ℕ → NearbyDriver ℕ
at_km id km = record {
  driver_id = id;
  lat = km * 1000;
  long = 0;
  distance_km = km;
  estimated_eta = whole_seconds fixed (estimate_eta fixed km);
}

abbrev nearest : List (NearbyDriver ℕ)
nearest = at_km 5 200 ∷ at_km 4 900 ∷ []

get_nearby-start : (get_nearby_drivers fixed unary servers env 0 0 500 start).0 ≡ ok nearest
unfolding actions query put_candidate candidates distinct_on find_nearby_drivers put_by_distance
    order_by_distance found_drivers find_nearby cache_nearby_drivers get_nearby_drivers estimate_eta
    whole_seconds
get_nearby-start = refl

get_nearby_drivers-IsAscending_example : IsAscending fixed (λ d. d.distance_km) nearest
get_nearby_drivers-IsAscending_example =
    get_nearby_drivers-IsAscending fixed unary servers env 0 0 500 start nearest fixed-IsIeee
      servers-IsGeoServers get_nearby-start

client-serve_example :
    ((ds : List (NearbyDriver ℕ))
      → (get_nearby_drivers fixed unary servers env 0 0 500 start).0 ≡ ok ds
      → All (λ d. d.estimated_eta < 2_147_483_648) ds
      → (client_get_nearby_drivers fixed unary servers env 0 0 500 start).0 ≡ ok (map as_found ds))
    × ((n : ℕ)
        → (active_driver_count fixed unary servers env 0 0 500 start).0 ≡ ok n
        → (client_active_driver_count fixed unary servers env 0 0 500 start).0 ≡ ok (pos n))
client-serve_example =
    client-serve fixed unary unary-IsUuidText servers env 0 0 500 start servers-IsGeoServers
      (λ n. refl) (λ n. refl)

abbrev driver : Context
driver = record { user_id = some 4; user_role = some "driver" }

abbrev here : Position fixed.Float
here = record { lat = 3; long = 2 }

post-start :
    (post_update_location fixed unary servers env driver (ok here) start).0
    ≡ json 200 "location updated"
unfolding actions exec insert find cache_update_location update_location serve_update_location
    post_update_location letters count_letters
post-start = refl

post_update_location_ok_example :
    (user : Uuid) × (driver.user_id ≡ some user)
    × (driver.user_role ≡ some "driver")
    × ((post_update_location fixed unary servers env driver
          (ok here)
          start).1.world.tables.locations
        ≡ tables.locations
          ++ (record { id = 1; user_id = user; lat = 3; long = 2; timestamp = env.now 1 } ∷ []))
post_update_location_ok_example =
    post_update_location_ok fixed unary unary-IsUuidText servers env driver here start post-start
