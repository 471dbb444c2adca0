-- ===== src/Location/Answers.antt =====
-- internal/location/location.go: what the location service answers, and what an update leaves.
use mathlib.Core.Path.{subst}
use ridesharing.Prelude.{
  true, ℕ, suc, ◌≤◌, ◌≡◌, refl, sym, none, some, List, [], ◌∷◌, ◌++◌, map, arith, inl, inr, ◌⊎◌,
}
use ridesharing.Errors.{Error, ok, err}
use ridesharing.Models.{Uuid, NearbyDriver}
use ridesharing.Floats.{Float64, IsIeee}
use ridesharing.Database.{actions, Env, query, exec}
use ridesharing.Rpc.{GrpcLibrary}
use ridesharing.Postgis.{find_nearby_drivers, find_nearby_drivers-All}
use ridesharing.Location.{
  GeoServers, Stores, redis_geo_key, new_location, insert, found_drivers, order_by_distance,
  from_row, find_nearby, cache_update_location, cache_nearby_drivers, update_location,
  get_nearby_drivers, active_driver_count,
}
use ridesharing.Location.Order.{
  IsAscending, IsGeoServers, found_drivers-IsAscending, length-found_drivers,
  nearby_rows-IsAscending,
}

module _ (F : Float64) {Geo : Type 0} (g : GrpcLibrary) (srv : GeoServers F.Float Geo)
    (env : Env) where
  open F use {Float, of_int, mul, le}

  abbrev Ascends : List (NearbyDriver Float) → Type 0
  Ascends ds = IsAscending F (λ d. d.distance_km) ds

  -- What the cache finds.
  abbrev hits : Float → Float → Float → Stores Float Geo → List (NearbyDriver Float)
  hits lat long radius st =
      found_drivers F g srv env (srv.geo_search redis_geo_key long lat radius 20 st.geo)

  -- What PostgreSQL finds, of a radius in metres.
  abbrev rows : Float → Float → Float → Stores Float Geo → List (NearbyDriver Float)
  rows lat long radius st = map (from_row F g srv env) (
      order_by_distance F g srv env (
        find_nearby_drivers srv.st_distance srv.st_d_within le lat long (mul radius (of_int 1000))
          st.world.tables))

  -- An answer is what the cache or what PostgreSQL finds.
  answer_of :
      (lat long radius : Float) (st : Stores Float Geo) (ds : List (NearbyDriver Float))
      → (get_nearby_drivers F g srv env lat long radius st).0 ≡ ok ds
      → (ds ≡ hits lat long radius st) ⊎ (ds ≡ rows lat long radius st)
  unfolding actions get_nearby_drivers cache_nearby_drivers find_nearby query
  answer_of lat long radius st ds e = by_hits (hits lat long radius st) refl
    where
      by_hits :
          (l : List (NearbyDriver Float))
          → hits lat long radius st ≡ l
          → (ds ≡ hits lat long radius st) ⊎ (ds ≡ rows lat long radius st)
      by_hits [] h = ground arith
      by_hits (d ∷ l) h = ground arith

  -- Whatever GetNearbyDrivers returns, from the cache or from PostgreSQL, is in the order of the
  -- distance: no driver is nearer than one before it. So the first one, which matchDriver takes, is a
  -- nearest.
  pub get_nearby_drivers-IsAscending :
      (lat long radius : Float) (st : Stores Float Geo) (ds : List (NearbyDriver Float))
      → IsIeee F
      → IsGeoServers F srv
      → (get_nearby_drivers F g srv env lat long radius st).0 ≡ ok ds
      → Ascends ds
  get_nearby_drivers-IsAscending lat long radius st ds ieee servers e =
      elim (answer_of lat long radius st ds e) [
        | inl cached ↦ subst Ascends (sym cached) (
            found_drivers-IsAscending F g srv env _
              (servers.search-ascending redis_geo_key long lat radius 20 st.geo))
        | inr stored ↦ subst Ascends (sym stored) (
            nearby_rows-IsAscending F g srv env ieee _ (
              find_nearby_drivers-All srv.st_distance srv.st_d_within le
                (λ r. le r.distance_meters r.distance_meters ≡ true)
                (λ a b l. servers.distance-number l.lat l.long a b) lat long
                (mul radius (of_int 1000)) st.world.tables))
      ]

  -- ActiveDriverCount never counts more than 20 drivers, however many there are.
  pub active_driver_count_le :
      (lat long radius : Float) (st : Stores Float Geo) (n : ℕ)
      → IsGeoServers F srv
      → (active_driver_count F g srv env lat long radius st).0 ≡ ok n
      → n ≤ 20
  unfolding active_driver_count cache_nearby_drivers
  active_driver_count_le lat long radius st n servers e = ground (
    arith,
    length-found_drivers F g srv env (srv.geo_search redis_geo_key long lat radius 20 st.geo),
    servers.search-count redis_geo_key long lat radius 20 st.geo,
  )

  -- When UpdateLocation returns, one row with the position and the time is added to the locations, and
  -- no other table changes; when it fails, the tables are the one or the other. In both cases the cache has the
  -- position, unless its own command failed, which then leaves the old one in it.
  pub update_location_cases :
      (user : Uuid) (lat long : Float) (st : Stores Float Geo)
      → let t = st.world.tables in
        let after = (update_location F g srv env user lat long st).1 in
        ((update_location F g srv env user lat long st).0 ≡ ok tt
          → after.world.tables ≡ record t {
            locations =
                t.locations
                ++ (new_location F g srv env
                      (env.fresh (suc st.world.trips))
                      user
                      lat
                      long
                      (env.now (suc st.world.trips))
                    ∷ []);
          })
        × ((e : Error)
            → (update_location F g srv env user lat long st).0 ≡ err e
            → (after.world.tables ≡ t)
              ⊎ (after.world.tables ≡ record t {
                locations =
                    t.locations
                    ++ (new_location F g srv env
                          (env.fresh (suc st.world.trips))
                          user
                          lat
                          long
                          (env.now (suc st.world.trips))
                        ∷ []);
              }))
        × (after.geo ≡ elim (env.fault st.world.trips) [
          | none ↦ srv.geo_add redis_geo_key (g.uuid_text user) long lat st.geo
          | some e ↦ st.geo
        ])
  unfolding actions update_location cache_update_location insert exec
  update_location_cases user lat long st =
      ((λ h. ground arith), (λ e h. ground arith), ground arith)
