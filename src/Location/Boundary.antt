-- ===== src/Location/Boundary.antt =====
-- internal/location/grpc_client.go, grpc_server.go and handler.go: what the adapter gives the ride
-- service, and whose position a request can record.
use ridesharing.Prelude.{
  ℕ, suc, ◌<◌, ◌≡◌, refl, sym, ap, ◌∙◌, none, some, List, [], ◌∷◌, ◌++◌, map, arith, All, same_text,
  same_text_iff, Option-cases, Bool-cases, inl, inr,
}
use ridesharing.Errors.{Result-cases, ok}
use ridesharing.Models.{Uuid, NearbyDriver}
use ridesharing.Pagination.{pos}
use ridesharing.Floats.{Float64}
use ridesharing.Database.{Env}
use ridesharing.Rpc.{GrpcLibrary, IsUuidText, to_int32}
use ridesharing.Http.{Context, json}
use ridesharing.Location.{
  GeoServers, Stores, new_location, get_nearby_drivers, active_driver_count, update_location,
}
use ridesharing.Location.Answers.{active_driver_count_le, update_location_cases}
use ridesharing.Location.Order.{IsGeoServers}
use ridesharing.Location.Grpc.{
  FoundDriver, Position, to_pb, from_pb, client_get_nearby_drivers, client_active_driver_count,
  serve_get_nearby_drivers, serve_active_driver_count, serve_update_location, update_for,
  post_update_location,
}

-- A driver as the service has it.
abbrev pub as_found : {Float : Type 0} → NearbyDriver Float → FoundDriver Float
as_found d = record {
  driver_id = d.driver_id;
  lat = d.lat;
  long = d.long;
  distance_km = d.distance_km;
  estimated_eta = pos d.estimated_eta;
}

int32_small : (n : ℕ) → n < 2_147_483_648 → to_int32 n ≡ pos n
int32_small n h = ground arith

module _ (F : Float64) {Geo : Type 0} (g : GrpcLibrary) (text : IsUuidText g)
    (srv : GeoServers F.Float Geo) (env : Env) where
  open F use {Float}

  sent_back :
      (ds : List (NearbyDriver Float))
      → All (λ d. d.estimated_eta < 2_147_483_648) ds
      → map (from_pb g) (map (to_pb g) ds) ≡ map as_found ds
  sent_back [] h = refl
  sent_back (d ∷ ds) h =
      ground (arith, text.parse-text d.driver_id, int32_small d.estimated_eta h.0, sent_back ds h.1)

  -- Where no message is lost: what the adapter returns for the drivers near a place is what the service
  -- found, the same drivers in the same order, if no estimated time reaches 2^31 seconds; and the number
  -- of the drivers is the one that the service counted.
  pub client-serve :
      (lat long radius : Float) (st : Stores Float Geo)
      → IsGeoServers F srv
      → ((n : ℕ) → g.lost_request n ≡ none)
      → ((n : ℕ) → g.lost_answer n ≡ none)
      → ((ds : List (NearbyDriver Float))
          → (get_nearby_drivers F g srv env lat long radius st).0 ≡ ok ds
          → All (λ d. d.estimated_eta < 2_147_483_648) ds
          → (client_get_nearby_drivers F g srv env lat long radius st).0 ≡ ok (map as_found ds))
        × ((n : ℕ)
            → (active_driver_count F g srv env lat long radius st).0 ≡ ok n
            → (client_active_driver_count F g srv env lat long radius st).0 ≡ ok (pos n))
  unfolding client_get_nearby_drivers client_active_driver_count serve_get_nearby_drivers
      serve_active_driver_count
  client-serve lat long radius st servers sent answered = (
    (λ ds e small. ground (
      arith,
      sent st.world.trips,
      answered (get_nearby_drivers F g srv env lat long radius st).1.world.trips,
      sent_back ds small,
    )),
    (λ n e. ground (
      arith,
      sent st.world.trips,
      answered (active_driver_count F g srv env lat long radius st).1.world.trips,
      active_driver_count_le F g srv env lat long radius st n servers e,
      int32_small n,
    )),
  )

  -- Below the checks of the handler.
  stored :
      (user : Uuid) (req : Position Float) (st : Stores Float Geo)
      → (update_for F g srv env user (ok req) st).0 ≡ json 200 "location updated"
      → (update_for F g srv env user (ok req) st).1.world.tables.locations
        ≡ st.world.tables.locations
          ++ (new_location F g srv env
                (env.fresh (suc st.world.trips))
                user
                req.lat
                req.long
                (env.now (suc st.world.trips))
              ∷ [])
  unfolding serve_update_location
  stored user req st h =
      let to : g.parse_uuid (g.uuid_text user) ≡ ok user = text.parse-text user in
      elim (Result-cases (update_location F g srv env user req.lat req.long st).0) [
        | inl (e, fails) ↦ absurd (ground arith)
        | inr (u, done) ↦
            ground (arith, (update_location_cases F g srv env user req.lat req.long st).0 done)
      ]

  -- When POST /locations/update is answered 200, the user is signed in as a driver, and one row with
  -- the position of the request and that user is added to the locations.
  pub post_update_location_ok :
      (c : Context) (req : Position Float) (st : Stores Float Geo)
      → (post_update_location F g srv env c (ok req) st).0 ≡ json 200 "location updated"
      → (user : Uuid) × (c.user_id ≡ some user)
        × (c.user_role ≡ some "driver")
        × ((post_update_location F g srv env c (ok req) st).1.world.tables.locations
            ≡ st.world.tables.locations
              ++ (record {
                id = env.fresh (suc st.world.trips);
                user_id = user;
                lat = req.lat;
                long = req.long;
                timestamp = env.now (suc st.world.trips);
              }
                  ∷ []))
  unfolding post_update_location serve_update_location
  post_update_location_ok c req st h = elim (Option-cases c.user_id) [
    | inl nobody ↦ absurd (ground arith)
    | inr (user, signed_in) ↦ elim (Option-cases c.user_role) [
      | inl no_role ↦ absurd (ground arith)
      | inr (role, has) ↦ elim (Bool-cases (same_text role "driver")) [
        | inr other ↦ absurd (ground arith)
        | inl driver ↦
            let goes : post_update_location F g srv env c (ok req) st
                ≡ update_for F g srv env user (ok req) st =
              ground arith in
            (
              user,
              signed_in,
              has ∙ ap (λ r. some r) ((same_text_iff role "driver").0 driver),
              ap (λ o. o.1.world.tables.locations) goes
                  ∙ stored user req st (sym (ap (λ o. o.0) goes) ∙ h),
            )
      ]
    ]
  ]
