-- ===== src/Location/Order.antt =====
-- internal/location/location.go: what the servers promise of their answers, and answers in the order of
-- their distance.
use ridesharing.Prelude.{
  ℕ, ◌≤◌, ◌≡◌, String, true, List, [], ◌∷◌, map, length, arith, All, Bool-cases, inl, inr,
}
use ridesharing.Errors.{Error, Result-cases, ok, err}
use ridesharing.Models.{Uuid}
use ridesharing.Floats.{Float64, IsIeee}
use ridesharing.Database.{Env}
use ridesharing.Rpc.{GrpcLibrary}
use ridesharing.Postgis.{NearbyRow}
use ridesharing.Location.{
  GeoLocation, GeoServers, driver_at, found_drivers, put_by_distance, order_by_distance, from_row,
}

module _ (F : Float64) where
  open F use {Float, le}

  -- Every element is at most as far away as those after it.
  abbrev pub IsAscending : {A : Type 0} → (A → Float) → List A → Type 0
  IsAscending key [] = Unit
  IsAscending key (a ∷ rest) = All (λ b. le (key a) (key b) ≡ true) rest × IsAscending key rest

  -- GEOSEARCH … ASC COUNT n finds n members at most, by ascending distance; the distances that
  -- PostGIS computes are numbers.
  pub record IsGeoServers {Geo : Type 0} (srv : GeoServers Float Geo) : Type 0 where
    pub search-ascending :
        (key : String) (long lat radius : Float) (n : ℕ) (geo : Geo)
        → IsAscending (λ r. r.dist) (srv.geo_search key long lat radius n geo)
    pub search-count :
        (key : String) (long lat radius : Float) (n : ℕ) (geo : Geo)
        → length (srv.geo_search key long lat radius n geo) ≤ n
    pub distance-number :
        (lat long to_lat to_long : Float)
        → let d = srv.st_distance lat long to_lat to_long in le d d ≡ true

  module _ {Geo : Type 0} (g : GrpcLibrary) (srv : GeoServers Float Geo) (env : Env) where
    found_bad :
        (r : GeoLocation Float) (rs : List (GeoLocation Float)) (e : Error)
        → g.parse_uuid r.name ≡ err e
        → found_drivers F g srv env (r ∷ rs) ≡ found_drivers F g srv env rs
    unfolding found_drivers
    found_bad r rs e bad = ground arith

    found_good :
        (r : GeoLocation Float) (rs : List (GeoLocation Float)) (id : Uuid)
        → g.parse_uuid r.name ≡ ok id
        → found_drivers F g srv env (r ∷ rs)
          ≡ driver_at F g srv env id r.latitude r.longitude r.dist ∷ found_drivers F g srv env rs
    unfolding found_drivers
    found_good r rs id good = ground arith

    found_after :
        (x : Float) (rs : List (GeoLocation Float))
        → All (λ r. le x r.dist ≡ true) rs
        → All (λ d. le x d.distance_km ≡ true) (found_drivers F g srv env rs)
    unfolding found_drivers
    found_after x [] h = tt
    found_after x (r ∷ rs) h = elim (Result-cases (g.parse_uuid r.name)) [
      | inl (e, bad) ↦ rw (found_bad r rs e bad) (found_after x rs h.1)
      | inr (id, good) ↦ rw (found_good r rs id good) (h.0, found_after x rs h.1)
    ]

    pub found_drivers-IsAscending :
        (rs : List (GeoLocation Float))
        → IsAscending (λ r. r.dist) rs
        → IsAscending (λ d. d.distance_km) (found_drivers F g srv env rs)
    unfolding found_drivers
    found_drivers-IsAscending [] h = tt
    found_drivers-IsAscending (r ∷ rs) h = elim (Result-cases (g.parse_uuid r.name)) [
      | inl (e, bad) ↦ rw (found_bad r rs e bad) (found_drivers-IsAscending rs h.1)
      | inr (id, good) ↦
          rw (found_good r rs id good) (found_after r.dist rs h.0, found_drivers-IsAscending rs h.1)
    ]

    pub length-found_drivers :
        (rs : List (GeoLocation Float)) → length (found_drivers F g srv env rs) ≤ length rs
    unfolding found_drivers
    length-found_drivers [] = omega arith
    length-found_drivers (r ∷ rs) = ground (arith, length-found_drivers rs)

    module _ (ieee : IsIeee F) where
      abbrev IsNumber : NearbyRow Float → Type 0
      IsNumber r = le r.distance_meters r.distance_meters ≡ true

      put_after :
          (x : Float) (r : NearbyRow Float) (rows : List (NearbyRow Float))
          → le x r.distance_meters ≡ true
          → All (λ y. le x y.distance_meters ≡ true) rows
          → All (λ y. le x y.distance_meters ≡ true) (put_by_distance F g srv env r rows)
      unfolding put_by_distance
      put_after x r [] h all = (h, tt)
      put_after x r (y ∷ rows) h all = elim (Bool-cases (le r.distance_meters y.distance_meters)) [
        | inl before ↦ rw before (h, all)
        | inr after ↦ rw after (all.0, put_after x r rows h all.1)
      ]

      All-further :
          (x y : Float) (rows : List (NearbyRow Float))
          → le x y ≡ true
          → All (λ z. le y z.distance_meters ≡ true) rows
          → All (λ z. le x z.distance_meters ≡ true) rows
      All-further x y [] h all = tt
      All-further x y (z ∷ rows) h all =
          (ieee.le_trans x y z.distance_meters h all.0, All-further x y rows h all.1)

      put-IsAscending :
          (r : NearbyRow Float) (rows : List (NearbyRow Float))
          → IsNumber r
          → All IsNumber rows
          → IsAscending (λ y. y.distance_meters) rows
          → IsAscending (λ y. y.distance_meters) (put_by_distance F g srv env r rows)
      unfolding put_by_distance
      put-IsAscending r [] n all h = (tt, tt)
      put-IsAscending r (y ∷ rows) n all h =
          elim (Bool-cases (le r.distance_meters y.distance_meters)) [
            | inl before ↦
                rw before
                  ((before, All-further r.distance_meters y.distance_meters rows before h.0), h)
            | inr after ↦ rw after (
              put_after y.distance_meters r rows
                  (ieee.le_of_not_le r.distance_meters y.distance_meters n all.0 after) h.0,
              put-IsAscending r rows n all.1 h.1,
            )
          ]

      put-All :
          (r : NearbyRow Float) (rows : List (NearbyRow Float))
          → IsNumber r
          → All IsNumber rows
          → All IsNumber (put_by_distance F g srv env r rows)
      unfolding put_by_distance
      put-All r [] n all = (n, tt)
      put-All r (y ∷ rows) n all = elim (Bool-cases (le r.distance_meters y.distance_meters)) [
        | inl before ↦ rw before (n, all)
        | inr after ↦ rw after (all.0, put-All r rows n all.1)
      ]

      order_numbers :
          (rows : List (NearbyRow Float))
          → All IsNumber rows
          → All IsNumber (order_by_distance F g srv env rows)
      unfolding order_by_distance
      order_numbers [] all = tt
      order_numbers (r ∷ rows) all = put-All r _ all.0 (order_numbers rows all.1)

      order_by_distance-IsAscending :
          (rows : List (NearbyRow Float))
          → All IsNumber rows
          → IsAscending (λ y. y.distance_meters) (order_by_distance F g srv env rows)
      unfolding order_by_distance
      order_by_distance-IsAscending [] all = tt
      order_by_distance-IsAscending (r ∷ rows) all =
          put-IsAscending r _ all.0 (order_numbers rows all.1)
            (order_by_distance-IsAscending rows all.1)

      from_rows_after :
          (x : Float) (rows : List (NearbyRow Float))
          → All (λ y. le x y.distance_meters ≡ true) rows
          → All
              (λ d. le (F.div x (F.of_int 1000)) d.distance_km ≡ true)
              (map (from_row F g srv env) rows)
      from_rows_after x [] all = tt
      from_rows_after x (r ∷ rows) all =
          (ieee.div_mono 999 x r.distance_meters (omega arith) all.0, from_rows_after x rows all.1)

      from_rows-IsAscending :
          (rows : List (NearbyRow Float))
          → IsAscending (λ y. y.distance_meters) rows
          → IsAscending (λ d. d.distance_km) (map (from_row F g srv env) rows)
      from_rows-IsAscending [] h = tt
      from_rows-IsAscending (r ∷ rows) h =
          (from_rows_after r.distance_meters rows h.0, from_rows-IsAscending rows h.1)

      pub nearby_rows-IsAscending :
          (rows : List (NearbyRow Float))
          → All IsNumber rows
          → IsAscending
              (λ d. d.distance_km)
              (map (from_row F g srv env) (order_by_distance F g srv env rows))
      nearby_rows-IsAscending rows all =
          from_rows-IsAscending _ (order_by_distance-IsAscending rows all)
