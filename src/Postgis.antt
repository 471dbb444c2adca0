-- ===== src/Postgis.antt =====
-- migrations/004_create_locations.up.sql: the function find_nearby_drivers of the database.
use ridesharing.Prelude.{
  Bool, ◌&&◌, ◌||◌, List, [], ◌∷◌, map, ltb, ◌==◌, if◌then◌else◌, false, Bool-cases, inl, inr, All,
}
use ridesharing.Models.{Uuid, Time, Driver, Location}
use ridesharing.Database.{Tables}

module _ (Float : Type 0) where
  -- A row of the answer.
  pub record NearbyRow : Type 0 where
    pub driver_id : Uuid
    pub driver_lat : Float
    pub driver_long : Float
    pub distance_meters : Float

  -- A row before DISTINCT ON, with the time that orders it.
  pub record Candidate : Type 0 where
    pub row : NearbyRow
    pub timestamp : Time

-- The driver of a location that is available.
abbrev pub is_available : {Float : Type 0} → Uuid → List (Driver Float) → Bool
is_available user [] = false
is_available user (d ∷ ds) = d.user_id == user && d.is_available || is_available user ds

-- ST_Distance and ST_DWithin, in metres, of the points at two pairs of latitude and longitude, and `<=`
-- on their distances.
module _ {Float : Type 0} (st_distance : Float → Float → Float → Float → Float)
    (st_d_within : Float → Float → Float → Float → Float → Bool) (le : Float → Float → Bool) where
  abbrev pub candidate : Float → Float → Location Float → Candidate Float
  candidate search_lat search_long l = record {
    row = record {
      driver_id = l.user_id;
      driver_lat = l.lat;
      driver_long = l.long;
      distance_meters = st_distance l.lat l.long search_lat search_long;
    };
    timestamp = l.timestamp;
  }

  -- FROM locations INNER JOIN drivers WHERE …
  unfoldable pub candidates :
      Float → Float → Float → List (Driver Float) → List (Location Float) → List (Candidate Float)
  candidates search_lat search_long radius_meters ds [] = []
  candidates search_lat search_long radius_meters ds (l ∷ ls) =
      let rest = candidates search_lat search_long radius_meters ds ls in
      if is_available l.user_id ds && st_d_within l.lat l.long search_lat search_long radius_meters
      then candidate search_lat search_long l ∷ rest
      else rest

  -- ORDER BY timestamp DESC, distance_meters ASC.
  abbrev is_before : Candidate Float → Candidate Float → Bool
  is_before c x =
      ltb x.timestamp c.timestamp
      || c.timestamp == x.timestamp && le c.row.distance_meters x.row.distance_meters

  -- DISTINCT ON (user_id) ORDER BY user_id: each user's first row.
  unfoldable pub put_candidate : Candidate Float → List (Candidate Float) → List (Candidate Float)
  put_candidate c [] = c ∷ []
  put_candidate c (x ∷ xs) =
      let rest = put_candidate c xs in
      if ltb c.row.driver_id x.row.driver_id
      then c ∷ x ∷ xs
      else if c.row.driver_id == x.row.driver_id
      then if is_before c x then c ∷ xs else x ∷ xs
      else x ∷ rest

  unfoldable pub distinct_on : List (Candidate Float) → List (Candidate Float)
  unfolding put_candidate
  distinct_on [] = []
  distinct_on (c ∷ cs) = put_candidate c (distinct_on cs)

  unfoldable pub find_nearby_drivers : Float → Float → Float → Tables Float → List (NearbyRow Float)
  unfolding candidates distinct_on
  find_nearby_drivers search_lat search_long radius_meters t =
      map (λ c. c.row)
        (distinct_on (candidates search_lat search_long radius_meters t.drivers t.locations))

  module _ (P : NearbyRow Float → Type 0)
      (all : (lat long : Float) (l : Location Float) → P (candidate lat long l).row) where
    Holds : List (Candidate Float) → Type 0
    Holds = All (λ c. P c.row)

    candidates-All :
        (lat long radius : Float) (ds : List (Driver Float)) (ls : List (Location Float))
        → Holds (candidates lat long radius ds ls)
    unfolding Holds candidates
    candidates-All lat long radius ds [] = tt
    candidates-All lat long radius ds (l ∷ ls) =
        elim (Bool-cases (is_available l.user_id ds && st_d_within l.lat l.long lat long radius)) [
          | inl near ↦ rw near (all lat long l, candidates-All lat long radius ds ls)
          | inr far ↦ rw far (candidates-All lat long radius ds ls)
        ]

    put_candidate-All :
        (c : Candidate Float) (cs : List (Candidate Float))
        → P c.row
        → Holds cs
        → Holds (put_candidate c cs)
    unfolding Holds put_candidate
    put_candidate-All c [] p h = (p, tt)
    put_candidate-All c (x ∷ xs) p h = elim (Bool-cases (ltb c.row.driver_id x.row.driver_id)) [
      | inl smaller ↦ rw smaller (p, h)
      | inr bigger ↦ elim (Bool-cases (c.row.driver_id == x.row.driver_id)) [
        | inl one ↦ elim (Bool-cases (is_before c x)) [
          | inl before ↦ rw (bigger, one, before) (p, h.1)
          | inr after ↦ rw (bigger, one, after) h
        ]
        | inr two ↦ rw (bigger, two) (h.0, put_candidate-All c xs p h.1)
      ]
    ]

    distinct_on-All : (cs : List (Candidate Float)) → Holds cs → Holds (distinct_on cs)
    unfolding Holds distinct_on
    distinct_on-All [] h = tt
    distinct_on-All (c ∷ cs) h = put_candidate-All c _ h.0 (distinct_on-All cs h.1)

    rows-All : (cs : List (Candidate Float)) → Holds cs → All P (map (λ c. c.row) cs)
    unfolding Holds
    rows-All [] h = tt
    rows-All (c ∷ cs) h = (h.0, rows-All cs h.1)

    -- What holds of the row of every location holds of every row of the answer.
    pub find_nearby_drivers-All :
        (lat long radius : Float) (t : Tables Float) → All P (find_nearby_drivers lat long radius t)
    unfolding find_nearby_drivers
    find_nearby_drivers-All lat long radius t =
        rows-All _ (distinct_on-All _ (candidates-All lat long radius t.drivers t.locations))
