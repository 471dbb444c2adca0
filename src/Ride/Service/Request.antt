-- ===== src/Ride/Service/Request.antt =====
-- internal/ride/service.go: what RequestRide does to the table `rides`.
pub mod Steps
pub mod Outcome
use ridesharing.Prelude.{
  ◌≡◌, ◌⊎◌, refl, Bool, true, false, Option, none, some, List, [], ◌∷◌, ◌++◌, arith,
}
use ridesharing.Prelude.Table.{find}
use ridesharing.Errors.{Result, ok, err}
use ridesharing.Models.{Uuid, Ride, NearbyDriver, requested, matched}
use ridesharing.Database.{Tables}
use ridesharing.Ride.Repository.{ride_key}
use ridesharing.Ride.Invariant.{IsValid}

module _ {Float : Type 0} where
  -- Every ride of the first table is in the second, as it was.
  abbrev pub Keeps : Tables Float → Tables Float → Type 0
  Keeps before t =
      (id : Uuid) (row : Ride Float)
      → find ride_key id before.rides ≡ some row
      → find ride_key id t.rides ≡ some row

  -- A requested ride without a driver, or a ride matched with that driver.
  abbrev pub MatchedWith : Option (NearbyDriver Float) → Ride Float → Type 0
  MatchedWith none r = (r.status ≡ requested) × (r.driver_id ≡ none)
  MatchedWith (some d) r = (r.status ≡ matched) × (r.driver_id ≡ some d.driver_id)

  -- The tables hold the ride r of that rider under a new id, and all that was there before.
  pub record Placed (before : Tables Float) (rider : Uuid) (r : Ride Float)
      (driver : Option (NearbyDriver Float)) (t : Tables Float) : Type 0 where
    pub valid : IsValid t
    pub kept : Keeps before t
    pub new : find ride_key r.id before.rides ≡ none
    pub requester : r.rider_id ≡ rider
    pub row : Ride Float
    pub stored : find ride_key r.id t.rides ≡ some row
    pub same_ride :
        (row.status ≡ r.status)
        × (row.driver_id ≡ r.driver_id)
        × (row.rider_id ≡ r.rider_id)
        × (row.fare ≡ r.fare)
        × (row.started_at ≡ none)
        × (row.ended_at ≡ none)
    pub outcome : MatchedWith driver r

  -- What a RequestRide that fails leaves: the tables as they were, or with one requested ride more.
  abbrev pub Failed : Tables Float → Uuid → Tables Float → Type 0
  Failed before rider t = (t ≡ before) ⊎ ((r : Ride Float) × Placed before rider r none t)
