-- ===== src/Ride/Invariant.antt =====
-- What holds of the table `rides` between two calls of the ride service.
pub mod Updates
use ridesharing.Prelude.{◌≡◌, Bool, true, false, Option, none, some, List, [], ◌∷◌, All}
use ridesharing.Prelude.Table.{Unique}
use ridesharing.Models.{
  Uuid, Ride, RideStatus, requested, matched, enroute, completed, cancelled, other,
}
use ridesharing.Database.{Tables}
use ridesharing.Ride.Repository.{ride_key, is_active}

abbrev pub is_set : {A : Type 0} → Option A → Bool
is_set none = false
is_set (some a) = true

-- Which of driver, start and end a status comes with. A status is one of the five constants.
abbrev pub Fields : RideStatus → Bool → Bool → Bool → Type 0
Fields requested driver start end = (driver ≡ false) × (start ≡ false) × (end ≡ false)
Fields matched driver start end = (driver ≡ true) × (start ≡ false) × (end ≡ false)
Fields enroute driver start end = (driver ≡ true) × (start ≡ true) × (end ≡ false)
Fields completed driver start end = (driver ≡ true) × (start ≡ true) × (end ≡ true)
Fields cancelled driver start end = end ≡ false
Fields (other s) driver start end = ⊥

module _ {Float : Type 0} where
  abbrev pub IsFormed : Ride Float → Type 0
  IsFormed r = Fields r.status (is_set r.driver_id) (is_set r.started_at) (is_set r.ended_at)

  -- No ride of the rider is active.
  abbrev pub NoneActive : Uuid → List (Ride Float) → Type 0
  NoneActive rider = All (λ r. r.rider_id ≡ rider → is_active r.status ≡ false)

  -- No rider has two active rides.
  abbrev pub OneActive : List (Ride Float) → Type 0
  OneActive [] = Unit
  OneActive (r ∷ rs) = (is_active r.status ≡ true → NoneActive r.rider_id rs) × OneActive rs

  pub record IsValid (t : Tables Float) : Type 0 where
    pub unique : Unique ride_key t.rides
    pub formed : All IsFormed t.rides
    pub single : OneActive t.rides
