-- ===== src/Models.antt =====
-- internal/models/models.go. Identifiers (128-bit UUIDs) are only compared, and times are counts of
-- nanoseconds: both are natural numbers. `Float` is the type of the float64 fields.
use ridesharing.Prelude.{ℕ, String, Option, Bool}

abbrev pub Uuid : Type 0
Uuid = ℕ

abbrev pub Time : Type 0
Time = ℕ

pub record User : Type 0 where
  pub id : Uuid
  pub email : String
  pub password_hash : String
  pub name : String
  pub phone : String
  pub role : String
  pub created_at : Time
  pub updated_at : Time

-- `RideStatus` is a Go string; `other` is any string but the five constants.
pub data RideStatus : Type 0 where
  requested matched enroute completed cancelled : RideStatus
  other : String → RideStatus

module _ (Float : Type 0) where
  pub record Driver : Type 0 where
    pub user_id : Uuid
    pub vehicle_type : String
    pub license_plate : String
    pub is_available : Bool
    pub rating : Float
    pub created_at : Time
    pub updated_at : Time

  -- A user, and the driver row of a driver.
  pub record UserWithDriver : Type 0 where
    pub user : User
    pub driver : Option Driver

  pub record Ride : Type 0 where
    pub id : Uuid
    pub rider_id : Uuid
    pub driver_id : Option Uuid
    pub pickup_lat : Float
    pub pickup_long : Float
    pub dropoff_lat : Float
    pub dropoff_long : Float
    pub status : RideStatus
    pub fare : Float
    pub surge_multiplier : Float
    pub estimated_eta : Option ℕ
    pub distance_km : Option Float
    pub started_at : Option Time
    pub ended_at : Option Time
    pub created_at : Time
    pub updated_at : Time

  pub record Location : Type 0 where
    pub id : Uuid
    pub user_id : Uuid
    pub lat : Float
    pub long : Float
    pub timestamp : Time

  pub record NearbyDriver : Type 0 where
    pub driver_id : Uuid
    pub lat : Float
    pub long : Float
    pub distance_km : Float
    pub estimated_eta : ℕ

  pub record Payment : Type 0 where
    pub id : Uuid
    pub ride_id : Uuid
    pub amount : Float
    pub currency : String
    pub status : String
    pub stripe_txn_id : String
    pub created_at : Time
