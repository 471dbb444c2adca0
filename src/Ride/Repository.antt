-- ===== src/Ride/Repository.antt =====
-- internal/ride/repository.go: the statements on the table `rides`. The id is its primary key.
pub mod Queries
use ridesharing.Prelude.{
  ℕ, ◌+◌, String, Bool, true, false, ◌&&◌, ◌||◌, Option, none, some, List, [], ◌∷◌, ◌++◌, length,
  take, drop, select, ltb, ◌==◌, if◌then◌else◌,
}
use mathlib.Core.Option
use ridesharing.Prelude.Table.{find, update}
use ridesharing.Errors.{plain, wrapped, Result, ok, err}
use ridesharing.Models.{
  Uuid, Time, Ride, RideStatus, requested, matched, enroute, completed, cancelled,
}
use ridesharing.Database.{Env, Tables, World, Action, map_err, exec, query}
use ridesharing.Ride.Fsm.{same_status}

-- `driver_id = $1` on a nullable column.
abbrev pub same_id : Option Uuid → Uuid → Bool
same_id none user = false
same_id (some d) user = d == user

-- status IN ('requested', 'matched', 'enroute')
abbrev pub is_active : RideStatus → Bool
is_active s = same_status s requested || same_status s matched || same_status s enroute

module _ {Float : Type 0} where
  abbrev pub ride_key : Ride Float → Uuid
  ride_key r = r.id

  -- ORDER BY created_at DESC: insertion sort.
  unfoldable pub insert_newest : Ride Float → List (Ride Float) → List (Ride Float)
  insert_newest r [] = r ∷ []
  insert_newest r (x ∷ xs) =
      if ltb r.created_at x.created_at then x ∷ insert_newest r xs else r ∷ x ∷ xs

  unfoldable pub newest_first : List (Ride Float) → List (Ride Float)
  unfolding insert_newest
  newest_first [] = []
  newest_first (r ∷ rs) = insert_newest r (newest_first rs)

  abbrev pub first : List (Ride Float) → Option (Ride Float)
  first [] = none
  first (r ∷ rs) = some r

  -- The row of `GetActiveByRider`: WHERE … ORDER BY created_at DESC LIMIT 1.
  unfoldable pub active_row : Uuid → List (Ride Float) → Option (Ride Float)
  unfolding newest_first
  active_row rider rides =
      first (take 1 (newest_first (select (λ r. r.rider_id == rider && is_active r.status) rides)))

  abbrev pub is_of_user : Uuid → Ride Float → Bool
  is_of_user user r = r.rider_id == user || same_id r.driver_id user

  -- The rows of `GetHistory`: WHERE … ORDER BY created_at DESC LIMIT $2 OFFSET $3.
  unfoldable pub history_rows : Uuid → ℕ → ℕ → List (Ride Float) → List (Ride Float)
  unfolding newest_first
  history_rows user limit offset rides =
      take limit (drop offset (newest_first (select (is_of_user user) rides)))

  -- What the UPDATE statements set.
  abbrev pub with_status : RideStatus → Option Uuid → Time → Ride Float → Ride Float
  with_status s none now r = record r { status = s; updated_at = now }
  with_status s (some d) now r = record r { status = s; driver_id = some d; updated_at = now }

  abbrev pub started : Time → Ride Float → Ride Float
  started now r = record r { status = enroute; started_at = some now; updated_at = now }

  abbrev pub ended : Float → Time → Ride Float → Ride Float
  ended fare now r = record r {
    status = completed;
    fare = fare;
    ended_at = some now;
    updated_at = now;
  }

  -- The row that `Create` inserts: `driver_id`, `started_at` and `ended_at` take no part, and the column
  -- `distance_km` keeps two decimals. So do those of the fare and the surge, which are computed with
  -- no more.
  abbrev pub inserted : (Float → Float) → Uuid → Time → Ride Float → Ride Float
  inserted hundredths id now r = record r {
    id = id;
    driver_id = none;
    distance_km = Option.map hundredths r.distance_km;
    started_at = none;
    ended_at = none;
    created_at = now;
    updated_at = now;
  }

  abbrev pub update_rides : (List (Ride Float) → List (Ride Float)) → Tables Float → Tables Float
  update_rides f t = record t { rides = f t.rides }

  module _ (env : Env) where
    -- `Create`: the ride comes back with the generated columns filled in.
    unfoldable pub create : (Float → Float) → Ride Float → Action Float (Ride Float)
    unfolding exec
    create hundredths r = map_err (wrapped "create ride") (
        exec env (λ n t.
          let id = env.fresh n in
          let now = env.now n in
          elim (find ride_key id t.rides) [
            | some _ ↦ err (plain "duplicate key value violates unique constraint")
            | none ↦ ok (
              record r { id = id; created_at = now; updated_at = now },
              update_rides (λ rows. rows ++ (inserted hundredths id now r ∷ [])) t,
            )
          ]))

    -- `GetByID`; no row is `none`.
    unfoldable pub get_by_id : Uuid → Action Float (Option (Ride Float))
    unfolding query
    get_by_id id = map_err (wrapped "get ride") (query env (λ n t. find ride_key id t.rides))

    -- `GetByIDForUpdate`.
    unfoldable pub get_by_id_for_update : Uuid → Action Float (Option (Ride Float))
    unfolding query
    get_by_id_for_update id =
        map_err (wrapped "get ride for update") (query env (λ n t. find ride_key id t.rides))

    -- `UpdateStatus`.
    unfoldable pub update_status : Uuid → RideStatus → Option Uuid → Action Float (Unit {0})
    unfolding exec
    update_status id status driver = map_err (wrapped "update ride status") (
        exec env (λ n t.
          ok (tt, update_rides (update ride_key id (with_status status driver (env.now n))) t)))

    -- `SetStarted`.
    unfoldable pub set_started : Uuid → Action Float (Unit {0})
    unfolding exec
    set_started id =
        exec env (λ n t. ok (tt, update_rides (update ride_key id (started (env.now n))) t))

    -- `SetCompleted`.
    unfoldable pub set_completed : Uuid → Float → Action Float (Unit {0})
    unfolding exec
    set_completed id fare =
        exec env (λ n t. ok (tt, update_rides (update ride_key id (ended fare (env.now n))) t))

    -- `CountActiveInArea`: created_at > now - since.
    unfoldable pub count_active_in_area : ℕ → Action Float ℕ
    unfolding query
    count_active_in_area since = map_err (wrapped "count active rides") (
        query env (λ n t. length (
          select (λ r. same_status r.status requested && ltb (env.now n) (r.created_at + since))
            t.rides)))

    -- `GetActiveByRider`.
    unfoldable pub get_active_by_rider : Uuid → Action Float (Option (Ride Float))
    unfolding query active_row
    get_active_by_rider rider =
        map_err (wrapped "get active ride") (query env (λ n t. active_row rider t.rides))

    -- `GetHistory`.
    unfoldable pub get_history : Uuid → ℕ → ℕ → Action Float (List (Ride Float))
    unfolding query history_rows
    get_history user limit offset =
        map_err (wrapped "get ride history")
          (query env (λ n t. history_rows user limit offset t.rides))

    -- `CountByUser`.
    unfoldable pub count_by_user : Uuid → Action Float ℕ
    unfolding query
    count_by_user user =
        map_err (wrapped "count rides")
          (query env (λ n t. length (select (is_of_user user) t.rides)))
