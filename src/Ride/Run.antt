-- ===== src/Ride/Run.antt =====
-- Sequences of calls of the ride service. The handlers lock the row that they change, so calls take
-- effect one after another; what the environment answers differs from call to call.
pub mod Steps
pub mod History
use ridesharing.Prelude.{ℕ, List, [], ◌∷◌}
use ridesharing.Models.{Uuid}
use ridesharing.Floats.{Float64}
use ridesharing.Database.{Env, World}
use ridesharing.Ride.Matching.{Service}
use ridesharing.Ride.Service.{
  RideRequest, request_ride, accept_ride, complete_ride, cancel_ride, get_ride, get_ride_history,
}

module _ (F : Float64) where
  open F use {Float}

  -- The calls of the service, with their arguments.
  pub data Command : Type 0 where
    request : Uuid → RideRequest F → Command
    accept : Uuid → Uuid → Command
    complete : Uuid → Uuid → Command
    cancel : Uuid → Uuid → Command
    get : Uuid → Command
    history : Uuid → ℕ → ℕ → Command

  module _ (env : Env) (s : Service F) where
    unfoldable pub step : Command → World Float → World Float
    step (request rider req) w = (request_ride F env s rider req w).1
    step (accept id driver) w = (accept_ride F env s id driver w).1
    step (complete id driver) w = (complete_ride F env s id driver w).1
    step (cancel id user) w = (cancel_ride F env s id user w).1
    step (get id) w = (get_ride F env s id w).1
    step (history user limit offset) w = (get_ride_history F env s user limit offset w).1

    unfoldable pub run : List Command → World Float → World Float
    run [] w = w
    run (c ∷ cs) w = run cs (step c w)
