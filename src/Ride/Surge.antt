-- ===== src/Ride/Surge.antt =====
-- internal/ride/surge.go: the surge multiplier from the counts of open requests and of drivers.
-- Both counts come from COUNT(*) and `len`, so they are not negative.
pub mod Bounds
use ridesharing.Prelude.{ℕ, ◌<◌, Bool, ◌&&◌, ◌||◌, ltb, leb, ◌==◌, if◌then◌else◌}
use ridesharing.Floats.{Float64}

module _ (F : Float64) where
  open F use {Float, of_int, trunc, add, sub, mul, div, le, lt}

  pub record SurgeEngine : Type 0 where
    pub base_threshold : ℕ
    pub high_threshold : ℕ
    pub min_multiplier : Float
    pub max_multiplier : Float

  -- `NewSurgeEngine`.
  abbrev pub new_surge_engine : SurgeEngine
  new_surge_engine = record {
    base_threshold = 5;
    high_threshold = 20;
    min_multiplier = of_int 1;
    max_multiplier = of_int 3;
  }

  -- The interpolation, cut off at the maximum: what `Calculate` rounds at its end.
  unfoldable pub scale : SurgeEngine → Float → Float
  scale s ratio =
      let multiplier =
        add s.min_multiplier
          (div (mul (sub ratio (of_int 1)) (sub s.max_multiplier s.min_multiplier)) (of_int 2)) in
      if lt s.max_multiplier multiplier then s.max_multiplier else multiplier

  -- `float64(int(multiplier*10)) / 10`.
  unfoldable pub tenths : Float → Float
  tenths multiplier = div (of_int (trunc (mul multiplier (of_int 10)))) (of_int 10)

  -- `Calculate`.
  unfoldable pub calculate : SurgeEngine → ℕ → ℕ → Float
  calculate s active_requests available_drivers =
      if leb active_requests s.base_threshold || available_drivers == 0
      then if available_drivers == 0 && ltb 0 active_requests
        then s.max_multiplier
        else s.min_multiplier
      else let ratio = div (of_int active_requests) (of_int available_drivers) in
        if le ratio (of_int 1) then s.min_multiplier else tenths (scale s ratio)
