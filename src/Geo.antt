-- ===== src/Geo.antt =====
-- pkg/geo/geo.go: great-circle distance, travel time and fare.
use ridesharing.Prelude.{ℕ, ◌/◌, ◌%◌}
use ridesharing.Floats.{Float64}

module _ (F : Float64) where
  open F use {Float, of_int, trunc, ratio, add, sub, mul, div, round, sin, cos, sqrt, atan2, pi}

  unfoldable pub degrees_to_radians : Float → Float
  degrees_to_radians degrees = div (mul degrees pi) (of_int 180)

  unfoldable pub haversine : Float → Float → Float → Float → Float
  unfolding degrees_to_radians
  haversine lat1 lon1 lat2 lon2 =
      let lat1_rad = degrees_to_radians lat1 in
      let lat2_rad = degrees_to_radians lat2 in
      let delta_lat = degrees_to_radians (sub lat2 lat1) in
      let delta_lon = degrees_to_radians (sub lon2 lon1) in
      let sin_lat = sin (div delta_lat (of_int 2)) in
      let sin_lon = sin (div delta_lon (of_int 2)) in
      let a =
        add (mul sin_lat sin_lat) (mul (mul (mul (cos lat1_rad) (cos lat2_rad)) sin_lon) sin_lon) in
      let c = mul (of_int 2) (atan2 (sqrt a) (sqrt (sub (of_int 1) a))) in mul (of_int 6371) c

  -- A `time.Duration`, in nanoseconds.
  unfoldable pub estimate_eta : Float → ℕ
  estimate_eta distance_km =
      let hours = div (mul distance_km (ratio 13 10)) (of_int 35) in
      trunc (mul hours (of_int 3_600_000_000_000))

  -- `int(d.Seconds())`.
  unfoldable pub whole_seconds : ℕ → ℕ
  whole_seconds d =
      trunc
        (add (of_int (d / 1_000_000_000)) (div (of_int (d % 1_000_000_000)) (of_int 1_000_000_000)))

  unfoldable pub estimate_fare : Float → Float → Float
  estimate_fare distance_km surge_multiplier =
      let fare =
        add (add (ratio 5 2) (mul (mul distance_km (ratio 3 2)) surge_multiplier)) (of_int 1) in
      div (round (mul fare (of_int 100))) (of_int 100)
