-- ===== src/Ride/Surge/Bounds.antt =====
-- internal/ride/surge.go: the range of the multiplier, and how it depends on demand.
use ridesharing.Prelude.{
  ℕ, suc, zero, ◌≤◌, ◌≡◌, true, false, arith, inl, inr, Bool-cases, ltb, leb, if◌then◌else◌,
}
use mathlib.Core.Path.{subst}
use ridesharing.Floats.{Float64, IsIeee, max_int}
use ridesharing.Ride.Surge.{new_surge_engine, scale, tenths, calculate}

module _ (F : Float64) (ieee : IsIeee F) where
  open F use {Float, of_int, trunc, add, sub, mul, div, le, lt}
  open ieee use {
    le_trans, le_left, le_right, le_of_not_le, le_of_not_lt, le_of_lt, of_int_mono, add_mono,
    sub_mono, mul_mono, div_mono, div_anti, trunc_mono, trunc-of_int, add-of_int, sub-of_int,
    mul-of_int, div-of_int,
  }

  IsBetween : Float → Type 0
  IsBetween x = (le (of_int 1) x ≡ true) × (le x (of_int 3) ≡ true)

  -- The interpolation as a function of the quotient, before the cut.
  line : Float → Float
  line r = add (of_int 1) (div (mul (sub r (of_int 1)) (sub (of_int 3) (of_int 1))) (of_int 2))

  two : sub (of_int 3) (of_int 1) ≡ of_int 2
  two = sub-of_int 3 1 (omega arith) (omega arith)

  line_mono : (x y : Float) → le x y ≡ true → le (line x) (line y) ≡ true
  unfolding line
  line_mono x y h = add_mono 1 _ _ (omega arith) (
      div_mono 1 _ _ (omega arith)
        (rw (line, two) (mul_mono 1 _ _ (omega arith) (sub_mono 1 x y (omega arith) h))))

  line_one : line (of_int 1) ≡ of_int 1
  unfolding line
  line_one =
      rw
        (
          line,
          two,
          sub-of_int 1 1 (omega arith) (omega arith),
          mul-of_int 0 2 (omega arith),
          div-of_int 0 1 (omega arith),
        )
        (add-of_int 1 0 (omega arith))

  IsBetween-number : (x : Float) → IsBetween x → le x x ≡ true
  unfolding IsBetween
  IsBetween-number x b = le_right _ x b.0

  above_one : (r : Float) → le (of_int 1) r ≡ true → le (of_int 1) (line r) ≡ true
  above_one r h = subst (λ x. le x (line r) ≡ true) line_one (line_mono (of_int 1) r h)

  scale-IsBetween :
      (r : Float) → le (of_int 1) r ≡ true → IsBetween (scale F (new_surge_engine F) r)
  unfolding scale IsBetween line
  scale-IsBetween r h = elim (Bool-cases (lt (of_int 3) (line r))) [
    | inl cut ↦ rw cut (of_int_mono 1 3 (omega arith), of_int_mono 3 3 (omega arith))
    | inr kept ↦ rw kept (
      above_one r h,
      le_of_not_lt (line r) (of_int 3) (le_right _ _ (above_one r h))
          (of_int_mono 3 3 (omega arith)) kept,
    )
  ]

  scale_mono :
      (x y : Float)
      → le (of_int 1) x ≡ true
      → le x y ≡ true
      → le (scale F (new_surge_engine F) x) (scale F (new_surge_engine F) y) ≡ true
  unfolding scale line
  scale_mono x y h xy = elim (Bool-cases (lt (of_int 3) (line x))) [
    | inl cut ↦ elim (Bool-cases (lt (of_int 3) (line y))) [
      | inl cut' ↦ rw (cut, cut') (of_int_mono 3 3 (omega arith))
      | inr kept' ↦ rw (cut, kept') (le_trans _ _ _ (le_of_lt _ _ cut) (line_mono x y xy))
    ]
    | inr kept ↦ elim (Bool-cases (lt (of_int 3) (line y))) [
      | inl cut' ↦
          rw (kept, cut')
            (le_of_not_lt (line x) (of_int 3) (le_right _ _ (above_one x h))
              (of_int_mono 3 3 (omega arith)) kept)
      | inr kept' ↦ rw (kept, kept') (line_mono x y xy)
    ]
  ]

  ten_times :
      (x : Float)
      → IsBetween x
      → (le (of_int 10) (mul x (of_int 10)) ≡ true) × (le (mul x (of_int 10)) (of_int 30) ≡ true)
  unfolding IsBetween
  ten_times x h = (
    subst (λ y. le y (mul x (of_int 10)) ≡ true) (mul-of_int 1 10 (omega arith))
        (mul_mono 9 (of_int 1) x (omega arith) h.0),
    subst (λ y. le (mul x (of_int 10)) y ≡ true) (mul-of_int 3 10 (omega arith))
        (mul_mono 9 x (of_int 3) (omega arith) h.1),
  )

  tenths_mono :
      (x y : Float)
      → IsBetween x
      → IsBetween y
      → le x y ≡ true
      → le (tenths F x) (tenths F y) ≡ true
  unfolding tenths IsBetween
  tenths_mono x y hx hy xy = div_mono 9 _ _ (omega arith) (
      of_int_mono _ _ (
        trunc_mono _ _ (le_trans _ _ _ (of_int_mono 0 10 (omega arith)) (ten_times x hx).0)
          (mul_mono 9 x y (omega arith) xy)
          (le_trans _ _ _ (ten_times y hy).1 (of_int_mono 30 _ (omega arith)))))

  tenths_one : tenths F (of_int 1) ≡ of_int 1
  unfolding tenths
  tenths_one =
      rw (tenths, mul-of_int 1 10 (omega arith), trunc-of_int 10 (omega arith))
        (div-of_int 1 9 (omega arith))

  tenths_three : tenths F (of_int 3) ≡ of_int 3
  unfolding tenths
  tenths_three =
      rw (tenths, mul-of_int 3 10 (omega arith), trunc-of_int 30 (omega arith))
        (div-of_int 3 9 (omega arith))

  one : IsBetween (of_int 1)
  unfolding IsBetween
  one = (of_int_mono 1 1 (omega arith), of_int_mono 1 3 (omega arith))

  three : IsBetween (of_int 3)
  unfolding IsBetween
  three = (of_int_mono 1 3 (omega arith), of_int_mono 3 3 (omega arith))

  tenths-IsBetween : (x : Float) → IsBetween x → IsBetween (tenths F x)
  unfolding IsBetween
  tenths-IsBetween x h = (
    subst (λ y. le y (tenths F x) ≡ true) tenths_one (tenths_mono (of_int 1) x one h h.0),
    subst (λ y. le (tenths F x) y ≡ true) tenths_three (tenths_mono x (of_int 3) h three h.1),
  )

  -- The quotient of two counts is a number, so one of the two comparisons with 1.0 holds.
  quotient : ℕ → ℕ → Float
  quotient a d = div (of_int a) (of_int d)

  quotient_above :
      (a n : ℕ)
      → a ≤ max_int
      → suc n ≤ max_int
      → le (quotient a (suc n)) (of_int 1) ≡ false
      → le (of_int 1) (quotient a (suc n)) ≡ true
  unfolding quotient
  quotient_above a n ha hn e =
      le_of_not_le _ _ (div_anti a n n ha (omega arith) hn) (of_int_mono 1 1 (omega arith)) e

  -- Drivers are there and demand is over the threshold: what `Calculate` then returns.
  interpolate : Float → Float
  interpolate r = if le r (of_int 1) then of_int 1 else tenths F (scale F (new_surge_engine F) r)

  calculate_cases :
      (a n : ℕ)
      → calculate F (new_surge_engine F) a (suc n)
        ≡ (if leb a 5 then of_int 1 else interpolate (quotient a (suc n)))
  unfolding calculate interpolate quotient
  calculate_cases a n = ground arith

  calculate_no_drivers :
      (a : ℕ) → calculate F (new_surge_engine F) a 0 ≡ (if ltb 0 a then of_int 3 else of_int 1)
  unfolding calculate
  calculate_no_drivers a = ground arith

  interpolate-IsBetween :
      (r : Float) → (le r (of_int 1) ≡ false → le (of_int 1) r ≡ true) → IsBetween (interpolate r)
  unfolding interpolate
  interpolate-IsBetween r total = elim (Bool-cases (le r (of_int 1))) [
    | inl low ↦ rw low one
    | inr high ↦ rw high (tenths-IsBetween _ (scale-IsBetween r (total high)))
  ]

  interpolate_mono :
      (x y : Float)
      → (le x (of_int 1) ≡ false → le (of_int 1) x ≡ true)
      → (le y (of_int 1) ≡ false → le (of_int 1) y ≡ true)
      → le x y ≡ true
      → le (interpolate x) (interpolate y) ≡ true
  unfolding interpolate IsBetween
  interpolate_mono x y tx ty xy = elim (Bool-cases (le x (of_int 1))) [
    | inl low ↦ rw low (interpolate-IsBetween y ty).0
    | inr high ↦ elim (Bool-cases (le y (of_int 1))) [
      | inl low' ↦ cc (high, le_trans x y (of_int 1) xy low')
      | inr high' ↦
          rw (high, high')
            (tenths_mono _ _ (scale-IsBetween x (tx high)) (scale-IsBetween y (ty high'))
              (scale_mono x y (tx high) xy))
    ]
  ]

  lt_mono : (a b : ℕ) → a ≤ b → ltb 0 a ≡ true → ltb 0 b ≡ true
  lt_mono a b h e = ground arith

  over_mono : (a b : ℕ) → a ≤ b → leb a 5 ≡ false → leb b 5 ≡ false
  over_mono a b h e = ground arith

  -- With the settings of `NewSurgeEngine`, for all counts of requests and drivers that an int holds,
  -- the multiplier is at least 1.0 and at most 3.0.
  pub calculate_bounds :
      (active_requests available_drivers : ℕ)
      → active_requests ≤ max_int
      → available_drivers ≤ max_int
      → (le (of_int 1) (calculate F (new_surge_engine F) active_requests available_drivers) ≡ true)
        × (le (calculate F (new_surge_engine F) active_requests available_drivers) (of_int 3)
            ≡ true)
  unfolding IsBetween
  calculate_bounds a zero ha hd = elim (Bool-cases (ltb 0 a)) [
    | inl some_demand ↦ rw (calculate_no_drivers a, some_demand) three
    | inr no_demand ↦ rw (calculate_no_drivers a, no_demand) one
  ]
  calculate_bounds a (suc n) ha hd = elim (Bool-cases (leb a 5)) [
    | inl low ↦ rw (calculate_cases a n, low) one
    | inr high ↦ rw (calculate_cases a n, high) (interpolate-IsBetween _ (quotient_above a n ha hd))
  ]

  -- With the settings of `NewSurgeEngine` and the same number of drivers, more open requests never
  -- give a smaller multiplier.
  pub calculate_mono :
      (fewer more available_drivers : ℕ)
      → fewer ≤ more
      → more ≤ max_int
      → available_drivers ≤ max_int
      → le
          (calculate F (new_surge_engine F) fewer available_drivers)
          (calculate F (new_surge_engine F) more available_drivers)
        ≡ true
  unfolding IsBetween quotient
  calculate_mono a b zero h hb hd = elim (Bool-cases (ltb 0 a)) [
    | inl some_demand ↦
        rw (calculate_no_drivers a, calculate_no_drivers b, some_demand, lt_mono a b h some_demand)
          (of_int_mono 3 3 (omega arith))
    | inr no_demand ↦ rw (calculate_no_drivers a, no_demand) (calculate_bounds b 0 hb hd).0
  ]
  calculate_mono a b (suc n) h hb hd = elim (Bool-cases (leb a 5)) [
    | inl low ↦ rw (calculate_cases a n, low) (calculate_bounds b (suc n) hb hd).0
    | inr high ↦
        rw (calculate_cases a n, calculate_cases b n, high, over_mono a b h high)
          (interpolate_mono _ _ (quotient_above a n (omega arith) hd) (quotient_above b n hb hd)
            (div_mono n _ _ hd (of_int_mono a b h)))
  ]
