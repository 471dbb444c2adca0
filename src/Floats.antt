-- ===== src/Floats.antt =====
-- float64, as the code uses it. Go rounds every operation (IEEE 754, to nearest even), so the
-- operations are a parameter, and `IsIeee` is what the theorems use of them.
pub mod Fixed
use ridesharing.Prelude.{ℕ, suc, ◌+◌, ◌-◌, ◌*◌, ◌≤◌, ◌≡◌, Bool, true, false}

pub record Float64 : Type 1 where
  pub Float : Type 0
  -- float64(n), of an int that is not negative
  pub of_int : ℕ → Float
  -- int(x), of a value that is not negative
  pub trunc : Float → ℕ
  -- the constant p / q, rounded
  pub ratio : ℕ → ℕ → Float
  pub add : Float → Float → Float
  pub sub : Float → Float → Float
  pub mul : Float → Float → Float
  pub div : Float → Float → Float
  -- `<=` and `<`, both false at NaN
  pub le : Float → Float → Bool
  pub lt : Float → Float → Bool
  -- math.Round, math.Sin, math.Cos, math.Sqrt, math.Atan2, math.Pi
  pub round : Float → Float
  pub sin : Float → Float
  pub cos : Float → Float
  pub sqrt : Float → Float
  pub atan2 : Float → Float → Float
  pub pi : Float
  -- what a NUMERIC column with two decimals gives back for the value stored in it
  pub hundredths : Float → Float

-- Integers up to this are float64 values themselves.
abbrev pub exact_limit : ℕ
exact_limit = 9_007_199_254_740_992

-- The largest int.
abbrev pub max_int : ℕ
max_int = 9_223_372_036_854_775_807

module _ (F : Float64) where
  open F use {Float, of_int, trunc, add, sub, mul, div, le, lt}

  -- Order, rounding that keeps the order, and exact results on small integers. `le x x` says that `x`
  -- is not NaN.
  pub record IsIeee : Type 0 where
    pub le_trans : (x y z : Float) → le x y ≡ true → le y z ≡ true → le x z ≡ true
    pub le_left : (x y : Float) → le x y ≡ true → le x x ≡ true
    pub le_right : (x y : Float) → le x y ≡ true → le y y ≡ true
    pub le_of_not_le :
        (x y : Float) → le x x ≡ true → le y y ≡ true → le x y ≡ false → le y x ≡ true
    pub le_of_not_lt :
        (x y : Float) → le x x ≡ true → le y y ≡ true → lt y x ≡ false → le x y ≡ true
    pub le_of_lt : (x y : Float) → lt x y ≡ true → le x y ≡ true
    pub of_int_mono : (m n : ℕ) → m ≤ n → le (of_int m) (of_int n) ≡ true
    pub add_mono :
        (n : ℕ) (x y : Float)
        → n ≤ max_int
        → le x y ≡ true
        → le (add (of_int n) x) (add (of_int n) y) ≡ true
    pub sub_mono :
        (n : ℕ) (x y : Float)
        → n ≤ max_int
        → le x y ≡ true
        → le (sub x (of_int n)) (sub y (of_int n)) ≡ true
    pub mul_mono :
        (n : ℕ) (x y : Float)
        → suc n ≤ max_int
        → le x y ≡ true
        → le (mul x (of_int (suc n))) (mul y (of_int (suc n))) ≡ true
    pub div_mono :
        (n : ℕ) (x y : Float)
        → suc n ≤ max_int
        → le x y ≡ true
        → le (div x (of_int (suc n))) (div y (of_int (suc n))) ≡ true
    pub div_anti :
        (k m n : ℕ)
        → k ≤ max_int
        → suc m ≤ suc n
        → suc n ≤ max_int
        → le (div (of_int k) (of_int (suc n))) (div (of_int k) (of_int (suc m))) ≡ true
    pub trunc_mono :
        (x y : Float)
        → le (of_int 0) x ≡ true
        → le x y ≡ true
        → le y (of_int exact_limit) ≡ true
        → trunc x ≤ trunc y
    pub trunc-of_int : (n : ℕ) → n ≤ exact_limit → trunc (of_int n) ≡ n
    pub add-of_int : (m n : ℕ) → m + n ≤ exact_limit → add (of_int m) (of_int n) ≡ of_int (m + n)
    pub sub-of_int :
        (m n : ℕ) → n ≤ m → m ≤ exact_limit → sub (of_int m) (of_int n) ≡ of_int (m - n)
    pub mul-of_int : (m n : ℕ) → m * n ≤ exact_limit → mul (of_int m) (of_int n) ≡ of_int (m * n)
    pub div-of_int :
        (m n : ℕ) → m * suc n ≤ exact_limit → div (of_int (m * suc n)) (of_int (suc n)) ≡ of_int m
