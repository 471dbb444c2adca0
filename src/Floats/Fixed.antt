-- ===== src/Floats/Fixed.antt =====
-- An instance of the float64 laws: hundredths of a unit, with results rounded down.
use ridesharing.Prelude.{ℕ, suc, ◌+◌, ◌-◌, ◌*◌, ◌/◌, ◌≤◌, ◌≡◌, ap, ◌∙◌, true, arith, ltb, leb}
use mathlib.Core.Path.{subst}
use native.Mathlib.Nat as Nat
use ridesharing.Floats.{Float64, IsIeee}

abbrev pub fixed : Float64
fixed = record {
  Float = ℕ;
  of_int = λ n. n * 100;
  trunc = λ x. x / 100;
  ratio = λ p q. p * 100 / q;
  add = λ x y. x + y;
  sub = λ x y. x - y;
  mul = λ x y. x * y / 100;
  div = λ x y. x * 100 / y;
  le = leb;
  lt = ltb;
  round = λ x. (x + 50) / 100 * 100;
  sin = λ x. x;
  cos = λ x. 100;
  sqrt = λ x. x;
  atan2 = λ y x. y;
  pi = 314;
  hundredths = λ x. x;
}

leb→le : (a b : ℕ) → leb a b ≡ true → a ≤ b
leb→le a b h = ground arith

le→leb : (a b : ℕ) → a ≤ b → leb a b ≡ true
le→leb a b h = ground arith

scale_product : (x n : ℕ) → x * (suc n * 100) / 100 ≡ x * suc n
scale_product x n = omega arith

div_monotone : (a b c : ℕ) → a ≤ b → a / c ≤ b / c
div_monotone a b c h = grind arith

div_antitone : (a b c : ℕ) → suc b ≤ suc c → a / suc c ≤ a / suc b
div_antitone a b c h = grind arith

mul_monotone : (x y n : ℕ) → x ≤ y → x * n ≤ y * n
mul_monotone x y n h = grind arith

scale_int : (x n : ℕ) → x * (n * 100) / 100 ≡ x * n
scale_int x n = omega arith

regroup : (m n : ℕ) → m * suc n * 100 * 100 ≡ m * 100 * (suc n * 100)
regroup m n = grind arith

ratio_whole : (m n : ℕ) → m * suc n * 100 * 100 / (suc n * 100) ≡ m * 100
ratio_whole m n =
    ap (λ a. a / (suc n * 100)) (regroup m n) ∙ Nat.mul-div_cancel (m * 100) (omega arith)

hundreds : (n : ℕ) → suc (99 + n * 100) ≡ suc n * 100
hundreds n = omega arith

div_hundreds : (a m n : ℕ) → suc m ≤ suc n → a / (suc n * 100) ≤ a / (suc m * 100)
div_hundreds a m n h =
    subst (λ c. a / c ≤ a / (suc m * 100)) (hundreds n)
      (subst (λ c. a / suc (99 + n * 100) ≤ a / c) (hundreds m)
        (div_antitone a (99 + m * 100) (99 + n * 100) (omega arith)))

swap_hundred : (m n : ℕ) → m * 100 * n ≡ m * n * 100
swap_hundred m n = grind arith

mul_hundreds : (x y n : ℕ) → x ≤ y → x * (suc n * 100) / 100 ≤ y * (suc n * 100) / 100
mul_hundreds x y n h = div_monotone _ _ 100 (mul_monotone x y (suc n * 100) h)

pub fixed-IsIeee : IsIeee fixed
fixed-IsIeee = record {
  le_trans = λ x y z p q. grind arith;
  le_left = λ x y p. grind arith;
  le_right = λ x y p. grind arith;
  le_of_not_le = λ x y p q r. grind arith;
  le_of_not_lt = λ x y p q r. grind arith;
  le_of_lt = λ x y p. grind arith;
  of_int_mono = λ m n p. le→leb (m * 100) (n * 100) (omega arith);
  add_mono = λ n x y b p. grind arith;
  sub_mono = λ n x y b p. grind arith;
  mul_mono = λ n x y b p. le→leb _ _ (mul_hundreds x y n (leb→le x y p));
  div_mono = λ n x y b p.
      le→leb _ _
        (div_monotone (x * 100) (y * 100) (suc n * 100) (mul_monotone x y 100 (leb→le x y p)));
  div_anti = λ k m n b p q. le→leb _ _ (div_hundreds (k * 100 * 100) m n p);
  trunc_mono = λ x y p q r. div_monotone x y 100 (leb→le x y q);
  trunc-of_int = λ n p. omega arith;
  add-of_int = λ m n p. grind arith;
  sub-of_int = λ m n p q. omega arith;
  mul-of_int = λ m n p. scale_int (m * 100) n ∙ swap_hundred m n;
  div-of_int = λ m n p. ratio_whole m n;
}
