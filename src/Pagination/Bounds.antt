-- ===== src/Pagination/Bounds.antt =====
-- pkg/pagination/pagination.go: `Parse` on any query string.
use Prim.Native.Char.{code}
use Prim.Native.String.{[], ◌∷◌}
use mathlib.Core.Path.{subst}
use ridesharing.Prelude.{
  ℕ, zero, suc, ◌-◌, ◌*◌, ◌≤◌, ◌<◌, ◌≡◌, sym, String, Option, none, some, arith, ltb, ◌==◌,
  if◌then◌else◌, inl, inr, Bool-cases, Option-cases,
}
use ridesharing.Pagination.{
  ℤ, pos, negsuc, parse, atoi, parse_int_default, at_least_one, int_limit, to_int, max_limit,
  default_page, default_limit, digits_of, positive, negative,
}

-- An int that is not negative is below 2 ^ 63.
abbrev InRange : ℤ → Type 0
InRange (pos n) = n < int_limit
InRange (negsuc n) = n < int_limit

positive-InRange : (o : Option ℕ) (v : ℤ) → positive o ≡ some v → InRange v
positive-InRange none v h = cc
positive-InRange (some n) (pos m) h = ground arith
positive-InRange (some n) (negsuc m) h = ground arith

negative-InRange : (o : Option ℕ) (v : ℤ) → negative o ≡ some v → InRange v
negative-InRange none v h = cc
negative-InRange (some zero) (pos m) h = ground arith
negative-InRange (some zero) (negsuc m) h = ground arith
negative-InRange (some (suc n)) (pos m) h = ground arith
negative-InRange (some (suc n)) (negsuc m) h = ground arith

atoi-InRange : (s : String) (v : ℤ) → atoi s ≡ some v → InRange v
atoi-InRange [] v h = cc
atoi-InRange (c ∷ s) v h = elim (Bool-cases (code c == 45)) [
  | inl minus ↦ negative-InRange (digits_of s) v (rw minus at h)
  | inr other ↦ elim (Bool-cases (code c == 43)) [
    | inl plus ↦ positive-InRange (digits_of s) v (rw (other, plus) at h)
    | inr digit ↦ positive-InRange (digits_of (c ∷ s)) v (rw (other, digit) at h)
  ]
]

parse_int_default-InRange :
    (s : String) (default : ℕ) → default < int_limit → InRange (parse_int_default s (pos default))
unfolding parse_int_default
parse_int_default-InRange s default h = elim (Option-cases (atoi s)) [
  | inl bad ↦ subst (λ o. InRange (chosen o)) (sym bad) h
  | inr (v, good) ↦ subst (λ o. InRange (chosen o)) (sym good) (atoi-InRange s v good)
]
  where
    chosen : Option ℤ → ℤ
    chosen none = pos default
    chosen (some v) = v

at_least_one_bounds :
    (default : ℕ) (v : ℤ)
    → 1 ≤ default
    → default < int_limit
    → InRange v
    → (1 ≤ at_least_one default v) × (at_least_one default v < int_limit)
at_least_one_bounds default (pos zero) h b r = (h, b)
at_least_one_bounds default (pos (suc n)) h b r = (omega arith, r)
at_least_one_bounds default (negsuc n) h b r = (h, b)

mul_monotone : (x y n : ℕ) → x ≤ y → n * x ≤ n * y
mul_monotone x y n h = grind arith

to_int-small : (n : ℕ) → n < int_limit → to_int n ≡ pos n
to_int-small n h = ground arith

clamped :
    (page asked : ℕ)
    → 1 ≤ page
    → page < int_limit
    → 1 ≤ asked
    → let limit = if ltb max_limit asked then max_limit else asked in
      (1 ≤ page)
      × (page < int_limit)
      × (1 ≤ limit)
      × (limit ≤ max_limit)
      × (page ≤ 72_057_594_037_927_936 → to_int ((page - 1) * limit) ≡ pos ((page - 1) * limit))
clamped page asked hp hi ha =
    let limit = if ltb max_limit asked then max_limit else asked in
    let below : limit ≤ max_limit = ground arith in
    (
      hp,
      hi,
      ground arith,
      below,
      λ few.
          to_int-small ((page - 1) * limit)
            (omega (arith, mul_monotone limit 100 (page - 1) below)),
    )

-- Whatever the query string holds, `Parse` gives a page from 1 up that is an int, and a limit from 1
-- to 100; and where the page is at most 2 ^ 56, the offset is the number of rows before that page.
pub parse_bounds :
    (page_text limit_text : String)
    → let p = parse page_text limit_text in
      (1 ≤ p.page)
      × (p.page < int_limit)
      × (1 ≤ p.limit)
      × (p.limit ≤ max_limit)
      × (p.page ≤ 72_057_594_037_927_936 → p.offset ≡ pos ((p.page - 1) * p.limit))
unfolding parse
parse_bounds page_text limit_text =
    let p =
      at_least_one_bounds default_page _ (omega arith) (omega arith)
        (parse_int_default-InRange page_text default_page (omega arith)) in
    let l =
      at_least_one_bounds default_limit _ (omega arith) (omega arith)
        (parse_int_default-InRange limit_text default_limit (omega arith)) in
    clamped _ _ p.0 p.1 l.0
