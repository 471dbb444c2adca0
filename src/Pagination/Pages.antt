-- ===== src/Pagination/Pages.antt =====
-- pkg/pagination/pagination.go: the number of pages, and the pages of a list, for `NewResponse`.
use native.Mathlib.Nat as Nat
use ridesharing.Prelude.{
  ℕ, zero, suc, ◌+◌, ◌-◌, ◌*◌, ◌/◌, ◌%◌, ◌≤◌, ◌<◌, ◌≡◌, ◌↔◌, refl, sym, ap, ◌∙◌, true, List, [],
  ◌∷◌, ◌++◌, arith, ltb, if◌then◌else◌, length, take, drop, inl, inr, Bool-cases,
}
use ridesharing.Pagination.{Params, params_of, new_response, int_limit, to_int, pos, negsuc}

scale_mono : (x y n : ℕ) → x ≤ y → x * n ≤ y * n
scale_mono x y n h = grind arith

scale_suc : (q n : ℕ) → suc q * n ≡ q * n + n
scale_suc q n = grind arith

quotient :
    (page limit total q r : ℕ)
    → 1 ≤ limit
    → q * limit + r ≡ total
    → r < limit
    → let n = if ltb 0 r then suc q else q in
      (total ≤ n * limit)
      × (n * limit < total + limit)
      × ((ltb page n ≡ true) ↔ (page * limit < total))
quotient page limit total q r h split small = elim (Bool-cases (ltb 0 r)) [
  | inl more ↦
      ground (arith, scale_suc q limit, scale_mono page q limit, scale_mono (suc q) page limit)
  | inr even ↦
      ground (arith, scale_suc page limit, scale_mono (suc page) q limit, scale_mono q page limit)
]

-- For a limit of at least 1, `total_pages` pages hold `total_count` rows and one page less does not,
-- and `has_more` holds exactly when rows are left after the page.
pub new_response_pages :
    (p : Params) (total : ℕ)
    → 1 ≤ p.limit
    → let r = new_response p total in
      (total ≤ r.total_pages * p.limit)
      × (r.total_pages * p.limit < total + p.limit)
      × ((r.has_more ≡ true) ↔ (p.page * p.limit < total))
unfolding new_response
new_response_pages p total h =
    quotient p.page p.limit total (total / p.limit) (total % p.limit) h
      (Nat.div-add-mod' total p.limit) (Nat.mod-lt total h)

suc_add : (m n : ℕ) → suc (m + n) ≡ suc m + n
suc_add m n = omega arith

module _ {A : Type 0} where
  drop-nil : (n : ℕ) → drop {A = A} n [] ≡ []
  drop-nil zero = refl
  drop-nil (suc n) = refl

  take-drop : (n : ℕ) (xs : List A) → take n xs ++ drop n xs ≡ xs
  take-drop zero xs = refl
  take-drop (suc n) [] = refl
  take-drop (suc n) (x ∷ xs) = ap (λ ys. x ∷ ys) (take-drop n xs)

  drop-add : (m n : ℕ) (xs : List A) → drop (m + n) xs ≡ drop n (drop m xs)
  drop-add zero n xs = ap (λ k. drop k xs) (omega arith)
  drop-add (suc m) n [] = drop-nil (suc m + n) ∙ sym (drop-nil n)
  drop-add (suc m) n (x ∷ xs) = ap (λ k. drop k (x ∷ xs)) (sym (suc_add m n)) ∙ drop-add m n xs

  length-drop : (n : ℕ) (xs : List A) → length (drop n xs) ≡ length xs - n
  length-drop zero xs = omega arith
  length-drop (suc n) [] = omega arith
  length-drop (suc n) (x ∷ xs) = omega (arith, length-drop n xs)

  no_rows : (xs : List A) → length xs ≡ 0 → xs ≡ []
  no_rows [] h = refl
  no_rows (x ∷ xs) h = absurd (omega (arith, h))

to_int_small : (n : ℕ) → n < int_limit → to_int n ≡ pos n
to_int_small n h = ground arith

before : (page n limit total : ℕ) → page < n → n * limit < total + limit → page * limit < total
before page n limit total h few =
    omega (arith, scale_mono (suc page) n limit (omega arith), scale_suc page limit)

zero_times : (n : ℕ) → 0 * n ≡ 0
zero_times n = omega arith

pred_suc : (k : ℕ) → suc k - 1 ≡ k
pred_suc k = omega arith

module _ {A : Type 0} where
  -- LIMIT and OFFSET of a statement with these parameters; the server refuses a negative offset.
  abbrev pub rows_of : Params → List A → List A
  rows_of p xs = elim p.offset [ pos n ↦ take p.limit (drop n xs) | negsuc n ↦ [] ]

  -- The pages of that limit from a page on, one after another.
  abbrev pub pages : ℕ → ℕ → ℕ → List A → List A
  pages limit zero page xs = []
  pages limit (suc n) page xs = rows_of (params_of page limit) xs ++ pages limit n (suc page) xs

  rows-params_of :
      (k limit : ℕ) (xs : List A)
      → k * limit < int_limit
      → rows_of (params_of (suc k) limit) xs ≡ take limit (drop (k * limit) xs)
  rows-params_of k limit xs h =
      ap (λ o. elim o [ pos n ↦ take limit (drop n xs) | negsuc n ↦ [] ])
        (ap (λ m. to_int (m * limit)) (pred_suc k) ∙ to_int_small (k * limit) h)

  pages-drop :
      (limit n k : ℕ) (xs : List A)
      → length (drop (k * limit) xs) ≤ n * limit
      → (k + n) * limit < int_limit
      → pages limit n (suc k) xs ≡ drop (k * limit) xs
  pages-drop limit zero k xs h small = sym (no_rows _ (omega arith))
  pages-drop limit (suc n) k xs h small =
      let next : drop (suc k * limit) xs ≡ drop limit (drop (k * limit) xs) =
        ap (λ m. drop m xs) (scale_suc k limit) ∙ drop-add (k * limit) limit xs in
      let fits : length (drop (suc k * limit) xs) ≤ n * limit =
        rw (next, length-drop limit (drop (k * limit) xs)) (omega (arith, h, scale_suc n limit)) in
      let first : k * limit < int_limit =
        omega (arith, small, scale_mono k (k + suc n) limit (omega arith)) in
      let later : (suc k + n) * limit < int_limit =
        omega (arith, small, scale_mono (suc k + n) (k + suc n) limit (omega arith)) in
      ap (λ ys. ys ++ pages limit n (suc (suc k)) xs) (rows-params_of k limit xs first)
      ∙ ap (λ ys. take limit (drop (k * limit) xs) ++ ys)
          (pages-drop limit n (suc k) xs fits later ∙ next)
      ∙ take-drop limit (drop (k * limit) xs)

  at_start : (limit : ℕ) (xs : List A) → drop (0 * limit) xs ≡ xs
  at_start limit xs = ap (λ m. drop m xs) (zero_times limit)

  take_full : (n : ℕ) (ys : List A) → 1 ≤ n → 0 < length ys → 0 < length (take n ys)
  take_full zero ys h f = absurd (omega (arith, h))
  take_full (suc n) [] h f = absurd (omega (arith, f))
  take_full (suc n) (y ∷ ys) h f = omega arith

-- For a limit of at least 1 and a list whose length and the limit stay within an int: the pages that
-- `total_pages` announces, each read at the offset of its parameters, are together the whole list, so
-- that no row is missing, doubled or out of order; none of them is empty; and `has_more` holds exactly
-- when rows are left after the page.
pub pages_whole :
    {A : Type 0} (p : Params) (xs : List A)
    → 1 ≤ p.limit
    → length xs + p.limit < int_limit
    → let r = new_response p (length xs) in
      (pages p.limit r.total_pages 1 xs ≡ xs)
      × ((k : ℕ) → k < r.total_pages → 0 < length (rows_of (params_of (suc k) p.limit) xs))
      × ((r.has_more ≡ true) ↔ (p.page * p.limit < length xs))
pages_whole p xs h small =
    let r = new_response p (length xs) in
    let (enough, few, more) = new_response_pages p (length xs) h in
    (
      pages-drop p.limit r.total_pages 0 xs (rw (at_start p.limit xs) enough)
            (omega (arith, few, small))
          ∙ at_start p.limit xs,
      (λ k within.
          let left : k * p.limit < length xs =
            before k r.total_pages p.limit (length xs) within few in
          rw (rows-params_of k p.limit xs (omega (arith, left, small))) (
            take_full p.limit (drop (k * p.limit) xs) h
              (rw (length-drop (k * p.limit) xs) (omega (arith, left))))),
      more,
    )
