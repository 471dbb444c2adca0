-- ===== src/Pagination.antt =====
-- pkg/pagination/pagination.go: the page that a query string asks for, and the frame of a response.
-- An int has 64 bits.
pub mod Bounds
pub mod Pages
mod Tests
use Prim.Native.Char.{Char, code}
use Prim.Native.String.{[], ◌∷◌}
use ridesharing.Prelude.{
  ℕ, zero, suc, ◌+◌, ◌-◌, ◌*◌, ◌/◌, ◌%◌, String, Bool, true, false, ◌&&◌, Option, none, some, ltb,
  leb, ◌==◌, if◌then◌else◌,
}

-- The integers: n, and -(n + 1).
pub data ℤ : Type 0 where
  pos negsuc : ℕ → ℤ

-- 2 ^ 63 and 2 ^ 64.
abbrev pub int_limit : ℕ
int_limit = 9_223_372_036_854_775_808

abbrev pub word : ℕ
word = 18_446_744_073_709_551_616

-- The int that a machine word stands for.
abbrev pub to_int : ℕ → ℤ
to_int n = let m = n % word in if ltb m int_limit then pos m else negsuc (word - 1 - m)

abbrev digits : ℕ → String → Option ℕ
digits acc [] = some acc
digits acc (c ∷ s) =
    if leb 48 (code c) && leb (code c) 57 then digits (acc * 10 + (code c - 48)) s else none

abbrev pub digits_of : String → Option ℕ
digits_of [] = none
digits_of (c ∷ s) = digits 0 (c ∷ s)

abbrev pub positive : Option ℕ → Option ℤ
positive none = none
positive (some n) = if ltb n int_limit then some (pos n) else none

abbrev pub negative : Option ℕ → Option ℤ
negative none = none
negative (some zero) = some (pos 0)
negative (some (suc n)) = if ltb n int_limit then some (negsuc n) else none

-- strconv.Atoi: an optional sign and decimal digits, in the range of an int.
abbrev pub atoi : String → Option ℤ
atoi [] = none
atoi (c ∷ s) =
    if code c == 45
    then negative (digits_of s)
    else if code c == 43
    then positive (digits_of s)
    else positive (digits_of (c ∷ s))

-- `parseIntDefault`; the empty text is no number either.
unfoldable pub parse_int_default : String → ℤ → ℤ
parse_int_default s default_val = elim (atoi s) [ none ↦ default_val | some val ↦ val ]

abbrev pub default_page : ℕ
default_page = 1

abbrev pub default_limit : ℕ
default_limit = 20

abbrev pub max_limit : ℕ
max_limit = 100

-- `Params`; the offset is an int, the others are positive.
pub record Params : Type 0 where
  pub page : ℕ
  pub limit : ℕ
  pub offset : ℤ

-- `if x < 1 { x = default }`.
abbrev pub at_least_one : ℕ → ℤ → ℕ
at_least_one default (pos zero) = default
at_least_one default (pos (suc n)) = suc n
at_least_one default (negsuc n) = default

-- The record that `Parse` returns.
abbrev pub params_of : ℕ → ℕ → Params
params_of page limit = record { page = page; limit = limit; offset = to_int ((page - 1) * limit) }

-- `Parse`, of the two values of the query string.
unfoldable pub parse : String → String → Params
unfolding parse_int_default
parse page_text limit_text =
    let page = at_least_one default_page (parse_int_default page_text (pos default_page)) in
    let asked = at_least_one default_limit (parse_int_default limit_text (pos default_limit)) in
    let limit = if ltb max_limit asked then max_limit else asked in params_of page limit

-- `Response`, without the data.
pub record Response : Type 0 where
  pub page : ℕ
  pub limit : ℕ
  pub total_count : ℕ
  pub total_pages : ℕ
  pub has_more : Bool

-- `NewResponse`, of a count that is not negative.
unfoldable pub new_response : Params → ℕ → Response
new_response params total_count =
    let pages =
      if ltb 0 (total_count % params.limit)
      then suc (total_count / params.limit)
      else total_count / params.limit in
    record {
      page = params.page;
      limit = params.limit;
      total_count = total_count;
      total_pages = pages;
      has_more = ltb params.page pages;
    }
