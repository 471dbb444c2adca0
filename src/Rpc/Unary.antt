-- ===== src/Rpc/Unary.antt =====
-- An instance of the library of Rpc that loses nothing: the text of an id has as many letters as the id
-- says.
use Prim.Native.Char.{code}
use Prim.Native.String.{[], ◌∷◌}
use ridesharing.Prelude.{ℕ, zero, suc, ◌≡◌, refl, String, none, ◌==◌, if◌then◌else◌, arith}
use ridesharing.Errors.{Result, plain, ok, err, other_code}
use ridesharing.Rpc.{GrpcLibrary, IsUuidText}

unfoldable pub letters : ℕ → String
letters zero = ""
letters (suc n) = "a" ∷ letters n

abbrev add_one : Result ℕ → Result ℕ
add_one (ok n) = ok (suc n)
add_one (err e) = err e

unfoldable pub count_letters : String → Result ℕ
count_letters [] = ok 0
count_letters (c ∷ s) =
    let rest = count_letters s in if code c == 97 then add_one rest else err (plain "no id")

count-letters : (n : ℕ) → count_letters (letters n) ≡ ok n
unfolding letters count_letters
count-letters zero = refl
count-letters (suc n) = ground (arith, count-letters n)

abbrev pub unary : GrpcLibrary
unary = record {
  code_of_error = λ e. other_code 2;
  lost_request = λ n. none;
  lost_answer = λ n. none;
  uuid_text = letters;
  parse_uuid = count_letters;
}

pub unary-IsUuidText : IsUuidText unary
unary-IsUuidText = record { parse-text = count-letters }
