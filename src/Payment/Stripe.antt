-- ===== src/Payment/Stripe.antt =====
-- internal/payment/payment.go: StripeStub, the provider of the development setup.
use Prim.Native.Char.{Char, nul}
use Prim.Native.String.{[], ◌∷◌, ◌++◌, count}
use Prim.Native.String.count.{cons}
use ridesharing.Prelude.{ℕ, zero, suc, ◌+◌, ◌/◌, ◌%◌, ◌≡◌, refl, String, Bool, ◌==◌, if◌then◌else◌}
use ridesharing.Errors.{plain, ok, err}
use ridesharing.Models.{Time}
use ridesharing.Payment.{PaymentGateway}

-- What math/rand gives at the n-th round trip: whether `Float64` is below 0.02, and the `Intn` for a
-- place of the text.
pub record Draws : Type 0 where
  pub declines : ℕ → Bool
  pub int_n : ℕ → ℕ → ℕ

abbrev letters : String
letters = "abcdefghijklmnopqrstuvwxyz0123456789"

-- `s[i]`, of an index in range.
abbrev char_at : String → ℕ → Char
char_at [] i = nul
char_at (c ∷ s) zero = c
char_at (c ∷ s) (suc i) = char_at s i

-- The next characters of the text, from place `i` on.
unfoldable pub generate_random_string : (ℕ → ℕ) → ℕ → ℕ → String
generate_random_string draw i zero = ""
generate_random_string draw i (suc n) =
    char_at letters (draw i) ∷ generate_random_string draw (suc i) n

-- `%d` of a number below 10 ^ 20, before what is already printed.
abbrev decimal : ℕ → ℕ → String → String
decimal zero n printed = printed
decimal (suc places) n printed =
    let text = char_at letters (26 + n % 10) ∷ printed in
    let more = decimal places (n / 10) text in if n / 10 == 0 then text else more

module _ {Float : Type 0} (draws : Draws) (now : ℕ → Time) where
  -- A time is in nanoseconds, and `UnixMilli` in milliseconds.
  unfoldable pub stripe_stub : PaymentGateway Float
  unfolding generate_random_string
  stripe_stub = record {
    create_payment_intent = λ n amount currency.
        if draws.declines n
        then err (plain "stripe: card declined (simulated)")
        else ok (
            "pi_"
            ++ generate_random_string (draws.int_n n) 0 16
            ++ "_"
            ++ decimal 20 (now n / 1_000_000) "");
    capture_payment = λ n txn_id. ok tt;
    refund = λ n txn_id amount. ok ("re_" ++ generate_random_string (draws.int_n n) 0 16);
  }

-- The text has the length that was asked for, whatever is drawn.
count-generate_random_string :
    (draw : ℕ → ℕ) (i n : ℕ) → count (generate_random_string draw i n) ≡ n
unfolding generate_random_string
count-generate_random_string draw i zero = refl
count-generate_random_string draw i (suc n) =
    rw (cons, count-generate_random_string draw (suc i) n) refl
