-- ===== src/Middleware/Bearer.antt =====
-- pkg/middleware/middleware.go: the token of the header that `Auth` reads.
use Prim.Native.Char.{code}
use Prim.Native.String.{[], ◌∷◌}
use ridesharing.Prelude.{
  ℕ, ◌+◌, String, Bool, true, false, ◌&&◌, Option, none, some, leb, ◌==◌, if◌then◌else◌,
}

-- strings.SplitN(s, " ", 2), where it has two parts.
unfoldable pub split_space : String → Option (String × String)
split_space [] = none
split_space (c ∷ s) =
    if code c == 32
    then some ("", s)
    else elim (split_space s) [ none ↦ none | some (a, b) ↦ some (c ∷ a, b) ]

-- The code of a letter's lower case; `strings.ToLower` gives no other character one of b, e, a, r.
abbrev lower : ℕ → ℕ
lower n = if leb 65 n && leb n 90 then n + 32 else n

abbrev lower_is : String → String → Bool
lower_is [] [] = true
lower_is [] (d ∷ t) = false
lower_is (c ∷ s) [] = false
lower_is (c ∷ s) (d ∷ t) = lower (code c) == code d && lower_is s t

-- The token of the header `Bearer <token>`.
unfoldable pub bearer_token : String → Option String
bearer_token header = elim (split_space header) [
  | none ↦ none
  | some (scheme, token) ↦ if lower_is scheme "bearer" then some token else none
]
