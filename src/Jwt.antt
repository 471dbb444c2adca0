-- ===== src/Jwt.antt =====
-- pkg/jwt/jwt.go: access and refresh tokens. Signing and parsing are golang-jwt's, a parameter.
pub mod Audience
mod Tests
use ridesharing.Prelude.{
  ℕ, ◌+◌, ◌*◌, ◌/◌, String, Bool, true, false, not, ◌||◌, List, [], ◌∷◌, same_text, if◌then◌else◌,
}
use ridesharing.Errors.{Error, plain, wrapped, Result, ok, err}
use ridesharing.Models.{Uuid, Time}

-- `Claims`, with the registered claims that the code sets; the subject is the text of the user's id.
pub record Claims : Type 0 where
  pub user_id : Uuid
  pub role : String
  pub expires_at : Time
  pub issued_at : Time
  pub not_before : Time
  pub issuer : String
  pub subject : Uuid
  pub audience : List String

pub record TokenPair : Type 0 where
  pub access_token : String
  pub refresh_token : String
  pub expires_in : ℕ

-- The library: NewNumericDate, NewWithClaims(HS256).SignedString, and ParseWithClaims at a time, whose
-- key function is told whether the token's method is an HMAC, with the flag Valid.
pub record JwtLibrary : Type 0 where
  pub new_numeric_date : Time → Time
  pub signed_string : Claims → String → Result String
  pub parse_with_claims : Time → String → (Bool → Result String) → Result (Claims × Bool)

-- 7 * 24 * time.Hour, and a second, in nanoseconds.
abbrev pub refresh_expiry : ℕ
refresh_expiry = 604_800_000_000_000

abbrev second : ℕ
second = 1_000_000_000

module _ (jwt : JwtLibrary) where
  abbrev pub claims_for : Time → Uuid → String → ℕ → List String → Claims
  claims_for now user_id role expiration audience = record {
    user_id = user_id;
    role = role;
    expires_at = jwt.new_numeric_date (now + expiration);
    issued_at = jwt.new_numeric_date now;
    not_before = jwt.new_numeric_date now;
    issuer = "rideshare";
    subject = user_id;
    audience = audience;
  }

  -- `GenerateToken`.
  unfoldable pub generate_token : Time → Uuid → String → String → ℕ → Result String
  generate_token now user_id role secret expiration =
      jwt.signed_string (claims_for now user_id role expiration []) secret

  -- `GenerateTokenPair`. The float64 between a duration of days and its whole seconds rounds none up.
  unfoldable pub generate_token_pair : Time → Uuid → String → String → ℕ → Result TokenPair
  generate_token_pair now user_id role secret access_expiry =
      elim (jwt.signed_string (claims_for now user_id role access_expiry ("access" ∷ [])) secret) [
        | err e ↦ err (wrapped "sign access token" e)
        | ok access_str ↦
            elim (jwt.signed_string (claims_for now user_id role refresh_expiry ("refresh" ∷ []))
              secret) [
                | err e ↦ err (wrapped "sign refresh token" e)
                | ok refresh_str ↦ ok (record {
                  access_token = access_str;
                  refresh_token = refresh_str;
                  expires_in = access_expiry / second;
                })
              ]
      ]

  -- The key function of `ValidateToken`.
  abbrev pub key_func : String → Bool → Result String
  key_func secret is_hmac = if is_hmac then ok secret else err (plain "unexpected signing method")

  -- `ValidateToken`.
  unfoldable pub validate_token : Time → String → String → Result Claims
  validate_token now token_string secret =
      elim (jwt.parse_with_claims now token_string (key_func secret)) [
        | err e ↦ err (wrapped "parse token" e)
        | ok (claims, valid) ↦ if valid then ok claims else err (plain "invalid token claims")
      ]

  abbrev pub has_refresh : List String → Bool
  has_refresh [] = false
  has_refresh (a ∷ aud) = same_text a "refresh" || has_refresh aud

  abbrev pub check_audience : Claims → Result Claims
  check_audience claims = elim claims.audience [
    | [] ↦ err (plain "missing audience claim")
    | a ∷ aud ↦
        if has_refresh (a ∷ aud) then ok claims else err (plain "token is not a refresh token")
  ]

  -- `ValidateRefreshToken`.
  unfoldable pub validate_refresh_token : Time → String → String → Result Claims
  validate_refresh_token now token_string secret = elim (validate_token now token_string secret) [
    | err e ↦ err e
    | ok claims ↦ check_audience claims
  ]
