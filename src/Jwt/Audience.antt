-- ===== src/Jwt/Audience.antt =====
-- pkg/jwt/jwt.go: which of the tokens of a pair each validation accepts.
use ridesharing.Prelude.{
  ℕ, ◌+◌, ◌≤◌, ◌<◌, ◌≡◌, refl, String, Bool, true, List, [], ◌∷◌, arith, ltb, Bool-cases, inl, inr,
}
use ridesharing.Errors.{Error, plain, wrapped, Result, ok, err}
use ridesharing.Models.{Uuid, Time}
use ridesharing.Jwt.{
  Claims, TokenPair, JwtLibrary, refresh_expiry, claims_for, key_func, generate_token_pair,
  validate_token, validate_refresh_token,
}

-- What golang-jwt documents: a date is rounded down, and a signed token whose dates allow it parses to
-- the claims it was signed with, under the key that the key function gives for an HMAC; one that has
-- expired does not parse.
pub record IsJwt (jwt : JwtLibrary) : Type 0 where
  pub date-le : (t : Time) → jwt.new_numeric_date t ≤ t
  pub parse-signed :
      (now : Time) (c : Claims) (secret s : String) (key : Bool → Result String)
      → jwt.signed_string c secret ≡ ok s
      → key true ≡ ok secret
      → c.not_before ≤ now
      → c.issued_at ≤ now
      → now < c.expires_at
      → jwt.parse_with_claims now s key ≡ ok (c, true)
  pub parse-expired :
      (now : Time) (c : Claims) (secret s : String) (key : Bool → Result String)
      → jwt.signed_string c secret ≡ ok s
      → key true ≡ ok secret
      → c.expires_at ≤ now
      → (e : Error) × (jwt.parse_with_claims now s key ≡ err e)

module _ (jwt : JwtLibrary) (laws : IsJwt jwt) where
  validate_signed :
      (now later : Time) (user : Uuid) (role secret s : String) (expiration : ℕ) (aud : List String)
      → jwt.signed_string (claims_for jwt now user role expiration aud) secret ≡ ok s
      → now ≤ later
      → later < jwt.new_numeric_date (now + expiration)
      → validate_token jwt later s secret ≡ ok (claims_for jwt now user role expiration aud)
  unfolding validate_token
  validate_signed now later user role secret s expiration aud signed h fresh = ground (
    arith,
    laws.parse-signed later (claims_for jwt now user role expiration aud) secret s
        (key_func jwt secret) signed refl (omega (arith, laws.date-le now))
        (omega (arith, laws.date-le now)) fresh,
  )

  validate_expired :
      (now later : Time) (user : Uuid) (role secret s : String) (expiration : ℕ) (aud : List String)
      → jwt.signed_string (claims_for jwt now user role expiration aud) secret ≡ ok s
      → jwt.new_numeric_date (now + expiration) ≤ later
      → (e : Error) × (validate_token jwt later s secret ≡ err e)
  unfolding validate_token
  validate_expired now later user role secret s expiration aud signed stale =
      let (e, fails) =
        laws.parse-expired later (claims_for jwt now user role expiration aud) secret s
          (key_func jwt secret) signed refl stale in
      (wrapped "parse token" e, ground arith)

  signed_pair :
      (now : Time) (user : Uuid) (role secret : String) (access_expiry : ℕ) (p : TokenPair)
      → generate_token_pair jwt now user role secret access_expiry ≡ ok p
      → (jwt.signed_string (claims_for jwt now user role access_expiry ("access" ∷ [])) secret
          ≡ ok p.access_token)
        × (jwt.signed_string (claims_for jwt now user role refresh_expiry ("refresh" ∷ [])) secret
            ≡ ok p.refresh_token)
  unfolding generate_token_pair
  signed_pair now user role secret access_expiry p h = ground arith

  -- At any time from when a pair is made: its refresh token is accepted as a refresh token, for the user
  -- and the role it was made for, until its own expiry, and refused from then on; its access token is a
  -- valid token until its own expiry, and is refused as a refresh token before and after it.
  pub validate_refresh_token-generate_token_pair :
      (now later : Time) (user : Uuid) (role secret : String) (access_expiry : ℕ) (p : TokenPair)
      → generate_token_pair jwt now user role secret access_expiry ≡ ok p
      → now ≤ later
      → (later < jwt.new_numeric_date (now + refresh_expiry)
          → validate_refresh_token jwt later p.refresh_token secret
            ≡ ok (claims_for jwt now user role refresh_expiry ("refresh" ∷ [])))
        × (jwt.new_numeric_date (now + refresh_expiry) ≤ later
            → (e : Error) × (validate_refresh_token jwt later p.refresh_token secret ≡ err e))
        × (later < jwt.new_numeric_date (now + access_expiry)
            → validate_token jwt later p.access_token secret
              ≡ ok (claims_for jwt now user role access_expiry ("access" ∷ [])))
        × ((e : Error) × (validate_refresh_token jwt later p.access_token secret ≡ err e))
  unfolding validate_refresh_token
  validate_refresh_token-generate_token_pair now later user role secret access_expiry p h le =
      let (a, r) = signed_pair now user role secret access_expiry p h in
      let fresh =
        validate_signed now later user role secret p.refresh_token refresh_expiry ("refresh" ∷ []) r
          le in
      let valid =
        validate_signed now later user role secret p.access_token access_expiry ("access" ∷ []) a
          le in
      let stale =
        validate_expired now later user role secret p.refresh_token refresh_expiry ("refresh" ∷ [])
          r in
      (
        (λ soon. ground (arith, fresh soon)),
        (λ old. ((stale old).0, ground (arith, (stale old).1))),
        valid,
        elim (Bool-cases (ltb later (jwt.new_numeric_date (now + access_expiry)))) [
          | inl soon ↦ (plain "token is not a refresh token", ground (arith, valid (ground arith)))
          | inr old ↦
              let (e, fails) =
                validate_expired now later user role secret p.access_token access_expiry
                  ("access" ∷ []) a (ground arith) in
              (e, ground arith)
        ],
      )

  -- `ValidateToken`, which guards the routes, accepts the refresh token of a pair too.
  pub validate_token-refresh :
      (now later : Time) (user : Uuid) (role secret : String) (access_expiry : ℕ) (p : TokenPair)
      → generate_token_pair jwt now user role secret access_expiry ≡ ok p
      → now ≤ later
      → later < jwt.new_numeric_date (now + refresh_expiry)
      → validate_token jwt later p.refresh_token secret
        ≡ ok (claims_for jwt now user role refresh_expiry ("refresh" ∷ []))
  unfolding generate_token_pair
  validate_token-refresh now later user role secret access_expiry p h le r =
      validate_signed now later user role secret p.refresh_token refresh_expiry ("refresh" ∷ [])
        (ground arith) le r
