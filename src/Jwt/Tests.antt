-- ===== src/Jwt/Tests.antt =====
-- pkg/jwt with a library that signs the two tokens of one user.
use ridesharing.Prelude.{
  ◌≡◌, refl, ap, String, Bool, true, false, ◌&&◌, List, [], ◌∷◌, ◌==◌, ==_iff, same_text,
  same_text_iff, arith, ltb, ◌<◌, ◌≤◌, if◌then◌else◌,
}
use ridesharing.Errors.{Error, plain, Result, ok, err}
use ridesharing.Models.{Time}
use ridesharing.Jwt.{
  Claims, TokenPair, JwtLibrary, refresh_expiry, generate_token_pair, validate_token,
  validate_refresh_token,
}
use ridesharing.Jwt.Audience.{
  IsJwt, validate_refresh_token-generate_token_pair, validate_token-refresh,
}

abbrev claims : Time → String → Claims
claims expires_at audience = record {
  user_id = 7;
  role = "rider";
  expires_at = expires_at;
  issued_at = 0;
  not_before = 0;
  issuer = "rideshare";
  subject = 7;
  audience = audience ∷ [];
}

abbrev is_only : List String → String → Bool
is_only [] a = false
is_only (x ∷ []) a = same_text x a
is_only (x ∷ y ∷ xs) a = false

abbrev is_claims : Claims → Time → String → Bool
is_claims c expires_at audience =
    c.user_id == 7
    && same_text c.role "rider"
    && c.expires_at == expires_at
    && c.issued_at == 0
    && c.not_before == 0
    && same_text c.issuer "rideshare"
    && c.subject == 7
    && is_only c.audience audience

only_lem : (xs : List String) (a : String) → is_only xs a ≡ true → xs ≡ a ∷ []
only_lem [] a h = cc
only_lem (x ∷ []) a h = ground (arith, same_text_iff x a)
only_lem (x ∷ y ∷ xs) a h = cc

is_claims_lem : (c : Claims) (t : Time) (a : String) → is_claims c t a ≡ true → c ≡ claims t a
is_claims_lem c t a h = ground (
  arith,
  ==_iff c.user_id 7,
  same_text_iff c.role "rider",
  same_text_iff c.issuer "rideshare",
  only_lem c.audience a,
)

abbrev unless_expired : Time → Claims → Result (Claims × Bool)
unless_expired now c = if ltb now c.expires_at then ok (c, true) else err (plain "token is expired")

abbrev jwt : JwtLibrary
jwt = record {
  new_numeric_date = λ t. t;
  signed_string = λ c secret.
      if is_claims c 60 "access"
      then ok "A"
      else if is_claims c refresh_expiry "refresh"
      then ok "R"
      else err (plain "no key");
  parse_with_claims = λ now s key. elim (key true) [
    | err e ↦ err e
    | ok secret ↦
        if same_text s "A"
        then unless_expired now (claims 60 "access")
        else unless_expired now (claims refresh_expiry "refresh")
  ];
}

refresh_text : (s : String) → s ≡ "R" → same_text s "A" ≡ false
refresh_text s h = ap (λ x. same_text x "A") h

access_text : (s : String) → s ≡ "A" → same_text s "A" ≡ true
access_text s h = ap (λ x. same_text x "A") h

jwt-IsJwt : IsJwt jwt
jwt-IsJwt = record {
  date-le = λ t. omega arith;
  parse-signed = λ now c secret s key signed k a b d. ground (
    arith,
    is_claims_lem c 60 "access",
    is_claims_lem c refresh_expiry "refresh",
    refresh_text s,
    access_text s,
  );
  parse-expired = λ now c secret s key signed k old. (
    plain "token is expired",
    ground (
      arith,
      is_claims_lem c 60 "access",
      is_claims_lem c refresh_expiry "refresh",
      refresh_text s,
      access_text s,
    ),
  );
}

abbrev pair : TokenPair
pair = record { access_token = "A"; refresh_token = "R"; expires_in = 0 }

pair-signed : generate_token_pair jwt 0 7 "rider" "key" 60 ≡ ok pair
unfolding generate_token_pair
pair-signed = refl

-- After the access token has expired.
validate_refresh_token-generate_token_pair_example :
    (100 < refresh_expiry
      → validate_refresh_token jwt 100 "R" "key" ≡ ok (claims refresh_expiry "refresh"))
    × (refresh_expiry ≤ 100 → (e : Error) × (validate_refresh_token jwt 100 "R" "key" ≡ err e))
    × (100 < 60 → validate_token jwt 100 "A" "key" ≡ ok (claims 60 "access"))
    × ((e : Error) × (validate_refresh_token jwt 100 "A" "key" ≡ err e))
validate_refresh_token-generate_token_pair_example =
    validate_refresh_token-generate_token_pair jwt jwt-IsJwt 0 100 7 "rider" "key" 60 pair
      pair-signed (omega arith)

validate_token-refresh_example :
    validate_token jwt 9 "R" "key" ≡ ok (claims refresh_expiry "refresh")
validate_token-refresh_example =
    validate_token-refresh jwt jwt-IsJwt 0 9 7 "rider" "key" 60 pair pair-signed (omega arith)
      (omega arith)
