-- ===== src/Gateway/Tests.antt =====
-- cmd/gateway/main.go: a request with the token of a rider, to a gateway whose bucket allows it.
use ridesharing.Prelude.{ℕ, ◌⊎◌, String, true, none, [], ◌∷◌}
use ridesharing.Errors.{ok}
use ridesharing.Jwt.{Claims}
use ridesharing.Middleware.{Flight}
use ridesharing.Gateway.{Limiters, Settings}
use ridesharing.Gateway.Access.{IsRefused, IsAdmitted, IsRun, serve_protected_cases}

abbrev rider : Claims
rider = record {
  user_id = 7;
  role = "rider";
  expires_at = 60;
  issued_at = 0;
  not_before = 0;
  issuer = "rideshare";
  subject = 7;
  audience = "access" ∷ [];
}

abbrev settings : Settings ℕ
settings = record {
  jwt = record {
    new_numeric_date = λ t. t;
    signed_string = λ c secret. ok "A";
    parse_with_claims = λ now s key. ok (rider, true);
  };
  jwt_secret = "key";
  allow = λ now n. (true, n);
  status_text = λ n. "";
}

abbrev flight : Flight
flight = record {
  method = "GET";
  authorization = "Bearer A";
  x_request_id = "";
  now = 5;
  later = 6;
  new_uuid = "u";
  body_limit = none;
  request_id = "";
  context = record { user_id = none; user_role = none };
  headers = [];
}

abbrev idle : Limiters ℕ
idle = record { bucket = 0; users = λ u. none }

serve_protected_cases_example :
    IsRefused ℕ settings flight idle
    ⊎ ((token : String) × (claims : Claims) × IsAdmitted ℕ settings token claims flight idle
        × IsRun ℕ settings claims flight idle)
serve_protected_cases_example = serve_protected_cases ℕ settings flight idle
