-- ===== src/Gateway/Chain.antt =====
-- cmd/gateway/main.go: what the middleware before a protected route answers or passes on.
use ridesharing.Prelude.{
  ℕ, suc, ◌-◌, ◌≡◌, String, true, false, none, some, List, arith, same_text, if◌then◌else◌,
}
use ridesharing.Errors.{Error, ok, err, rate_limited, unauthorized_error}
use ridesharing.Jwt.{Claims, validate_token}
use ridesharing.Security.{limit, current_window}
use ridesharing.Http.{Reply, error_json, bare}
use ridesharing.Middleware.{
  Flight, answered, Next, request_id, recovery, rate_limit, cors, auth, user_limit, set_header,
  signed_in,
}
use ridesharing.Middleware.Bearer.{bearer_token}
use ridesharing.Gateway.{Limiters, Settings, user_quota, global, protected, serve_protected}

-- The request as the global middleware passes it on.
abbrev pub prepared : Flight → Flight
prepared f =
    let id = if same_text f.x_request_id "" then f.new_uuid else f.x_request_id in
    let f₁ = set_header "X-Request-ID" id (record f { request_id = id }) in
    record (set_header "Access-Control-Max-Age" "86400" (
      set_header "Access-Control-Allow-Headers" "Authorization, Content-Type, X-Request-ID" (
        set_header "Access-Control-Allow-Methods" "GET, POST, PUT, DELETE, OPTIONS, PATCH"
          (set_header "Access-Control-Allow-Origin" "*" f₁)))) { body_limit = some 1_048_576 }

abbrev unauthorized : {A : Type 0} → String → Reply A
unauthorized m = error_json 401 m (some unauthorized_error)

module _ {Bucket : Type 0} (g : Settings Bucket) where
  abbrev pub after_bucket : Flight → Limiters Bucket → Limiters Bucket
  after_bucket f l = record l { bucket = (g.allow f.now l.bucket).1 }

  -- The request of a user, with the headers of the limiter.
  abbrev pub headed : ℕ → Claims → Flight → Flight
  headed left claims f =
      set_header "X-RateLimit-Remaining" (g.status_text left)
        (set_header "X-RateLimit-Limit" (g.status_text 100) (signed_in claims f))

  abbrev pub left_of : Claims → Flight → Limiters Bucket → ℕ
  left_of claims f l =
      100 - suc (current_window user_quota f.now f.later (l.users claims.user_id)).count

  abbrev pub after_limit : Claims → Flight → Limiters Bucket → Limiters Bucket
  after_limit claims f l = record l {
    users = (limit user_quota f.now f.later (some claims.user_id) l.users).1;
  }

  module _ {A : Type 0} where
    pub global_options :
        (handler : Next (Limiters Bucket) A) (f : Flight) (l : Limiters Bucket)
        → same_text f.method "OPTIONS" ≡ true
        → serve_protected g handler f l ≡ (answered (bare 204) (prepared f).headers, l)
    unfolding serve_protected global request_id recovery cors
    global_options handler f l a = ground arith

    pub global_limited :
        (handler : Next (Limiters Bucket) A) (f : Flight) (l : Limiters Bucket)
        → same_text f.method "OPTIONS" ≡ false
        → (g.allow f.now l.bucket).0 ≡ false
        → serve_protected g handler f l ≡ (
          answered (error_json 429 "rate limit exceeded" (some rate_limited)) (prepared f).headers,
          after_bucket f l,
        )
    unfolding serve_protected global request_id recovery cors rate_limit
    global_limited handler f l a b = ground arith

    pub global_passes :
        (handler : Next (Limiters Bucket) A) (f : Flight) (l : Limiters Bucket)
        → same_text f.method "OPTIONS" ≡ false
        → (g.allow f.now l.bucket).0 ≡ true
        → serve_protected g handler f l
          ≡ recovery (protected g handler) (prepared f) (after_bucket f l)
    unfolding serve_protected global request_id recovery cors rate_limit
    global_passes handler f l a b = ground arith

    pub auth_blank :
        (handler : Next (Limiters Bucket) A) (f : Flight) (l : Limiters Bucket)
        → same_text f.authorization "" ≡ true
        → protected g handler f l
          ≡ (answered (unauthorized "authorization header required") f.headers, l)
    unfolding protected auth
    auth_blank handler f l a = ground arith

    pub auth_malformed :
        (handler : Next (Limiters Bucket) A) (f : Flight) (l : Limiters Bucket)
        → same_text f.authorization "" ≡ false
        → bearer_token f.authorization ≡ none
        → protected g handler f l
          ≡ (answered (unauthorized "authorization header must be Bearer <token>") f.headers, l)
    unfolding protected auth
    auth_malformed handler f l a b = ground arith

    pub auth_invalid :
        (handler : Next (Limiters Bucket) A) (f : Flight) (l : Limiters Bucket) (token : String)
        (e : Error)
        → same_text f.authorization "" ≡ false
        → bearer_token f.authorization ≡ some token
        → validate_token g.jwt f.now token g.jwt_secret ≡ err e
        → protected g handler f l
          ≡ (answered (unauthorized "invalid or expired token") f.headers, l)
    unfolding protected auth
    auth_invalid handler f l token e a b c = ground arith

    pub user_limited :
        (handler : Next (Limiters Bucket) A) (f : Flight) (l : Limiters Bucket) (token : String)
        (claims : Claims)
        → same_text f.authorization "" ≡ false
        → bearer_token f.authorization ≡ some token
        → validate_token g.jwt f.now token g.jwt_secret ≡ ok claims
        → (limit user_quota f.now f.later (some claims.user_id) l.users).0.0 ≡ false
        → protected g handler f l ≡ (
          answered
              (error_json 429 "per-user rate limit exceeded" (some rate_limited))
              (headed (left_of claims f l) claims f).headers,
          after_limit claims f l,
        )
    unfolding protected auth user_limit limit
    user_limited handler f l token claims a b c d = ground arith

    pub user_passes :
        (handler : Next (Limiters Bucket) A) (f : Flight) (l : Limiters Bucket) (token : String)
        (claims : Claims)
        → same_text f.authorization "" ≡ false
        → bearer_token f.authorization ≡ some token
        → validate_token g.jwt f.now token g.jwt_secret ≡ ok claims
        → (limit user_quota f.now f.later (some claims.user_id) l.users).0.0 ≡ true
        → protected g handler f l
          ≡ handler (headed (left_of claims f l) claims f) (after_limit claims f l)
    unfolding protected auth user_limit limit
    user_passes handler f l token claims a b c d = ground arith

module _ {Bucket A : Type 0} where
  pub recovery_answered :
      (next : Next (Limiters Bucket) A) (f : Flight) (l l' : Limiters Bucket) (r : Reply A)
      (hs : List (String × String))
      → next f l ≡ (answered r hs, l')
      → recovery next f l ≡ (answered r hs, l')
  unfolding recovery
  recovery_answered next f l l' r hs e = ground arith

  pub recovery_same :
      (m n : Next (Limiters Bucket) A) (f f' : Flight) (l l' : Limiters Bucket)
      → m f l ≡ n f' l'
      → recovery m f l ≡ recovery n f' l'
  unfolding recovery
  recovery_same m n f f' l l' e = ground arith
