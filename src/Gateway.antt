-- ===== src/Gateway.antt =====
-- cmd/gateway/main.go: the chain of the gateway's middleware, its health check, and the state that its
-- requests share.
mod Chain
pub mod Access
mod Tests
use ridesharing.Prelude.{ℕ, String, Bool, ◌||◌, not, Option, none, some, ◌&&◌, if◌then◌else◌}
use ridesharing.Models.{Time}
use ridesharing.Jwt.{JwtLibrary}
use ridesharing.Security.{RateLimit, Users}
use ridesharing.Http.{Reply, json}
use ridesharing.Middleware.{
  Next, request_id, recovery, rate_limit, max_body_size, cors, auth, user_limit,
}

-- The token bucket of all requests, and the windows of the users.
pub record Limiters (Bucket : Type 0) : Type 0 where
  pub bucket : Bucket
  pub users : Users

-- What the gateway is made with: the token library and its secret, the token bucket, and
-- http.StatusText.
pub record Settings (Bucket : Type 0) : Type 0 where
  pub jwt : JwtLibrary
  pub jwt_secret : String
  pub allow : Time → Bucket → Bool × Bucket
  pub status_text : ℕ → String

-- security.NewUserRateLimiter(100, 1*time.Minute), in nanoseconds.
abbrev pub user_quota : RateLimit
user_quota = record { max_reqs = 100; window = 60_000_000_000 }

abbrev pub allow_request :
    {Bucket : Type 0} → Settings Bucket → Time → Limiters Bucket → Bool × Limiters Bucket
allow_request g now l =
    let (allowed, b) = g.allow now l.bucket in (allowed, record l { bucket = b })

module _ {Bucket A : Type 0} (g : Settings Bucket) where
  -- The global middleware. What observes a request only, for traces, metrics and the log, is left out.
  unfoldable pub global : Next (Limiters Bucket) A → Next (Limiters Bucket) A
  global next =
      recovery (request_id (cors (max_body_size 1_048_576 (rate_limit (allow_request g) next))))

  -- The middleware of the group `protected`.
  unfoldable pub protected : Next (Limiters Bucket) A → Next (Limiters Bucket) A
  protected next =
      auth g.jwt g.jwt_secret
        (user_limit user_quota g.status_text (λ l. l.users) (λ us l. record l { users = us }) next)

  -- A request for a protected route.
  unfoldable pub serve_protected : Next (Limiters Bucket) A → Next (Limiters Bucket) A
  unfolding global protected
  serve_protected handler = global (protected handler)

-- `healthCheck`, with whether PostgreSQL and Redis answer the ping.
pub record Health : Type 0 where
  pub status : String
  pub database : String
  pub redis : String
  pub version : String

abbrev up_or_down : Bool → String
up_or_down up = if up then "up" else "down"

unfoldable pub health_check : Bool → Bool → Reply Health
health_check db_up redis_up = json (if not db_up || not redis_up then 503 else 200) (record {
  status = "ok";
  database = up_or_down db_up;
  redis = up_or_down redis_up;
  version = "1.0.0";
})

-- `getEnvOrDefault`, with what the environment has for the key.
abbrev pub get_env_or_default : Option String → String → String
get_env_or_default none fallback = fallback
get_env_or_default (some value) fallback = value
