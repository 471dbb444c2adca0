-- ===== src/Middleware.antt =====
-- pkg/middleware/middleware.go: the handlers that a request passes before its own. Each answers, or
-- changes the request and calls the next. Tracing, which sets a header only, is left out.
pub mod Bearer
use ridesharing.Prelude.{
  ℕ, ◌+◌, String, Bool, true, false, not, ◌&&◌, ◌||◌, Option, none, some, List, ◌∷◌, ◌==◌,
  same_text, if◌then◌else◌,
}
use ridesharing.Errors.{
  ErrorCode, internal_error, unauthorized_error, forbidden_error, rate_limited, ok, err,
}
use ridesharing.Models.{Uuid, Time}
use ridesharing.Security.{RateLimit, Users, limit}
use ridesharing.Jwt.{Claims, JwtLibrary, validate_token}
use ridesharing.Http.{Reply, error_json, bare, Context}
use ridesharing.Middleware.Bearer.{bearer_token}

-- What gin keeps of a request: its method and headers, the clock when it is looked at and a little
-- later, the limit of its body, its id, its context and the headers of the answer.
pub record Flight : Type 0 where
  pub method : String
  pub authorization : String
  pub x_request_id : String
  pub now : Time
  pub later : Time
  pub new_uuid : String
  pub body_limit : Option ℕ
  pub request_id : String
  pub context : Context
  pub headers : List (String × String)

-- A handler answers, or panics; the headers of the answer come with it.
pub data Outcome (A : Type 0) : Type 0 where
  answered : Reply A → List (String × String) → Outcome A
  panicked : List (String × String) → Outcome A

-- The handlers share a state.
abbrev pub Next : Type 0 → Type 0 → Type 0
Next S A = Flight → S → Outcome A × S

abbrev pub abort : {S A : Type 0} → Reply A → Next S A
abort r f s = (answered r f.headers, s)

abbrev pub set_header : String → String → Flight → Flight
set_header k v f = record f { headers = (k, v) ∷ f.headers }

-- `RequestID`.
unfoldable pub request_id : {S A : Type 0} → Next S A → Next S A
request_id next f =
    let id = if same_text f.x_request_id "" then f.new_uuid else f.x_request_id in
    next (set_header "X-Request-ID" id (record f { request_id = id }))

-- `Recovery`.
unfoldable pub recovery : {S A : Type 0} → Next S A → Next S A
recovery next f s =
    let (o, s') = next f s in
    (
      elim o [
        | answered r hs ↦ answered r hs
        | panicked hs ↦ answered (error_json 500 "internal server error" (some internal_error)) hs
      ],
      s',
    )

-- `RateLimit`, over the token bucket of golang.org/x/time/rate, a part of the state.
unfoldable pub rate_limit : {S A : Type 0} → (Time → S → Bool × S) → Next S A → Next S A
rate_limit allow next f s =
    let (allowed, s') = allow f.now s in
    if not allowed
    then abort (error_json 429 "rate limit exceeded" (some rate_limited)) f s'
    else next f s'

-- `MaxBodySize`: a reader that fails past the limit.
abbrev pub max_body_size : {S A : Type 0} → ℕ → Next S A → Next S A
max_body_size max_bytes next f = next (record f { body_limit = some max_bytes })

-- `CORS`.
unfoldable pub cors : {S A : Type 0} → Next S A → Next S A
cors next f =
    let f' = set_header "Access-Control-Max-Age" "86400" (
      set_header "Access-Control-Allow-Headers" "Authorization, Content-Type, X-Request-ID" (
        set_header "Access-Control-Allow-Methods" "GET, POST, PUT, DELETE, OPTIONS, PATCH"
          (set_header "Access-Control-Allow-Origin" "*" f))) in
    if same_text f.method "OPTIONS" then abort (bare 204) f' else next f'

abbrev pub signed_in : Claims → Flight → Flight
signed_in claims f = record f {
  context = record { user_id = some claims.user_id; user_role = some claims.role };
}

abbrev unauthorized_reply : {A : Type 0} → String → Reply A
unauthorized_reply m = error_json 401 m (some unauthorized_error)

-- `Auth`.
unfoldable pub auth : {S A : Type 0} → JwtLibrary → String → Next S A → Next S A
auth jwt secret next f s =
    if same_text f.authorization ""
    then abort (unauthorized_reply "authorization header required") f s
    else elim (bearer_token f.authorization) [
      | none ↦ abort (unauthorized_reply "authorization header must be Bearer <token>") f s
      | some token ↦ elim (validate_token jwt f.now token secret) [
        | err e ↦ abort (unauthorized_reply "invalid or expired token") f s
        | ok claims ↦ next (signed_in claims f) s
      ]
    ]

-- `RequireRole`.
unfoldable pub require_role : {S A : Type 0} → String → Next S A → Next S A
require_role role next f s =
    let refused : Next _ _ =
      abort (error_json 403 "insufficient permissions" (some forbidden_error)) in
    elim f.context.user_role [
      | none ↦ refused f s
      | some r ↦ if same_text r role then next f s else refused f s
    ]

-- The middleware of `UserRateLimiter` of pkg/security, over its map in the state; `status_text` is
-- http.StatusText, of which the code makes the values of the headers.
unfoldable pub user_limit :
    {S A : Type 0} → RateLimit → (ℕ → String) → (S → Users) → (Users → S → S) → Next S A → Next S A
user_limit rl status_text users set_users next f s =
    let ((allowed, left), users') = limit rl f.now f.later f.context.user_id (users s) in
    let s' = set_users users' s in
    elim left [
      | none ↦ next f s'
      | some n ↦
          let f' =
            set_header "X-RateLimit-Remaining" (status_text n)
              (set_header "X-RateLimit-Limit" (status_text rl.max_reqs) f) in
          if allowed
          then next f' s'
          else abort (error_json 429 "per-user rate limit exceeded" (some rate_limited)) f' s'
    ]
