-- ===== src/Errors.antt =====
-- pkg/errors/errors.go: application errors with an HTTP status and a machine-readable code, beside
-- the plain and the wrapped errors of the standard library; and the results that carry them.
use Prim.Native.String.{◌++◌}
use ridesharing.Prelude.{
  ℕ, String, Option, none, some, ◌≡◌, refl, ◌⊎◌, inl, inr, Bool, true, false, if◌then◌else◌,
}

-- `ErrorCode`, one constructor for each constant.
pub data ErrorCode : Type 0 where
  internal_error bad_request_error validation_error : ErrorCode
  unauthorized_error forbidden_error user_exists invalid_credentials : ErrorCode
  ride_not_found ride_already_active invalid_transition no_drivers_available : ErrorCode
  payment_failed payment_not_found already_charged : ErrorCode
  user_not_found invalid_coordinates : ErrorCode
  rate_limited account_locked body_too_large : ErrorCode

-- The status codes of gRPC that the code names, and the others by their number.
pub data Code : Type 0 where
  invalid_argument unauthenticated permission_denied : Code
  code_not_found already_exists resource_exhausted code_internal : Code
  other_code : ℕ → Code

-- A Go error: `errors.New` (plain), `fmt.Errorf("m: %w", e)` (wrapped), an `*AppError` whose `Err`
-- is nil (app), one that holds an underlying error (app_of), and `status.Error(code, m)` (status).
pub data Error : Type 0 where
  plain : String → Error
  wrapped : String → Error → Error
  app : ℕ → ErrorCode → String → Error
  app_of : ℕ → ErrorCode → String → Error → Error
  status : Code → String → Error

-- The name of a code; those that the code does not name are Unknown here.
abbrev code_name : Code → String
code_name invalid_argument = "InvalidArgument"
code_name unauthenticated = "Unauthenticated"
code_name permission_denied = "PermissionDenied"
code_name code_not_found = "NotFound"
code_name already_exists = "AlreadyExists"
code_name resource_exhausted = "ResourceExhausted"
code_name code_internal = "Internal"
code_name (other_code n) = "Unknown"

-- `Error()`.
unfoldable pub error_text : Error → String
error_text (plain m) = m
error_text (status c m) = "rpc error: code = " ++ code_name c ++ " desc = " ++ m
error_text (wrapped m e) = m ++ ": " ++ error_text e
error_text (app c k m) = m
error_text (app_of c k m e) = m ++ ": " ++ error_text e

-- `Unwrap`.
unfoldable pub unwrap : Error → Option Error
unwrap (plain m) = none
unwrap (wrapped m e) = some e
unwrap (app c k m) = none
unwrap (status c m) = none
unwrap (app_of c k m e) = some e

-- The type assertion `err.(*AppError)`: it does not look inside a wrapped error.
abbrev pub is_app_error : Error → Bool
is_app_error (app c k m) = true
is_app_error (app_of c k m e) = true
is_app_error _ = false

-- `errors.As(err, &appErr)`: the first AppError of the chain, its status code and message.
unfoldable pub as_app_error : Error → Option (ℕ × String)
as_app_error (plain m) = none
as_app_error (wrapped m e) = as_app_error e
as_app_error (app c k m) = some (c, m)
as_app_error (app_of c k m e) = some (c, m)
as_app_error (status c m) = none

abbrev pub not_found : String → Error
not_found m = app 404 ride_not_found m

abbrev pub not_found_with_code : ErrorCode → String → Error
not_found_with_code k m = app 404 k m

abbrev pub bad_request : String → Error
bad_request m = app 400 bad_request_error m

abbrev pub bad_request_with_code : ErrorCode → String → Error
bad_request_with_code k m = app 400 k m

abbrev pub unauthorized : String → Error
unauthorized m = app 401 unauthorized_error m

abbrev pub forbidden : String → Error
forbidden m = app 403 forbidden_error m

abbrev pub conflict : String → Error
conflict m = app 409 user_exists m

abbrev pub conflict_with_code : ErrorCode → String → Error
conflict_with_code k m = app 409 k m

abbrev pub internal : String → Error → Error
internal m e = app_of 500 internal_error m e

-- `Wrap`, of an AppError with these fields.
abbrev pub wrap : ℕ → ErrorCode → String → Error → Error
wrap code k m e = app_of code k m e

abbrev pub too_many_requests : String → Error
too_many_requests m = app 429 account_locked m

-- A Go pair `(A, error)`.
pub data Result {ℓ} (A : Type ℓ) : Type ℓ where
  ok : A → Result A
  err : Error → Result A

-- To split on a computed result and keep the equation.
pub Result-cases {ℓ} :
    {A : Type ℓ} (r : Result A) → ((e : Error) × (r ≡ err e)) ⊎ ((a : A) × (r ≡ ok a))
Result-cases (err e) = inl (e, refl)
Result-cases (ok a) = inr (a, refl)

-- `if _, ok := err.(*AppError); ok { return err }; return Internal(m, err)`.
abbrev pub or_internal : String → Error → Error
or_internal m e = if is_app_error e then e else internal m e
