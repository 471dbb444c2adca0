-- ===== src/Http.antt =====
-- What the HTTP handlers of the gateway answer, and what gin's context holds for them.
use ridesharing.Prelude.{ℕ, String, Option, none, some}
use ridesharing.Errors.{
  Error, ErrorCode, internal_error, validation_error, Result, ok, err, error_text,
}
use ridesharing.Models.{Uuid}
use ridesharing.Database.{Action, World}

-- A status with a body, or with an error message and its code, or with no body.
pub data Reply (A : Type 0) : Type 0 where
  json : ℕ → A → Reply A
  error_json : ℕ → String → Option ErrorCode → Reply A
  bare : ℕ → Reply A

abbrev pub status_of : {A : Type 0} → Reply A → ℕ
status_of (json n a) = n
status_of (error_json n m c) = n
status_of (bare n) = n

-- What `Auth` sets in the context.
pub record Context : Type 0 where
  pub user_id : Option Uuid
  pub user_role : Option String

abbrev pub Handler : Type 0 → Type 0 → Type 0
Handler Float A = World Float → Reply A × World Float

abbrev pub reply : {Float A : Type 0} → Reply A → Handler Float A
reply r w = (r, w)

-- A panic, as `Recovery` of pkg/middleware answers it.
abbrev pub panic_reply : {Float A : Type 0} → Handler Float A
panic_reply = reply (error_json 500 "internal server error" (some internal_error))

-- `authedID.(uuid.UUID)`, which panics where the context has no user.
abbrev pub with_user : {Float A : Type 0} → Context → (Uuid → Handler Float A) → Handler Float A
with_user c next = elim c.user_id [ none ↦ panic_reply | some id ↦ next id ]

-- `ShouldBindJSON` of a body, with what it binds or its error.
abbrev pub bind_json : {Float A B : Type 0} → Result B → (B → Handler Float A) → Handler Float A
bind_json body next = elim body [
  | err e ↦ reply (error_json 400 (error_text e) (some validation_error))
  | ok req ↦ next req
]

-- A call of a service, and what is made of its result.
abbrev pub respond_to :
    {Float A B : Type 0} → Action Float B → (Error → Reply A) → (B → Reply A) → Handler Float A
respond_to call on_error on_answer w =
    let (r, w') = call w in (elim r [ ok b ↦ on_answer b | err e ↦ on_error e ], w')
