-- ===== src/Rpc.antt =====
-- What crosses the gRPC connections of the services: google.golang.org/grpc and google/uuid as
-- parameters, and the widths of the integers of the messages.
pub mod Unary
use ridesharing.Prelude.{ℕ, String, Option, none, some, ◌≡◌, ltb, ◌-◌, ◌%◌, if◌then◌else◌}
use ridesharing.Errors.{Error, Code, status, Result, ok, err, error_text}
use ridesharing.Models.{Uuid}
use ridesharing.Pagination.{ℤ, pos, negsuc}
use ridesharing.Database.{Action, World, tick}

-- The code that the server gives an error that is no status, and which requests, and which answers,
-- are lost on the way, at a number of round trips, with the status that the client then gets.
pub record GrpcLibrary : Type 0 where
  pub code_of_error : Error → Code
  pub lost_request : ℕ → Option (Code × String)
  pub lost_answer : ℕ → Option (Code × String)
  pub uuid_text : Uuid → String
  pub parse_uuid : String → Result Uuid

-- What the text of an id is parsed to.
pub record IsUuidText (g : GrpcLibrary) : Type 0 where
  pub parse-text : (id : Uuid) → g.parse_uuid (g.uuid_text id) ≡ ok id

-- int32(n), of an int that is not negative.
abbrev pub to_int32 : ℕ → ℤ
to_int32 n =
    let m = n % 4_294_967_296 in if ltb m 2_147_483_648 then pos m else negsuc (4_294_967_295 - m)

module _ (g : GrpcLibrary) where
  -- The error that the client gets for one of the server.
  abbrev pub on_wire : Error → Error
  on_wire (status c m) = status c m
  on_wire e = status (g.code_of_error e) (error_text e)

  abbrev pub answer_from : {Float A : Type 0} → Result A × World Float → Result A × World Float
  answer_from (r, w) = elim (g.lost_answer w.trips) [
    | some (c, m) ↦ (err (status c m), w)
    | none ↦ (elim r [ ok a ↦ ok a | err e ↦ err (on_wire e) ], w)
  ]

  -- A call of a method of a service.
  unfoldable pub invoke : {Float A : Type 0} → Action Float A → Action Float A
  invoke method w = elim (g.lost_request w.trips) [
    | some (c, m) ↦ (err (status c m), tick w)
    | none ↦ answer_from (method w)
  ]

  -- `id, err := uuid.Parse(text)`, with its error returned.
  abbrev pub parsed : {Float A : Type 0} → String → (Uuid → Action Float A) → Action Float A
  parsed text next w = elim (g.parse_uuid text) [ err e ↦ (err e, w) | ok id ↦ next id w ]
