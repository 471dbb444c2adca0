-- ===== src/Ride/Fsm.antt =====
-- internal/ride/fsm.go: the statuses of a ride and the transitions between them.
pub mod Paths
use Prim.Native.String.{◌++◌}
use ridesharing.Prelude.{
  String, Bool, true, false, ◌||◌, Option, none, some, List, [], ◌∷◌, same_text, if◌then◌else◌,
}
use ridesharing.Errors.{Error, plain}
use ridesharing.Models.{RideStatus, requested, matched, enroute, completed, cancelled, other}

-- The text of a status.
unfoldable pub status_text : RideStatus → String
status_text requested = "requested"
status_text matched = "matched"
status_text enroute = "enroute"
status_text completed = "completed"
status_text cancelled = "cancelled"
status_text (other s) = s

-- `==` on statuses.
abbrev pub same_status : RideStatus → RideStatus → Bool
same_status requested requested = true
same_status matched matched = true
same_status enroute enroute = true
same_status completed completed = true
same_status cancelled cancelled = true
same_status (other s) (other t) = same_text s t
same_status _ _ = false

-- The map `validTransitions`; `none` where the key is missing.
unfoldable pub valid_transitions : RideStatus → Option (List RideStatus)
valid_transitions requested = some (matched ∷ cancelled ∷ [])
valid_transitions matched = some (enroute ∷ cancelled ∷ [])
valid_transitions enroute = some (completed ∷ cancelled ∷ [])
valid_transitions completed = some []
valid_transitions cancelled = some []
valid_transitions (other s) = none

abbrev pub contains : List RideStatus → RideStatus → Bool
contains [] to = false
contains (s ∷ ss) to = same_status s to || contains ss to

-- `CanTransition`.
unfoldable pub can_transition : RideStatus → RideStatus → Bool
unfolding valid_transitions
can_transition from to = elim (valid_transitions from) [
  | none ↦ false
  | some allowed ↦ contains allowed to
]

-- `ValidateTransition`: the error, if there is one.
unfoldable pub validate_transition : RideStatus → RideStatus → Option Error
unfolding can_transition status_text
validate_transition from to =
    if can_transition from to
    then none
    else some (plain ("invalid transition from " ++ status_text from ++ " to " ++ status_text to))
