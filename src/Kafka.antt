-- ===== src/Kafka.antt =====
-- pkg/kafka/kafka.go: the loop of a consumer. The reader and the writer are kafka-go's.
mod Consumed
use ridesharing.Prelude.{String, Bool, true, false, List, [], ◌∷◌}
use ridesharing.Errors.{Result}

pub record Message (Bytes : Type 0) : Type 0 where
  pub key : String
  pub value : Bytes

-- What one pass of the loop meets: a context that is done, a message, or an error of the reader, and
-- with the error whether the context has an error then.
pub data Pass (Bytes : Type 0) : Type 0 where
  done : Pass Bytes
  received : Message Bytes → Pass Bytes
  failed : Bool → Pass Bytes

module _ {Bytes W : Type 0} (handler : String → Bytes → W → Result (Unit {0}) × W) where
  -- `Consume` for these passes: whether it has returned, and what the handler left. An error of the
  -- handler is logged only, and so is one of the reader, after which the loop sleeps for a second.
  unfoldable pub consume : List (Pass Bytes) → W → Bool × W
  consume [] w = (false, w)
  consume (done ∷ ps) w = (true, w)
  consume (received m ∷ ps) w = consume ps (handler m.key m.value w).1
  consume (failed true ∷ ps) w = (true, w)
  consume (failed false ∷ ps) w = consume ps w
