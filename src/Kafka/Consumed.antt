-- ===== src/Kafka/Consumed.antt =====
-- pkg/kafka/kafka.go: which messages reach the handler of a consumer.
use ridesharing.Prelude.{◌≡◌, refl, ◌∙◌, arith, String, true, false, List, [], ◌∷◌}
use ridesharing.Errors.{Result}
use ridesharing.Models.{Uuid}
use ridesharing.Notification.{Hub, kafka_event_handler}
use ridesharing.Kafka.{Message, Pass, done, received, failed, consume}

module _ {Bytes : Type 0} where
  -- The messages received before the context ends.
  abbrev messages : List (Pass Bytes) → List (Message Bytes)
  messages [] = []
  messages (done ∷ ps) = []
  messages (received m ∷ ps) = m ∷ messages ps
  messages (failed true ∷ ps) = []
  messages (failed false ∷ ps) = messages ps

  module _ {W : Type 0} (handler : String → Bytes → W → Result (Unit {0}) × W) where
    abbrev handle_all : List (Message Bytes) → W → W
    handle_all [] w = w
    handle_all (m ∷ ms) w = handle_all ms (handler m.key m.value w).1

    -- Every message received before the context ends reaches the handler once, in order, also after an
    -- error of the handler or of the reader.
    consume_handles :
        (ps : List (Pass Bytes)) (w : W) → (consume handler ps w).1 ≡ handle_all (messages ps) w
    unfolding consume
    consume_handles [] w = refl
    consume_handles (done ∷ ps) w = refl
    consume_handles (received m ∷ ps) w = consume_handles ps (handler m.key m.value w).1
    consume_handles (failed true ∷ ps) w = refl
    consume_handles (failed false ∷ ps) w = consume_handles ps w

  handles_nothing :
      (parse : String → Result Uuid) (key : String) (value : Bytes) (h : Hub Bytes)
      → (kafka_event_handler parse key value h).1 ≡ h
  handles_nothing parse key value h = ground arith

  -- Whatever arrives from Kafka, the consumer of the gateway leaves the hub as it was.
  consume-kafka_event_handler :
      (parse : String → Result Uuid) (ps : List (Pass Bytes)) (h : Hub Bytes)
      → (consume (kafka_event_handler parse) ps h).1 ≡ h
  unfolding consume
  consume-kafka_event_handler parse [] h = refl
  consume-kafka_event_handler parse (done ∷ ps) h = refl
  consume-kafka_event_handler parse (received m ∷ ps) h =
      consume-kafka_event_handler parse ps (kafka_event_handler parse m.key m.value h).1
      ∙ handles_nothing parse m.key m.value h
  consume-kafka_event_handler parse (failed true ∷ ps) h = refl
  consume-kafka_event_handler parse (failed false ∷ ps) h = consume-kafka_event_handler parse ps h
