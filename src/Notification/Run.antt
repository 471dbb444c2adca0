-- ===== src/Notification/Run.antt =====
-- internal/notification/hub.go: the goroutines of the hub, of the callers and of the clients, as
-- events. An event that waits for another goroutine happens when both are ready.
use ridesharing.Prelude.{
  String, Bool, true, false, ◌&&◌, not, Option, none, some, List, [], ◌∷◌, ◌++◌, ltb, if◌then◌else◌,
}
use ridesharing.Errors.{Result}
use ridesharing.Models.{Uuid, Time}
use ridesharing.Jwt.{JwtLibrary}
use ridesharing.Notification.{
  ClientId, Phase, registering, reading, gone, Client, UserMessage, Mode, selecting, Hub, modify,
  on_register, on_unregister, on_broadcast, send_to_user, web_socket_handler,
}

-- A request to connect, with its token and whether the upgrade succeeds; the rendezvous on `register`;
-- the read error after which the read pump sends on `unregister`; a call of `SendToUser`; the hub's
-- receipt of a broadcast; a write by a write pump, and its end on a drained and closed channel.
pub data Event (Data : Type 0) : Type 0 where
  connect : Time → String → Bool → Event Data
  take_register take_unregister : ClientId → Event Data
  send : Uuid → String → Data → Event Data
  deliver : Event Data
  write : ClientId → Bool → Event Data
  finish : ClientId → Event Data

-- The calls that the loop of `BroadcastToUsers` makes, one after another.
unfoldable pub broadcast_to_users : {Data : Type 0} → List Uuid → String → Data → List (Event Data)
broadcast_to_users [] event_type content = []
broadcast_to_users (id ∷ ids) event_type content =
    send id event_type content ∷ broadcast_to_users ids event_type content

abbrev pub is_selecting : Mode → Bool
is_selecting selecting = true
is_selecting _ = false

abbrev pub is_registering : Phase → Bool
is_registering registering = true
is_registering _ = false

abbrev pub is_reading : Phase → Bool
is_reading reading = true
is_reading _ = false

abbrev pub is_empty : {A : Type 0} → List A → Bool
is_empty [] = true
is_empty (x ∷ xs) = false

module _ {Bytes : Type 0} where
  -- A turn of `writePump` with a message, and whether `WriteMessage` succeeds.
  unfoldable pub write_pump : Bool → Client Bytes → Client Bytes
  write_pump good x = elim x.send [
    | [] ↦ x
    | m ∷ ms ↦
        if good
        then record x { send = ms; written = x.written ++ (m ∷ []) }
        else record x { send = ms; pumping = false; conn_closed = true }
  ]

  -- The handler starts the pumps once its send on `register` has been received.
  abbrev pub start_pumps : Client Bytes → Client Bytes
  start_pumps x = record x { phase = reading; pumping = true }

  -- The deferred calls of `readPump` after the send.
  abbrev pub end_reading : Client Bytes → Client Bytes
  end_reading x = record x { phase = gone; conn_closed = true }

  abbrev pub receive : List (UserMessage Bytes) → Hub Bytes → Option (Hub Bytes)
  receive [] h = none
  receive (msg ∷ rest) h = some (on_broadcast msg (record h { broadcast = rest }))

module _ {Bytes Data : Type 0} (jwt : JwtLibrary) (secret : String)
    (marshal : String → Data → Result Bytes) where
  -- What an event does, where it can happen.
  unfoldable pub step : Event Data → Hub Bytes → Option (Hub Bytes)
  unfolding on_register on_unregister write_pump send_to_user web_socket_handler
  step (connect now token upgrades) h = some (web_socket_handler jwt secret now token upgrades h).1
  step (take_register c) h =
      if ltb c h.next && is_registering (h.store c).phase && is_selecting h.mode
      then some (modify c start_pumps (on_register c h))
      else none
  step (take_unregister c) h =
      if ltb c h.next && is_reading (h.store c).phase && is_selecting h.mode
      then some (modify c end_reading (on_unregister c h))
      else none
  step (send user event_type content) h = send_to_user marshal user event_type content h
  step deliver h = if is_selecting h.mode then receive h.broadcast h else none
  step (write c good) h =
      if ltb c h.next && (h.store c).pumping && not (is_empty (h.store c).send)
      then some (modify c (write_pump good) h)
      else none
  step (finish c) h =
      if ltb c h.next && (h.store c).pumping && (h.store c).is_closed && is_empty (h.store c).send
      then some (modify c (λ x. record x { pumping = false; conn_closed = true }) h)
      else none

  -- Events one after another, where each can happen in its turn.
  unfoldable pub run : List (Event Data) → Hub Bytes → Option (Hub Bytes)
  run [] h = some h
  run (e ∷ es) h = elim (step e h) [ none ↦ none | some h' ↦ run es h' ]
