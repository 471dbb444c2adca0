-- ===== src/Notification.antt =====
-- internal/notification/hub.go and handler.go: the hub of the WebSocket clients. A client is a
-- pointer, which the code compares: a number, with what it points to in the hub's store.
pub mod Run
pub mod Clients
pub mod Soundness
mod Sending
pub mod Safety
pub mod Parts
pub mod Fairness
pub mod Messages
pub mod Delivery
pub mod Stuck
mod Tests
use ridesharing.Prelude.{
  ℕ, suc, String, Bool, true, false, ◌+◌, Option, none, some, List, [], ◌∷◌, ◌++◌, map, length, ltb,
  ◌==◌, same_text, if◌then◌else◌,
}
use ridesharing.Errors.{Result, ok, err}
use ridesharing.Models.{Uuid, Time}
use ridesharing.Jwt.{JwtLibrary, validate_token}

abbrev pub ClientId : Type 0
ClientId = ℕ

-- What a client's handler goroutine and its read pump are at: to send on `register`, to read from the
-- connection (at its end the pump sends on `unregister`), or past that.
pub data Phase : Type 0 where
  registering reading gone : Phase

-- `Client`: the channel `Send` with what is buffered in it, whether the connection and the write pump
-- have ended, and the messages that were written to the connection.
pub record Client (Bytes : Type 0) : Type 0 where
  pub user_id : Uuid
  pub send : List Bytes
  pub is_closed : Bool
  pub conn_closed : Bool
  pub phase : Phase
  pub pumping : Bool
  pub written : List Bytes

pub record UserMessage (Bytes : Type 0) : Type 0 where
  pub user_id : Uuid
  pub payload : Bytes

-- Where `Run` is: at its `select`, at its own send on `unregister`, or ended by a panic.
pub data Mode : Type 0 where
  selecting : Mode
  sending_unregister : ClientId → Mode
  panicked : Mode

pub record Entry : Type 0 where
  pub user_id : Uuid
  pub client : ClientId

-- `Hub`, with the store of the clients: those below `next` have been made.
pub record Hub (Bytes : Type 0) : Type 0 where
  pub clients : List Entry
  pub broadcast : List (UserMessage Bytes)
  pub mode : Mode
  pub store : ClientId → Client Bytes
  pub next : ClientId

-- The map `clients`: its look-up, assignment and `delete`.
unfoldable pub get : Uuid → List Entry → Option ClientId
get u [] = none
get u (e ∷ es) = if e.user_id == u then some e.client else get u es

unfoldable pub put : Uuid → ClientId → List Entry → List Entry
put u c [] = record { user_id = u; client = c } ∷ []
put u c (e ∷ es) =
    if e.user_id == u then record { user_id = u; client = c } ∷ es else e ∷ put u c es

unfoldable pub delete : Uuid → List Entry → List Entry
delete u [] = []
delete u (e ∷ es) = if e.user_id == u then delete u es else e ∷ delete u es

-- The capacity of `broadcast` and of each `Send`.
abbrev pub buffer : ℕ
buffer = 256

module _ {Bytes : Type 0} where
  abbrev pub new_client : Uuid → Client Bytes
  new_client user_id = record {
    user_id = user_id;
    send = [];
    is_closed = false;
    conn_closed = false;
    phase = registering;
    pumping = false;
    written = [];
  }

  -- `NewHub`.
  abbrev pub new_hub : Hub Bytes
  new_hub = record {
    clients = [];
    broadcast = [];
    mode = selecting;
    store = λ c. new_client 0;
    next = 0;
  }

  -- A write to what the pointer points to.
  abbrev pub modify : ClientId → (Client Bytes → Client Bytes) → Hub Bytes → Hub Bytes
  modify c f h = record h { store = λ j. if j == c then f (h.store c) else h.store j }

  -- `close(client.Send)`, which panics on a closed channel.
  unfoldable pub close_send : ClientId → Hub Bytes → Hub Bytes
  close_send c h =
      if (h.store c).is_closed
      then record h { mode = panicked }
      else modify c (λ x. record x { is_closed = true }) h

  abbrev close_conn : ClientId → Hub Bytes → Hub Bytes
  close_conn c = modify c (λ x. record x { conn_closed = true })

  abbrev drop_old : Option ClientId → Hub Bytes → Hub Bytes
  drop_old none h = h
  drop_old (some old) h = close_conn old (close_send old h)

  -- `case client := <-h.register` of `Run`.
  unfoldable pub on_register : ClientId → Hub Bytes → Hub Bytes
  unfolding close_send
  on_register c h =
      let user = (h.store c).user_id in
      let h' = drop_old (get user h.clients) h in record h' { clients = put user c h'.clients }

  -- `case client := <-h.unregister` of `Run`.
  unfoldable pub on_unregister : ClientId → Hub Bytes → Hub Bytes
  unfolding close_send
  on_unregister c h =
      let user = (h.store c).user_id in
      let h' = close_send c h in
      elim (get user h.clients) [
        | none ↦ h
        | some d ↦ if d == c then record h' { clients = delete user h'.clients } else h
      ]

  -- The inner `select` of `Run`: the send does not block; on a full buffer the default is taken. A
  -- send on a closed channel panics.
  unfoldable pub offer : ClientId → Bytes → Hub Bytes → Hub Bytes
  offer c payload h =
      if (h.store c).is_closed
      then record h { mode = panicked }
      else if ltb (length (h.store c).send) buffer
      then modify c (λ x. record x { send = x.send ++ (payload ∷ []) }) h
      else record h { mode = sending_unregister c }

  -- `case msg := <-h.broadcast` of `Run`.
  unfoldable pub on_broadcast : UserMessage Bytes → Hub Bytes → Hub Bytes
  unfolding offer
  on_broadcast msg h = elim (get msg.user_id h.clients) [
    | none ↦ h
    | some c ↦ offer c msg.payload h
  ]

  -- `ConnectedCount`.
  abbrev pub connected_count : Hub Bytes → ℕ
  connected_count h = length h.clients

-- `SendToUser`, where `broadcast` has room; where it has none, the caller waits.
module _ {Bytes Data : Type 0} (marshal : String → Data → Result Bytes) where
  unfoldable pub send_to_user : Uuid → String → Data → Hub Bytes → Option (Hub Bytes)
  send_to_user user event_type content h = elim (marshal event_type content) [
    | err e ↦ some h
    | ok payload ↦
        if ltb (length h.broadcast) buffer
        then some (record h {
          broadcast = h.broadcast ++ (record { user_id = user; payload = payload } ∷ []);
        })
        else none
  ]

pub data Answer : Type 0 where
  status : ℕ → String → Answer
  upgrade_failed : Answer
  upgraded : ClientId → Answer

-- A client is made for a user, at a pointer of its own.
abbrev pub joined : {Bytes : Type 0} → Uuid → Hub Bytes → Hub Bytes
joined user_id h = record h {
  store = λ j. if j == h.next then new_client user_id else h.store j;
  next = suc h.next;
}

-- `WebSocketHandler` up to its send on `register`, with the answer of the upgrade.
module _ {Bytes : Type 0} (jwt : JwtLibrary) (secret : String) where
  unfoldable pub web_socket_handler : Time → String → Bool → Hub Bytes → Answer × Hub Bytes
  web_socket_handler now token upgrades h =
      if same_text token ""
      then (status 401 "token query param required", h)
      else elim (validate_token jwt now token secret) [
        | err e ↦ (status 401 "invalid token", h)
        | ok claims ↦
            if upgrades then (upgraded h.next, joined claims.user_id h) else (upgrade_failed, h)
      ]

-- `KafkaEventHandler`: it parses the key, and notifies nobody.
abbrev pub kafka_event_handler :
    {Bytes : Type 0}
    → (String → Result Uuid)
    → String
    → Bytes
    → Hub Bytes
    → Result (Unit {0}) × Hub Bytes
kafka_event_handler parse key value h = elim (parse key) [ err e ↦ (ok tt, h) | ok id ↦ (ok tt, h) ]
