-- ===== src/Notification/Stuck.antt =====
-- internal/notification/hub.go: when a message arrives, and when the hub stops.
use mathlib.Core.List.{append-nil, append_assoc}
use ridesharing.Prelude.{
  ◌≤◌, ◌<◌, ◌≡◌, refl, sym, ap, ◌∙◌, String, true, false, some, List, [], ◌∷◌, ◌++◌, length,
  length-append, arith, ==-refl, Option-cases, inl, inr,
}
use ridesharing.Errors.{Result, ok, Result-cases}
use ridesharing.Models.{Uuid}
use ridesharing.Jwt.{JwtLibrary}
use ridesharing.Notification.{
  ClientId, UserMessage, selecting, sending_unregister, Hub, get, buffer, modify, new_hub,
  on_broadcast, offer, send_to_user, web_socket_handler,
}
use ridesharing.Notification.Run.{
  Event, connect, take_register, take_unregister, send, deliver, write, finish, write_pump, step,
  run,
}
use ridesharing.Notification.Safety.{run-IsSafe}

module _ {Bytes Data : Type 0} (jwt : JwtLibrary) (secret : String)
    (marshal : String → Data → Result Bytes) where
  step_stopped :
      (e : Event Data) (h h' : Hub Bytes) (c : ClientId)
      → h.mode ≡ sending_unregister c
      → step jwt secret marshal e h ≡ some h'
      → (h'.mode ≡ sending_unregister c)
        × (h'.clients ≡ h.clients)
        × (length h.broadcast ≤ length h'.broadcast)
  unfolding step web_socket_handler send_to_user
  step_stopped (connect now token upgrades) h h' c at e = ground arith
  step_stopped (take_register d) h h' c at e = ground arith
  step_stopped (take_unregister d) h h' c at e = ground arith
  step_stopped (send u event_type content) h h' c at e =
      elim (Result-cases (marshal event_type content)) [
        | inl (x, bad) ↦ ground arith
        | inr (payload, good) ↦
            let m : UserMessage Bytes = record { user_id = u; payload = payload } in
            ground (arith, length-append h.broadcast (m ∷ []))
      ]
  step_stopped deliver h h' c at e = ground arith
  step_stopped (write d good) h h' c at e = ground arith
  step_stopped (finish d) h h' c at e = ground arith

  run_stopped :
      (es : List (Event Data)) (h h' : Hub Bytes) (c : ClientId)
      → h.mode ≡ sending_unregister c
      → run jwt secret marshal es h ≡ some h'
      → (h'.mode ≡ sending_unregister c)
        × (h'.clients ≡ h.clients)
        × (length h.broadcast ≤ length h'.broadcast)
  unfolding run
  run_stopped [] h h' c at e = ground arith
  run_stopped (ev ∷ es) h h' c at e = elim (Option-cases (step jwt secret marshal ev h)) [
    | inl stops ↦ absurd (ground arith)
    | inr (h₁, go) ↦
        let now = step_stopped ev h h₁ c at go in
        let later = run_stopped es h₁ h' c now.0 (ground arith) in
        (later.0, later.1 ∙ now.1, omega (arith, now.2, later.2))
  ]

  -- From a new hub, after any events: if the hub takes a message for a client of its map whose channel
  -- holds 256 messages, then from there on, whatever happens, it waits for the send on `unregister`
  -- that only it could receive, the map stays as it is, and nothing leaves `broadcast`.
  pub full_buffer_stops :
      (before after : List (Event Data)) (h h₁ h₂ : Hub Bytes) (m : UserMessage Bytes)
      (rest : List (UserMessage Bytes)) (c : ClientId)
      → run jwt secret marshal before new_hub ≡ some h
      → h.broadcast ≡ m ∷ rest
      → get m.user_id h.clients ≡ some c
      → length (h.store c).send ≡ buffer
      → step jwt secret marshal deliver h ≡ some h₁
      → run jwt secret marshal after h₁ ≡ some h₂
      → (h₂.mode ≡ sending_unregister c)
        × (h₂.clients ≡ h.clients)
        × (length rest ≤ length h₂.broadcast)
  unfolding step on_broadcast offer
  full_buffer_stops before after h h₁ h₂ m rest c e waits found full d e' =
      let open_channel = ((run-IsSafe jwt secret marshal before h e).1 m.user_id c found).2 in
      let at : (h₁.mode ≡ sending_unregister c) × (h₁.clients ≡ h.clients) × (h₁.broadcast ≡ rest) =
        ground arith in
      let later = run_stopped after h₁ h₂ c at.0 e' in
      (later.0, later.1 ∙ at.1, omega (arith, later.2, ap length at.2))

  -- The write pump of the client takes one message after another.
  unfoldable pub writes : ClientId → List Bytes → List (Event Data)
  writes c [] = []
  writes c (m ∷ ms) = write c true ∷ writes c ms

  pub run-cons :
      (e : Event Data) (es : List (Event Data)) (h h₁ h' : Hub Bytes)
      → step jwt secret marshal e h ≡ some h₁
      → run jwt secret marshal es h₁ ≡ some h'
      → run jwt secret marshal (e ∷ es) h ≡ some h'
  unfolding run
  run-cons e es h h₁ h' go later = ground arith

  step_write :
      (c : ClientId) (m : Bytes) (ms : List Bytes) (h : Hub Bytes)
      → (h.store c).send ≡ m ∷ ms
      → c < h.next
      → (h.store c).pumping ≡ true
      → let x = (modify c (write_pump true) h).store c in
        (step jwt secret marshal (write c true) h ≡ some (modify c (write_pump true) h))
        × (x.send ≡ ms)
        × (x.pumping ≡ true)
        × (x.written ≡ (h.store c).written ++ (m ∷ []))
  unfolding step write_pump
  step_write c m ms h e made on = ground (arith, ==-refl c)

  drain :
      (l : List Bytes) (c : ClientId) (h : Hub Bytes)
      → (h.store c).send ≡ l
      → c < h.next
      → (h.store c).pumping ≡ true
      → (h' : Hub Bytes) × (run jwt secret marshal (writes c l) h ≡ some h')
        × ((h'.store c).written ≡ (h.store c).written ++ l)
  unfolding run writes
  drain [] c h e made on = (h, refl, sym (append-nil _))
  drain (m ∷ ms) c h e made on =
      let go = step_write c m ms h e made on in
      let (h', later, got) = drain ms c (modify c (write_pump true) h) go.1 made go.2 in
      (
        h',
        run-cons (write c true) (writes c ms) h _ h' go.0 later,
        got ∙ ap (λ l. l ++ ms) go.3 ∙ append_assoc (h.store c).written (m ∷ []) ms,
      )

  pub step_send :
      (user : Uuid) (event_type : String) (content : Data) (payload : Bytes) (h : Hub Bytes)
      → marshal event_type content ≡ ok payload
      → h.broadcast ≡ []
      → step jwt secret marshal (send user event_type content) h
        ≡ some (record h { broadcast = record { user_id = user; payload = payload } ∷ [] })
  unfolding step send_to_user
  step_send user event_type content payload h good e = ground arith

  abbrev pub pushed : ClientId → Bytes → Hub Bytes → Hub Bytes
  pushed c payload = modify c (λ x. record x { send = x.send ++ (payload ∷ []) })

  pub step_deliver :
      (m : UserMessage Bytes) (rest : List (UserMessage Bytes)) (c : ClientId) (h : Hub Bytes)
      → h.broadcast ≡ m ∷ rest
      → h.mode ≡ selecting
      → get m.user_id h.clients ≡ some c
      → (h.store c).is_closed ≡ false
      → length (h.store c).send < buffer
      → step jwt secret marshal deliver h
        ≡ some (record (pushed c m.payload h) { broadcast = rest })
  unfolding step on_broadcast offer
  step_deliver m rest c h e at found o room = ground arith

  pub pushed_lem :
      (c : ClientId) (payload : Bytes) (h : Hub Bytes)
      → let x = (pushed c payload h).store c in
        (x.send ≡ (h.store c).send ++ (payload ∷ []))
        × (x.pumping ≡ (h.store c).pumping)
        × (x.written ≡ (h.store c).written)
  pushed_lem c payload h = ground (arith, ==-refl c)

  -- From a new hub, after any events that leave `Run` at its select with nothing in `broadcast`: a
  -- message sent to a user who has a client in the map with a running write pump and room in its
  -- channel is taken by the hub, and is written to the client's connection after the messages that
  -- waited there, by as many writes that succeed.
  pub send_arrives :
      (before : List (Event Data)) (h : Hub Bytes) (user : Uuid) (event_type : String)
      (content : Data) (payload : Bytes) (c : ClientId)
      → run jwt secret marshal before new_hub ≡ some h
      → h.mode ≡ selecting
      → h.broadcast ≡ []
      → get user h.clients ≡ some c
      → (h.store c).pumping ≡ true
      → length (h.store c).send < buffer
      → marshal event_type content ≡ ok payload
      → (h' : Hub Bytes) × (run jwt secret marshal
            (send user event_type content ∷ deliver ∷ writes c ((h.store c).send ++ (payload ∷ [])))
            h
          ≡ some h')
        × ((h'.store c).written ≡ (h.store c).written ++ ((h.store c).send ++ (payload ∷ [])))
  send_arrives before h user event_type content payload c e at none_wait found on room good =
      let live = (run-IsSafe jwt secret marshal before h e).1 user c found in
      let m : UserMessage Bytes = record { user_id = user; payload = payload } in
      let h₁ : Hub Bytes = record h { broadcast = m ∷ [] } in
      let h₂ : Hub Bytes = record (pushed c payload h₁) { broadcast = [] } in
      let x = pushed_lem c payload h₁ in
      let taken : List (Event Data) = writes c ((h.store c).send ++ (payload ∷ [])) in
      let (h', later, got) =
        drain ((h.store c).send ++ (payload ∷ [])) c h₂ x.0 live.0 (x.1 ∙ on) in
      (
        h',
        run-cons (send user event_type content) (deliver ∷ taken) h h₁ h'
            (step_send user event_type content payload h good none_wait)
            (run-cons deliver taken h₁ h₂ h' (step_deliver m [] c h₁ refl at found live.2 room)
              later),
        got ∙ ap (λ l. l ++ ((h.store c).send ++ (payload ∷ []))) x.2,
      )
