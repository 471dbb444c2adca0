-- ===== src/Notification/Tests.antt =====
-- internal/notification: two users whose tokens are accepted, and messages that are numbers.
use ridesharing.Prelude.{
  zero, suc, arith, length, ℕ, ◌≡◌, refl, String, true, Option, none, some, List, [], ◌∷◌, ◌++◌,
  same_text, if◌then◌else◌,
}
use ridesharing.Errors.{Result, ok, err, plain}
use ridesharing.Models.{Uuid}
use ridesharing.Jwt.{Claims, JwtLibrary, validate_token}
use ridesharing.Notification.{
  Hub, new_hub, get, put, on_register, on_unregister, on_broadcast, offer, close_send, send_to_user,
  web_socket_handler,
}
use mathlib.Core.Path.{subst}
use ridesharing.Prelude.{◌+◌, ◌≤◌, length-append, some_eq, sym, Option-cases, inl, inr, false}
use ridesharing.Notification.{on_broadcast}
use ridesharing.Notification.Stuck.{
  run-cons, pushed, step_send, step_deliver, full_buffer_stops, send_arrives, writes,
}
use ridesharing.Notification.Soundness.{IsSafe}
use ridesharing.Notification.Safety.{run-IsSafe}
use ridesharing.Notification.Parts.{IsPart}
use ridesharing.Notification.Delivery.{run_delivers, sent_to, Admits, Any}
use ridesharing.Notification.{UserMessage, selecting, sending_unregister, buffer}
use ridesharing.Notification.Run.{
  send, Event, connect, take_register, take_unregister, deliver, write, step, run, write_pump,
  broadcast_to_users,
}

abbrev claims : Uuid → Claims
claims user = record {
  user_id = user;
  role = "rider";
  expires_at = 60;
  issued_at = 0;
  not_before = 0;
  issuer = "rideshare";
  subject = user;
  audience = "access" ∷ [];
}

abbrev jwt : JwtLibrary
jwt = record {
  new_numeric_date = λ t. t;
  signed_string = λ c secret. ok "A";
  parse_with_claims = λ now s key.
      if same_text s "A"
      then ok (claims 7, true)
      else if same_text s "B"
      then ok (claims 8, true)
      else err (plain "malformed");
}

abbrev marshal : String → ℕ → Result ℕ
marshal event_type content = ok content

abbrev final : Option (Hub ℕ) → Hub ℕ
final (some h) = h
final none = new_hub

-- Two users connect, a third is refused, and three messages are sent, the second to nobody.
abbrev talk : List (Event ℕ)
talk =
    connect 0 "A" true
    ∷ take_register 0
    ∷ connect 0 "C" true
    ∷ connect 0 "B" true
    ∷ take_register 1
    ∷ (broadcast_to_users (7 ∷ 9 ∷ 8 ∷ []) "ride" 5
        ++ (deliver ∷ deliver ∷ deliver ∷ write 0 true ∷ take_unregister 1 ∷ []))

abbrev talked : Hub ℕ
talked = final (run jwt "key" marshal talk new_hub)

talk-run : run jwt "key" marshal talk new_hub ≡ some talked
unfolding run step on_register on_unregister on_broadcast offer close_send send_to_user
    web_socket_handler validate_token write_pump broadcast_to_users get put
talk-run = refl

run-IsSafe_example : IsSafe talked
run-IsSafe_example = run-IsSafe jwt "key" marshal talk talked talk-run

run_delivers_example :
    IsPart (5 ∷ []) (sent_to jwt "key" marshal 7 talk)
    × Any jwt "key" marshal (Admits jwt "key" marshal 7) talk
unfolding run step on_register on_unregister on_broadcast offer close_send send_to_user
    web_socket_handler validate_token write_pump broadcast_to_users get put
run_delivers_example = run_delivers jwt "key" marshal talk talked 0 talk-run (omega arith)

-- A client that does not read, and messages for it.
abbrev hello : List (Event ℕ)
hello = connect 0 "A" true ∷ take_register 0 ∷ []

abbrev flood : ℕ → List (Event ℕ)
flood zero = send 7 "ride" 4 ∷ []
flood (suc n) = send 7 "ride" 3 ∷ deliver ∷ flood n

abbrev greeted : Hub ℕ
greeted = final (run jwt "key" marshal hello new_hub)

greeted-run : run jwt "key" marshal hello new_hub ≡ some greeted
unfolding run step on_register web_socket_handler validate_token get put
greeted-run = refl

send_arrives_example :
    (h' : Hub ℕ) × (run jwt "key" marshal
        (send 7 "ride" 6 ∷ deliver ∷ writes jwt "key" marshal 0 (6 ∷ []))
        greeted
      ≡ some h')
    × ((h'.store 0).written ≡ 6 ∷ [])
unfolding run step on_register web_socket_handler validate_token get put
send_arrives_example =
    send_arrives jwt "key" marshal hello greeted 7 "ride" 6 6 0 greeted-run refl refl refl refl
      (omega arith) refl

abbrev message : ℕ → UserMessage ℕ
message n = record { user_id = 7; payload = n }

-- The hub waits, and the client 0 of the user 7 has room for so many messages.
abbrev HasRoom : ℕ → Hub ℕ → Type 0
HasRoom n h =
    (h.mode ≡ selecting)
    × (get 7 h.clients ≡ some 0)
    × ((h.store 0).is_closed ≡ false)
    × (length (h.store 0).send + n ≡ buffer)

flood_lem :
    (n : ℕ) (h : Hub ℕ)
    → HasRoom n h
    → h.broadcast ≡ []
    → (h' : Hub ℕ) × (run jwt "key" marshal (flood n) h ≡ some h')
      × HasRoom 0 h'
      × (h'.broadcast ≡ message 4 ∷ [])
unfolding run
flood_lem zero h room e = (
  record h { broadcast = message 4 ∷ [] },
  run-cons jwt "key" marshal _ [] h _ _ (step_send jwt "key" marshal 7 "ride" 4 4 h refl e) refl,
  room,
  refl,
)
flood_lem (suc n) h room e =
    let h₁ : Hub ℕ = record h { broadcast = message 3 ∷ [] } in
    let h₂ : Hub ℕ = record (pushed jwt "key" marshal 0 3 h₁) { broadcast = [] } in
    let (h', later, full, waits) = flood_lem n h₂ (room.0, room.1, room.2, more h room) refl in
    (
      h',
      run-cons jwt "key" marshal (send 7 "ride" 3) (deliver ∷ flood n) h h₁ h'
          (step_send jwt "key" marshal 7 "ride" 3 3 h refl e)
          (run-cons jwt "key" marshal deliver (flood n) h₁ h₂ h'
            (step_deliver jwt "key" marshal (message 3) [] 0 h₁ refl room.0 room.1 room.2
              (omega (arith, room.3)))
            later),
      full,
      waits,
    )
  where
    more : (h : Hub ℕ) → HasRoom (suc n) h → length ((h.store 0).send ++ (3 ∷ [])) + n ≡ buffer
    more h room = omega (arith, room.3, length-append (h.store 0).send (3 ∷ []))

run-append :
    (xs ys : List (Event ℕ)) (h h₁ h₂ : Hub ℕ)
    → run jwt "key" marshal xs h ≡ some h₁
    → run jwt "key" marshal ys h₁ ≡ some h₂
    → run jwt "key" marshal (xs ++ ys) h ≡ some h₂
unfolding run
run-append [] ys h h₁ h₂ e f =
    subst (λ k. run jwt "key" marshal ys k ≡ some h₂) (sym (some_eq _ _ e)) f
run-append (x ∷ xs) ys h h₁ h₂ e f = elim (Option-cases (step jwt "key" marshal x h)) [
  | inl stops ↦ absurd (ground arith)
  | inr (k, go) ↦
      run-cons jwt "key" marshal x (xs ++ ys) h k h₂ go (run-append xs ys k h₁ h₂ (ground arith) f)
]

flooded :
    (h : Hub ℕ) × (run jwt "key" marshal (hello ++ flood 256) new_hub ≡ some h)
    × HasRoom 0 h
    × (h.broadcast ≡ message 4 ∷ [])
unfolding run step on_register web_socket_handler validate_token get put
flooded =
    let (h, e, full, waits) = flood_lem 256 greeted (refl, refl, refl, refl) refl in
    (h, run-append hello (flood 256) new_hub greeted h greeted-run e, full, waits)

abbrev crowded : Hub ℕ
crowded = flooded.0

abbrev stopped : Hub ℕ
stopped = on_broadcast (message 4) (record crowded { broadcast = [] })

stopped-step : step jwt "key" marshal deliver crowded ≡ some stopped
unfolding step on_broadcast
stopped-step = ground (arith, flooded.2, flooded.3)

full_buffer_stops_example :
    let after = (web_socket_handler jwt "key" 1 "B" true stopped).1 in
    (after.mode ≡ sending_unregister 0)
    × (after.clients ≡ crowded.clients)
    × (0 ≤ length after.broadcast)
unfolding run step
full_buffer_stops_example =
    full_buffer_stops jwt "key" marshal (hello ++ flood 256) (connect 1 "B" true ∷ []) crowded
      stopped _ (message 4) [] 0 flooded.1 flooded.3 flooded.2.1 (omega (arith, flooded.2.3))
      stopped-step refl
