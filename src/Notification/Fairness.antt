-- ===== src/Notification/Fairness.antt =====
-- internal/notification/hub.go: what each client holds of the messages sent to its user, and what the
-- steps of the hub do to it.
use mathlib.Core.Path.{subst}
use mathlib.Core.List.{append_assoc}
use ridesharing.Prelude.{
  ◌<◌, ◌≡◌, ◌⊎◌, refl, sym, String, Bool, true, false, List, [], ◌∷◌, ◌++◌, arith, ◌==◌, Bool-cases,
  inl, inr, same_text, if◌then◌else◌,
}
use ridesharing.Errors.{ok, Result-cases}
use ridesharing.Models.{Uuid, Time}
use ridesharing.Jwt.{JwtLibrary, Claims, validate_token}
use ridesharing.Notification.{
  ClientId, Client, UserMessage, Hub, modify, new_hub, on_register, on_unregister, close_send,
  web_socket_handler, joined,
}
use ridesharing.Notification.Run.{start_pumps, end_reading, write_pump}
use ridesharing.Notification.Parts.{IsPart, IsPart-drop}

module _ {Bytes : Type 0} where
  -- The messages for a user that wait in `broadcast`.
  unfoldable pub addressed : Uuid → List (UserMessage Bytes) → List Bytes
  addressed u [] = []
  addressed u (m ∷ ms) =
      let rest = addressed u ms in if m.user_id == u then m.payload ∷ rest else rest

  -- What a client got, then what waits in its channel, then what waits for its user, is part of what
  -- its user was sent.
  abbrev pub Holds : (Uuid → List Bytes) → List (UserMessage Bytes) → Client Bytes → Type 0
  Holds sent waiting x =
      IsPart (x.written ++ (x.send ++ addressed x.user_id waiting)) (sent x.user_id)

  abbrev pub IsFair : (Uuid → List Bytes) → Hub Bytes → Type 0
  IsFair sent h =
      ((u : Uuid) → IsPart (addressed u h.broadcast) (sent u))
      × ((c : ClientId) → c < h.next → Holds sent h.broadcast (h.store c))

  pub either :
      (P : Client Bytes → Type 0) (b : Bool) (x y : Client Bytes)
      → P x
      → P y
      → P (if b then x else y)
  either P true x y p q = p
  either P false x y p q = q

  -- Nothing that a client holds has changed.
  abbrev pub IsQuiet : Hub Bytes → Hub Bytes → Type 0
  IsQuiet h h' =
      (h'.broadcast ≡ h.broadcast)
      × (h'.next ≡ h.next)
      × ((c : ClientId)
          → ((h'.store c).user_id ≡ (h.store c).user_id)
            × ((h'.store c).send ≡ (h.store c).send)
            × ((h'.store c).written ≡ (h.store c).written))

  pub quiet-IsFair :
      (s : Uuid → List Bytes) (h h' : Hub Bytes) → IsQuiet h h' → IsFair s h → IsFair s h'
  quiet-IsFair s h h' q f = (
    (λ u. subst (λ b. IsPart (addressed u b) (s u)) (sym q.0) (f.0 u)),
    (λ c l. rw ((q.2 c).0, (q.2 c).1, (q.2 c).2, q.0) (f.1 c (ground (arith, q.1)))),
  )

  close_send-IsQuiet : (c : ClientId) (h : Hub Bytes) → IsQuiet h (close_send c h)
  unfolding close_send
  close_send-IsQuiet c h = (ground arith, ground arith, λ d. ground arith)

  pub register-IsQuiet :
      (c : ClientId) (h : Hub Bytes) → IsQuiet h (modify c start_pumps (on_register c h))
  unfolding on_register close_send
  register-IsQuiet c h = (ground arith, ground arith, λ d. ground arith)

  pub unregister-IsQuiet :
      (c : ClientId) (h : Hub Bytes) → IsQuiet h (modify c end_reading (on_unregister c h))
  unfolding on_unregister close_send
  unregister-IsQuiet c h = (ground arith, ground arith, λ d. ground arith)

  pub finish-IsQuiet :
      (c : ClientId) (h : Hub Bytes)
      → IsQuiet h (modify c (λ x. record x { pumping = false; conn_closed = true }) h)
  finish-IsQuiet c h = (refl, refl, λ d. ground arith)

  pub addressed-append :
      (u : Uuid) (ms : List (UserMessage Bytes)) (m : UserMessage Bytes)
      → addressed u (ms ++ (m ∷ []))
        ≡ addressed u ms ++ (if m.user_id == u then m.payload ∷ [] else [])
  unfolding addressed
  addressed-append u [] m = ground arith
  addressed-append u (x ∷ ms) m = ground (arith, addressed-append u ms m)

  write-IsPart :
      (good : Bool) (x : Client Bytes) (rest ys : List Bytes)
      → IsPart (x.written ++ (x.send ++ rest)) ys
      → IsPart ((write_pump good x).written ++ ((write_pump good x).send ++ rest)) ys
  unfolding write_pump
  write-IsPart good x rest ys p = by_send x.send refl
    where
      by_send :
          (l : List Bytes)
          → x.send ≡ l
          → IsPart ((write_pump good x).written ++ ((write_pump good x).send ++ rest)) ys
      by_send [] e = let same : write_pump good x ≡ x = ground arith in rw same p
      by_send (m ∷ ms) e =
          let next : (write_pump good x).send ≡ ms = ground arith in
          elim (Bool-cases good) [
            | inl sent ↦
                let more : (write_pump good x).written ≡ x.written ++ (m ∷ []) = ground arith in
                rw (more, next, append_assoc x.written (m ∷ []) (ms ++ rest))
                  (subst (λ l. IsPart (x.written ++ (l ++ rest)) ys) e p)
            | inr lost ↦
                let as_before : (write_pump good x).written ≡ x.written = ground arith in
                rw (as_before, next)
                  (IsPart-drop x.written (ms ++ rest) ys m
                    (subst (λ l. IsPart (x.written ++ (l ++ rest)) ys) e p))
          ]

  pub write_user : (good : Bool) (x : Client Bytes) → (write_pump good x).user_id ≡ x.user_id
  unfolding write_pump
  write_user good x = ground arith

  pub write-IsFair :
      (s : Uuid → List Bytes) (c : ClientId) (good : Bool) (h : Hub Bytes)
      → c < h.next
      → ((write_pump good (h.store c)).user_id ≡ (h.store c).user_id)
      → IsFair s h
      → IsFair s (modify c (write_pump good) h)
  write-IsFair s c good h made user f = (
    f.0,
    λ d l.
        either (Holds s h.broadcast) (d == c) _ _
          (rw user (write-IsPart good (h.store c) _ _ (f.1 c made))) (f.1 d l),
  )

  pub join-IsFair :
      (s : Uuid → List Bytes) (u : Uuid) (h : Hub Bytes) → IsFair s h → IsFair s (joined u h)
  join-IsFair s u h f = (
    f.0,
    λ c made. elim (Bool-cases (c == h.next)) [
      | inl own ↦ rw own (f.0 u)
      | inr other ↦ rw other (f.1 c (ground arith))
    ],
  )

  pub same-IsFair :
      (s t : Uuid → List Bytes) (h : Hub Bytes) → ((u : Uuid) → t u ≡ s u) → IsFair s h → IsFair t h
  same-IsFair s t h e f =
      ((λ u. rw (e u) (f.0 u)), λ c made. rw (e (h.store c).user_id) (f.1 c made))

pub new_hub-IsFair : (B : Type 0) → IsFair {Bytes = B} (λ u. []) new_hub
unfolding addressed IsPart
new_hub-IsFair B = ((λ u. tt), λ c made. absurd (ground arith))

-- A request to connect changes nothing, or makes a client of the user that a valid token names.
pub connect_cases :
    {Bytes : Type 0} (jwt : JwtLibrary) (secret : String) (now : Time) (token : String)
    (upgrades : Bool) (h : Hub Bytes)
    → ((web_socket_handler jwt secret now token upgrades h).1 ≡ h)
      ⊎ ((claims : Claims) × (validate_token jwt now token secret ≡ ok claims)
          × ((web_socket_handler jwt secret now token upgrades h).1 ≡ joined claims.user_id h))
unfolding web_socket_handler
connect_cases jwt secret now token upgrades h =
    elim (Result-cases (validate_token jwt now token secret)) [
      | inl (e, bad) ↦ inl (ground arith)
      | inr (claims, good) ↦ elim (Bool-cases upgrades) [
        | inr fails ↦ inl (ground arith)
        | inl works ↦ elim (Bool-cases (same_text token "")) [
          | inl blank ↦ inl (ground arith)
          | inr given ↦ inr (claims, good, ground arith)
        ]
      ]
    ]
