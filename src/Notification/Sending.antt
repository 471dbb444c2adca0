-- ===== src/Notification/Sending.antt =====
-- internal/notification/hub.go: what the hub does with a message keeps what holds of it.
use mathlib.Core.Path.{subst}
use ridesharing.Prelude.{
  ◌≡◌, refl, sym, Bool, true, false, some, List, [], ◌∷◌, ◌++◌, length, ltb, arith, Bool-cases,
  Option-cases, inl, inr, length-append, some_eq,
}
use ridesharing.Notification.{
  ClientId, Client, UserMessage, sending_unregister, Hub, get, buffer, modify, on_broadcast, offer,
}
use ridesharing.Notification.Run.{write_pump, receive}
use ridesharing.Notification.Soundness.{IsKept, IsSafe, modify-IsSafe}

module _ {Bytes : Type 0} where
  pub offer_fits :
      (c : ClientId) (p : Bytes) (h : Hub Bytes)
      → (h.store c).is_closed ≡ false
      → ltb (length (h.store c).send) buffer ≡ true
      → offer c p h ≡ modify c (λ x. record x { send = x.send ++ (p ∷ []) }) h
  unfolding offer
  offer_fits c p h o fits = ground arith

  pub offer_full :
      (c : ClientId) (p : Bytes) (h : Hub Bytes)
      → (h.store c).is_closed ≡ false
      → ltb (length (h.store c).send) buffer ≡ false
      → offer c p h ≡ record h { mode = sending_unregister c }
  unfolding offer
  offer_full c p h o full = ground arith

  -- A message that the hub takes: the client that stands in the map has an open channel.
  offer-IsSafe :
      (c : ClientId) (p : Bytes) (h : Hub Bytes)
      → (h.store c).is_closed ≡ false
      → IsSafe h
      → IsSafe (offer c p h)
  offer-IsSafe c p h o s = elim (Bool-cases (ltb (length (h.store c).send) buffer)) [
    | inr full ↦
        subst IsSafe (sym (offer_full c p h o full)) ((λ e. absurd (ground arith)), s.1, s.2, s.3)
    | inl fits ↦ subst IsSafe (sym (offer_fits c p h o fits)) (
        modify-IsSafe c (λ x. record x { send = x.send ++ (p ∷ []) }) h refl refl
          (λ u e. (s.1 u c e).3)
          (λ k. (k.0, ground (arith, length-append (h.store c).send (p ∷ [])))) s)
  ]

  pub broadcast-IsSafe :
      (m : UserMessage Bytes) (h : Hub Bytes) → IsSafe h → IsSafe (on_broadcast m h)
  unfolding on_broadcast
  broadcast-IsSafe m h s = elim (Option-cases (get m.user_id h.clients)) [
    | inl e ↦ let same : h ≡ on_broadcast m h = ground arith in subst IsSafe same s
    | inr (c, e) ↦
        let to : offer c m.payload h ≡ on_broadcast m h = ground arith in
        subst IsSafe to (offer-IsSafe c m.payload h (s.1 m.user_id c e).2 s)
  ]

  pub receive-IsSafe :
      (l : List (UserMessage Bytes)) (h h' : Hub Bytes)
      → h.broadcast ≡ l
      → IsSafe h
      → receive l h ≡ some h'
      → IsSafe h'
  receive-IsSafe [] h h' b s e = absurd cc
  receive-IsSafe (m ∷ rest) h h' b s e =
      subst IsSafe (some_eq _ _ e)
        (broadcast-IsSafe m (record h { broadcast = rest }) (s.0, s.1, s.2, ground arith))

  pub write-IsKept :
      (good : Bool) (x : Client Bytes)
      → IsKept x
      → IsKept (write_pump good x)
        × ((write_pump good x).user_id ≡ x.user_id)
        × ((write_pump good x).is_closed ≡ x.is_closed)
        × ((write_pump good x).phase ≡ x.phase)
  unfolding write_pump
  write-IsKept good x k = ground arith
