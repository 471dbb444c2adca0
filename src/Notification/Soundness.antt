-- ===== src/Notification/Soundness.antt =====
-- internal/notification/hub.go: what holds of the hub between two receipts, and that what it does with
-- a client or a message keeps it.
use ridesharing.Prelude.{
  ◌≤◌, ◌<◌, ◌≡◌, ◌≢◌, refl, true, false, none, some, length, arith, ◌==◌, ==_iff, ==-refl,
  Bool-cases, Option-cases, inl, inr,
}
use ridesharing.Models.{Uuid}
use ridesharing.Notification.{
  ClientId, registering, reading, Client, panicked, Hub, get, buffer, modify, put, delete,
  on_register, on_unregister, close_send,
}
use ridesharing.Notification.Clients.{
  get-put_self, get-put_other, get-delete_self, get-delete_other,
}
use ridesharing.Notification.Run.{start_pumps, end_reading}

module _ {Bytes : Type 0} where
  -- A registered client: it has been made, belongs to the user it stands under, reads, and its channel
  -- is open.
  abbrev pub IsLive : Hub Bytes → Uuid → ClientId → Type 0
  IsLive h u c =
      (c < h.next)
      × ((h.store c).user_id ≡ u)
      × ((h.store c).is_closed ≡ false)
      × ((h.store c).phase ≡ reading)

  -- A client of the store: not closed before it is registered, and never over its buffer.
  abbrev pub IsKept : Client Bytes → Type 0
  IsKept x = (x.phase ≡ registering → x.is_closed ≡ false) × (length x.send ≤ buffer)

  abbrev pub IsSafe : Hub Bytes → Type 0
  IsSafe h =
      (h.mode ≢ panicked)
      × ((u : Uuid) (c : ClientId) → get u h.clients ≡ some c → IsLive h u c)
      × ((c : ClientId) → IsKept (h.store c))
      × (length h.broadcast ≤ buffer)

  -- A write to a client that leaves its user, keeps its channel open if it was, and is itself sound.
  pub modify-IsSafe :
      (c : ClientId) (f : Client Bytes → Client Bytes) (h : Hub Bytes)
      → ((f (h.store c)).user_id ≡ (h.store c).user_id)
      → ((f (h.store c)).is_closed ≡ (h.store c).is_closed)
      → ((u : Uuid) → get u h.clients ≡ some c → (f (h.store c)).phase ≡ reading)
      → (IsKept (h.store c) → IsKept (f (h.store c)))
      → IsSafe h
      → IsSafe (modify c f h)
  modify-IsSafe c f h user closed phase kept s =
      (s.0, (λ u d e. ground (arith, s.1 u d e, phase u)), (λ d. ground (arith, s.2 d, s.2 c)), s.3)

  -- What `Run` does with a client that it receives, by what the map has for its user.
  abbrev pub entered : ClientId → Uuid → Hub Bytes → Hub Bytes
  entered c u h = record h { clients = put u c h.clients }

  abbrev pub dropped : ClientId → Hub Bytes → Hub Bytes
  dropped old h =
      modify old (λ x. record x { conn_closed = true })
        (modify old (λ x. record x { is_closed = true }) h)

  abbrev pub removed : ClientId → Hub Bytes → Hub Bytes
  removed c h = record (modify c (λ x. record x { is_closed = true }) h) {
    clients = delete (h.store c).user_id h.clients;
  }

  pub register_first :
      (c : ClientId) (h : Hub Bytes)
      → get (h.store c).user_id h.clients ≡ none
      → on_register c h ≡ entered c (h.store c).user_id h
  unfolding on_register
  register_first c h e = rw e refl

  pub register_again :
      (c old : ClientId) (h : Hub Bytes)
      → get (h.store c).user_id h.clients ≡ some old
      → (h.store old).is_closed ≡ false
      → on_register c h ≡ entered c (h.store c).user_id (dropped old h)
  unfolding on_register close_send
  register_again c old h e o = rw (e, o) refl

  pub unregister_other :
      (c : ClientId) (h : Hub Bytes)
      → get (h.store c).user_id h.clients ≢ some c
      → on_unregister c h ≡ h
  unfolding on_unregister close_send
  unregister_other c h ne = ground arith

  pub unregister_live :
      (c : ClientId) (h : Hub Bytes)
      → get (h.store c).user_id h.clients ≡ some c
      → (h.store c).is_closed ≡ false
      → on_unregister c h ≡ removed c h
  unfolding on_unregister close_send
  unregister_live c h e o = ground (arith, ==-refl c)

  -- The client is registered for its user, where the map has the entry at most of a client that has
  -- been closed.
  enter-IsSafe :
      (c : ClientId) (u : Uuid) (h : Hub Bytes)
      → (h.store c).user_id ≡ u
      → c < h.next
      → (h.store c).phase ≡ registering
      → (h.mode ≢ panicked)
      → ((v : Uuid) (d : ClientId) → v ≢ u → get v h.clients ≡ some d → IsLive h v d)
      → ((d : ClientId) → IsKept (h.store d))
      → (length h.broadcast ≤ buffer)
      → IsSafe (modify c start_pumps (entered c u h))
  enter-IsSafe c u h user made ph mode live kept room = (
    mode,
    (λ v d e. elim (Bool-cases (v == u)) [
      | inl own ↦ ground (arith, ==_iff v u, get-put_self v c h.clients, kept c)
      | inr other ↦ ground (arith, get-put_other v u c h.clients, live v d)
    ]),
    (λ d. ground (arith, kept d, kept c)),
    room,
  )

  pub register-IsSafe :
      (c : ClientId) (h : Hub Bytes)
      → IsSafe h
      → c < h.next
      → (h.store c).phase ≡ registering
      → IsSafe (modify c start_pumps (on_register c h))
  register-IsSafe c h s made ph = elim (Option-cases (get (h.store c).user_id h.clients)) [
    | inl e ↦
        rw (register_first c h e)
          (enter-IsSafe c (h.store c).user_id h refl made ph s.0 (λ v d ne. s.1 v d) s.2 s.3)
    | inr (old, e) ↦
        let live = s.1 (h.store c).user_id old e in
        let differ : c ≢ old = λ same. ground (arith, live) in
        rw (register_again c old h e live.2) (
          enter-IsSafe c (h.store c).user_id (dropped old h) (ground arith) made (ground arith) s.0
            (λ v d ne g. ground (arith, s.1 v d g)) (λ d. ground (arith, s.2 d, s.2 old)) s.3)
  ]

  -- A client that is in no entry stops reading.
  leave-IsSafe :
      (c : ClientId) (h : Hub Bytes)
      → IsSafe h
      → get (h.store c).user_id h.clients ≢ some c
      → IsSafe (modify c end_reading h)
  leave-IsSafe c h s absent =
      modify-IsSafe c end_reading h refl refl (λ u e. ground (arith, s.1 u c e)) (λ k. ground arith)
        s

  -- The entry of a live client is removed, and its channel closed.
  remove-IsSafe :
      (c : ClientId) (h : Hub Bytes)
      → IsSafe h
      → (h.store c).phase ≡ reading
      → get (h.store c).user_id h.clients ≡ some c
      → IsSafe (removed c h)
  remove-IsSafe c h s ph e = (
    s.0,
    (λ v d g. elim (Bool-cases (v == (h.store c).user_id)) [
      | inl own ↦ ground (arith, ==_iff v (h.store c).user_id, get-delete_self v h.clients)
      | inr other ↦ ground (arith, get-delete_other v (h.store c).user_id h.clients, s.1 v d)
    ]),
    (λ d. ground (arith, s.2 d, s.2 c)),
    s.3,
  )

  pub unregister-IsSafe :
      (c : ClientId) (h : Hub Bytes)
      → IsSafe h
      → (h.store c).phase ≡ reading
      → IsSafe (modify c end_reading (on_unregister c h))
  unregister-IsSafe c h s ph = elim (Option-cases (get (h.store c).user_id h.clients)) [
    | inl e ↦ absent (λ g. ground arith)
    | inr (d, e) ↦ elim (Bool-cases (d == c)) [
      | inr other ↦ absent (λ g. ground arith)
      | inl same ↦ held (ground arith)
    ]
  ]
    where
      absent :
          get (h.store c).user_id h.clients ≢ some c
          → IsSafe (modify c end_reading (on_unregister c h))
      absent ne = rw (unregister_other c h ne) (leave-IsSafe c h s ne)

      held :
          get (h.store c).user_id h.clients ≡ some c
          → IsSafe (modify c end_reading (on_unregister c h))
      held e = rw (unregister_live c h e (s.1 (h.store c).user_id c e).2) (
          leave-IsSafe c (removed c h) (remove-IsSafe c h s ph e)
            (λ g. ground (arith, get-delete_self (h.store c).user_id h.clients)))
