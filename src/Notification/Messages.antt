-- ===== src/Notification/Messages.antt =====
-- internal/notification/hub.go: what a message that the hub takes, and one that is sent, does to what
-- the clients hold.
use mathlib.Core.Path.{subst}
use mathlib.Core.List.{append-nil, append_assoc}
use ridesharing.Prelude.{
  ◌<◌, ◌≡◌, sym, Bool, true, false, List, [], ◌∷◌, ◌++◌, length, ltb, arith, ◌==◌, Bool-cases,
  Option-cases, inl, inr, if◌then◌else◌,
}
use ridesharing.Models.{Uuid}
use ridesharing.Notification.{
  ClientId, Client, UserMessage, reading, Hub, get, buffer, on_broadcast, offer,
}
use ridesharing.Notification.Parts.{IsPart, IsPart-tail, IsPart-drop, IsPart-last}
use ridesharing.Notification.Soundness.{IsSafe}
use ridesharing.Notification.Sending.{offer_fits, offer_full}
use ridesharing.Notification.Fairness.{IsFair, Holds, addressed, addressed-append, either}

module _ {Bytes : Type 0} where
  -- The hub takes the message: whoever is not given it holds less than before.
  skip_part :
      (s : Uuid → List Bytes) (m : UserMessage Bytes) (rest : List (UserMessage Bytes))
      (x : Client Bytes)
      → Holds s (m ∷ rest) x
      → Holds s rest x
  unfolding addressed
  skip_part s m rest x p = elim (Bool-cases (m.user_id == x.user_id)) [
    | inr other ↦ rw other at p
    | inl own ↦
        subst (λ l. IsPart l (s x.user_id))
          (append_assoc x.written x.send (addressed x.user_id rest))
          (IsPart-drop (x.written ++ x.send) (addressed x.user_id rest) (s x.user_id) m.payload (
            subst (λ l. IsPart l (s x.user_id)) (sym (append_assoc x.written x.send _))
              (rw own at p)))
  ]

  give_part :
      (s : Uuid → List Bytes) (m : UserMessage Bytes) (rest : List (UserMessage Bytes))
      (x : Client Bytes)
      → x.user_id ≡ m.user_id
      → Holds s (m ∷ rest) x
      → Holds s rest (record x { send = x.send ++ (m.payload ∷ []) })
  unfolding addressed
  give_part s m rest x user p =
      let own : (m.user_id == x.user_id) ≡ true = ground arith in
      rw (append_assoc x.send (m.payload ∷ []) (addressed x.user_id rest)) (rw own at p)

  waiting-IsPart :
      (s : Uuid → List Bytes) (m : UserMessage Bytes) (rest : List (UserMessage Bytes)) (u : Uuid)
      → IsPart (addressed u (m ∷ rest)) (s u)
      → IsPart (addressed u rest) (s u)
  unfolding addressed
  waiting-IsPart s m rest u p = elim (Bool-cases (m.user_id == u)) [
    | inr other ↦ rw other at p
    | inl own ↦ IsPart-tail m.payload _ _ (rw own at p)
  ]

  skip-IsFair :
      (s : Uuid → List Bytes) (m : UserMessage Bytes) (rest : List (UserMessage Bytes))
      (h : Hub Bytes)
      → h.broadcast ≡ m ∷ rest
      → IsFair s h
      → IsFair s (record h { broadcast = rest })
  skip-IsFair s m rest h e f = (
    (λ u. waiting-IsPart s m rest u (subst (λ l. IsPart (addressed u l) (s u)) e (f.0 u))),
    λ c made. skip_part s m rest (h.store c) (subst (λ l. Holds s l (h.store c)) e (f.1 c made)),
  )

  pub deliver-IsFair :
      (s : Uuid → List Bytes) (m : UserMessage Bytes) (rest : List (UserMessage Bytes))
      (h : Hub Bytes)
      → h.broadcast ≡ m ∷ rest
      → IsSafe h
      → IsFair s h
      → IsFair s (on_broadcast m (record h { broadcast = rest }))
  unfolding on_broadcast
  deliver-IsFair s m rest h e safe f = elim (Option-cases (get m.user_id h.clients)) [
    | inl absent ↦
        let same : record h { broadcast = rest } ≡ on_broadcast m (record h { broadcast = rest }) =
          ground arith in
        subst (IsFair s) same (skip-IsFair s m rest h e f)
    | inr (c, found) ↦
        let to : offer c m.payload (record h { broadcast = rest })
            ≡ on_broadcast m (record h { broadcast = rest }) =
          ground arith in
        subst (IsFair s) to (given c (safe.1 m.user_id c found))
  ]
    where
      given :
          (c : ClientId)
          → (c < h.next)
            × ((h.store c).user_id ≡ m.user_id)
            × ((h.store c).is_closed ≡ false)
            × ((h.store c).phase ≡ reading)
          → IsFair s (offer c m.payload (record h { broadcast = rest }))
      given c live = elim (Bool-cases (ltb (length (h.store c).send) buffer)) [
        | inr full ↦
            rw (offer_full c m.payload (record h { broadcast = rest }) live.2 full)
              (skip-IsFair s m rest h e f)
        | inl fits ↦
            let after = skip-IsFair s m rest h e f in
            rw (offer_fits c m.payload (record h { broadcast = rest }) live.2 fits) (
              after.0,
              λ d made.
                  either (Holds s rest) (d == c) _ _
                    (give_part s m rest (h.store c) live.1
                      (subst (λ l. Holds s l (h.store c)) e (f.1 c live.0)))
                    (after.1 d made),
            )
      ]

  -- Sent to one user more.
  unfoldable pub sent_more : Uuid → Bytes → (Uuid → List Bytes) → Uuid → List Bytes
  sent_more v p s u = s u ++ (if v == u then p ∷ [] else [])

  more-IsPart :
      (xs : List Bytes) (s : Uuid → List Bytes) (v u : Uuid) (p : Bytes)
      → IsPart xs (s u)
      → IsPart (xs ++ (if v == u then p ∷ [] else [])) (sent_more v p s u)
  unfolding sent_more
  more-IsPart xs s v u p part = by_user (v == u)
    where
      by_user :
          (b : Bool) → IsPart (xs ++ (if b then p ∷ [] else [])) (s u ++ (if b then p ∷ [] else []))
      by_user true = IsPart-last xs (s u) p part
      by_user false = rw (append-nil xs, append-nil (s u)) part

  abbrev sent_for : UserMessage Bytes → Uuid → List Bytes
  sent_for m u = if m.user_id == u then m.payload ∷ [] else []

  pub send-IsFair :
      (s : Uuid → List Bytes) (m : UserMessage Bytes) (h : Hub Bytes)
      → IsFair s h
      → IsFair (sent_more m.user_id m.payload s) (record h { broadcast = h.broadcast ++ (m ∷ []) })
  send-IsFair s m h f = (
    (λ u.
        rw (addressed-append u h.broadcast m)
          (more-IsPart (addressed u h.broadcast) s m.user_id u m.payload (f.0 u))),
    λ c made.
        let x = h.store c in
        rw
          (
            addressed-append x.user_id h.broadcast m,
            sym (append_assoc x.send (addressed x.user_id h.broadcast) (sent_for m x.user_id)),
            sym (
                append_assoc x.written (x.send ++ addressed x.user_id h.broadcast)
                  (sent_for m x.user_id)),
          )
          (more-IsPart _ s m.user_id x.user_id m.payload (f.1 c made)),
  )
