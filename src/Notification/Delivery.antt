-- ===== src/Notification/Delivery.antt =====
-- internal/notification/hub.go: which messages reach which client, and in what order.
use mathlib.Core.Path.{subst}
use mathlib.Core.List.{append-nil, append_assoc}
use ridesharing.Prelude.{
  ◌<◌, ◌≡◌, ◌⊎◌, refl, sym, ap, ◌∙◌, String, Bool, some, List, [], ◌∷◌, ◌++◌, length, ltb, arith,
  ◌==◌, Bool-cases, Option-cases, inl, inr, some_if, some_eq, if◌then◌else◌,
}
use ridesharing.Errors.{Result, ok, err, Result-cases}
use ridesharing.Models.{Uuid, Time}
use ridesharing.Jwt.{JwtLibrary, Claims, validate_token}
use ridesharing.Notification.{
  ClientId, UserMessage, Hub, buffer, new_hub, on_broadcast, offer, send_to_user,
  web_socket_handler, joined,
}
use ridesharing.Notification.Run.{
  Event, connect, take_register, take_unregister, send, deliver, write, finish, is_selecting,
  write_pump, receive, step, run,
}
use ridesharing.Notification.Parts.{IsPart, IsPart-head}
use ridesharing.Notification.Fairness.{
  IsFair, IsQuiet, connect_cases, quiet-IsFair, register-IsQuiet, unregister-IsQuiet,
  finish-IsQuiet, write_user, write-IsFair, join-IsFair, same-IsFair, new_hub-IsFair,
}
use ridesharing.Notification.Messages.{sent_more, deliver-IsFair, send-IsFair}
use ridesharing.Notification.Soundness.{IsSafe}
use ridesharing.Notification.Safety.{step-IsSafe, new_hub-IsSafe}

module _ {Bytes Data : Type 0} (jwt : JwtLibrary) (secret : String)
    (marshal : String → Data → Result Bytes) where
  -- The messages that calls of `SendToUser` for a user made, in order.
  unfoldable pub sent_to : Uuid → List (Event Data) → List Bytes
  sent_to u [] = []
  sent_to u (send v event_type content ∷ es) =
      let rest = sent_to u es in
      elim (marshal event_type content) [
        | err x ↦ rest
        | ok payload ↦ if v == u then payload ∷ rest else rest
      ]
  sent_to u (e ∷ es) = sent_to u es

  connect-IsFair :
      (s : Uuid → List Bytes) (now : Time) (token : String) (upgrades : Bool) (h : Hub Bytes)
      → IsFair s h
      → IsFair s (web_socket_handler jwt secret now token upgrades h).1
  connect-IsFair s now token upgrades h f = elim (connect_cases jwt secret now token upgrades h) [
    | inl same ↦ subst (IsFair s) (sym same) f
    | inr (claims, good, to) ↦ subst (IsFair s) (sym to) (join-IsFair s claims.user_id h f)
  ]

  quiet_step : (s : Uuid → List Bytes) (h h' : Hub Bytes) → IsFair s h' → IsFair (λ u. s u ++ []) h'
  quiet_step s h h' f = same-IsFair s (λ u. s u ++ []) h' (λ u. append-nil (s u)) f

  received-IsFair :
      (s : Uuid → List Bytes) (l : List (UserMessage Bytes)) (h h' : Hub Bytes)
      → h.broadcast ≡ l
      → IsSafe h
      → receive l h ≡ some h'
      → IsFair s h
      → IsFair s h'
  received-IsFair s [] h h' b safe e f = absurd cc
  received-IsFair s (m ∷ rest) h h' b safe e f =
      subst (IsFair s) (some_eq _ _ e) (deliver-IsFair s m rest h b safe f)

  step-IsFair :
      (s : Uuid → List Bytes) (e : Event Data) (h h' : Hub Bytes)
      → IsSafe h
      → step jwt secret marshal e h ≡ some h'
      → IsFair s h
      → IsFair (λ u. s u ++ sent_to u (e ∷ [])) h'
  unfolding step sent_to sent_more send_to_user
  step-IsFair s (connect now token upgrades) h h' safe e f =
      quiet_step s h h' (subst (IsFair s) (some_eq _ _ e) (connect-IsFair s now token upgrades h f))
  step-IsFair s (take_register c) h h' safe e f =
      quiet_step s h h'
        (quiet-IsFair s h h' (subst (IsQuiet h) (some_if _ _ _ e).1 (register-IsQuiet c h)) f)
  step-IsFair s (take_unregister c) h h' safe e f =
      quiet_step s h h'
        (quiet-IsFair s h h' (subst (IsQuiet h) (some_if _ _ _ e).1 (unregister-IsQuiet c h)) f)
  step-IsFair s (send u event_type content) h h' safe e f =
      elim (Result-cases (marshal event_type content)) [
        | inl (x, bad) ↦
            let same : h ≡ h' = ground arith in
            same-IsFair s _ h' (λ v. ground (arith, append-nil (s v))) (subst (IsFair s) same f)
        | inr (payload, good) ↦ elim (Bool-cases (ltb (length h.broadcast) buffer)) [
          | inr full ↦ absurd (ground arith)
          | inl fits ↦
              let m : UserMessage Bytes = record { user_id = u; payload = payload } in
              let to : record h { broadcast = h.broadcast ++ (m ∷ []) } ≡ h' = ground arith in
              same-IsFair (sent_more u payload s) _ h' (λ v. ground arith)
                (subst (IsFair (sent_more u payload s)) to (send-IsFair s m h f))
        ]
      ]
  step-IsFair s deliver h h' safe e f = quiet_step s h h' (elim (Bool-cases (is_selecting h.mode)) [
    | inl on ↦ received-IsFair s h.broadcast h h' refl safe (ground arith) f
    | inr off ↦ absurd (ground arith)
  ])
  step-IsFair s (write c good) h h' safe e f =
      let g = some_if _ _ _ e in
      quiet_step s h h' (
        subst (IsFair s) g.1
          (write-IsFair s c good h (ground (arith, g.0)) (write_user good (h.store c)) f))
  step-IsFair s (finish c) h h' safe e f =
      quiet_step s h h'
        (quiet-IsFair s h h' (subst (IsQuiet h) (some_if _ _ _ e).1 (finish-IsQuiet c h)) f)

  -- A request to connect with a valid token of the user.
  unfoldable pub Admits : Uuid → Event Data → Type 0
  Admits u (connect now token upgrades) =
      (claims : Claims) × (validate_token jwt now token secret ≡ ok claims) × (claims.user_id ≡ u)
  Admits u _ = ⊥

  unfoldable pub Any : (Event Data → Type 0) → List (Event Data) → Type 0
  Any P [] = ⊥
  Any P (e ∷ es) = P e ⊎ Any P es

  -- Every client was there before, for the same user, or the event admits it.
  abbrev Origin : Event Data → Hub Bytes → Hub Bytes → Type 0
  Origin e h h' =
      (c : ClientId)
      → c < h'.next
      → ((c < h.next) × ((h.store c).user_id ≡ (h'.store c).user_id))
        ⊎ Admits (h'.store c).user_id e

  quiet-Origin : (e : Event Data) (h h' : Hub Bytes) → IsQuiet h h' → Origin e h h'
  quiet-Origin e h h' q c made = inl (ground (arith, q.1), sym (q.2 c).0)

  join-Origin :
      (now : Time) (token : String) (upgrades : Bool) (h : Hub Bytes) (claims : Claims)
      → validate_token jwt now token secret ≡ ok claims
      → Origin (connect now token upgrades) h (joined claims.user_id h)
  unfolding Admits
  join-Origin now token upgrades h claims good c made = elim (Bool-cases (c == h.next)) [
    | inl own ↦ inr (claims, good, rw own refl)
    | inr other ↦ inl (ground arith, rw other refl)
  ]

  receive-Origin :
      (l : List (UserMessage Bytes)) (h h' : Hub Bytes)
      → receive l h ≡ some h'
      → Origin deliver h h'
  unfolding on_broadcast offer
  receive-Origin [] h h' e c made = absurd cc
  receive-Origin (m ∷ rest) h h' e c made = inl (ground (arith, some_eq _ _ e))

  step-Origin :
      (e : Event Data) (h h' : Hub Bytes) → step jwt secret marshal e h ≡ some h' → Origin e h h'
  unfolding step send_to_user write_pump
  step-Origin (connect now token upgrades) h h' e c made =
      elim (connect_cases jwt secret now token upgrades h) [
        | inl same ↦
            subst (Origin (connect now token upgrades) h) (sym same ∙ some_eq _ _ e)
              (λ d m. inl (m, refl)) c made
        | inr (claims, good, to) ↦
            subst (Origin (connect now token upgrades) h) (sym to ∙ some_eq _ _ e)
              (join-Origin now token upgrades h claims good) c made
      ]
  step-Origin (take_register d) h h' e c made =
      quiet-Origin _ h h' (subst (IsQuiet h) (some_if _ _ _ e).1 (register-IsQuiet d h)) c made
  step-Origin (take_unregister d) h h' e c made =
      quiet-Origin _ h h' (subst (IsQuiet h) (some_if _ _ _ e).1 (unregister-IsQuiet d h)) c made
  step-Origin (send u event_type content) h h' e c made = inl (ground arith)
  step-Origin deliver h h' e c made = elim (Bool-cases (is_selecting h.mode)) [
    | inl on ↦ receive-Origin h.broadcast h h' (ground arith) c made
    | inr off ↦ absurd (ground arith)
  ]
  step-Origin (write d good) h h' e c made =
      inl (ground (arith, some_if _ _ _ e, write_user good (h.store d)))
  step-Origin (finish d) h h' e c made =
      quiet-Origin _ h h' (subst (IsQuiet h) (some_if _ _ _ e).1 (finish-IsQuiet d h)) c made

  sent_to-cons :
      (u : Uuid) (e : Event Data) (es : List (Event Data))
      → sent_to u (e ∷ []) ++ sent_to u es ≡ sent_to u (e ∷ es)
  unfolding sent_to
  sent_to-cons u e es = ground arith

  run-IsFair :
      (s : Uuid → List Bytes) (es : List (Event Data)) (h h' : Hub Bytes)
      → IsSafe h
      → run jwt secret marshal es h ≡ some h'
      → IsFair s h
      → IsFair (λ u. s u ++ sent_to u es) h'
  unfolding run sent_to
  run-IsFair s [] h h' safe e f = quiet_step s h h' (subst (IsFair s) (some_eq _ _ e) f)
  run-IsFair s (ev ∷ es) h h' safe e f = elim (Option-cases (step jwt secret marshal ev h)) [
    | inl stops ↦ absurd (ground arith)
    | inr (h₁, go) ↦
        same-IsFair _ _ h'
          (λ u. sym (
            append_assoc (s u) (sent_to u (ev ∷ [])) (sent_to u es)
            ∙ ap (λ l. s u ++ l) (sent_to-cons u ev es)))
          (run-IsFair (λ u. s u ++ sent_to u (ev ∷ [])) es h₁ h'
            (step-IsSafe jwt secret marshal ev h h₁ safe go) (ground arith)
            (step-IsFair s ev h h₁ safe go f))
  ]

  run-Origin :
      (es : List (Event Data)) (h h' : Hub Bytes) (c : ClientId)
      → run jwt secret marshal es h ≡ some h'
      → c < h'.next
      → ((c < h.next) × ((h.store c).user_id ≡ (h'.store c).user_id))
        ⊎ Any (Admits (h'.store c).user_id) es
  unfolding run Any
  run-Origin [] h h' c e made = inl (ground (arith, some_eq _ _ e))
  run-Origin (ev ∷ es) h h' c e made = elim (Option-cases (step jwt secret marshal ev h)) [
    | inl stops ↦ absurd (ground arith)
    | inr (h₁, go) ↦ elim (run-Origin es h₁ h' c (ground arith) made) [
      | inr later ↦ inr (inr later)
      | inl (before, same) ↦ elim (step-Origin ev h h₁ go c before) [
        | inl (first, user) ↦ inl (first, user ∙ same)
        | inr admits ↦ inr (inl (subst (λ u. Admits u ev) same admits))
      ]
    ]
  ]

  -- From a new hub, after any events: what was written to the connection of a client is, in order and
  -- without repetition, part of the messages that SendToUser was called with for the client's own user,
  -- and one of the events was a request to connect with a valid token of that user.
  pub run_delivers :
      (es : List (Event Data)) (h : Hub Bytes) (c : ClientId)
      → run jwt secret marshal es new_hub ≡ some h
      → c < h.next
      → IsPart (h.store c).written (sent_to (h.store c).user_id es)
        × Any (Admits (h.store c).user_id) es
  run_delivers es h c e made = (
    IsPart-head (h.store c).written _ _ (
        (run-IsFair (λ u. []) es new_hub h (new_hub-IsSafe Bytes) e (new_hub-IsFair Bytes)).1 c
          made),
    elim (run-Origin es new_hub h c e made) [
      | inl (none_made, same) ↦ absurd (omega arith)
      | inr found ↦ found
    ],
  )
