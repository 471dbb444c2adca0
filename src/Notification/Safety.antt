-- ===== src/Notification/Safety.antt =====
-- internal/notification/hub.go: no goroutine closes a closed channel or sends on one.
use mathlib.Core.Path.{subst}
use ridesharing.Prelude.{
  ◌≡◌, refl, String, Bool, true, false, some, List, [], ◌∷◌, ◌++◌, length, ltb, arith, Bool-cases,
  Option-cases, inl, inr, length-append, some_if, some_eq,
}
use ridesharing.Errors.{Result, Result-cases}
use ridesharing.Models.{Uuid, Time}
use ridesharing.Jwt.{JwtLibrary, validate_token}
use ridesharing.Notification.{Hub, get, buffer, new_hub, send_to_user, web_socket_handler}
use ridesharing.Notification.Run.{
  Event, connect, take_register, take_unregister, send, deliver, write, finish, is_selecting,
  write_pump, step, run,
}
use ridesharing.Notification.Soundness.{IsSafe, modify-IsSafe, register-IsSafe, unregister-IsSafe}
use ridesharing.Notification.Sending.{receive-IsSafe, write-IsKept}

pub new_hub-IsSafe : (B : Type 0) → IsSafe (new_hub {Bytes = B})
unfolding get
new_hub-IsSafe B = (
  (λ e. absurd (ground arith)),
  (λ u c e. absurd (ground arith)),
  (λ c. (λ p. refl, omega arith)),
  omega arith,
)

module _ {Bytes Data : Type 0} (jwt : JwtLibrary) (secret : String)
    (marshal : String → Data → Result Bytes) where
  connect-IsSafe :
      (now : Time) (token : String) (upgrades : Bool) (h : Hub Bytes)
      → IsSafe h
      → IsSafe (web_socket_handler jwt secret now token upgrades h).1
  unfolding web_socket_handler
  connect-IsSafe now token upgrades h s =
      elim (Result-cases (validate_token jwt now token secret)) [
        | inl (e, bad) ↦
            let same : h ≡ (web_socket_handler jwt secret now token upgrades h).1 = ground arith in
            subst IsSafe same s
        | inr (claims, good) ↦ (
          (λ e. ground arith),
          (λ u d g. ground (arith, s.1 u d)),
          (λ d. ground (arith, s.2 d)),
          ground arith,
        )
      ]

  send-IsSafe :
      (u : Uuid) (event_type : String) (content : Data) (h h' : Hub Bytes)
      → IsSafe h
      → send_to_user marshal u event_type content h ≡ some h'
      → IsSafe h'
  unfolding send_to_user
  send-IsSafe u event_type content h h' s e = elim (Result-cases (marshal event_type content)) [
    | inl (x, bad) ↦ let same : h ≡ h' = ground arith in subst IsSafe same s
    | inr (payload, good) ↦ elim (Bool-cases (ltb (length h.broadcast) buffer)) [
      | inl fits ↦
          let more = h.broadcast ++ (record { user_id = u; payload = payload } ∷ []) in
          let to : record h { broadcast = more } ≡ h' = ground arith in
          subst IsSafe to (
            s.0,
            s.1,
            s.2,
            ground
                (arith, length-append h.broadcast (record { user_id = u; payload = payload } ∷ [])),
          )
      | inr full ↦ absurd (ground arith)
    ]
  ]

  pub step-IsSafe :
      (e : Event Data) (h h' : Hub Bytes)
      → IsSafe h
      → step jwt secret marshal e h ≡ some h'
      → IsSafe h'
  unfolding step
  step-IsSafe (connect now token upgrades) h h' s e =
      subst IsSafe (some_eq _ _ e) (connect-IsSafe now token upgrades h s)
  step-IsSafe (take_register c) h h' s e =
      let g = some_if _ _ _ e in
      subst IsSafe g.1 (register-IsSafe c h s (ground (arith, g.0)) (ground (arith, g.0)))
  step-IsSafe (take_unregister c) h h' s e =
      let g = some_if _ _ _ e in subst IsSafe g.1 (unregister-IsSafe c h s (ground (arith, g.0)))
  step-IsSafe (send u event_type content) h h' s e = send-IsSafe u event_type content h h' s e
  step-IsSafe deliver h h' s e = elim (Bool-cases (is_selecting h.mode)) [
    | inl on ↦ receive-IsSafe h.broadcast h h' refl s (ground arith)
    | inr off ↦ absurd (ground arith)
  ]
  step-IsSafe (write c good) h h' s e =
      let w = write-IsKept good (h.store c) (s.2 c) in
      subst IsSafe (some_if _ _ _ e).1 (
        modify-IsSafe c (write_pump good) h w.1 w.2 (λ u g. ground (arith, s.1 u c g)) (λ k. w.0) s)
  step-IsSafe (finish c) h h' s e = subst IsSafe (some_if _ _ _ e).1 (
      modify-IsSafe c (λ x. record x { pumping = false; conn_closed = true }) h refl refl
        (λ u g. (s.1 u c g).3) (λ k. k) s)

  run_from-IsSafe :
      (es : List (Event Data)) (h h' : Hub Bytes)
      → IsSafe h
      → run jwt secret marshal es h ≡ some h'
      → IsSafe h'
  unfolding run
  run_from-IsSafe [] h h' s e = subst IsSafe (some_eq _ _ e) s
  run_from-IsSafe (ev ∷ es) h h' s e = elim (Option-cases (step jwt secret marshal ev h)) [
    | inl stops ↦ absurd (ground arith)
    | inr (h₁, go) ↦ run_from-IsSafe es h₁ h' (step-IsSafe ev h h₁ s go) (ground arith)
  ]

  -- From a new hub, after any events: `Run` has not panicked, so it has closed no closed channel and
  -- sent on none; every client in the map was made, stands under its own user, is still read from and
  -- has an open channel; a client not yet received has an open channel; and no channel holds more than
  -- its 256 messages.
  pub run-IsSafe :
      (es : List (Event Data)) (h : Hub Bytes)
      → run jwt secret marshal es new_hub ≡ some h
      → IsSafe h
  run-IsSafe es h e = run_from-IsSafe es new_hub h (new_hub-IsSafe Bytes) e
