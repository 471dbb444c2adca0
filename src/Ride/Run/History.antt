-- ===== src/Ride/Run/History.antt =====
-- internal/ride/service.go: whole histories of calls.
use mathlib.Core.Path.{subst}
use ridesharing.Ride.Fsm.Paths.{Trail, stay, onward, Trail-lengths, ◌⟶◌, can_transition_iff}
use mathlib.Core.Option
use ridesharing.Prelude.{
  ℕ, suc, ◌≡◌, refl, sym, ap, Option, ◌∙◌, ◌⊎◌, inl, inr, true, false, some, List, [], ◌∷◌, arith,
  length, select, ◌≤◌, ◌&&◌, ◌==◌, Bool-cases,
}
use ridesharing.Prelude.Table.{find}
use ridesharing.Models.{Uuid, Ride, RideStatus, completed, cancelled}
use ridesharing.Floats.{Float64}
use ridesharing.Database.{Env, World}
use ridesharing.Ride.Fsm.{can_transition}
use ridesharing.Ride.Repository.{ride_key, is_active}
use ridesharing.Ride.Invariant.{IsValid, NoneActive, OneActive}
use ridesharing.Ride.Matching.{Service}
use ridesharing.Ride.Run.{Command, step, run}
use ridesharing.Ride.Run.Steps.{Evolves, step-Preserves}

module _ {Float : Type 0} where
  -- The active rides of a rider.
  abbrev pub active_of : Uuid → List (Ride Float) → List (Ride Float)
  active_of rider = select (λ r. r.rider_id == rider && is_active r.status)

  none_of : (rider : Uuid) (t : List (Ride Float)) → NoneActive rider t → active_of rider t ≡ []
  none_of rider [] h = refl
  none_of rider (r ∷ t) h = ground (arith, none_of rider t h.1)

  first_fact :
      (r : Ride Float) (rider : Uuid)
      → (r.rider_id == rider && is_active r.status) ≡ true
      → (r.rider_id ≡ rider) × (is_active r.status ≡ true)
  first_fact r rider h = ground arith

  one_of : (rider : Uuid) (t : List (Ride Float)) → OneActive t → length (active_of rider t) ≤ 1
  one_of rider [] h = omega arith
  one_of rider (r ∷ t) h = elim (Bool-cases (r.rider_id == rider && is_active r.status)) [
    | inl hit ↦
        rw
          (hit, none_of rider t (rw (first_fact r rider hit).0 at (h.0 (first_fact r rider hit).1)))
          (omega arith)
    | inr miss ↦ rw miss (one_of rider t h.1)
  ]

  final_stays :
      (r r' : Ride Float)
      → (r.status ≡ completed) ⊎ (r.status ≡ cancelled)
      → can_transition r.status r'.status ≡ false
  unfolding can_transition
  final_stays r r' final = ground arith

-- After the status s, these statuses one after another: each is the one before it or one arrow of the
-- diagram further, and n of them are an arrow.
pub data Follows : RideStatus → List (Option RideStatus) → ℕ → Type 0 where
  nothing : {s : RideStatus} → Follows s [] 0
  keep :
      {s : RideStatus} {ss : List (Option RideStatus)} {n : ℕ}
      → Follows s ss n
      → Follows s (some s ∷ ss) n
  move :
      {s t : RideStatus} {ss : List (Option RideStatus)} {n : ℕ}
      → s ⟶ t
      → Follows t ss n
      → Follows s (some t ∷ ss) (suc n)

module _ (F : Float64) (env : Env) (s : Service F) where
  open F use {Float}

  run-IsValid :
      (cs : List (Command F)) (w : World Float)
      → IsValid w.tables
      → IsValid (run F env s cs w).tables
  unfolding run
  run-IsValid [] w v = v
  run-IsValid (c ∷ cs) w v = run-IsValid cs (step F env s c w) (step-Preserves F env s c w v).0

  -- From tables that satisfy the invariant, such as empty ones, any sequence of calls leaves every
  -- rider with at most one active ride.
  pub run_one_active :
      (cs : List (Command F)) (w : World Float) (rider : Uuid)
      → IsValid w.tables
      → length (active_of rider (run F env s cs w).tables.rides) ≤ 1
  run_one_active cs w rider v = one_of rider _ (run-IsValid cs w v).single

  -- A completed or cancelled ride is never changed again, by any sequence of calls.
  pub run_final :
      (cs : List (Command F)) (w : World Float) (id : Uuid) (r : Ride Float)
      → IsValid w.tables
      → find ride_key id w.tables.rides ≡ some r
      → (r.status ≡ completed) ⊎ (r.status ≡ cancelled)
      → find ride_key id (run F env s cs w).tables.rides ≡ some r
  unfolding run
  run_final [] w id r v h final = h
  run_final (c ∷ cs) w id r v h final =
      let p = step-Preserves F env s c w v in
      let (r', found, evolved) = p.1 id r h in
      run_final cs (step F env s c w) id r p.0 (stays r' found evolved) final
    where
      stays :
          (r' : Ride Float)
          → find ride_key id (step F env s c w).tables.rides ≡ some r'
          → Evolves r r'
          → find ride_key id (step F env s c w).tables.rides ≡ some r
      stays r' found (inl same) = rw same at found
      stays r' found (inr moved) = cc (moved.0, final_stays r r' final)

  -- The status of the stored ride after each call.
  unfoldable pub statuses : Uuid → List (Command F) → World Float → List (Option RideStatus)
  statuses id [] w = []
  statuses id (c ∷ cs) w =
      Option.map (λ (r : Ride Float). r.status) (find ride_key id (step F env s c w).tables.rides)
      ∷ statuses id cs (step F env s c w)

  -- Along any sequence of calls a stored ride stays stored, with its rider; and each call leaves its
  -- status as it is or moves it along one arrow of the diagram, so that a ride changes its status at
  -- most three times.
  pub run-Trail :
      (cs : List (Command F)) (w : World Float) (id : Uuid) (r : Ride Float)
      → IsValid w.tables
      → find ride_key id w.tables.rides ≡ some r
      → (r' : Ride Float) × (find ride_key id (run F env s cs w).tables.rides ≡ some r')
        × (r'.rider_id ≡ r.rider_id)
        × ((n : ℕ) × Follows r.status (statuses id cs w) n × Trail n r.status r'.status × (n ≤ 3))
  unfolding run statuses
  run-Trail [] w id r v h = (r, h, refl, (0, nothing, stay, omega arith))
  run-Trail (c ∷ cs) w id r v h =
      let p = step-Preserves F env s c w v in
      let (r₁, found, evolved) = p.1 id r h in
      let (r₂, found₂, rider₂, (n, follows, trail, few)) =
        run-Trail cs (step F env s c w) id r₁ p.0 found in
      extend r₁ r₂ found found₂ rider₂ n follows trail evolved
    where
      after : World Float
      after = step F env s c w

      next :
          (r₁ : Ride Float) (n : ℕ)
          → find ride_key id after.tables.rides ≡ some r₁
          → Follows r.status (some r₁.status ∷ statuses id cs after) n
          → Follows r.status (statuses id (c ∷ cs) w) n
      next r₁ n found =
          subst
            (λ o.
              Follows r.status (Option.map (λ (x : Ride Float). x.status) o ∷ statuses id cs after)
                n)
            (sym found)

      extend :
          (r₁ r₂ : Ride Float)
          → find ride_key id after.tables.rides ≡ some r₁
          → find ride_key id (run F env s cs after).tables.rides ≡ some r₂
          → r₂.rider_id ≡ r₁.rider_id
          → (n : ℕ) → Follows r₁.status (statuses id cs after) n
          → Trail n r₁.status r₂.status
          → Evolves r r₁
          → (r' : Ride Float) × (find ride_key id (run F env s cs after).tables.rides ≡ some r')
            × (r'.rider_id ≡ r.rider_id)
            × ((n : ℕ) × Follows r.status (statuses id (c ∷ cs) w) n
                × Trail n r.status r'.status
                × (n ≤ 3))
      extend r₁ r₂ found found₂ rider n follows trail (inl e) = (
        r₂,
        found₂,
        rider ∙ ap (λ (x : Ride Float). x.rider_id) e,
        (
          n,
          next r₁ n found (
              subst (λ x. Follows x (some r₁.status ∷ statuses id cs after) n)
                (ap (λ (x : Ride Float). x.status) e) (keep follows)),
          subst (λ (x : Ride Float). Trail n x.status r₂.status) e trail,
          (Trail-lengths trail).0,
        ),
      )
      extend r₁ r₂ found found₂ rider n follows trail (inr moved) =
          let longer = onward moved.0 trail in
          (
            r₂,
            found₂,
            rider ∙ moved.2,
            (
              suc n,
              next r₁ (suc n) found (move ((can_transition_iff _ _).0 moved.0) follows),
              longer,
              (Trail-lengths longer).0,
            ),
          )
