-- ===== src/Ride/Fsm/Paths.antt =====
-- The transition diagram of the comment at the top of fsm.go as a relation, and its paths.
use ridesharing.Prelude.{ℕ, suc, ◌+◌, ◌≤◌, ◌≡◌, refl, ◌↔◌, ◌≢◌, ◌⊎◌, true, arith}
use ridesharing.Models.{RideStatus, requested, matched, enroute, completed, cancelled, other}
use ridesharing.Ride.Fsm.{can_transition}

infix 40 ◌⟶◌
pub data ◌⟶◌ : RideStatus → RideStatus → Type 0 where
  match : requested ⟶ matched
  drop : requested ⟶ cancelled
  start : matched ⟶ enroute
  abandon : matched ⟶ cancelled
  finish : enroute ⟶ completed
  abort : enroute ⟶ cancelled

ruleset edges = (match, drop, start, abandon, finish, abort)

allowed : {from to : RideStatus} → from ⟶ to → can_transition from to ≡ true
unfolding can_transition
allowed match = refl
allowed drop = refl
allowed start = refl
allowed abandon = refl
allowed finish = refl
allowed abort = refl

edge : (from to : RideStatus) → can_transition from to ≡ true → from ⟶ to
unfolding can_transition
edge requested to h = grind (arith, edges)
edge matched to h = grind (arith, edges)
edge enroute to h = grind (arith, edges)
edge completed to h = cc
edge cancelled to h = cc
edge (other s) to h = cc

-- `CanTransition` allows exactly the arrows of the diagram; a status outside the five constants has
-- none, in either direction.
pub can_transition_iff : (from to : RideStatus) → (can_transition from to ≡ true) ↔ (from ⟶ to)
can_transition_iff from to = (edge from to, allowed)

-- A path of n transitions, each one that `CanTransition` allows.
pub data Trail : ℕ → RideStatus → RideStatus → Type 0 where
  stay : {s : RideStatus} → Trail 0 s s
  onward :
      {n : ℕ} {s t u : RideStatus} → can_transition s t ≡ true → Trail n t u → Trail (suc n) s u

-- How many transitions a status can still take.
left : RideStatus → ℕ
left requested = 3
left matched = 2
left enroute = 1
left _ = 0

left-⟶ : {s t : RideStatus} → s ⟶ t → suc (left t) ≤ left s
unfolding left
left-⟶ match = omega arith
left-⟶ drop = omega arith
left-⟶ start = omega arith
left-⟶ abandon = omega arith
left-⟶ finish = omega arith
left-⟶ abort = omega arith

left-le : (s : RideStatus) → left s ≤ 3
unfolding left
left-le s = ground arith

left-Trail : {n : ℕ} {s t : RideStatus} → Trail n s t → n + left t ≤ left s
left-Trail stay = omega arith
left-Trail (onward e p) = omega (arith, left-⟶ (edge _ _ e), left-Trail p)

to_completed : {s t : RideStatus} {n : ℕ} → s ⟶ t → n ≡ left t → t ≢ cancelled → suc n ≡ left s
unfolding left
to_completed match e ne = omega arith
to_completed start e ne = omega arith
to_completed finish e ne = omega arith
to_completed drop e ne = absurd (ne refl)
to_completed abandon e ne = absurd (ne refl)
to_completed abort e ne = absurd (ne refl)

source_live : {s t : RideStatus} → s ⟶ t → s ≢ cancelled
source_live match e = cc
source_live drop e = cc
source_live start e = cc
source_live abandon e = cc
source_live finish e = cc
source_live abort e = cc

completed_end :
    {s t : RideStatus} {n : ℕ} → Trail n s t → t ≡ completed → (n ≡ left s) × (s ≢ cancelled)
unfolding left
completed_end stay e = (rw e, λ c. cc (e, c))
completed_end (onward h p) e =
    let ih = completed_end p e in (to_completed (edge _ _ h) ih.0 ih.1, source_live (edge _ _ h))

-- A sequence of allowed transitions has at most three steps, has none if it begins at a completed or
-- a cancelled ride, and has exactly three if it leads from a requested ride to a completed one.
pub Trail-lengths :
    {n : ℕ} {s t : RideStatus}
    → Trail n s t
    → (n ≤ 3)
      × ((s ≡ completed) ⊎ (s ≡ cancelled) → n ≡ 0)
      × (s ≡ requested → t ≡ completed → n ≡ 3)
unfolding left
Trail-lengths {n} {s} {t} p = (
  omega (arith, left-Trail p, left-le s),
  (λ d. ground (arith, left-Trail p)),
  λ a b. ground (arith, completed_end p b),
)
