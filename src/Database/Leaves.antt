-- ===== src/Database/Leaves.antt =====
-- What a call leaves of the tables whatever it returns: a relation of the tables before and after,
-- which calls in sequence compose.
use mathlib.Core.Path.{subst}
use ridesharing.Prelude.{
  ◌≡◌, String, Bool, true, false, arith, ℕ, if◌then◌else◌, Option-cases, Bool-cases, inl, inr,
}
use ridesharing.Errors.{Error, Result-cases, ok}
use ridesharing.Models.{Uuid}
use ridesharing.Database.{
  actions, Env, Tables, World, Action, pure, fail, ◌>>=◌, ◌>>◌, fail_if, map_err, query, exec,
}
use ridesharing.Rpc.{GrpcLibrary, invoke, parsed}

abbrev pub Leaves :
    {Float A : Type 0} → (Tables Float → Tables Float → Type 0) → Action Float A → Type 0
Leaves R m = (w : World _) → R w.tables (m w).1.tables

module _ {Float : Type 0} (R : Tables Float → Tables Float → Type 0)
    (same : (t : Tables Float) → R t t)
    (join : (t u v : Tables Float) → R t u → R u v → R t v) where
  pub pure-Leaves : {A : Type 0} (a : A) → Leaves R (pure a)
  unfolding pure
  pure-Leaves a w = same w.tables

  pub fail-Leaves : (A : Type 0) (e : Error) → Leaves R (fail {A = A} e)
  unfolding fail
  fail-Leaves A e w = same w.tables

  pub fail_if-Leaves : (bad : Bool) (e : Error) → Leaves R (fail_if bad e)
  unfolding actions
  fail_if-Leaves true e w = same w.tables
  fail_if-Leaves false e w = same w.tables

  pub if_Leaves :
      {A : Type 0} (b : Bool) (m n : Action Float A)
      → Leaves R m
      → Leaves R n
      → Leaves R (if b then m else n)
  if_Leaves true m n hm hn = hm
  if_Leaves false m n hm hn = hn

  pub bind-Leaves :
      {A B : Type 0} (m : Action Float A) (f : A → Action Float B)
      → Leaves R m
      → ((a : A) → Leaves R (f a))
      → Leaves R (m >>= f)
  unfolding ◌>>=◌
  bind-Leaves m f hm hf w = elim (Result-cases (m w).0) [
    | inl (e, fails) ↦
        let to : (m w).1.tables ≡ ((m >>= f) w).1.tables = ground arith in
        subst (R w.tables) to (hm w)
    | inr (a, done) ↦
        let to : (f a (m w).1).1.tables ≡ ((m >>= f) w).1.tables = ground arith in
        subst (R w.tables) to (join _ _ _ (hm w) (hf a (m w).1))
  ]

  pub then-Leaves :
      {A B : Type 0} (m : Action Float A) (n : Action Float B)
      → Leaves R m
      → Leaves R n
      → Leaves R (m >> n)
  unfolding ◌>>◌
  then-Leaves m n hm hn = bind-Leaves m (λ _. n) hm (λ _. hn)

  pub map_err-Leaves :
      {A : Type 0} (f : Error → Error) (m : Action Float A) → Leaves R m → Leaves R (map_err f m)
  unfolding map_err
  map_err-Leaves f m hm w = hm w

  pub query-Leaves :
      {A : Type 0} (env : Env) (read : ℕ → Tables Float → A) → Leaves R (query env read)
  unfolding query
  query-Leaves env read w =
      let to : w.tables ≡ (query env read w).1.tables = ground arith in
      subst (R w.tables) to (same w.tables)

  -- A statement that breaks no constraint.
  pub exec-Leaves :
      {A : Type 0} (env : Env) (a : A) (f : ℕ → Tables Float → Tables Float)
      → ((n : ℕ) (t : Tables Float) → R t (f n t))
      → Leaves R (exec env (λ n t. ok (a, f n t)))
  unfolding exec
  exec-Leaves env a f h w = elim (Option-cases (env.fault w.trips)) [
    | inl up ↦
        let to : f w.trips w.tables ≡ (exec env (λ n t. ok (a, f n t)) w).1.tables = ground arith in
        subst (R w.tables) to (h w.trips w.tables)
    | inr (e, down) ↦ elim (Bool-cases (env.carried_out w.trips)) [
      | inl lost ↦
          let to : f w.trips w.tables ≡ (exec env (λ n t. ok (a, f n t)) w).1.tables =
            ground arith in
          subst (R w.tables) to (h w.trips w.tables)
      | inr undone ↦
          let to : w.tables ≡ (exec env (λ n t. ok (a, f n t)) w).1.tables = ground arith in
          subst (R w.tables) to (same w.tables)
    ]
  ]

  -- What is lost on the way changes nothing of it.
  pub invoke-Leaves :
      {A : Type 0} (g : GrpcLibrary) (m : Action Float A) → Leaves R m → Leaves R (invoke g m)
  unfolding invoke
  invoke-Leaves g m hm w = elim (Option-cases (g.lost_request w.trips)) [
    | inl sent ↦
        let to : (m w).1.tables ≡ (invoke g m w).1.tables = ground arith in
        subst (R w.tables) to (hm w)
    | inr (s, lost) ↦
        let to : w.tables ≡ (invoke g m w).1.tables = ground arith in
        subst (R w.tables) to (same w.tables)
  ]

  pub parsed-Leaves :
      {A : Type 0} (g : GrpcLibrary) (text : String) (f : Uuid → Action Float A)
      → ((id : Uuid) → g.parse_uuid text ≡ ok id → Leaves R (f id))
      → Leaves R (parsed g text f)
  parsed-Leaves g text f hf w = elim (Result-cases (g.parse_uuid text)) [
    | inl (e, bad) ↦
        let to : w.tables ≡ (parsed g text f w).1.tables = ground arith in
        subst (R w.tables) to (same w.tables)
    | inr (id, good) ↦
        let to : (f id w).1.tables ≡ (parsed g text f w).1.tables = ground arith in
        subst (R w.tables) to (hf id good w)
  ]
