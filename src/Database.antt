-- ===== src/Database.antt =====
-- pkg/db/postgres.go: the tables, the statements that run against them, and `WithTx`.
--
-- An action is a call that may fail: it maps the world to a result and the world after it. What the
-- program cannot decide (which round trip fails, the clock, generated ids, an expired context) is
-- read from an environment, at the number of round trips made so far.
pub mod Atomic
pub mod Triple
pub mod Leaves
use ridesharing.Prelude.{ℕ, suc, String, Bool, Option, none, some, List, if◌then◌else◌}
use ridesharing.Errors.{Error, wrapped, Result, ok, err}
use ridesharing.Security.{Attempts}
use ridesharing.Models.{Uuid, Time, User, Driver, Ride, Location, Payment}

pub record Env : Type 0 where
  -- the error of the n-th round trip to a server, if it fails
  pub fault : ℕ → Option Error
  -- whether a statement that failed at the n-th round trip was carried out, and only its answer lost
  pub carried_out : ℕ → Bool
  -- the clock, NOW() and time.Now(), at the n-th round trip
  pub now : ℕ → Time
  -- uuid_generate_v4() and uuid.New() at the n-th round trip
  pub fresh : ℕ → Uuid
  -- ctx.Done() at the n-th round trip, with what ctx.Err() then is
  pub done : ℕ → Option Error

-- A key of Redis with the value set for it and the time at which it expires.
pub record Lease : Type 0 where
  pub key : String
  pub value : Uuid
  pub expires_at : Time

module _ (Float : Type 0) where
  pub record Tables : Type 0 where
    pub users : List User
    pub drivers : List (Driver Float)
    pub rides : List (Ride Float)
    pub locations : List (Location Float)
    pub payments : List (Payment Float)

  -- What is handed to the Kafka producer.
  pub record RideEvent : Type 0 where
    pub event : String
    pub ride : Ride Float
    pub timestamp : Time

  pub record World : Type 0 where
    pub tables : Tables
    pub trips : ℕ
    pub leases : List Lease
    pub events : List RideEvent
    -- the transactions that the payment provider captured
    pub captured : List String
    -- the failed logins that the auth service counts
    pub attempts : Attempts

  abbrev pub Action : Type 0 → Type 0
  Action A = World → Result A × World

module _ {Float : Type 0} where
  unfoldable pub pure : {A : Type 0} → A → Action Float A
  pure a w = (ok a, w)

  unfoldable pub fail : {A : Type 0} → Error → Action Float A
  fail e w = (err e, w)

  infixl 5 ◌>>=◌ ◌>>◌
  unfoldable pub ◌>>=◌ : {A B : Type 0} → Action Float A → (A → Action Float B) → Action Float B
  ◌>>=◌ m f w = let (r, w') = m w in elim r [ ok a ↦ f a w' | err e ↦ (err e, w') ]

  unfoldable pub ◌>>◌ : {A B : Type 0} → Action Float A → Action Float B → Action Float B
  unfolding ◌>>=◌
  m >> k = m >>= λ _. k

  -- `if bad { return e }`.
  unfoldable pub fail_if : Bool → Error → Action Float (Unit {0})
  unfolding fail pure
  fail_if bad e = if bad then fail e else pure tt

  -- What a caller does to the error of a call: `if err != nil { return f(err) }`.
  unfoldable pub map_err : {A : Type 0} → (Error → Error) → Action Float A → Action Float A
  map_err f m w = let (r, w') = m w in (elim r [ ok a ↦ ok a | err e ↦ err (f e) ], w')

  -- A caller that goes on after an error: `a, err := call()`.
  unfoldable pub attempt : {A : Type 0} → Action Float A → Action Float (Result A)
  attempt m w = let (r, w') = m w in (ok r, w')

  -- A caller that drops the error: `a, _ := call()`, with the zero value in its place.
  unfoldable pub or_zero : {A : Type 0} → A → Action Float A → Action Float A
  or_zero zero_value m w = let (r, w') = m w in (elim r [ ok a ↦ ok a | err e ↦ ok zero_value ], w')

  abbrev pub tick : World Float → World Float
  tick w = record w { trips = suc w.trips }

-- For a proof that computes with actions: all of the above.
unfoldable pub actions : Unit {0}
unfolding pure fail ◌>>=◌ ◌>>◌ fail_if map_err attempt or_zero
actions = tt

module _ {Float : Type 0} (env : Env) where
  -- The tables after a statement that was carried out.
  abbrev pub effect : {A : Type 0} → Result (A × Tables Float) → Tables Float → Tables Float
  effect (err e) before = before
  effect (ok (a, t)) before = t

  -- `Exec`, and `QueryRow` of an INSERT … RETURNING: one round trip, which the server refuses, or
  -- which runs at the time of the clock and can still break a constraint. A statement whose round trip
  -- fails, such as at the end of its time, may have been carried out.
  unfoldable pub exec :
      {A : Type 0} → (ℕ → Tables Float → Result (A × Tables Float)) → Action Float A
  exec run w = elim (env.fault w.trips) [
    | some e ↦
        let lost = effect (run w.trips w.tables) w.tables in
        (err e, record (tick w) { tables = if env.carried_out w.trips then lost else w.tables })
    | none ↦ elim (run w.trips w.tables) [
      | err e ↦ (err e, tick w)
      | ok (a, t) ↦ (ok a, record (tick w) { tables = t })
    ]
  ]

  -- `Query` and `QueryRow` of a SELECT.
  unfoldable pub query : {A : Type 0} → (ℕ → Tables Float → A) → Action Float A
  query read w = elim (env.fault w.trips) [
    | some e ↦ (err e, tick w)
    | none ↦ (ok (read w.trips w.tables), tick w)
  ]

  -- `pool.Begin`, `tx.Commit`: a round trip that changes no row. One that fails has had no effect.
  unfoldable pub round_trip : Action Float (Unit {0})
  round_trip w = elim (env.fault w.trips) [ some e ↦ (err e, tick w) | none ↦ (ok tt, tick w) ]

  -- `tx.Rollback`: the tables are again what they were, whatever the round trip returns.
  abbrev pub roll_back : Tables Float → World Float → World Float
  roll_back before w = record (tick w) { tables = before }

  -- A commit that is refused leaves the tables as they were. After a commit the deferred rollback
  -- finds the transaction closed, and makes no round trip.
  unfoldable pub commit : {A : Type 0} → Tables Float → A → World Float → Result A × World Float
  unfolding round_trip
  commit before a w =
      let (r, w') = round_trip w in
      elim r [
        | ok _ ↦ (ok a, w')
        | err e ↦ (err (wrapped "commit transaction" e), roll_back before w')
      ]

  -- `WithTx`.
  unfoldable pub with_tx : {A : Type 0} → Action Float A → Action Float A
  unfolding round_trip commit
  with_tx fn w =
      let (begun, w₁) = round_trip w in
      elim begun [
        | err e ↦ (err (wrapped "begin transaction" e), w₁)
        | ok _ ↦
            let (r, w₂) = fn w₁ in
            elim r [ err e ↦ (err e, roll_back w₁.tables w₂) | ok a ↦ commit w₁.tables a w₂ ]
      ]
