-- ===== src/Database/Atomic.antt =====
-- pkg/db/postgres.go: the outcomes of `WithTx`.
use ridesharing.Prelude.{◌≡◌, ◌⊎◌, Bool, true, false, none, arith}
use ridesharing.Errors.{Error, Result, ok, err}
use ridesharing.Database.{Env, World, Action, tick, with_tx}

abbrev pub is_ok : {A : Type 0} → Result A → Bool
is_ok (ok a) = true
is_ok (err e) = false

module _ {Float : Type 0} (env : Env) {A : Type 0} (fn : Action Float A) (w : World Float) where
  -- When a transaction returns an error, whether from its body, from `Begin` or from `Commit`, the
  -- tables are what they were before it.
  pub with_tx_err :
      (e : Error) → (with_tx env fn w).0 ≡ err e → (with_tx env fn w).1.tables ≡ w.tables
  unfolding with_tx
  with_tx_err e h = ground arith

  with_tx_tables : (is_ok (with_tx env fn w).0 ≡ true) ⊎ ((with_tx env fn w).1.tables ≡ w.tables)
  unfolding with_tx
  with_tx_tables = ground arith

  pub with_tx_fails : is_ok (with_tx env fn w).0 ≡ false → (with_tx env fn w).1.tables ≡ w.tables
  with_tx_fails h = ground (arith, with_tx_tables)

  pub with_tx_ok :
      (a : A)
      → (with_tx env fn w).0 ≡ ok a
      → ((fn (tick w)).0 ≡ ok a)
        × ((with_tx env fn w).1.tables ≡ (fn (tick w)).1.tables)
        × ((with_tx env fn w).1.events ≡ (fn (tick w)).1.events)
  unfolding with_tx
  with_tx_ok a h = ground arith

  pub with_tx-events : (fn (tick w)).1.events ≡ w.events → (with_tx env fn w).1.events ≡ w.events
  unfolding with_tx
  with_tx-events h = ground arith

  -- Where `Begin` and `Commit` succeed, the transaction returns what its body returns.
  pub with_tx_succeeds :
      (a : A)
      → env.fault w.trips ≡ none
      → (fn (tick w)).0 ≡ ok a
      → env.fault (fn (tick w)).1.trips ≡ none
      → (with_tx env fn w).0 ≡ ok a
  unfolding with_tx
  with_tx_succeeds a begun done committed = ground arith
