-- ===== src/Database/Triple.antt =====
-- What an action ensures about the tables, and the rules by which such facts compose.
use ridesharing.Prelude.{
  ℕ, ◌≡◌, Bool, true, false, Option, none, some, arith, refl, sym, ap, if◌then◌else◌,
}
use mathlib.Core.Path.{subst}
use ridesharing.Errors.{Error, Result, ok, err}
use ridesharing.Database.{
  Env, Tables, World, Action, ◌>>=◌, ◌>>◌, fail_if, map_err, attempt, or_zero, query, exec, effect,
  with_tx, tick, pure,
}
use ridesharing.Database.Atomic.{with_tx_err, with_tx_ok}

module _ {Float : Type 0} where
  -- Q of the value and the tables after a success, E of the tables after an error.
  abbrev pub Post :
      {A : Type 0}
      → (A → Tables Float → Type 0)
      → (Tables Float → Type 0)
      → Result A × World Float
      → Type 0
  Post Q E (ok a, w) = Q a w.tables
  Post Q E (err e, w) = E w.tables

  pub record Ensures {A : Type 0} (P : Tables Float → Type 0) (m : Action Float A)
      (Q : A → Tables Float → Type 0) (E : Tables Float → Type 0) : Type 0 where
    pub run : (w : World Float) → P w.tables → Post Q E (m w)

  -- The rule for a sequence.
  pub bind_rule :
      {A B : Type 0} {P : Tables Float → Type 0} {Q : A → Tables Float → Type 0}
      {R : B → Tables Float → Type 0} {E : Tables Float → Type 0} {m : Action Float A}
      {f : A → Action Float B}
      → Ensures P m Q E
      → ((a : A) → Ensures (Q a) (f a) R E)
      → Ensures P (m >>= f) R E
  unfolding ◌>>=◌
  bind_rule {A} {B} {P} {Q} {R} {E} {m} {f} first rest = record {
    run = λ w p. after (m w) (first.run w p);
  }
    where
      after :
          (o : Result A × World Float)
          → Post Q E o
          → Post R E (elim o.0 [ ok a ↦ f a o.1 | err e ↦ (err e, o.1) ])
      after (ok a, w') q = (rest a).run w' q
      after (err e, w') q = q

  pub then_rule :
      {B : Type 0} {P : Tables Float → Type 0} {Q : Unit {0} → Tables Float → Type 0}
      {R : B → Tables Float → Type 0} {E : Tables Float → Type 0} {m : Action Float (Unit {0})}
      {k : Action Float B}
      → Ensures P m Q E
      → Ensures (Q tt) k R E
      → Ensures P (m >> k) R E
  unfolding ◌>>◌
  then_rule {Q = Q} first rest = bind_rule {Q = Q} first (λ _. rest)

  pub pure_rule :
      {A : Type 0} {E : Tables Float → Type 0} {Q : A → Tables Float → Type 0} (a : A)
      → Ensures (Q a) (pure a) Q E
  unfolding pure
  pure_rule a = record { run = λ w p. p }

  -- Weaker before, stronger after.
  pub weaken :
      {A : Type 0} {Q : A → Tables Float → Type 0} {P E P' E' : Tables Float → Type 0}
      {m : Action Float A} (R : A → Tables Float → Type 0)
      → Ensures P' m Q E'
      → ((t : Tables Float) → P t → P' t)
      → ((a : A) (t : Tables Float) → Q a t → R a t)
      → ((t : Tables Float) → E' t → E t)
      → Ensures P m R E
  weaken {A} {Q} {P} {E} {P'} {E'} {m} R e before after failed = record {
    run = λ w p. post (m w) (e.run w (before w.tables p));
  }
    where
      post : (o : Result A × World Float) → Post Q E' o → Post R E o
      post (ok a, w) q = after a w.tables q
      post (err x, w) q = failed w.tables q

  pub map_err_rule :
      {A : Type 0} {P E : Tables Float → Type 0} {Q : A → Tables Float → Type 0}
      {m : Action Float A} (f : Error → Error)
      → Ensures P m Q E
      → Ensures P (map_err f m) Q E
  unfolding map_err
  map_err_rule {A} {P} {E} {Q} {m} f e = record { run = λ w p. post (m w) (e.run w p) }
    where
      post :
          (o : Result A × World Float)
          → Post Q E o
          → Post Q E (elim o.0 [ ok a ↦ ok a | err x ↦ err (f x) ], o.1)
      post (ok a, w) q = q
      post (err x, w) q = q

  -- A caller that goes on after an error.
  pub attempt_rule :
      {A : Type 0} {Q : A → Tables Float → Type 0} {P E E' : Tables Float → Type 0}
      {m : Action Float A} (R : Result A → Tables Float → Type 0)
      → Ensures P m Q E'
      → ((a : A) (t : Tables Float) → Q a t → R (ok a) t)
      → ((e : Error) (t : Tables Float) → E' t → R (err e) t)
      → Ensures P (attempt m) R E
  unfolding attempt
  attempt_rule {A} {Q} {P} {E} {E'} {m} R e after failed = record {
    run = λ w p. post (m w) (e.run w p);
  }
    where
      post : (o : Result A × World Float) → Post Q E' o → R o.0 o.1.tables
      post (ok a, w) q = after a w.tables q
      post (err x, w) q = failed x w.tables q

  -- A call that leaves the tables alone.
  pub silent_rule :
      {A : Type 0} {P : Tables Float → Type 0} (m : Action Float A)
      → ((w : World Float) → (m w).1.tables ≡ w.tables)
      → Ensures P m (λ _. P) P
  silent_rule {A} {P} m same = record { run = λ w p. post w p (m w) (same w) }
    where
      post :
          (w : World Float)
          → P w.tables
          → (o : Result A × World Float) → o.1.tables ≡ w.tables
          → Post (λ _. P) P o
      post w p (ok a, w') e = rw e p
      post w p (err x, w') e = rw e p

  -- A call that leaves the tables alone and cannot fail.
  pub sure_rule :
      {P E : Tables Float → Type 0} (m : Action Float (Unit {0}))
      → ((w : World Float) → ((m w).0 ≡ ok tt) × ((m w).1.tables ≡ w.tables))
      → Ensures P m (λ _. P) E
  sure_rule {P} {E} m sure = record { run = λ w p. post w p (m w) (sure w) }
    where
      post :
          (w : World Float)
          → P w.tables
          → (o : Result (Unit {0}) × World Float) → (o.0 ≡ ok tt) × (o.1.tables ≡ w.tables)
          → Post (λ _. P) E o
      post w p (ok a, w') e = rw e.1 p
      post w p (err x, w') e = cc e.0

  pub or_zero_rule :
      {A : Type 0} {P E : Tables Float → Type 0} {m : Action Float A} (z : A)
      → Ensures P m (λ _. P) P
      → Ensures P (or_zero z m) (λ _. P) E
  unfolding or_zero
  or_zero_rule {A} {P} {E} {m} z e = record { run = λ w p. post (m w) (e.run w p) }
    where
      post :
          (o : Result A × World Float)
          → Post (λ _. P) P o
          → Post (λ _. P) E (elim o.0 [ ok a ↦ ok a | err x ↦ ok z ], o.1)
      post (ok a, w) q = q
      post (err x, w) q = q

  -- A transaction that fails leaves the tables as they were.
  pub with_tx_rule :
      {A : Type 0} {Q : A → Tables Float → Type 0} {P E' : Tables Float → Type 0}
      {m : Action Float A} (env : Env)
      → Ensures P m Q E'
      → Ensures P (with_tx env m) Q P
  with_tx_rule {A} {Q} {P} {E'} {m} env e = record { run = λ w p. post w p (with_tx env m w) refl }
    where
      body :
          (w : World Float) (a : A)
          → P w.tables
          → (o : Result A × World Float) → o.0 ≡ ok a
          → Post Q E' o
          → Q a o.1.tables
      body w a p (ok b, w') same q = subst (λ x. Q x w'.tables) (ground arith) q
      body w a p (err x, w') same q = cc same

      post :
          (w : World Float)
          → P w.tables
          → (o : Result A × World Float) → o ≡ with_tx env m w
          → Post Q P o
      post w p (ok a, w') e' =
          let h = with_tx_ok env m w a (ap (λ x. x.0) (sym e')) in
          rw (ap (λ (x : Result A × World Float). x.1.tables) e', h.1)
            (body w a p (m (tick w)) h.0 (e.run (tick w) p))
      post w p (err x, w') e' =
          rw
            (
              ap (λ (x : Result A × World Float). x.1.tables) e',
              with_tx_err env m w x (ap (λ x. x.0) (sym e')),
            )
            p

  pub fail_if_keeps :
      {P : Tables Float → Type 0} (bad : Bool) (e : Error) → Ensures P (fail_if bad e) (λ _. P) P
  unfolding fail_if
  fail_if_keeps true e = record { run = λ w p. p }
  fail_if_keeps false e = record { run = λ w p. p }

  -- A test that passes gives a fact that no later call can undo.
  pub fail_if_fact :
      {C : Type 0} {P E : Tables Float → Type 0} (bad : Bool) (e : Error)
      → ((t : Tables Float) → P t → E t)
      → ((t : Tables Float) → P t → bad ≡ false → C)
      → Ensures P (fail_if bad e) (λ _ t. E t × C) E
  unfolding fail_if
  fail_if_fact true e stop go = record { run = λ w p. stop w.tables p }
  fail_if_fact false e stop go = record { run = λ w p. (stop w.tables p, go w.tables p refl) }

  pub with_fact :
      {A : Type 0} {C : Type 0} {P E : Tables Float → Type 0} {Q : A → Tables Float → Type 0}
      {m : Action Float A}
      → (C → Ensures P m Q E)
      → Ensures (λ t. P t × C) m Q E
  with_fact h = record { run = λ w p. (h p.1).run w p.0 }

  module _ {A : Type 0} (env : Env) where
    -- A SELECT returns what it reads, and changes nothing.
    pub query_rule :
        {P : Tables Float → Type 0} (read : ℕ → Tables Float → A)
        → Ensures P (query env read) (λ a t. P t × ((n : ℕ) × (a ≡ read n t))) P
    unfolding query
    query_rule {P} read = record { run = λ w p. go w p (env.fault w.trips) }
      where
        go :
            (w : World Float)
            → P w.tables
            → (f : Option Error)
            → Post
                (λ a t. P t × ((n : ℕ) × (a ≡ read n t)))
                P
                (elim f [ some e ↦ (err e, tick w) | none ↦ (ok (read w.trips w.tables), tick w) ])
        go w p none = (p, (w.trips, refl))
        go w p (some e) = p

    -- What a statement returns: Q of the value and the tables, or an error.
    abbrev pub Returns : (A → Tables Float → Type 0) → Result (A × Tables Float) → Type 0
    Returns Q (ok (a, t)) = Q a t
    Returns Q (err e) = Unit

    -- E holds before the statement and after it.
    pub exec_rule :
        {P E : Tables Float → Type 0} {Q : A → Tables Float → Type 0}
        (run : ℕ → Tables Float → Result (A × Tables Float))
        → ((n : ℕ) (t : Tables Float) → P t → Returns Q (run n t))
        → ((t : Tables Float) → P t → E t)
        → ((a : A) (t : Tables Float) → Q a t → E t)
        → Ensures P (exec env run) Q E
    unfolding exec
    exec_rule {P} {E} {Q} run h before after = record { run = λ w p. go w p (env.fault w.trips) }
      where
        ran :
            (w : World Float)
            → P w.tables
            → (r : Result (A × Tables Float)) → Returns Q r
            → Post Q E (elim r [
              | err e ↦ (err e, tick w)
              | ok (a, t) ↦ (ok a, record (tick w) { tables = t })
            ])
        ran w p (ok (a, t)) q = q
        ran w p (err e) q = before w.tables p

        lost :
            (w : World Float)
            → P w.tables
            → (b : Bool) (r : Result (A × Tables Float)) → Returns Q r
            → E (if b then effect env r w.tables else w.tables)
        lost w p false r q = before w.tables p
        lost w p true (ok (a, t)) q = after a t q
        lost w p true (err e) q = before w.tables p

        go :
            (w : World Float)
            → P w.tables
            → (f : Option Error)
            → Post Q E (elim f [
              | some e ↦ (
                err e,
                record (tick w) {
                  tables =
                      if env.carried_out w.trips
                      then effect env (run w.trips w.tables) w.tables
                      else w.tables;
                },
              )
              | none ↦ elim (run w.trips w.tables) [
                | err e ↦ (err e, tick w)
                | ok (a, t) ↦ (ok a, record (tick w) { tables = t })
              ]
            ])
        go w p none = ran w p (run w.trips w.tables) (h w.trips w.tables p)
        go w p (some e) =
            lost w p (env.carried_out w.trips) (run w.trips w.tables) (h w.trips w.tables p)
