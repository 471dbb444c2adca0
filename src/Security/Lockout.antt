-- ===== src/Security/Lockout.antt =====
-- pkg/security/security.go: when `LoginAttemptTracker` takes an account for locked.
use ridesharing.Prelude.{
  ◌+◌, ◌-◌, ◌≤◌, ◌<◌, ◌≡◌, ◌↔◌, refl, String, Bool, true, false, ◌&&◌, Option, none, some, List, [],
  ◌∷◌, arith, same_text, if◌then◌else◌, length, leb, ltb, Bool-cases, inl, inr,
}
use ridesharing.Models.{Time}
use ridesharing.Security.{
  Limits, Attempts, AttemptInfo, no_attempts, is_expired, failed, is_locked, remaining_attempts,
}
use ridesharing.Security.Run.{
  Attempt, failure, success, check, sweep, run, account_step, account_run, run-account,
}

-- The last of some times, the newest at the head; 0 where there is none.
abbrev pub last_time : List Time → Time
last_time [] = 0
last_time (last ∷ times) = last

module _ (t : Limits) where
  -- The lock that these failures set has run out.
  abbrev pub is_over : Time → List Time → Bool
  is_over now times = leb t.max_fails (length times) && ltb (last_time times + t.lock_dur) now

  -- The failed logins of an account that count, the newest at the head: those since its last successful
  -- login, and since the last check of it or cleanup of all that found its lock to have run out.
  unfoldable pub counted : String → List Attempt → List Time → List Time
  counted x [] times = times
  counted x (failure now email ∷ ops) times =
      counted x ops (if same_text x email then now ∷ times else times)
  counted x (success email ∷ ops) times = counted x ops (if same_text x email then [] else times)
  counted x (check now email ∷ ops) times =
      counted x ops (if same_text x email && is_over now times then [] else times)
  counted x (sweep now ∷ ops) times = counted x ops (if is_over now times then [] else times)

  -- The entry of an account with these failures.
  abbrev Counts : List Time → Option AttemptInfo → Type 0
  Counts [] none = Unit
  Counts [] (some info) = ⊥
  Counts (last ∷ times) none = ⊥
  Counts (last ∷ times) (some info) =
      (info.fail_count ≡ length (last ∷ times))
      × (info.locked_at ≡ (if leb t.max_fails (length (last ∷ times)) then some last else none))

  failed-Counts :
      (times : List Time) (now : Time) (info : Option AttemptInfo)
      → Counts times info
      → Counts (now ∷ times) (some (failed t now info))
  failed-Counts [] now none h = ground arith
  failed-Counts [] now (some info) h = absurd h
  failed-Counts (last ∷ times) now none h = absurd h
  failed-Counts (last ∷ times) now (some info) h = ground arith

  over-Counts :
      (times : List Time) (now : Time) (info : Option AttemptInfo)
      → 0 < t.max_fails
      → Counts times info
      → is_expired t now info ≡ is_over now times
  over-Counts [] now none pos h = ground arith
  over-Counts [] now (some info) pos h = absurd h
  over-Counts (last ∷ times) now none pos h = absurd h
  over-Counts (last ∷ times) now (some info) pos h = ground arith

  forget-Counts :
      (b : Bool) (times : List Time) (info : Option AttemptInfo)
      → Counts times info
      → Counts (if b then [] else times) (if b then none else info)
  forget-Counts true times info h = tt
  forget-Counts false times info h = h

  account_run-Counts :
      (x : String) (ops : List Attempt) (times : List Time) (info : Option AttemptInfo)
      → 0 < t.max_fails
      → Counts times info
      → Counts (counted x ops times) (account_run t x ops info)
  unfolding account_run account_step counted
  account_run-Counts x [] times info pos h = h
  account_run-Counts x (failure now email ∷ ops) times info pos h =
      elim (Bool-cases (same_text x email)) [
        | inl own ↦ rw own (
            account_run-Counts x ops (now ∷ times) (some (failed t now info)) pos
              (failed-Counts times now info h))
        | inr foreign ↦ rw foreign (account_run-Counts x ops times info pos h)
      ]
  account_run-Counts x (success email ∷ ops) times info pos h =
      account_run-Counts x ops _ _ pos (forget-Counts (same_text x email) times info h)
  account_run-Counts x (check now email ∷ ops) times info pos h =
      elim (Bool-cases (same_text x email)) [
        | inl own ↦
            rw (own, over-Counts times now info pos h)
              (account_run-Counts x ops _ _ pos (forget-Counts (is_over now times) times info h))
        | inr foreign ↦ rw foreign (account_run-Counts x ops times info pos h)
      ]
  account_run-Counts x (sweep now ∷ ops) times info pos h =
      rw (over-Counts times now info pos h)
        (account_run-Counts x ops _ _ pos (forget-Counts (is_over now times) times info h))

  run-Counts :
      (x : String) (ops : List Attempt)
      → 0 < t.max_fails
      → Counts (counted x ops []) (run t ops no_attempts x)
  run-Counts x ops pos =
      rw (run-account t x ops no_attempts) (account_run-Counts x ops [] none pos tt)

  locked_entry :
      (times : List Time) (now : Time) (info : Option AttemptInfo) (x : String) (a : Attempts)
      → a x ≡ info
      → Counts times info
      → 0 < t.max_fails
      → ((is_locked t now x a).0 ≡ true)
        ↔ ((t.max_fails ≤ length times) × (now ≤ last_time times + t.lock_dur))
  unfolding is_locked
  locked_entry [] now none x a same h pos = (λ e. ground arith, λ e. ground arith)
  locked_entry [] now (some info) x a same h pos = absurd h
  locked_entry (last ∷ times) now none x a same h pos = absurd h
  locked_entry (last ∷ times) now (some info) x a same h pos =
      (λ e. ground arith, λ e. ground arith)

  -- With `maxFails` at least 1, and from an empty tracker, after any operations on any accounts: an
  -- account is locked exactly if at least `maxFails` failed logins of it count and no more than the
  -- lock's duration has passed since the last one. Those count that came after its last successful
  -- login, and after the last check of it or cleanup that found its lock to have run out.
  pub lockout_iff :
      (x : String) (ops : List Attempt) (now : Time)
      → 0 < t.max_fails
      → ((is_locked t now x (run t ops no_attempts)).0 ≡ true) ↔ (
          (t.max_fails ≤ length (counted x ops []))
          × (now ≤ last_time (counted x ops []) + t.lock_dur))
  lockout_iff x ops now pos =
      locked_entry (counted x ops []) now _ x (run t ops no_attempts) refl (run-Counts x ops pos)
        pos

  count_left :
      (times : List Time) (info : Option AttemptInfo) (x : String) (a : Attempts)
      → a x ≡ info
      → Counts times info
      → remaining_attempts t x a ≡ t.max_fails - length times
  unfolding remaining_attempts
  count_left [] none x a same h = ground arith
  count_left [] (some info) x a same h = absurd h
  count_left (last ∷ times) none x a same h = absurd h
  count_left (last ∷ times) (some info) x a same h = ground arith

  -- The attempts left are `maxFails` less the failures that count, and 0 where these are more.
  remaining_attempts_run :
      (x : String) (ops : List Attempt)
      → 0 < t.max_fails
      → remaining_attempts t x (run t ops no_attempts) ≡ t.max_fails - length (counted x ops [])
  remaining_attempts_run x ops pos =
      count_left (counted x ops []) _ x (run t ops no_attempts) refl (run-Counts x ops pos)
