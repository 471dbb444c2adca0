-- ===== src/Security/Run.antt =====
-- pkg/security/security.go: sequences of operations of `LoginAttemptTracker`, and the entry of one
-- account along them.
use ridesharing.Prelude.{
  ◌≡◌, refl, ap, ◌∙◌, String, true, Option, none, some, List, [], ◌∷◌, arith, same_text,
  same_text_iff, if◌then◌else◌,
}
use ridesharing.Models.{Time}
use ridesharing.Security.{
  Limits, Attempts, AttemptInfo, is_expired, failed, is_locked, record_failure, record_success,
  cleanup,
}

-- The operations, with the time at which they run.
pub data Attempt : Type 0 where
  failure : Time → String → Attempt
  success : String → Attempt
  check : Time → String → Attempt
  sweep : Time → Attempt

module _ (t : Limits) where
  unfoldable pub step : Attempt → Attempts → Attempts
  step (failure now email) a = (record_failure t now email a).1
  step (success email) a = record_success t email a
  step (check now email) a = (is_locked t now email a).1
  step (sweep now) a = cleanup t now a

  unfoldable pub run : List Attempt → Attempts → Attempts
  run [] a = a
  run (op ∷ ops) a = run ops (step op a)

  -- The entry of one account, without the map: the operations on other accounts leave it alone.
  abbrev pub unless_expired : Time → Option AttemptInfo → Option AttemptInfo
  unless_expired now info = if is_expired t now info then none else info

  unfoldable pub account_step : String → Attempt → Option AttemptInfo → Option AttemptInfo
  account_step x (failure now email) info =
      if same_text x email then some (failed t now info) else info
  account_step x (success email) info = if same_text x email then none else info
  account_step x (check now email) info =
      if same_text x email then unless_expired now info else info
  account_step x (sweep now) info = unless_expired now info

  unfoldable pub account_run : String → List Attempt → Option AttemptInfo → Option AttemptInfo
  account_run x [] info = info
  account_run x (op ∷ ops) info = account_run x ops (account_step x op info)

  same_entry : (x email : String) (a : Attempts) → same_text x email ≡ true → a x ≡ a email
  same_entry x email a h = ap a ((same_text_iff x email).0 h)

  step-account : (x : String) (op : Attempt) (a : Attempts) → step op a x ≡ account_step x op (a x)
  unfolding step account_step record_failure record_success is_locked cleanup
  step-account x (failure now email) a = ground (arith, same_entry x email a)
  step-account x (success email) a = ground arith
  step-account x (check now email) a = ground (arith, same_entry x email a)
  step-account x (sweep now) a = ground arith

  -- The entry of an account after any operations is what the operations on it make of its own entry:
  -- no login of another account counts for it or unlocks it.
  pub run-account :
      (x : String) (ops : List Attempt) (a : Attempts) → run ops a x ≡ account_run x ops (a x)
  unfolding run account_run
  run-account x [] a = refl
  run-account x (op ∷ ops) a =
      run-account x ops (step op a) ∙ ap (account_run x ops) (step-account x op a)
