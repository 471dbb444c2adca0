-- ===== src/Config/Brokers.antt =====
-- pkg/config/config.go: the list that a setting holds.
use mathlib.Core.Path.{subst}
use Prim.Native.Char.{Char, code}
use Prim.Native.String.{◌++◌}
use Prim.Native.String.append.{nil, cons}
use ridesharing.Prelude.{
  ◌≡◌, refl, sym, ◌∙◌, String, false, List, [], ◌∷◌, ◌==◌, ==-refl, All, same_text, same_text_iff,
  Bool-cases, inl, inr,
}
use ridesharing.Config.{Environ, get_env, get_env_slice, trimmed, split, trim_space}

-- Texts put together with a separator between them.
abbrev pub join : Char → String → List String → String
join sep t [] = t
join sep t (u ∷ us) = t ++ String.◌∷◌ sep (join sep u us)

abbrev pub IsFull : String → Type 0
IsFull String.[] = ⊥
IsFull (String.◌∷◌ c s) = Unit

module _ (sep : Char) where
  -- No character is the separator.
  abbrev pub IsFree : String → Type 0
  IsFree String.[] = Unit
  IsFree (String.◌∷◌ c s) = ((code c == code sep) ≡ false) × IsFree s

  -- A text that a list can hold: not empty, without white space at its ends and without the separator.
  abbrev pub IsEntry : String → Type 0
  IsEntry t = IsFull t × (trim_space t ≡ t) × IsFree t

  split_free : (t : String) → IsFree t → split sep t ≡ t ∷ []
  split_free String.[] f = refl
  split_free (String.◌∷◌ c s) f = rw (f.0, split_free s f.1) refl

  split-append :
      (t rest : String) → IsFree t → split sep (t ++ String.◌∷◌ sep rest) ≡ t ∷ split sep rest
  split-append String.[] rest f = rw (nil, ==-refl (code sep)) refl
  split-append (String.◌∷◌ c s) rest f = rw (cons, f.0, split-append s rest f.1) refl

  split-join :
      (t : String) (us : List String)
      → IsEntry t
      → All IsEntry us
      → split sep (join sep t us) ≡ t ∷ us
  split-join t [] e es = split_free t e.2
  split-join t (u ∷ us) e es =
      rw (split-append t (join sep u us) e.2, split-join u us es.0 es.1) refl

  trimmed_entries : (ts : List String) → All IsEntry ts → trimmed ts ≡ ts
  trimmed_entries [] es = refl
  trimmed_entries (t ∷ ts) es = elim (Bool-cases (same_text t "")) [
    | inl e ↦ absurd (subst IsFull ((same_text_iff t "").0 e) es.0.0)
    | inr e ↦ rw (es.0.1, e, trimmed_entries ts es.1) refl
  ]

  join-IsFull : (t : String) (us : List String) → IsFull t → IsFull (join sep t us)
  join-IsFull String.[] us f = elim f [ ]
  join-IsFull (String.◌∷◌ c s) [] f = f
  join-IsFull (String.◌∷◌ c s) (u ∷ us) f =
      subst IsFull (sym (cons c s (String.◌∷◌ sep (join sep u us)))) f

  -- A list of one text or more, none of them empty, with white space at an end or with the separator:
  -- `getEnvSlice` reads it back from a variable that holds the texts with the separator between them.
  pub get_env_slice-join :
      (environ : Environ) (key fallback t : String) (us : List String)
      → environ key ≡ join sep t us
      → IsEntry t
      → All IsEntry us
      → get_env_slice environ key fallback sep ≡ t ∷ us
  unfolding get_env_slice get_env
  get_env_slice-join environ key fallback t us set e es =
      elim (Bool-cases (same_text (environ key) "")) [
        | inl b ↦
            absurd
              (subst IsFull (sym set ∙ (same_text_iff (environ key) "").0 b) (join-IsFull t us e.0))
        | inr b ↦ rw (b, set, split-join t us e es) (trimmed_entries (t ∷ us) (e, es))
      ]
