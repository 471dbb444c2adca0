-- ===== src/Prelude/Table.antt =====
-- A table of rows with a numeric key: what `WHERE id = $1` selects and updates.
use Prim.Native.Nat.{ℕ}
use mathlib.Core.Path.{◌≡◌, refl, subst}
use mathlib.Core.Bool.{true}
use mathlib.Core.Logic.{◌≢◌, inl, inr}
use mathlib.Core.List.{List, [], ◌∷◌, ◌++◌}
use mathlib.Core.Option
use mathlib.Core.Option.{Option, none, some}
use native.Mathlib.Omega.{arith}
use ridesharing.Prelude.Tests.{◌==◌, if◌then◌else◌, Bool-cases}
use ridesharing.Prelude.Lists.{All}

module _ {A : Type 0} (key : A → ℕ) where
  -- SELECT … WHERE key = k: the first such row.
  unfoldable pub find : ℕ → List A → Option A
  find k [] = none
  find k (a ∷ t) = if key a == k then some a else find k t

  -- UPDATE … SET … WHERE key = k: every such row.
  unfoldable pub update : ℕ → (A → A) → List A → List A
  update k f [] = []
  update k f (a ∷ t) = (if key a == k then f a else a) ∷ update k f t

  -- No key stands twice.
  abbrev pub Unique : List A → Type 0
  Unique [] = Unit
  Unique (a ∷ t) = (find (key a) t ≡ none) × Unique t

  pub find-key : (k : ℕ) (t : List A) (a : A) → find k t ≡ some a → key a ≡ k
  unfolding find
  find-key k [] a e = cc
  find-key k (x ∷ t) a e = ground (arith, find-key k t a)

  pub find-update_self :
      (k : ℕ) (f : A → A) (t : List A)
      → ((a : A) → key (f a) ≡ key a)
      → find k (update k f t) ≡ Option.map f (find k t)
  unfolding find update
  find-update_self k f [] h = refl
  find-update_self k f (x ∷ t) h = ground (arith, h x, find-update_self k f t h)

  pub find-update_ne :
      (j k : ℕ) (f : A → A) (t : List A)
      → ((a : A) → key (f a) ≡ key a)
      → j ≢ k
      → find j (update k f t) ≡ find j t
  unfolding find update
  find-update_ne j k f [] h ne = refl
  find-update_ne j k f (x ∷ t) h ne = ground (arith, h x, find-update_ne j k f t h ne)

  -- Rows are appended at the end.
  pub find-append :
      (k : ℕ) (a : A) (t : List A)
      → find k (t ++ (a ∷ []))
        ≡ elim (find k t) [ some b ↦ some b | none ↦ if key a == k then some a else none ]
  unfolding find
  find-append k a [] = refl
  find-append k a (x ∷ t) = ground (arith, find-append k a t)

  find-update-none :
      (j k : ℕ) (f : A → A) (t : List A)
      → ((a : A) → key (f a) ≡ key a)
      → find j t ≡ none
      → find j (update k f t) ≡ none
  unfolding find update
  find-update-none j k f [] h e = refl
  find-update-none j k f (x ∷ t) h e = ground (arith, h x, find-update-none j k f t h)

  head_key :
      (k : ℕ) (f : A → A) (x : A)
      → ((a : A) → key (f a) ≡ key a)
      → key (if key x == k then f x else x) ≡ key x
  head_key k f x h = ground (arith, h x)

  pub update-Unique :
      (k : ℕ) (f : A → A) (t : List A)
      → ((a : A) → key (f a) ≡ key a)
      → Unique t
      → Unique (update k f t)
  unfolding update
  update-Unique k f [] h u = tt
  update-Unique k f (x ∷ t) h u =
      (rw (head_key k f x h) (find-update-none (key x) k f t h u.0), update-Unique k f t h u.1)

  pub append-Unique :
      (a : A) (t : List A) → find (key a) t ≡ none → Unique t → Unique (t ++ (a ∷ []))
  unfolding find
  append-Unique a [] e u = (refl, tt)
  append-Unique a (x ∷ t) e u = ground (arith, find-append (key x) a t, append-Unique a t)

  -- What holds of every row holds of the row found, and is kept by an update that keeps it.
  pub find-All {κ} :
      (P : A → Type κ) (k : ℕ) (t : List A) {a : A} → All P t → find k t ≡ some a → P a
  unfolding find
  find-All P k [] all e = cc
  find-All P k (x ∷ t) all e = elim (Bool-cases (key x == k)) [
    | inl hit ↦ subst P (ground arith) all.0
    | inr miss ↦ find-All P k t all.1 (ground arith)
  ]

  key_eq : (x : A) (k : ℕ) → (key x == k) ≡ true → key x ≡ k
  key_eq x k h = ground arith

  pub update_missing : (k : ℕ) (f : A → A) (t : List A) → find k t ≡ none → update k f t ≡ t
  unfolding find update
  update_missing k f [] e = refl
  update_missing k f (x ∷ t) e = ground (arith, update_missing k f t)

  -- Where no key stands twice, an update changes the row that `find` finds, and no other.
  pub update-All {κ} :
      (P : A → Type κ) (k : ℕ) (f : A → A) (t : List A)
      → Unique t
      → ((a : A) → find k t ≡ some a → P a → P (f a))
      → All P t
      → All P (update k f t)
  unfolding find update
  update-All P k f [] u h all = tt
  update-All P k f (x ∷ t) u h all = elim (Bool-cases (key x == k)) [
    | inl hit ↦
        rw (hit, update_missing k f t (rw (key_eq x k hit) at u.0)) (h x (rw hit) all.0, all.1)
    | inr miss ↦ rw miss (all.0, update-All P k f t u.1 (λ a e. h a (rw miss e)) all.1)
  ]

pub append-All {ℓ κ} :
    {A : Type ℓ} (P : A → Type κ) (a : A) (t : List A) → P a → All P t → All P (t ++ (a ∷ []))
append-All P a [] p all = (p, tt)
append-All P a (x ∷ t) p all = (all.0, append-All P a t p all.1)
