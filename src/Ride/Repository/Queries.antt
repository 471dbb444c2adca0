-- ===== src/Ride/Repository/Queries.antt =====
-- internal/ride/repository.go: the rows that the SELECT statements return.
use ridesharing.Prelude.{
  ℕ, zero, suc, ◌≤◌, ◌≡◌, ◌≢◌, refl, Bool, true, false, none, List, [], ◌∷◌, All, arith, inl, inr,
  Bool-cases, ltb, take, drop, select, length, length-take-le,
}
use ridesharing.Models.{Uuid, Ride}
use ridesharing.Ride.Repository.{
  is_active, insert_newest, newest_first, first, active_row, is_of_user, history_rows,
}

module _ {Float : Type 0} where
  insert_newest-ne : (r : Ride Float) (xs : List (Ride Float)) → insert_newest r xs ≢ []
  unfolding insert_newest
  insert_newest-ne r [] = cc
  insert_newest-ne r (x ∷ xs) = ground arith

  active_row-nil : (xs : List (Ride Float)) → first (take 1 (newest_first xs)) ≡ none → xs ≡ []
  unfolding newest_first
  active_row-nil [] e = refl
  active_row-nil (r ∷ rs) e = ground (arith, insert_newest-ne r (newest_first rs))

  select-none :
      (p : Ride Float → Bool) (xs : List (Ride Float))
      → select p xs ≡ []
      → All (λ r. p r ≡ false) xs
  select-none p [] e = tt
  select-none p (x ∷ xs) e = elim (Bool-cases (p x)) [
    | inl hit ↦ absurd (ground arith)
    | inr miss ↦ (miss, select-none p xs (ground arith))
  ]

  All-map :
      (P Q : Ride Float → Type 0) (xs : List (Ride Float))
      → ((r : Ride Float) → P r → Q r)
      → All P xs
      → All Q xs
  All-map P Q [] h all = tt
  All-map P Q (x ∷ xs) h all = (h x all.0, All-map P Q xs h all.1)

  -- No row from the query for active rides: the rider has none.
  pub active_row-none :
      (rider : Uuid) (rides : List (Ride Float))
      → active_row rider rides ≡ none
      → All (λ r. r.rider_id ≡ rider → is_active r.status ≡ false) rides
  unfolding active_row
  active_row-none rider rides e =
      All-map _ (λ r. r.rider_id ≡ rider → is_active r.status ≡ false) rides
        (λ r no same. ground arith) (select-none _ rides (active_row-nil _ e))

  -- Newest first: no row is older than the next.
  abbrev pub Falling : List (Ride Float) → Type 0
  Falling [] = Unit
  Falling (r ∷ rs) = All (λ x. x.created_at ≤ r.created_at) rs × Falling rs

  insert-All :
      (P : Ride Float → Type 0) (r : Ride Float) (xs : List (Ride Float))
      → P r
      → All P xs
      → All P (insert_newest r xs)
  unfolding insert_newest
  insert-All P r [] p all = (p, tt)
  insert-All P r (x ∷ xs) p all = elim (Bool-cases (ltb r.created_at x.created_at)) [
    | inl later ↦ rw later (all.0, insert-All P r xs p all.1)
    | inr here ↦ rw here (p, all)
  ]

  insert-Falling :
      (r : Ride Float) (xs : List (Ride Float)) → Falling xs → Falling (insert_newest r xs)
  unfolding insert_newest
  insert-Falling r [] f = (tt, tt)
  insert-Falling r (x ∷ xs) f = elim (Bool-cases (ltb r.created_at x.created_at)) [
    | inl later ↦ rw later (
      insert-All (λ y. y.created_at ≤ x.created_at) r xs (ground arith) f.0,
      insert-Falling r xs f.1,
    )
    | inr here ↦ rw here (
      (ground arith, All-map _ (λ y. y.created_at ≤ r.created_at) xs (λ y h. ground arith) f.0),
      f,
    )
  ]

  newest_first-Falling : (xs : List (Ride Float)) → Falling (newest_first xs)
  unfolding newest_first
  newest_first-Falling [] = tt
  newest_first-Falling (r ∷ rs) = insert-Falling r (newest_first rs) (newest_first-Falling rs)

  drop-All :
      (P : Ride Float → Type 0) (n : ℕ) (xs : List (Ride Float)) → All P xs → All P (drop n xs)
  drop-All P zero xs h = h
  drop-All P (suc n) [] h = tt
  drop-All P (suc n) (x ∷ xs) h = drop-All P n xs h.1

  take-All :
      (P : Ride Float → Type 0) (n : ℕ) (xs : List (Ride Float)) → All P xs → All P (take n xs)
  take-All P zero xs h = tt
  take-All P (suc n) [] h = tt
  take-All P (suc n) (x ∷ xs) h = (h.0, take-All P n xs h.1)

  drop-Falling : (n : ℕ) (xs : List (Ride Float)) → Falling xs → Falling (drop n xs)
  drop-Falling zero xs h = h
  drop-Falling (suc n) [] h = tt
  drop-Falling (suc n) (x ∷ xs) h = drop-Falling n xs h.1

  take-Falling : (n : ℕ) (xs : List (Ride Float)) → Falling xs → Falling (take n xs)
  take-Falling zero xs h = tt
  take-Falling (suc n) [] h = tt
  take-Falling (suc n) (x ∷ xs) h = (take-All _ n xs h.0, take-Falling n xs h.1)

  select-All :
      (p : Ride Float → Bool) (xs : List (Ride Float)) → All (λ r. p r ≡ true) (select p xs)
  select-All p [] = tt
  select-All p (x ∷ xs) = elim (Bool-cases (p x)) [
    | inl hit ↦ rw hit (hit, select-All p xs)
    | inr miss ↦ rw miss (select-All p xs)
  ]

  newest_first-All :
      (P : Ride Float → Type 0) (xs : List (Ride Float)) → All P xs → All P (newest_first xs)
  unfolding newest_first
  newest_first-All P [] h = tt
  newest_first-All P (x ∷ xs) h = insert-All P x _ h.0 (newest_first-All P xs h.1)

  -- A page of a user's history holds at most `limit` rides, all of them of that user as rider or
  -- driver, and no ride in it is older than one that follows it.
  pub history_rows_page :
      (user : Uuid) (limit offset : ℕ) (rides : List (Ride Float))
      → let page = history_rows user limit offset rides in
        (length page ≤ limit) × All (λ r. is_of_user user r ≡ true) page × Falling page
  unfolding history_rows
  history_rows_page user limit offset rides = (
    length-take-le limit _,
    take-All _ limit _
        (drop-All _ offset _ (newest_first-All _ _ (select-All (is_of_user user) rides))),
    take-Falling limit _
        (drop-Falling offset _ (newest_first-Falling (select (is_of_user user) rides))),
  )
