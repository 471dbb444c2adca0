-- ===== src/Auth/Accounts.antt =====
-- The tables of internal/auth/repository.go: when the accounts are consistent.
use ridesharing.Prelude.{
  ◌≡◌, refl, String, false, none, some, List, [], ◌∷◌, ◌++◌, arith, All, same_text, same_text_iff,
  if◌then◌else◌,
}
use ridesharing.Prelude.Table.{find, Unique, find-append}
use ridesharing.Models.{Uuid, User, Driver}
use ridesharing.Database.{Tables}
use ridesharing.Auth.Repository.{user_key, driver_key, find_email}

-- No two users have the same email.
abbrev pub UniqueEmail : List User → Type 0
UniqueEmail [] = Unit
UniqueEmail (u ∷ us) = (find_email u.email us ≡ none) × UniqueEmail us

-- The user exists.
abbrev pub HasUser : List User → Uuid → Type 0
HasUser users id = (u : User) × (find user_key id users ≡ some u)

module _ {Float : Type 0} where
  pub record IsConsistent (t : Tables Float) : Type 0 where
    pub ids : Unique user_key t.users
    pub emails : UniqueEmail t.users
    pub one_driver : Unique driver_key t.drivers
    pub drivers_are_users : All (λ d. HasUser t.users (driver_key d)) t.drivers

  -- Every user whose role is driver has a driver row. No constraint of the tables says so.
  abbrev pub HasRow : List (Driver Float) → User → Type 0
  HasRow drivers u =
      u.role ≡ "driver" → (d : Driver Float) × (find driver_key u.id drivers ≡ some d)

  abbrev pub IsComplete : Tables Float → Type 0
  IsComplete t = All (HasRow t.drivers) t.users

  -- Consistent, and with a row for every driver.
  abbrev pub IsSound : Tables Float → Type 0
  IsSound t = IsConsistent t × IsComplete t

  -- Rows that are there are still there when a driver is appended.
  pub append-HasRow :
      (d : Driver Float) (ds : List (Driver Float)) (us : List User)
      → All (HasRow ds) us
      → All (HasRow (ds ++ (d ∷ []))) us
  append-HasRow d ds [] h = tt
  append-HasRow d ds (u ∷ us) h = (
    (λ drives.
        let (row, found) = h.0 drives in (row, ground (arith, find-append driver_key u.id d ds))),
    append-HasRow d ds us h.1,
  )

pub find_email-append :
    (email : String) (u : User) (us : List User)
    → find_email email us ≡ none
    → find_email email (us ++ (u ∷ [])) ≡ (if same_text u.email email then some u else none)
unfolding find_email
find_email-append email u [] h = refl
find_email-append email u (x ∷ us) h = ground (arith, find_email-append email u us)

find_email-kept :
    (email : String) (u : User) (us : List User)
    → find_email email us ≡ none
    → same_text u.email email ≡ false
    → find_email email (us ++ (u ∷ [])) ≡ none
find_email-kept email u us h ne = ground (arith, find_email-append email u us h)

other_email :
    (x u : User) (us : List User)
    → find_email u.email (x ∷ us) ≡ none
    → (same_text u.email x.email ≡ false) × (find_email u.email us ≡ none)
unfolding find_email
other_email x u us h = ground (
  arith,
  same_text_iff x.email u.email,
  same_text_iff u.email x.email,
  (same_text_iff u.email u.email).1 refl,
)

pub append-UniqueEmail :
    (u : User) (us : List User)
    → find_email u.email us ≡ none
    → UniqueEmail us
    → UniqueEmail (us ++ (u ∷ []))
unfolding find_email
append-UniqueEmail u [] h unique = (refl, tt)
append-UniqueEmail u (x ∷ us) h unique =
    let o = other_email x u us h in
    (find_email-kept x.email u us unique.0 o.0, append-UniqueEmail u us o.1 unique.1)

-- A user that is there is still there when another row is appended.
pub users-append :
    (id : Uuid) (u : User) (us : List User) (found : User)
    → find user_key id us ≡ some found
    → find user_key id (us ++ (u ∷ [])) ≡ some found
users-append id u us found h = ground (arith, find-append user_key id u us)
