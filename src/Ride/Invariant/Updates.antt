-- ===== src/Ride/Invariant/Updates.antt =====
-- internal/ride/repository.go: the invariant under an INSERT of a ride and an UPDATE of one ride.
use ridesharing.Prelude.{
  ◌≡◌, sym, ◌∙◌, true, false, none, some, List, [], ◌∷◌, ◌++◌, arith, inl, inr, Bool-cases, ◌==◌,
  ==_iff,
}
use ridesharing.Prelude.Table.{
  find, update, Unique, update-Unique, append-Unique, update-All, append-All, update_missing,
}
use ridesharing.Models.{Uuid, Ride}
use ridesharing.Database.{Tables}
use ridesharing.Ride.Repository.{ride_key, is_active, update_rides}
use ridesharing.Ride.Invariant.{IsFormed, NoneActive, OneActive, IsValid}

module _ {Float : Type 0} where
  NoneActive-append :
      (rider : Uuid) (r : Ride Float) (t : List (Ride Float))
      → (r.rider_id ≡ rider → is_active r.status ≡ false)
      → NoneActive rider t
      → NoneActive rider (t ++ (r ∷ []))
  NoneActive-append rider r t h none_active =
      append-All (λ x. x.rider_id ≡ rider → is_active x.status ≡ false) r t h none_active

  append-OneActive :
      (r : Ride Float) (t : List (Ride Float))
      → NoneActive r.rider_id t
      → OneActive t
      → OneActive (t ++ (r ∷ []))
  append-OneActive r [] none_active one = ((λ _. tt), tt)
  append-OneActive r (x ∷ t) none_active one = (
    (λ active.
        NoneActive-append x.rider_id r t (λ same. cc (none_active.0 (sym same), active))
          (one.0 active)),
    append-OneActive r t none_active.1 one.1,
  )

  -- What an update may do to a ride: keep its id and rider, and not make it active.
  abbrev pub Settles : (Ride Float → Ride Float) → Ride Float → Type 0
  Settles f r =
      ((f r).rider_id ≡ r.rider_id) × (is_active (f r).status ≡ true → is_active r.status ≡ true)

  NoneActive-update :
      (rider id : Uuid) (f : Ride Float → Ride Float) (t : List (Ride Float))
      → Unique ride_key t
      → ((r : Ride Float) → find ride_key id t ≡ some r → Settles f r)
      → NoneActive rider t
      → NoneActive rider (update ride_key id f t)
  NoneActive-update rider id f t u h =
      update-All ride_key (λ x. x.rider_id ≡ rider → is_active x.status ≡ false) id f t u
        (λ r e old same. ground (arith, h r e, old (sym (h r e).0 ∙ same)))

  update-OneActive :
      (id : Uuid) (f : Ride Float → Ride Float) (t : List (Ride Float))
      → Unique ride_key t
      → ((r : Ride Float) → find ride_key id t ≡ some r → Settles f r)
      → OneActive t
      → OneActive (update ride_key id f t)
  unfolding find update
  update-OneActive id f [] u h one = tt
  update-OneActive id f (x ∷ t) u h one = elim (Bool-cases (x.id == id)) [
    | inl hit ↦
        let settles : Settles f x = h x (rw hit) in
        rw (hit, update_missing ride_key id f t (rw ((==_iff x.id id).0 hit) at u.0))
          ((λ active. rw settles.0 (one.0 (settles.1 active))), one.1)
    | inr miss ↦ rw miss (
      (λ active. NoneActive-update x.rider_id id f t u.1 (λ r e. h r (rw miss e)) (one.0 active)),
      update-OneActive id f t u.1 (λ r e. h r (rw miss e)) one.1,
    )
  ]

  -- What an update of one ride has to respect.
  pub update-IsValid :
      (id : Uuid) (f : Ride Float → Ride Float) (t : Tables Float)
      → ((r : Ride Float) → (f r).id ≡ r.id)
      → ((r : Ride Float)
          → find ride_key id t.rides ≡ some r
          → Settles f r × (IsFormed r → IsFormed (f r)))
      → IsValid t
      → IsValid (update_rides (update ride_key id f) t)
  update-IsValid id f t same h v = record {
    unique = update-Unique ride_key id f t.rides same v.unique;
    formed = update-All ride_key IsFormed id f t.rides v.unique (λ r e. (h r e).1) v.formed;
    single = update-OneActive id f t.rides v.unique (λ r e. (h r e).0) v.single;
  }

  -- A new ride under a fresh id, of a rider with no active ride.
  pub insert-IsValid :
      (r : Ride Float) (t : Tables Float)
      → find ride_key r.id t.rides ≡ none
      → IsFormed r
      → NoneActive r.rider_id t.rides
      → IsValid t
      → IsValid (update_rides (λ rows. rows ++ (r ∷ [])) t)
  insert-IsValid r t fresh formed none_active v = record {
    unique = append-Unique ride_key r t.rides fresh v.unique;
    formed = append-All IsFormed r t.rides formed v.formed;
    single = append-OneActive r t.rides none_active v.single;
  }
