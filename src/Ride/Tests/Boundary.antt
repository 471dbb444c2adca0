-- ===== src/Ride/Tests/Boundary.antt =====
-- internal/ride behind the gateway: the ride of the parent module, its driver and a stranger.
use ridesharing.Prelude.{ℕ, ◌≡◌, refl, some, none}
use ridesharing.Errors.{Error, app, forbidden_error, ok, err}
use ridesharing.Models.{Ride, matched, enroute, completed}
use ridesharing.Floats.Fixed.{fixed}
use ridesharing.Rpc.Unary.{unary, unary-IsUuidText, count_letters}
use ridesharing.Http.{Context, error_json}
use ridesharing.Ride.Service.{accept_ride, complete_ride, cancel_ride}
use ridesharing.Ride.Service.Trip.{accepted, trip_succeeds}
use ridesharing.Ride.Grpc.{post_accept_ride, post_complete_ride, post_cancel_ride}
use ridesharing.Ride.Boundary.{
  ChangesIf, Named, IsMatchedWith, IsDrivenBy, IsPartOf, post_own, post_refused,
}
use ridesharing.Ride.Tests.{
  env, service, near, start, trip, placed, stored, no_rows-IsValid, request_ride-start,
  after_request,
}

abbrev context : ℕ → Context
context user = record { user_id = some user; user_role = some "driver" }

post_own_example :
    let w = stored matched in
    ChangesIf
      (Named fixed unary unary-IsUuidText env service "aaa"
        (IsMatchedWith fixed unary unary-IsUuidText env service 9))
      w.tables
      (post_accept_ride fixed unary env service (context 9) "aaa" w).1.tables
    × ChangesIf
        (Named fixed unary unary-IsUuidText env service "aaa"
          (IsDrivenBy fixed unary unary-IsUuidText env service 9))
        w.tables
        (post_complete_ride fixed unary env service (context 9) "aaa" w).1.tables
    × ChangesIf
        (Named fixed unary unary-IsUuidText env service "aaa"
          (IsPartOf fixed unary unary-IsUuidText env service 9))
        w.tables
        (post_cancel_ride fixed unary env service (context 9) "aaa" w).1.tables
post_own_example =
    post_own fixed unary unary-IsUuidText env service (context 9) 9 "aaa" (stored matched) refl

abbrev stranger : Error
stranger = app 403 forbidden_error "you are not assigned to this ride"

abbrev IsRefusal : Context → Type 0
IsRefusal c =
    ((accept_ride fixed env service 3 8 (stored matched)).0 ≡ err stranger
      → (post_accept_ride fixed unary env service c "aaa" (stored matched)).0
        ≡ error_json 500 "internal server error" none)
    × ((complete_ride fixed env service 3 8 (stored matched)).0 ≡ err stranger
        → (post_complete_ride fixed unary env service c "aaa" (stored matched)).0
          ≡ error_json 500 "internal server error" none)
    × ((cancel_ride fixed env service 3 8 (stored matched)).0 ≡ err stranger
        → (post_cancel_ride fixed unary env service c "aaa" (stored matched)).0
          ≡ error_json 500 "internal server error" none)

post_refused_example : IsRefusal (context 8)
unfolding count_letters
post_refused_example =
    post_refused fixed unary unary-IsUuidText env service (context 8) 8 3 "aaa" (stored matched)
      stranger refl refl

trip_succeeds_example :
    let w' = after_request in
    (r₁ r₂ : Ride ℕ) × ((accept_ride fixed env service 3 9 w').0 ≡ ok r₁)
    × ((complete_ride fixed env service 3 9 (accepted fixed env service 3 9 w')).0 ≡ ok r₂)
    × (r₁.status ≡ enroute)
    × (r₂.status ≡ completed)
    × (r₂.rider_id ≡ 7)
    × (r₂.driver_id ≡ some 9)
    × (r₂.fare ≡ 350)
trip_succeeds_example =
    trip_succeeds fixed env service 7 trip start placed near no_rows-IsValid (λ n. refl)
      request_ride-start refl
