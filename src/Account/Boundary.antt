-- ===== src/Account/Boundary.antt =====
-- internal/user/handler.go and grpc_server.go: whose rows a request to the gateway can change.
use mathlib.Core.Path.{subst}
use mathlib.Core.Logic.{◌≢◌}
use ridesharing.Prelude.{
  ◌≡◌, refl, sym, ◌∙◌, String, Bool, true, Option, none, some, arith, same_text, same_text_iff,
  Bool-cases, inl, inr,
}
use ridesharing.Prelude.Table.{find, find-update_ne}
use ridesharing.Errors.{Result, ok, Result-cases, internal}
use ridesharing.Models.{Uuid, UserWithDriver}
use ridesharing.Database.{actions, Env, Tables, World, Action, pure, fail, map_err, ◌>>=◌}
use ridesharing.Database.Leaves.{
  Leaves, pure-Leaves, fail-Leaves, fail_if-Leaves, if_Leaves, bind-Leaves, then-Leaves,
  map_err-Leaves, exec-Leaves, invoke-Leaves, parsed-Leaves,
}
use ridesharing.Rpc.{GrpcLibrary, IsUuidText, invoke}
use ridesharing.Http.{Context}
use ridesharing.Auth.Repository.{user_key, driver_key}
use ridesharing.Account.{
  UpdateProfileRequest, with_profile, with_vehicle, with_availability, select_user, select_driver,
  get_by_id, set_profile, update_driver, set_available, update_base, update_vehicle, update_profile,
  set_availability, or_not_found,
}
use ridesharing.Account.Grpc.{
  PbUpdateProfile, update_request, update_message, reread_profile, serve_update_profile,
  serve_set_availability, put_profile, put_availability,
}

module _ {Float : Type 0} (env : Env) (id : Uuid) where
  -- The rows of the other users are found as before.
  abbrev pub OnlyOwn : Tables Float → Tables Float → Type 0
  OnlyOwn t t' =
      (j : Uuid)
      → j ≢ id
      → (find user_key j t'.users ≡ find user_key j t.users)
        × (find driver_key j t'.drivers ≡ find driver_key j t.drivers)

  same : (t : Tables Float) → OnlyOwn t t
  same t j ne = (refl, refl)

  join : (t u v : Tables Float) → OnlyOwn t u → OnlyOwn u v → OnlyOwn t v
  join t u v a b j ne = ((b j ne).0 ∙ (a j ne).0, (b j ne).1 ∙ (a j ne).1)

  abbrev pub Own : {A : Type 0} → Action Float A → Type 0
  Own = Leaves OnlyOwn

  get_by_id_same : (w : World Float) → (get_by_id env id w).1.tables ≡ w.tables
  unfolding actions get_by_id select_user select_driver
  get_by_id_same w = ground arith

  get_by_id-Own : Own (get_by_id env id)
  get_by_id-Own w = subst (OnlyOwn w.tables) (sym (get_by_id_same w)) (same w.tables)

  set_profile-Own : (name phone : String) → Own (set_profile env id name phone)
  unfolding set_profile
  set_profile-Own name phone = map_err-Leaves OnlyOwn same join _ _ (
      exec-Leaves OnlyOwn same join env tt _ (λ n t j ne. (
        find-update_ne user_key j id (with_profile name phone (env.now n)) t.users (λ u. refl) ne,
        refl,
      )))

  update_driver-Own : (vehicle plate : String) → Own (update_driver env id vehicle plate)
  unfolding update_driver
  update_driver-Own vehicle plate = map_err-Leaves OnlyOwn same join _ _ (
      exec-Leaves OnlyOwn same join env tt _ (λ n t j ne. (
        refl,
        find-update_ne driver_key j id (with_vehicle vehicle plate (env.now n)) t.drivers
            (λ u. refl) ne,
      )))

  set_available-Own : (available : Bool) → Own (set_available env id available)
  unfolding set_available
  set_available-Own available = map_err-Leaves OnlyOwn same join _ _ (
      exec-Leaves OnlyOwn same join env tt _ (λ n t j ne. (
        refl,
        find-update_ne driver_key j id (with_availability available (env.now n)) t.drivers
            (λ u. refl) ne,
      )))

  existing-Own : (o : Option (UserWithDriver Float)) → Own (or_not_found env o)
  unfolding fail pure
  existing-Own none w j ne = (refl, refl)
  existing-Own (some u) w j ne = (refl, refl)

  found-Own : (m : String) → Own (map_err (internal m) (get_by_id env id) >>= or_not_found env)
  found-Own m =
      bind-Leaves OnlyOwn same join _ _ (map_err-Leaves OnlyOwn same join _ _ get_by_id-Own)
        existing-Own

  pub update_profile-Own : (req : UpdateProfileRequest) → Own (update_profile env id req)
  unfolding update_profile update_base update_vehicle
  update_profile-Own req = bind-Leaves OnlyOwn same join _ _ (found-Own _) λ existing.
      then-Leaves OnlyOwn same join _ _
        (if_Leaves OnlyOwn same join _ _ _
          (map_err-Leaves OnlyOwn same join _ _ (set_profile-Own _ _))
          (pure-Leaves OnlyOwn same join tt))
        (then-Leaves OnlyOwn same join _ _
          (if_Leaves OnlyOwn same join _ _ _
            (map_err-Leaves OnlyOwn same join _ _ (update_driver-Own _ _))
            (pure-Leaves OnlyOwn same join tt))
          get_by_id-Own)

  pub set_availability-Own : (available : Bool) → Own (set_availability env id available)
  unfolding set_availability
  set_availability-Own available = bind-Leaves OnlyOwn same join _ _ (found-Own _) λ user.
      then-Leaves OnlyOwn same join _ _ (fail_if-Leaves OnlyOwn same join _ _)
        (map_err-Leaves OnlyOwn same join _ _ (set_available-Own available))

-- The text of an id is parsed to that id alone.
parsed_own :
    (g : GrpcLibrary)
    → IsUuidText g
    → (user id : Uuid) (path : String) → same_text (g.uuid_text user) path ≡ true
    → g.parse_uuid path ≡ ok id
    → id ≡ user
parsed_own g text user id path own e =
    ground (arith, same_text_iff (g.uuid_text user) path, text.parse-text user)

module _ {Float : Type 0} (g : GrpcLibrary) (text : IsUuidText g) (env : Env) where
  serve_update_profile_own :
      (user : Uuid) (req : PbUpdateProfile)
      → same_text (g.uuid_text user) req.user_id ≡ true
      → Leaves {Float = Float} (OnlyOwn env user) (serve_update_profile g env req)
  unfolding serve_update_profile
  serve_update_profile_own user req own =
      parsed-Leaves (OnlyOwn env user) (same env user) (join env user) g req.user_id _ λ id e.
        rw (parsed_own g text user id req.user_id own e) (
          bind-Leaves (OnlyOwn env user) (same env user) (join env user) _ _
            (update_profile-Own env user (update_request req)) reread)
    where
      reread :
          (o : Option (UserWithDriver Float)) → Leaves (OnlyOwn env user) (reread_profile g env o)
      reread none = fail-Leaves (OnlyOwn env user) (same env user) (join env user) _ _
      reread (some u) = pure-Leaves (OnlyOwn env user) (same env user) (join env user) _

  serve_set_availability_own :
      (user : Uuid) (path : String) (available : Bool)
      → same_text (g.uuid_text user) path ≡ true
      → Leaves {Float = Float} (OnlyOwn env user) (serve_set_availability g env path available)
  unfolding serve_set_availability
  serve_set_availability_own user path available own =
      parsed-Leaves (OnlyOwn env user) (same env user) (join env user) g path _ λ id e.
        rw (parsed_own g text user id path own e) (
          then-Leaves (OnlyOwn env user) (same env user) (join env user) _ _
            (set_availability-Own env user available)
            (pure-Leaves (OnlyOwn env user) (same env user) (join env user) true))

  put_profile_own :
      (c : Context) (user : Uuid) (path : String) (w : World Float)
      (body : Result UpdateProfileRequest)
      → c.user_id ≡ some user
      → OnlyOwn env user w.tables (put_profile g env c path body w).1.tables
  unfolding put_profile
  put_profile_own c user path w body signed_in =
      elim (Bool-cases (same_text (g.uuid_text user) path)) [
        | inr other ↦
            let to : w.tables ≡ (put_profile g env c path body w).1.tables = ground arith in
            subst (OnlyOwn env user w.tables) to (same env user w.tables)
        | inl own ↦ elim (Result-cases body) [
          | inl (e, bad) ↦
              let to : w.tables ≡ (put_profile g env c path body w).1.tables = ground arith in
              subst (OnlyOwn env user w.tables) to (same env user w.tables)
          | inr (req, good) ↦
              let to : (invoke g (serve_update_profile g env (update_message path req)) w).1.tables
                  ≡ (put_profile g env c path body w).1.tables =
                ground arith in
              subst (OnlyOwn env user w.tables) to (
                invoke-Leaves (OnlyOwn env user) (same env user) (join env user) g
                  (serve_update_profile g env (update_message path req))
                  (serve_update_profile_own user (update_message path req) own) w)
        ]
      ]

  put_availability_own :
      (c : Context) (user : Uuid) (path : String) (w : World Float) (body : Result Bool)
      → c.user_id ≡ some user
      → OnlyOwn env user w.tables (put_availability g env c path body w).1.tables
  unfolding put_availability
  put_availability_own c user path w body signed_in =
      elim (Bool-cases (same_text (g.uuid_text user) path)) [
        | inr other ↦
            let to : w.tables ≡ (put_availability g env c path body w).1.tables = ground arith in
            subst (OnlyOwn env user w.tables) to (same env user w.tables)
        | inl own ↦ elim (Result-cases body) [
          | inl (e, bad) ↦
              let to : w.tables ≡ (put_availability g env c path body w).1.tables = ground arith in
              subst (OnlyOwn env user w.tables) to (same env user w.tables)
          | inr (req, good) ↦
              let to : (invoke g (serve_set_availability g env path req) w).1.tables
                  ≡ (put_availability g env c path body w).1.tables =
                ground arith in
              subst (OnlyOwn env user w.tables) to (
                invoke-Leaves (OnlyOwn env user) (same env user) (join env user) g
                  (serve_set_availability g env path req)
                  (serve_set_availability_own user path req own) w)
        ]
      ]

  -- For a user who is signed in, whatever the path and the body, and whatever is lost or fails: neither
  -- PUT /users/:id nor PUT /users/:id/availability changes what is found of another user or driver.
  pub put_own :
      (c : Context) (user : Uuid) (path : String) (w : World Float)
      → c.user_id ≡ some user
      → ((body : Result UpdateProfileRequest)
          → OnlyOwn env user w.tables (put_profile g env c path body w).1.tables)
        × ((body : Result Bool)
            → OnlyOwn env user w.tables (put_availability g env c path body w).1.tables)
  put_own c user path w signed_in = (
    (λ body. put_profile_own c user path w body signed_in),
    (λ body. put_availability_own c user path w body signed_in),
  )
