-- ===== src/Gateway/Access.antt =====
-- cmd/gateway/main.go: which requests reach the handler of a protected route, and as whom.
use mathlib.Core.Logic.{◌⊎◌}
use ridesharing.Prelude.{
  ◌∙◌, ◌≡◌, refl, String, true, false, some, List, same_text, Bool-cases, Option-cases, inl, inr,
}
use ridesharing.Errors.{Result-cases, ok}
use ridesharing.Jwt.{Claims, validate_token}
use ridesharing.Security.{limit}
use ridesharing.Http.{Reply, status_of}
use ridesharing.Middleware.{Flight, answered, Next, recovery}
use ridesharing.Middleware.Bearer.{bearer_token}
use ridesharing.Gateway.Chain.{
  prepared, after_bucket, global_options, global_limited, global_passes, auth_blank, auth_malformed,
  auth_invalid, headed, left_of, user_limited, user_passes, recovery_answered, recovery_same,
}
use ridesharing.Gateway.{Limiters, Settings, user_quota, protected, serve_protected}

module _ {Bucket : Type 0} (A : Type 0) (g : Settings Bucket) where
  -- Whatever the handler is, the answer is the same, with status 204, 401 or 429.
  abbrev pub IsRefused : Flight → Limiters Bucket → Type 0
  IsRefused f l =
      (r : Reply A) × (hs : List (String × String)) × (l' : Limiters Bucket) × ((status_of r ≡ 204)
        ⊎ (status_of r ≡ 401)
        ⊎ (status_of r ≡ 429))
      × ((handler : Next (Limiters Bucket) A) → serve_protected g handler f l ≡ (answered r hs, l'))

  -- The limiters after a request of that user has passed both.
  abbrev pub counted : Claims → Flight → Limiters Bucket → Limiters Bucket
  counted claims f l = record {
    bucket = (g.allow f.now l.bucket).1;
    users = (limit user_quota f.now f.later (some claims.user_id) l.users).1;
  }

  -- The handler is run, as the user of the claims.
  abbrev pub IsRun : Claims → Flight → Limiters Bucket → Type 0
  IsRun claims f l =
      (f' : Flight) × (f'.context
        ≡ record { user_id = some claims.user_id; user_role = some claims.role })
      × (f'.body_limit ≡ some 1_048_576)
      × ((handler : Next (Limiters Bucket) A)
          → serve_protected g handler f l ≡ recovery handler f' (counted claims f l))

  -- What lets a request through.
  abbrev pub IsAdmitted : String → Claims → Flight → Limiters Bucket → Type 0
  IsAdmitted token claims f l =
      (same_text f.method "OPTIONS" ≡ false)
      × ((g.allow f.now l.bucket).0 ≡ true)
      × (bearer_token f.authorization ≡ some token)
      × (validate_token g.jwt f.now token g.jwt_secret ≡ ok claims)
      × ((limit user_quota f.now f.later (some claims.user_id) l.users).0.0 ≡ true)

  IsRefused-by :
      (f : Flight) (l l' : Limiters Bucket) (r : Reply A) (hs : List (String × String))
      → same_text f.method "OPTIONS" ≡ false
      → (g.allow f.now l.bucket).0 ≡ true
      → (status_of r ≡ 401) ⊎ (status_of r ≡ 429)
      → ((handler : Next (Limiters Bucket) A)
          → protected g handler (prepared f) (after_bucket g f l) ≡ (answered r hs, l'))
      → IsRefused f l
  IsRefused-by f l l' r hs a b code e = (
    r,
    hs,
    l',
    inr code,
    λ handler.
        global_passes g handler f l a b
        ∙ recovery_answered (protected g handler) (prepared f) (after_bucket g f l) l' r hs
            (e handler),
  )

  by_claims :
      (f : Flight) (l : Limiters Bucket) (token : String) (claims : Claims)
      → same_text f.method "OPTIONS" ≡ false
      → (g.allow f.now l.bucket).0 ≡ true
      → same_text f.authorization "" ≡ false
      → bearer_token f.authorization ≡ some token
      → validate_token g.jwt f.now token g.jwt_secret ≡ ok claims
      → IsRefused f l ⊎ ((t : String) × (c : Claims) × IsAdmitted t c f l × IsRun c f l)
  by_claims f l token claims a b given c d =
      elim (Bool-cases (limit user_quota f.now f.later (some claims.user_id) l.users).0.0) [
        | inr over ↦ inl (
            IsRefused-by f l _ _ _ a b (inr refl) (λ handler.
              user_limited g handler (prepared f) (after_bucket g f l) token claims given c d over))
        | inl within ↦ inr (
          token,
          claims,
          (a, b, c, d, within),
          (
            headed g (left_of g claims (prepared f) l) claims (prepared f),
            refl,
            refl,
            λ handler.
                global_passes g handler f l a b
                ∙ recovery_same (protected g handler) handler (prepared f) _ (after_bucket g f l) _
                    (user_passes g handler (prepared f) (after_bucket g f l) token claims given c d
                      within),
          ),
        )
      ]

  -- A request for a protected route either gets an answer with status 204, 401 or 429 that no handler
  -- has a part in; or it is no OPTIONS request, the token bucket allows it, its header carries a token
  -- that ValidateToken accepts, and the user of the token has made no more than 100 requests in the
  -- current minute; and then the handler is run, with the user and the role of the token, the limit
  -- of the body, and both limiters counted.
  pub serve_protected_cases :
      (f : Flight) (l : Limiters Bucket)
      → IsRefused f l
        ⊎ ((token : String) × (claims : Claims) × IsAdmitted token claims f l × IsRun claims f l)
  serve_protected_cases f l = elim (Bool-cases (same_text f.method "OPTIONS")) [
    | inl options ↦ inl (_, _, _, inl refl, λ handler. global_options g handler f l options)
    | inr a ↦ elim (Bool-cases (g.allow f.now l.bucket).0) [
      | inr b ↦ inl (_, _, _, inr (inr refl), λ handler. global_limited g handler f l a b)
      | inl b ↦ elim (Bool-cases (same_text f.authorization "")) [
        | inl blank ↦ inl (
            IsRefused-by f l _ _ _ a b (inl refl)
              (λ handler. auth_blank g handler (prepared f) (after_bucket g f l) blank))
        | inr given ↦ elim (Option-cases (bearer_token f.authorization)) [
          | inl c ↦ inl (
              IsRefused-by f l _ _ _ a b (inl refl)
                (λ handler. auth_malformed g handler (prepared f) (after_bucket g f l) given c))
          | inr (token, c) ↦ elim (Result-cases (validate_token g.jwt f.now token g.jwt_secret)) [
            | inl (e, d) ↦ inl (
                IsRefused-by f l _ _ _ a b (inl refl) (λ handler.
                  auth_invalid g handler (prepared f) (after_bucket g f l) token e given c d))
            | inr (claims, d) ↦ by_claims f l token claims a b given c d
          ]
        ]
      ]
    ]
  ]
