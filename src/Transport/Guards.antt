-- ===== src/Transport/Guards.antt =====
-- The guards in front of an operation (server.go): what holds of a request that reaches it.
use dinchy.Prelude.{
  String, ◌≡◌, ◌⊎◌, refl, subst, sym, ◌∙◌, ap, true, Option, none, some, List, ◌==◌, eq_iff, arith,
  Bool-cases, inl, inr, if◌then◌else◌,
}
use dinchy.Errors.{GoError, ok}
use dinchy.World.{Env, World}
use dinchy.World.Inversion.{Result-cases, bind_run}
use dinchy.World.Effects.{random_token, tick}
use dinchy.Session.{Principal, session}
use dinchy.Auth.Api.{HttpRequest}
use dinchy.Transport.{
  RawRequest, Identity, reached, is_mutating, is_allowed_origin, secure_detect, csrf,
  request_identity, session_resolution_guard, holds_all, require_permissions, guarded, serve,
}

module _ (env : Env) where
  -- the header repeats the cookie's token, or the one that was drawn because there is no cookie
  abbrev pub HasCsrfToken : RawRequest → World → Type 0
  HasCsrfToken r w =
      (r.csrf_header ≡ r.csrf_cookie) ⊎ ((r.csrf_cookie ≡ "") × (r.csrf_header ≡ env.random w.step))

  csrf_ok :
      (r : RawRequest) (w : World)
      → (csrf env r w).0 ≡ ok tt
      → is_mutating r.method ≡ true
      → HasCsrfToken r w
  unfolding csrf random_token
  csrf_ok r w h mutates = elim (Bool-cases (r.csrf_cookie == "")) [
    | inl fresh ↦ inr (
      ground (arith, eq_iff r.csrf_cookie ""),
      ground (arith, eq_iff (env.random w.step) r.csrf_header),
    )
    | inr kept ↦ inl (ground (arith, eq_iff r.csrf_cookie r.csrf_header))
  ]

  -- the state after CSRF, which draws a token if there is no cookie
  abbrev pub after_csrf : RawRequest → World → World
  after_csrf r w = if r.csrf_cookie == "" then tick w else w

  csrf-after_csrf :
      (r : RawRequest) (w : World) → (csrf env r w).0 ≡ ok tt → (csrf env r w).1 ≡ after_csrf r w
  unfolding csrf random_token
  csrf-after_csrf r w h = ground arith

  -- The principal is the one to whom the session cookie resolves in the state `w`, and there is none
  -- without a cookie.
  abbrev pub IsResolved : RawRequest → World → Option Principal → Type 0
  IsResolved r w principal =
      ((r.session_cookie ≡ "") × (principal ≡ none))
      ⊎ ((session env r.session_cookie w).0 ≡ ok principal)

  request_identity_ok :
      (r : RawRequest) (w : World) (who : Identity)
      → (request_identity env r w).0 ≡ ok who
      → who.resolution_error ≡ none
      → IsResolved r w who.principal
  unfolding request_identity
  request_identity_ok r w who h none_failed = elim (Bool-cases (r.session_cookie == "")) [
    | inl absent ↦ inl (ground (arith, eq_iff r.session_cookie ""), ground arith)
    | inr given ↦ elim (Result-cases (session env r.session_cookie w).0) [
      | inl (principal, resolved) ↦ inr (ground arith)
      | inr (e, failed) ↦ absurd (ground arith)
    ]
  ]

  resolution_ok :
      (e : Option GoError) (w : World) → (session_resolution_guard env e w).0 ≡ ok tt → e ≡ none
  unfolding session_resolution_guard
  resolution_ok none w h = refl
  resolution_ok (some e) w h = cc

  require_permissions_ok :
      (required : List String) (principal : Option Principal) (w : World)
      → (require_permissions env (some required) principal w).0 ≡ ok tt
      → (p : Principal) × (principal ≡ some p) × (holds_all env p.permissions required ≡ true)
  unfolding require_permissions
  require_permissions_ok required none w h = cc
  require_permissions_ok required (some p) w h = (p, refl, ground arith)

  -- the part behind CORS
  guarded_ok :
      (permissions : Option (List String)) (r : RawRequest) (w : World) (context : HttpRequest)
      → (guarded env permissions r w).0 ≡ ok (reached context)
      → (is_mutating r.method ≡ true → HasCsrfToken r w)
        × (context.secure ≡ secure_detect r)
        × IsResolved r (after_csrf r w) context.principal
        × ((required : List String)
            → permissions ≡ some required
            → (p : Principal) × (context.principal ≡ some p)
              × (holds_all env p.permissions required ≡ true))
  unfolding guarded
  guarded_ok permissions r w context h =
      let (_, w₁, checked, _, h₁) = bind_run (csrf env r) _ w (reached context) h in
      let (who, w₂, identified, _, h₂) =
        bind_run (request_identity env r) _ w₁ (reached context) h₁ in
      let (_, w₃, clean, _, h₃) =
        bind_run (session_resolution_guard env who.resolution_error) _ w₂ (reached context) h₂ in
      let (_, w₄, permitted, _, h₄) =
        bind_run (require_permissions env permissions who.principal) _ w₃ (reached context) h₃ in
      let same : who.principal ≡ context.principal = ground arith in
      (
        csrf_ok r w (ap (λ x. x.0) checked),
        ground arith,
        subst (λ v. IsResolved r v context.principal)
            (ap (λ x. x.1) (sym checked) ∙ csrf-after_csrf r w (ap (λ x. x.0) checked))
            (subst (IsResolved r w₁) same (
              request_identity_ok r w₁ who (ap (λ x. x.0) identified)
                (resolution_ok who.resolution_error w₂ (ap (λ x. x.0) clean)))),
        λ required (asked : permissions ≡ some required).
            subst
              (λ q. (p : Principal) × (q ≡ some p) × (holds_all env p.permissions required ≡ true))
              same
              (require_permissions_ok required who.principal w₃ (
                subst (λ x. (require_permissions env x who.principal w₃).0 ≡ ok tt) asked
                  (ap (λ x. x.0) permitted))),
      )

  serve-guarded :
      (dev_origin : String) (permissions : Option (List String)) (r : RawRequest) (w : World)
      (context : HttpRequest)
      → (serve env dev_origin permissions r w).0 ≡ ok (reached context)
      → ((r.origin ≡ "") ⊎ (is_allowed_origin dev_origin r ≡ true))
        × ((guarded env permissions r w).0 ≡ ok (reached context))
  unfolding serve
  serve-guarded dev_origin permissions r w context h = elim (Bool-cases (r.origin == "")) [
    | inl absent ↦ (inl (ground (arith, eq_iff r.origin "")), ground arith)
    | inr given ↦ elim (Bool-cases (is_allowed_origin dev_origin r)) [
      | inl allowed ↦ (inr allowed, ground arith)
      | inr refused ↦ absurd (ground arith)
    ]
  ]

  -- A request that reaches an operation has no origin or an allowed one; if its method changes
  -- state, it carries the CSRF token; its principal is the one to whom its session cookie resolves
  -- in the state right after the CSRF check, without an error; and if the operation asks for permissions, there is a principal with all of
  -- them.
  pub serve_reached :
      (dev_origin : String) (permissions : Option (List String)) (r : RawRequest) (w : World)
      (context : HttpRequest)
      → (serve env dev_origin permissions r w).0 ≡ ok (reached context)
      → ((r.origin ≡ "") ⊎ (is_allowed_origin dev_origin r ≡ true))
        × (is_mutating r.method ≡ true → HasCsrfToken r w)
        × (context.secure ≡ secure_detect r)
        × IsResolved r (after_csrf r w) context.principal
        × ((required : List String)
            → permissions ≡ some required
            → (p : Principal) × (context.principal ≡ some p)
              × (holds_all env p.permissions required ≡ true))
  serve_reached dev_origin permissions r w context h =
      let (from, behind) = serve-guarded dev_origin permissions r w context h in
      let (token, secure, resolved, permitted) = guarded_ok permissions r w context behind in
      (from, token, secure, resolved, permitted)
