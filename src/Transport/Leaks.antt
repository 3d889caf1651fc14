-- ===== src/Transport/Leaks.antt =====
-- What a response tells about an error of the server (render.go).
use dinchy.Prelude.{
  ℕ, ◌≤◌, ◌≡◌, refl, false, leb, Option, none, some, List, [], arith, Bool-cases, inl, inr,
}
use dinchy.Errors.{GoError, http_status}
use dinchy.Errors.Codes.{server_internal_error}
use dinchy.Transport.Render.{
  Catalog, ErrorResponse, AppError, app_error_from, localized_response, resolve, first_app_error,
  response_for, resolve_found, response_found, generic_response, is_unprocessable,
}

module _ (catalog : Catalog) where
  -- the response that says nothing but the status
  abbrev pub opaque : ℕ → ErrorResponse
  opaque status = record {
    status = status;
    code = server_internal_error;
    message = catalog.message_of server_internal_error;
    meta = [];
    debug = none;
  }

  localized_response-opaque :
      (e : AppError)
      → 500 ≤ (localized_response catalog false e).status
      → localized_response catalog false e ≡ opaque (localized_response catalog false e).status
  unfolding localized_response
  localized_response-opaque e h = elim (Bool-cases (leb 500 (http_status e.status))) [
    | inl server ↦ rw (localized_response, server) refl
    | inr client ↦ absurd (ground arith)
  ]

  resolve_found-opaque :
      (e : GoError) (found : Option AppError)
      → 500 ≤ (resolve_found catalog false e found).status
      → resolve_found catalog false e found ≡ opaque (resolve_found catalog false e found).status
  resolve_found-opaque e none h = localized_response-opaque _ h
  resolve_found-opaque e (some a) h = localized_response-opaque a h

  generic_response-opaque :
      (status : ℕ) (errs : List GoError)
      → 500 ≤ (generic_response catalog false status errs).status
      → generic_response catalog false status errs
        ≡ opaque (generic_response catalog false status errs).status
  unfolding generic_response
  generic_response-opaque status errs h =
      elim (Bool-cases (is_unprocessable catalog false status)) [
        | inl validation ↦ absurd (ground arith)
        | inr other ↦ rw (generic_response, other) refl
      ]

  response_found-opaque :
      (status : ℕ) (errs : List GoError) (found : Option AppError)
      → 500 ≤ (response_found catalog false status errs found).status
      → response_found catalog false status errs found
        ≡ opaque (response_found catalog false status errs found).status
  response_found-opaque status errs none h = generic_response-opaque status errs h
  response_found-opaque status errs (some a) h = localized_response-opaque a h

  -- Unless internal errors are exposed, a response with a status of 500 or more is the same for
  -- every error with that status: no code, message, cause or metadata of the error is in it. That
  -- holds of both ways to render an error.
  pub response-opaque :
      (status : ℕ) (e : GoError) (errs : List GoError)
      → (500 ≤ (resolve catalog false e).status
          → resolve catalog false e ≡ opaque (resolve catalog false e).status)
        × (500 ≤ (response_for catalog false status errs).status
            → response_for catalog false status errs
              ≡ opaque (response_for catalog false status errs).status)
  unfolding resolve response_for
  response-opaque status e errs = (
    resolve_found-opaque e (app_error_from e),
    response_found-opaque status errs (first_app_error errs),
  )
