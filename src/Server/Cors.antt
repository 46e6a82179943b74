-- ===== src/Server/Cors.antt =====
-- apps/api/cmd/audit-zip/main.go: the CORS headers in front of the handlers. `strings.EqualFold` is a
-- parameter.
use prompt_pack.Base.{
  String, ◌≡◌, Bool, false, not, ◌&&◌, ◌||◌, Option, none, some, List, [], ◌∷◌, ◌==◌, arith,
}
use prompt_pack.Base.Tests.{if◌then◌else◌}
use prompt_pack.Base.Dict.{Dict, find}
use prompt_pack.Base.Text.{trim_space}
use prompt_pack.Glue.{HttpRequest}

-- `r.Header.Get`
unfoldable pub header_get : Dict (List String) → String → String
header_get headers name = elim (find headers name) [ none ↦ "" | some [] ↦ "" | some (v ∷ vs) ↦ v ]

module _ (equal_fold : String → String → Bool) where
  unfoldable pub is_allowed_origin : String → List String → Bool
  is_allowed_origin origin [] = false
  is_allowed_origin origin (a ∷ rest) =
      a == "*" || equal_fold (trim_space a) origin || is_allowed_origin origin rest

  unfoldable pub cors_headers : String → Dict String
  cors_headers origin =
      ("Access-Control-Allow-Origin", origin)
      ∷ ("Vary", "Origin")
      ∷ ("Access-Control-Allow-Credentials", "true")
      ∷ (
        "Access-Control-Allow-Headers",
        "Content-Type, X-Correlation-Id, X-Tenant-Id, Idempotency-Key, Authorization",
      )
      ∷ ("Access-Control-Allow-Methods", "GET,POST,OPTIONS")
      ∷ []

  -- The headers, and what the next handler gives; `none` is the status 204 without it.
  unfoldable pub cors_middleware :
      {R : Type 0} → List String → (HttpRequest → R) → HttpRequest → Dict String × Option R
  unfolding is_allowed_origin cors_headers
  cors_middleware allowed next r = (
    if not ((header_get r.headers "Origin") == "")
          && is_allowed_origin (header_get r.headers "Origin") allowed
        then cors_headers (header_get r.headers "Origin")
        else [],
    if r.method == "OPTIONS" then none else some (next r),
  )

  -- A request of an origin that is not allowed gets no headers and yet reaches the handler, unless
  -- its method is OPTIONS.
  pub cors_middleware_foreign :
      {R : Type 0} (allowed : List String) (next : HttpRequest → R) (r : HttpRequest)
      → is_allowed_origin (header_get r.headers "Origin") allowed ≡ false
      → (r.method == "OPTIONS") ≡ false
      → cors_middleware allowed next r ≡ ([], some (next r))
  unfolding cors_middleware
  cors_middleware_foreign allowed next r foreign other = ground (arith, foreign, other)
