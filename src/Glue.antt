-- ===== src/Glue.antt =====
-- What the generated servers of apps/api/internal/auditzip/api.gen.go and
-- apps/api/internal/pint/jp_pint.gen.go share: the binding of a request's parameters to a handler's,
-- and its errors. The `runtime` package that converts one value is a parameter.
pub mod Bound
use prompt_pack.Base.{ℕ, String, ◌&◌, ◌⊎◌, inl, inr, Bool, Option, none, some, List, [], ◌∷◌}
use prompt_pack.Base.Lists.{length}
use prompt_pack.Base.Dict.{Dict, find}
use prompt_pack.Base.Decimal.{decimal}

-- The first text is `ParamName`, the second the text of `Err`.
pub data ParamError : Type 0 where
  unescaped_cookie : String → String → ParamError
  unmarshaling : String → String → ParamError
  required_param : String → ParamError
  required_header : String → String → ParamError
  invalid_format : String → String → ParamError
  too_many_values : String → ℕ → ParamError

-- `Error`
unfoldable pub param_error_text : ParamError → String
param_error_text (unescaped_cookie name e) = "error unescaping cookie parameter '" & (name & "'")
param_error_text (unmarshaling name e) =
    "Error unmarshaling parameter " & (name & (" as JSON: " & e))
param_error_text (required_param name) = "Query argument " & (name & " is required, but not found")
param_error_text (required_header name e) =
    "Header parameter " & (name & " is required, but not found")
param_error_text (invalid_format name e) = "Invalid format for parameter " & (name & (": " & e))
param_error_text (too_many_values name n) =
    "Expected one value for " & (name & (", got " & decimal n))

-- `Unwrap`, where an error has it.
unfoldable pub unwrap : ParamError → Option String
unwrap (unescaped_cookie name e) = some e
unwrap (unmarshaling name e) = some e
unwrap (required_param name) = none
unwrap (required_header name e) = some e
unwrap (invalid_format name e) = some e
unwrap (too_many_values name n) = none

-- The `runtime` package: a UUID in its canonical form, a text, and the optional flag of a query. A
-- text on the left is an error's.
pub record Binders : Type 0 where
  pub bind_uuid : String → String ⊎ String
  pub bind_string : String → String ⊎ String
  pub bind_flag : String → Dict (List String) → String ⊎ Option Bool

-- A request as the glue sees it. The names of the headers are in their canonical form.
pub record HttpRequest : Type 0 where
  pub method : String
  pub path : String
  pub headers : Dict (List String)
  pub query : Dict (List String)
  pub body : String

infixl 5 ◌>>=◌
abbrev pub ◌>>=◌ {ℓ κ} :
    {A : Type ℓ} {B : Type κ} → ParamError ⊎ A → (A → ParamError ⊎ B) → ParamError ⊎ B
inl e >>= f = inl e
inr a >>= f = f a

-- An error of the conversion.
unfoldable pub checked : {A : Type 0} → String → String ⊎ A → ParamError ⊎ A
checked name (inl e) = inl (invalid_format name e)
checked name (inr a) = inr a

-- The values of a header that is there.
unfoldable pub bind_values :
    {A : Type 0} → (String → String ⊎ A) → String → List String → ParamError ⊎ A
unfolding checked
bind_values bind name [] = inl (too_many_values name 0)
bind_values bind name (v ∷ []) = checked name (bind v)
bind_values bind name (v ∷ w ∷ vs) = inl (too_many_values name (length (v ∷ w ∷ vs)))

-- A required header parameter.
unfoldable pub bind_header :
    {A : Type 0} → (String → String ⊎ A) → String → Dict (List String) → ParamError ⊎ A
unfolding bind_values
bind_header bind name headers = elim (find headers name) [
  | none ↦ inl (required_header name ("Header parameter " & (name & " is required, but not found")))
  | some values ↦ bind_values bind name values
]

-- The middlewares, the last of them outermost.
unfoldable pub apply_middlewares : {H : Type 0} → List (H → H) → H → H
apply_middlewares [] handler = handler
apply_middlewares (middleware ∷ rest) handler = apply_middlewares rest (middleware handler)

-- `ServerInterfaceWrapper`; a handler is of type `H`.
pub record Wrapper (I H : Type 0) : Type 0 where
  pub handler : I
  pub middlewares : List (H → H)
  pub error_handler : ParamError → H

-- `ChiServerOptions`, less the router.
pub record Options (H : Type 0) : Type 0 where
  pub base_url : String
  pub middlewares : List (H → H)
  pub error_handler : Option (ParamError → H)

-- A route: its method, its pattern, and its handler, given `chi.URLParam` and the request.
pub record Route (H : Type 0) : Type 0 where
  pub method : String
  pub pattern : String
  pub serve : (String → String) → HttpRequest → H

-- The wrapper of `HandlerWithOptions`; `http_error` is `http.Error` with a status.
unfoldable pub wrapper_of : {I H : Type 0} → (String → ℕ → H) → I → Options H → Wrapper I H
unfolding param_error_text
wrapper_of http_error handler options = record {
  handler = handler;
  middlewares = options.middlewares;
  error_handler = elim options.error_handler [
    | none ↦ λ e. http_error (param_error_text e) 400
    | some given ↦ given
  ];
}
