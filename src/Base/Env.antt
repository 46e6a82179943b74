-- ===== src/Base/Env.antt =====
-- The environment's readers of the config.go files of apps/api/internal, and what they use of `strconv`.
use Prim.Native.Char.{code}
use Prim.Native.String.{[] as nil, ◌∷◌ as cons}
use prompt_pack.Base.{
  ℕ, zero, suc, ◌+◌, ◌-◌, ◌*◌, ◌^◌, String, ◌≡◌, refl, Bool, true, false, ◌&&◌, Option, none, some,
  List, [], ◌∷◌, ◌==◌,
}
use prompt_pack.Base.Tests.{if◌then◌else◌, ltb, leb, eqb}
use prompt_pack.Base.Int.{ℤ, pos, negsuc, ltb_ℤ}
use prompt_pack.Base.Text.{split, trim_space}

-- The environment, and `ParseFloat` and `ParseDuration`; an error is `none`. A float64 is its bits.
pub record Env : Type 0 where
  pub lookup_env : String → Option String
  pub parse_float : String → Option ℕ
  pub parse_duration : String → Option ℤ

-- The digits of a text, added to those read before them.
unfoldable pub digits_of : ℕ → String → Option ℕ
digits_of n nil = some n
digits_of n (cons c s) =
    let rest = digits_of (n * 10 + (code c - 48)) s in
    if leb 48 (code c) && leb (code c) 57 then rest else none

-- A number with one digit or more.
unfoldable pub number_of : String → Option ℕ
unfolding digits_of
number_of nil = none
number_of s = digits_of 0 s

-- The number as an `int64`, if it fits.
unfoldable pub in_range : Bool → ℕ → Option ℤ
in_range false n = if ltb n (2 ^ 63) then some (pos n) else none
in_range true zero = some (pos 0)
in_range true (suc n) = if ltb n (2 ^ 63) then some (negsuc n) else none

-- `strconv.Atoi`, on a platform with 64 bits.
unfoldable pub atoi : String → Option ℤ
unfolding number_of in_range
atoi nil = none
atoi (cons c s) =
    if eqb (code c) 45
    then (elim (number_of s) [ none ↦ none | some n ↦ in_range true n ])
    else if eqb (code c) 43
    then (elim (number_of s) [ none ↦ none | some n ↦ in_range false n ])
    else elim (number_of (cons c s)) [ none ↦ none | some n ↦ in_range false n ]

unfoldable pub has : List String → String → Bool
has [] s = false
has (x ∷ xs) s = if x == s then true else has xs s

-- `strconv.ParseBool`
unfoldable pub parse_bool : String → Option Bool
unfolding has
parse_bool s =
    if has ("1" ∷ "t" ∷ "T" ∷ "true" ∷ "TRUE" ∷ "True" ∷ []) s
    then some true
    else if has ("0" ∷ "f" ∷ "F" ∷ "false" ∷ "FALSE" ∷ "False" ∷ []) s
    then some false
    else none

unfoldable pub getenv : Env → String → String → String
getenv env key def = elim (env.lookup_env key) [ none ↦ def | some v ↦ if v == "" then def else v ]

-- A value that is set and that the parser takes, or the default.
unfoldable pub parsed_or {ℓ} : {A : Type ℓ} → (String → Option A) → Env → String → A → A
parsed_or parse env key def = elim (env.lookup_env key) [
  | none ↦ def
  | some v ↦ elim (parse v) [ none ↦ def | some a ↦ a ]
]

unfoldable pub get_duration : Env → String → ℤ → ℤ
unfolding parsed_or
get_duration env = parsed_or env.parse_duration env

unfoldable pub get_int : Env → String → ℤ → ℤ
unfolding parsed_or atoi
get_int env = parsed_or atoi env

unfoldable pub get_float : Env → String → ℕ → ℕ
unfolding parsed_or
get_float env = parsed_or env.parse_float env

unfoldable pub get_bool : Env → String → Bool → Bool
unfolding parsed_or parse_bool
get_bool env = parsed_or parse_bool env

unfoldable pub max : ℤ → ℤ → ℤ
max a b = if ltb_ℤ b a then a else b

-- The parts of a list that are not blank, trimmed.
unfoldable pub kept_parts : List String → List String
unfolding trim_space
kept_parts [] = []
kept_parts (p ∷ ps) =
    let rest = kept_parts ps in if trim_space p == "" then rest else trim_space p ∷ rest

unfoldable pub split_list : String → List String
unfolding split kept_parts
split_list s = kept_parts (split s 44)

atoi_test : atoi "-120" ≡ some (negsuc 119)
unfolding atoi
atoi_test = refl

atoi_range_test : atoi "9223372036854775808" ≡ none
unfolding atoi
atoi_range_test = refl

split_list_test : split_list "a, ,b ," ≡ ("a" ∷ "b" ∷ [])
unfolding split_list
split_list_test = refl
