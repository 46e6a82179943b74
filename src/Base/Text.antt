-- ===== src/Base/Text.antt =====
-- The part of Go's `strings` that the code uses.
use Prim.Native.Char.{Char, code}
use Prim.Native.String.{String, [] as nil, ◌∷◌ as cons}
use Prim.Native.Nat.{ℕ}
use mathlib.Core.Bool.{Bool, ◌&&◌, ◌||◌}
use mathlib.Core.List.{List, [], ◌∷◌}
use mathlib.Core.Path.{◌≡◌, refl}
use text.Mathlib.Text.{◌==◌}
use prompt_pack.Base.Tests.{if◌then◌else◌, leb, eqb}

-- `unicode.IsSpace`
unfoldable pub is_space : Char → Bool
is_space c =
    (leb 9 (code c) && leb (code c) 13)
    || eqb (code c) 32
    || eqb (code c) 133
    || eqb (code c) 160
    || eqb (code c) 5760
    || (leb 8192 (code c) && leb (code c) 8202)
    || eqb (code c) 8232
    || eqb (code c) 8233
    || eqb (code c) 8239
    || eqb (code c) 8287
    || eqb (code c) 12288

unfoldable pub trim_left : String → String
unfolding is_space
trim_left nil = nil
trim_left (cons c s) = let rest = trim_left s in if is_space c then rest else cons c s

unfoldable pub trim_right : String → String
unfolding is_space
trim_right nil = nil
trim_right (cons c s) =
    let rest = trim_right s in if is_space c && rest == "" then nil else cons c rest

-- `strings.TrimSpace`
unfoldable pub trim_space : String → String
unfolding trim_left trim_right
trim_space s = trim_right (trim_left s)

-- One more character in front of the first part.
unfoldable pub onto_first : Char → List String → List String
onto_first c [] = cons c nil ∷ []
onto_first c (p ∷ ps) = cons c p ∷ ps

-- `strings.Split(s, sep)` for a separator of one character, by its code.
unfoldable pub split : String → ℕ → List String
unfolding onto_first
split nil sep = "" ∷ []
split (cons c s) sep =
    let rest = split s sep in if eqb (code c) sep then "" ∷ rest else onto_first c rest

split_test : split "a,b,,c" 44 ≡ ("a" ∷ "b" ∷ "" ∷ "c" ∷ [])
unfolding split
split_test = refl

trim_space_test : trim_space "  a b " ≡ "a b"
unfolding trim_space
trim_space_test = refl
