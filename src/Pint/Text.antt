-- ===== src/Pint/Text.antt =====
-- The part of Go's `strings` that apps/api/internal/pint uses: whether `TrimSpace` leaves nothing.
use Prim.Native.String.{String, [], ◌∷◌}
use mathlib.Core.Bool.{Bool, true, false}
use prompt_pack.Base.Tests.{if◌then◌else◌}
use prompt_pack.Base.Text.{is_space}

-- `strings.TrimSpace(s) == ""`
unfoldable pub is_blank : String → Bool
unfolding is_space
is_blank [] = true
is_blank (c ∷ s) = if is_space c then is_blank s else false
