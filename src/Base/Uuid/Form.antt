-- ===== src/Base/Uuid/Form.antt =====
-- What an id of `newID` spells.
use Prim.Native.Nat.{ℕ, zero, suc, ◌+◌, ◌%◌, ◌<◌, ◌≤◌}
use Prim.Native.String.{String, ◌++◌ as ◌&◌, count}
use mathlib.Core.Path.{◌≡◌, refl, sym, ap, ◌∙◌}
use mathlib.Core.Option.{some}
use mathlib.Core.List.{List, [], ◌∷◌, ◌++◌, append-nil}
use native.Mathlib.Omega.{arith}
use text.Mathlib.TextLemmas.{length-append}
use text.Mathlib.TextLemmas.{append-nil as text_append-nil}
use prompt_pack.Base.Tests.{if◌then◌else◌, eqb}
use prompt_pack.Base.Lists.{length, get_elem?, All}
use prompt_pack.Base.Hex.{hex, unhex, IsByte, unhex-hex, unhex-dash, count-hex}
use prompt_pack.Base.Uuid.{
  slice, update, stamped, new_id, with_version, with_variant, with_version-eq, with_variant-eq,
}

All-slice : (bs : List ℕ) (lo hi : ℕ) → All IsByte bs → All IsByte (slice bs lo hi)
All-slice [] lo hi h = tt
All-slice (b ∷ bs) zero zero h = tt
All-slice (b ∷ bs) zero (suc hi) h = (h.0, All-slice bs zero hi h.1)
All-slice (b ∷ bs) (suc lo) zero h = tt
All-slice (b ∷ bs) (suc lo) (suc hi) h = All-slice bs lo hi h.1

length-slice :
    (bs : List ℕ) (lo hi : ℕ) → hi ≤ length bs → lo ≤ hi → lo + length (slice bs lo hi) ≡ hi
length-slice [] lo hi h k = omega arith
length-slice (b ∷ bs) zero zero h k = omega arith
length-slice (b ∷ bs) zero (suc hi) h k =
    omega (arith, length-slice bs zero hi (omega arith) (omega arith))
length-slice (b ∷ bs) (suc lo) zero h k = absurd (omega arith)
length-slice (b ∷ bs) (suc lo) (suc hi) h k =
    omega (arith, length-slice bs lo hi (omega arith) (omega arith))

slice-append :
    (bs : List ℕ) (lo mid hi : ℕ)
    → lo ≤ mid
    → mid ≤ hi
    → (slice bs lo mid ++ slice bs mid hi) ≡ slice bs lo hi
slice-append [] lo mid hi h k = refl
slice-append (b ∷ bs) zero zero zero h k = refl
slice-append (b ∷ bs) zero zero (suc hi) h k = refl
slice-append (b ∷ bs) zero (suc mid) zero h k = absurd (omega arith)
slice-append (b ∷ bs) zero (suc mid) (suc hi) h k =
    ap (λ (x : List ℕ). b ∷ x) (slice-append bs zero mid hi (omega arith) (omega arith))
slice-append (b ∷ bs) (suc lo) zero hi h k = absurd (omega arith)
slice-append (b ∷ bs) (suc lo) (suc mid) zero h k = absurd (omega arith)
slice-append (b ∷ bs) (suc lo) (suc mid) (suc hi) h k =
    slice-append bs lo mid hi (omega arith) (omega arith)

slice_whole : (bs : List ℕ) (hi : ℕ) → length bs ≤ hi → slice bs 0 hi ≡ bs
slice_whole [] hi h = refl
slice_whole (b ∷ bs) zero h = absurd (omega arith)
slice_whole (b ∷ bs) (suc hi) h = ap (λ (x : List ℕ). b ∷ x) (slice_whole bs hi (omega arith))

All-update :
    (bs : List ℕ) (k : ℕ) (f : ℕ → ℕ)
    → ((b : ℕ) → b < 256 → f b < 256)
    → All IsByte bs
    → All IsByte (update bs k f)
All-update [] k f g h = tt
All-update (b ∷ bs) zero f g h = (g b h.0, h.1)
All-update (b ∷ bs) (suc k) f g h = (h.0, All-update bs k f g h.1)

length-update : (bs : List ℕ) (k : ℕ) (f : ℕ → ℕ) → length (update bs k f) ≡ length bs
length-update [] k f = refl
length-update (b ∷ bs) zero f = refl
length-update (b ∷ bs) (suc k) f = ap suc (length-update bs k f)

get_elem?-update :
    (bs : List ℕ) (k i : ℕ) (f : ℕ → ℕ) (b : ℕ)
    → get_elem? bs i ≡ some b
    → get_elem? (update bs k f) i ≡ some (if eqb i k then f b else b)
get_elem?-update [] k i f b h = absurd (ground (arith, h))
get_elem?-update (x ∷ bs) zero zero f b h = ground (arith, h)
get_elem?-update (x ∷ bs) zero (suc i) f b h = ground (arith, h)
get_elem?-update (x ∷ bs) (suc k) zero f b h = ground (arith, h)
get_elem?-update (x ∷ bs) (suc k) (suc i) f b h = ground (arith, get_elem?-update bs k i f b h)

IsByte-get : (bs : List ℕ) (i b : ℕ) → All IsByte bs → get_elem? bs i ≡ some b → b < 256
IsByte-get [] i b h e = absurd (ground (arith, e))
IsByte-get (x ∷ bs) zero b h e = ground (arith, h.0, e)
IsByte-get (x ∷ bs) (suc i) b h e = IsByte-get bs i b h.1 e

stamped-IsByte : (bs : List ℕ) → All IsByte bs → All IsByte (stamped bs)
unfolding stamped
stamped-IsByte bs h =
    All-update (update bs 6 with_version) 8 with_variant (λ b k. omega (arith, with_variant-eq b k))
      (All-update bs 6 with_version (λ b k. omega (arith, with_version-eq b k)) h)

length-stamped : (bs : List ℕ) → length (stamped bs) ≡ length bs
unfolding stamped
length-stamped bs =
    length-update (update bs 6 with_version) 8 with_variant ∙ length-update bs 6 with_version

-- The text spells the stamped bytes.
unhex-new_id : (bs : List ℕ) → All IsByte bs → length bs ≡ 16 → unhex (new_id bs) ≡ stamped bs
unfolding new_id unhex
unhex-new_id bs h n =
    let b = stamped bs in
    let ok = stamped-IsByte bs h in
    let part = λ (lo hi : ℕ) (s : String).
      unhex-hex (slice b lo hi) ("-" & s) (All-slice b lo hi ok)
      ∙ ap (λ (x : List ℕ). slice b lo hi ++ x) (unhex-dash s) in
    let e = hex (slice b 10 16) in
    let d = hex (slice b 8 10) & ("-" & e) in
    let c = hex (slice b 6 8) & ("-" & d) in
    let last : unhex e ≡ slice b 10 16 =
      ap unhex (sym (text_append-nil e))
      ∙ unhex-hex (slice b 10 16) "" (All-slice b 10 16 ok)
      ∙ append-nil (slice b 10 16) in
    part 0 4 (hex (slice b 4 6) & ("-" & c))
    ∙ ap (λ (x : List ℕ). slice b 0 4 ++ x)
        (part 4 6 c
          ∙ ap (λ (x : List ℕ). slice b 4 6 ++ x)
              (part 6 8 d
                ∙ ap (λ (x : List ℕ). slice b 6 8 ++ x)
                    (part 8 10 e
                      ∙ ap (λ (x : List ℕ). slice b 8 10 ++ x) last
                      ∙ slice-append b 8 10 16 (omega arith) (omega arith))
                ∙ slice-append b 6 8 16 (omega arith) (omega arith))
          ∙ slice-append b 4 6 16 (omega arith) (omega arith))
    ∙ slice-append b 0 4 16 (omega arith) (omega arith)
    ∙ slice_whole b 16 (omega (arith, length-stamped bs, n))

-- Every id has 36 characters.
pub count-new_id : (bs : List ℕ) → All IsByte bs → length bs ≡ 16 → count (new_id bs) ≡ 36
unfolding new_id
count-new_id bs h n =
    let b = stamped bs in
    let ok = stamped-IsByte bs h in
    let long : length b ≡ 16 = length-stamped bs ∙ n in
    let e = hex (slice b 10 16) in
    let d = hex (slice b 8 10) & ("-" & e) in
    let c = hex (slice b 6 8) & ("-" & d) in
    let r = hex (slice b 4 6) & ("-" & c) in
    omega (
      arith,
      length-append (hex (slice b 0 4)) ("-" & r),
      length-append "-" r,
      length-append (hex (slice b 4 6)) ("-" & c),
      length-append "-" c,
      length-append (hex (slice b 6 8)) ("-" & d),
      length-append "-" d,
      length-append (hex (slice b 8 10)) ("-" & e),
      length-append "-" e,
      count-hex (slice b 0 4) (All-slice b 0 4 ok),
      count-hex (slice b 4 6) (All-slice b 4 6 ok),
      count-hex (slice b 6 8) (All-slice b 6 8 ok),
      count-hex (slice b 8 10) (All-slice b 8 10 ok),
      count-hex (slice b 10 16) (All-slice b 10 16 ok),
      length-slice b 0 4 (omega (arith, long)) (omega arith),
      length-slice b 4 6 (omega (arith, long)) (omega arith),
      length-slice b 6 8 (omega (arith, long)) (omega arith),
      length-slice b 8 10 (omega (arith, long)) (omega arith),
      length-slice b 10 16 (omega (arith, long)) (omega arith),
    )

-- An id made of 16 random bytes has 36 characters, and spells these bytes in order, but for the
-- version, the high half of byte 6, which is 4, and the variant, the two high bits of byte 8, which
-- are 10: so two ids are equal only where the other 122 bits are.
pub new_id_form :
    (bytes : List ℕ)
    → All IsByte bytes
    → length bytes ≡ 16
    → (count (new_id bytes) ≡ 36)
      × (length (unhex (new_id bytes)) ≡ 16)
      × ((i b : ℕ)
          → get_elem? bytes i ≡ some b
          → get_elem? (unhex (new_id bytes)) i
            ≡ some (if eqb i 6 then 64 + b % 16 else if eqb i 8 then 128 + b % 64 else b))
unfolding stamped
new_id_form bytes h n = (
  count-new_id bytes h n,
  ap length (unhex-new_id bytes h n) ∙ length-stamped bytes ∙ n,
  λ i b at.
      ap (λ (x : List ℕ). get_elem? x i) (unhex-new_id bytes h n)
      ∙ get_elem?-update (update bytes 6 with_version) 8 i with_variant _
          (get_elem?-update bytes 6 i with_version b at)
      ∙ ap some (
          ground (
            arith,
            with_version-eq b (IsByte-get bytes i b h at),
            with_variant-eq b (IsByte-get bytes i b h at),
          )),
)
