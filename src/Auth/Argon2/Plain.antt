-- ===== src/Auth/Argon2/Plain.antt =====
-- Simple functions in place of the libraries of apps/api/internal/auth/hash.go, for the tests: a key
-- that repeats the length of its text, numbers in strokes for base64, and a scan of the parameters.
use Prim.Native.Char.{Char, code}
use Prim.Native.String.{[] as nil, ◌∷◌ as cons, len}
use text.Mathlib.TextLemmas.{append-nil, nil-append, cons-append}
use prompt_pack.Base.{
  ℕ, zero, suc, String, ◌&◌, ◌≡◌, refl, sym, ap, ◌∙◌, Bool, true, false, ◌&&◌, some, List, [], ◌∷◌,
  arith,
}
use prompt_pack.Base.Tests.{if◌then◌else◌, eqb}
use prompt_pack.Base.Lists.{length}
use prompt_pack.Base.Decimal.{decimal}
use prompt_pack.Base.Scan.{has, take_digits, take_digits-decimal}
use prompt_pack.Auth.Argon2.{Argon2, Argon2Laws, params_text}

abbrev copies : ℕ → ℕ → List ℕ
copies x zero = []
copies x (suc n) = x ∷ copies x n

length-copies : (x n : ℕ) → length (copies x n) ≡ n
length-copies x zero = refl
length-copies x (suc n) = ap suc (length-copies x n)

abbrev same : List ℕ → List ℕ → Bool
same [] [] = true
same [] (y ∷ ys) = false
same (x ∷ xs) [] = false
same (x ∷ xs) (y ∷ ys) = eqb x y && same xs ys

same_self : (xs : List ℕ) → same xs xs ≡ true
same_self [] = refl
same_self (x ∷ xs) = ground (arith, same_self xs)

-- A number as strokes, closed by a `0`.
abbrev strokes : ℕ → String → String
strokes zero s = cons "0" s
strokes (suc n) s = cons "1" (strokes n s)

abbrev encode : List ℕ → String
encode [] = nil
encode (n ∷ ns) = strokes n (encode ns)

abbrev one_more : List ℕ → List ℕ
one_more [] = []
one_more (n ∷ ns) = suc n ∷ ns

abbrev decode : String → List ℕ
decode nil = []
decode (cons c s) = let rest = decode s in if eqb (code c) 48 then 0 ∷ rest else one_more rest

has-strokes : (n : ℕ) (s : String) → has 36 s ≡ false → has 36 (strokes n s) ≡ false
unfolding has
has-strokes zero s h = h
has-strokes (suc n) s h = has-strokes n s h

has-encode : (ns : List ℕ) → has 36 (encode ns) ≡ false
unfolding has
has-encode [] = refl
has-encode (n ∷ ns) = has-strokes n (encode ns) (has-encode ns)

decode-strokes : (n : ℕ) (s : String) → decode (strokes n s) ≡ (n ∷ decode s)
decode-strokes zero s = refl
decode-strokes (suc n) s = ap one_more (decode-strokes n s)

decode-encode_same : (ns : List ℕ) → decode (encode ns) ≡ ns
decode-encode_same [] = refl
decode-encode_same (n ∷ ns) =
    decode-strokes n (encode ns) ∙ ap (λ (ms : List ℕ). n ∷ ms) (decode-encode_same ns)

abbrev tail : String → String
tail nil = nil
tail (cons c s) = s

-- The three numbers behind `m=`, `,t=` and `,p=`.
abbrev scan : String → ℕ × ℕ × ℕ
scan s =
    let memory = take_digits 0 (tail (tail s)) in
    let time = take_digits 0 (tail (tail (tail memory.1))) in
    let threads = take_digits 0 (tail (tail (tail time.1))) in (memory.0, time.0, threads.0)

two : (c d : Char) (s : String) → (cons c (cons d nil) & s) ≡ cons c (cons d s)
two c d s =
    cons-append c (cons d nil) s ∙ ap (cons c) (cons-append d nil s ∙ ap (cons d) (nil-append s))

three :
    (b c d : Char) (s : String) → (cons b (cons c (cons d nil)) & s) ≡ cons b (cons c (cons d s))
three b c d s = cons-append b (cons c (cons d nil)) s ∙ ap (cons b) (two c d s)

-- A number in front of a comma.
before_comma :
    (n : ℕ) (c d : Char) (s : String)
    → take_digits 0 (decimal n & (cons "," (cons c (cons d nil)) & s))
      ≡ (n, cons "," (cons c (cons d s)))
unfolding take_digits
before_comma n c d s =
    take_digits-decimal n (cons "," (cons c (cons d nil)) & s)
    ∙ ap (take_digits n) (three "," c d s)

at_end : (n : ℕ) → take_digits 0 (decimal n) ≡ (n, "")
unfolding take_digits
at_end n = ap (take_digits 0) (sym (append-nil (decimal n))) ∙ take_digits-decimal n nil

scan-params_text_same : (m t p : ℕ) → scan (params_text m t p) ≡ (m, t, p)
scan-params_text_same m t p =
    ap scan (two "m" "=" (decimal m & (",t=" & (decimal t & (",p=" & decimal p)))))
    ∙ rw (before_comma m "t" "=" (decimal t & (",p=" & decimal p)))
        (rw (before_comma t "p" "=" (decimal p)) (rw (at_end p) refl))

abbrev pub plain_argon2 : Argon2
plain_argon2 = record {
  id_key = λ text salt time memory threads size. copies (len text) size;
  encode_to_string = encode;
  decode_string = λ s. some (decode s);
  scan_params = λ s. some (scan s);
  constant_time_compare = same;
}

pub plain_argon2-Argon2Laws : Argon2Laws plain_argon2
plain_argon2-Argon2Laws = record {
  encode-plain = has-encode;
  decode-encode = λ ns. ap some (decode-encode_same ns);
  scan-params_text = λ m t p hm ht hp. ap some (scan-params_text_same m t p);
  length-id_key = λ text salt time memory threads size. length-copies (len text) size;
  compare_self = same_self;
}
