-- ===== src/Auth/Argon2.antt =====
-- apps/api/internal/auth/hash.go: the text form of argon2 hashes, as `hashArgon2` writes it and
-- `verifyArgon2` reads it. `argon2`, `base64`, `subtle` and `fmt.Sscanf` are parameters.
pub mod Plain
use text.Mathlib.TextLemmas.{append_assoc}
use prompt_pack.Base.{
  ℕ, ◌%◌, ◌^◌, ◌<◌, String, ◌&◌, ◌≡◌, refl, ap, ◌∙◌, Bool, true, false, Option, none, some, List,
  [], ◌∷◌,
}
use prompt_pack.Base.Tests.{if◌then◌else◌, eqb}
use prompt_pack.Base.Lists.{length, get_elem?}
use prompt_pack.Base.Text.{split}
use prompt_pack.Base.Decimal.{decimal}
use prompt_pack.Base.Scan.{has, has-append, split-append, split-plain, decimal-plain}
use prompt_pack.Auth.Domain.{Config}

-- `scan_params` is `fmt.Sscanf` with `m=%d,t=%d,p=%d`, into two `uint32`s and a `uint8`; an error is
-- `none`. `id_key` has the text, the salt, the rounds, the memory, the threads and the length of
-- the key; its panic at no rounds or no threads is left out.
pub record Argon2 : Type 0 where
  pub id_key : String → List ℕ → ℕ → ℕ → ℕ → ℕ → List ℕ
  pub encode_to_string : List ℕ → String
  pub decode_string : String → Option (List ℕ)
  pub scan_params : String → Option (ℕ × ℕ × ℕ)
  pub constant_time_compare : List ℕ → List ℕ → Bool

abbrev pub params_text : ℕ → ℕ → ℕ → String
params_text memory time threads =
    "m=" & (decimal memory & (",t=" & (decimal time & (",p=" & decimal threads))))

module _ (a : Argon2) where
  -- `salt` is what `rand.Read` gives.
  -- What stands behind `$argon2id$v=19$`; `salt` is what `rand.Read` gives.
  abbrev pub encoded_rest : List ℕ → String → Config → String
  encoded_rest salt text cfg =
      let hash = a.id_key text salt cfg.argon2_time cfg.argon2_memory cfg.argon2_threads 32 in
      params_text cfg.argon2_memory cfg.argon2_time cfg.argon2_threads
      & ("$" & (a.encode_to_string salt & ("$" & a.encode_to_string hash)))

  unfoldable pub hash_argon2 : List ℕ → String → Config → String
  hash_argon2 salt text cfg = "$argon2id$v=19$" & encoded_rest salt text cfg

  -- The part of a number, of parts that are known to be enough.
  abbrev part : List String → ℕ → String
  part parts i = elim (get_elem? parts i) [ none ↦ "" | some text ↦ text ]

  unfoldable verify_parts : String → List String → Bool
  verify_parts text parts =
      if eqb (length parts) 6
      then elim (a.scan_params (part parts 3)) [
        | none ↦ false
        | some (memory, time, threads) ↦ elim (a.decode_string (part parts 4)) [
          | none ↦ false
          | some salt ↦ elim (a.decode_string (part parts 5)) [
            | none ↦ false
            | some expected ↦
                a.constant_time_compare
                  (a.id_key text salt time memory threads (length expected % 2 ^ 32)) expected
          ]
        ]
      ]
      else false

  unfoldable pub verify_argon2 : String → String → Bool
  unfolding verify_parts
  verify_argon2 text encoded = verify_parts text (split encoded 36)

-- What the code relies on: base64 decodes what it encodes and writes no `$`, `Sscanf` reads the
-- numbers that `Sprintf` prints of the same format, a key has the length that is asked for, and a
-- key equals itself.
pub record Argon2Laws (a : Argon2) : Type 0 where
  pub encode-plain : (bytes : List ℕ) → has 36 (a.encode_to_string bytes) ≡ false
  pub decode-encode : (bytes : List ℕ) → a.decode_string (a.encode_to_string bytes) ≡ some bytes
  pub scan-params_text :
      (memory time threads : ℕ)
      → memory < 2 ^ 32
      → time < 2 ^ 32
      → threads < 2 ^ 8
      → a.scan_params (params_text memory time threads) ≡ some (memory, time, threads)
  pub length-id_key :
      (text : String) (salt : List ℕ) (time memory threads size : ℕ)
      → length (a.id_key text salt time memory threads size) ≡ size
  pub compare_self : (bytes : List ℕ) → a.constant_time_compare bytes bytes ≡ true

-- The numbers of a configuration fit the machine's.
pub record IsSized (cfg : Config) : Type 0 where
  pub memory_fits : cfg.argon2_memory < 2 ^ 32
  pub time_fits : cfg.argon2_time < 2 ^ 32
  pub threads_fits : cfg.argon2_threads < 2 ^ 8

params_text-plain : (memory time threads : ℕ) → has 36 (params_text memory time threads) ≡ false
unfolding has
params_text-plain memory time threads =
    has-append 36 "m=" (decimal memory & (",t=" & (decimal time & (",p=" & decimal threads))))
    ∙ has-append 36 (decimal memory) (",t=" & (decimal time & (",p=" & decimal threads)))
    ∙ rw (decimal-plain memory) (
        has-append 36 ",t=" (decimal time & (",p=" & decimal threads))
        ∙ has-append 36 (decimal time) (",p=" & decimal threads)
        ∙ rw (decimal-plain time) (has-append 36 ",p=" (decimal threads) ∙ decimal-plain threads))

-- The parts of an encoded hash.
split-encoded :
    (params salt hash : String)
    → has 36 params ≡ false
    → has 36 salt ≡ false
    → has 36 hash ≡ false
    → split ("$argon2id$v=19$" & (params & ("$" & (salt & ("$" & hash))))) 36
      ≡ ("" ∷ "argon2id" ∷ "v=19" ∷ params ∷ salt ∷ hash ∷ [])
unfolding has
split-encoded params salt hash p s h =
    let rest = params & ("$" & (salt & ("$" & hash))) in
    ap (λ (x : String). split x 36)
      (append_assoc "" "$argon2id$v=19$" rest
        ∙ ap (λ (x : String). "" & x)
            (append_assoc "$" "argon2id$v=19$" rest
              ∙ ap (λ (x : String). "$" & x)
                  (append_assoc "argon2id" "$v=19$" rest
                    ∙ ap (λ (x : String). "argon2id" & x)
                        (append_assoc "$" "v=19$" rest
                          ∙ ap (λ (x : String). "$" & x) (append_assoc "v=19" "$" rest)))))
    ∙ split-append "" ("argon2id" & ("$" & ("v=19" & ("$" & rest)))) refl
    ∙ ap (λ (ps : List String). "" ∷ ps)
        (split-append "argon2id" ("v=19" & ("$" & rest)) refl
          ∙ ap (λ (ps : List String). "argon2id" ∷ ps)
              (split-append "v=19" rest refl
                ∙ ap (λ (ps : List String). "v=19" ∷ ps)
                    (split-append params (salt & ("$" & hash)) p
                      ∙ ap (λ (ps : List String). params ∷ ps)
                          (split-append salt hash s
                            ∙ ap (λ (ps : List String). salt ∷ ps) (split-plain hash h)))))

-- A text matches the argon2 hash that is made of it.
pub verify_argon2-hash_argon2 :
    (a : Argon2) (laws : Argon2Laws a) (cfg : Config) (sized : IsSized cfg) (salt : List ℕ)
    (text : String)
    → verify_argon2 a text (hash_argon2 a salt text cfg) ≡ true
unfolding verify_argon2 hash_argon2 verify_parts
verify_argon2-hash_argon2 a laws cfg sized salt text =
    let hash = a.id_key text salt cfg.argon2_time cfg.argon2_memory cfg.argon2_threads 32 in
    ap (verify_parts a text) (
      split-encoded (params_text cfg.argon2_memory cfg.argon2_time cfg.argon2_threads)
        (a.encode_to_string salt) (a.encode_to_string hash)
        (params_text-plain cfg.argon2_memory cfg.argon2_time cfg.argon2_threads)
        (laws.encode-plain salt) (laws.encode-plain hash))
    ∙ rw
        (laws.scan-params_text cfg.argon2_memory cfg.argon2_time cfg.argon2_threads
          sized.memory_fits sized.time_fits sized.threads_fits)
        (rw (laws.decode-encode salt) (
          rw (laws.decode-encode hash) (
            rw
              (laws.length-id_key text salt cfg.argon2_time cfg.argon2_memory cfg.argon2_threads 32)
              (laws.compare_self hash))))
