-- ===== src/Auth/Hash.antt =====
-- apps/api/internal/auth/hash.go: the format of API keys, their hashes, and the check of a key
-- against a hash. `bcrypt` and `base64` are parameters.
use Prim.Native.String.{len, slice}
use Prim.Native.String.{compare}
use text.Mathlib.Text.{starts_with, is_eq}
use text.Mathlib.TextLemmas.{append_assoc}
use text.Mathlib.TextPositions.{starts_with-append, slice-append_left}
use prompt_pack.Auth.Argon2.{
  Argon2, Argon2Laws, IsSized, hash_argon2, encoded_rest, verify_argon2, verify_argon2-hash_argon2,
}
use prompt_pack.Base.{
  ℕ, String, ◌&◌, ◌≡◌, sym, ap, subst, ◌∙◌, ◌⊎◌, inl, inr, Bool, true, false, ◌||◌, Option, none,
  some, List, arith, ◌==◌,
}
use prompt_pack.Base.Tests.{if◌then◌else◌, ltb, leb, Bool-cases, Option-cases, if_true, if_false}
use prompt_pack.Base.Int.{ℤ}
use prompt_pack.Auth.Domain.{Config}

-- `keyBytes` and `salt` are what `rand.Read` gives; an error of the library is `none`.
pub record Crypto : Type 0 where
  pub raw_url_encode : List ℕ → String
  pub bcrypt_generate : List ℕ → String → ℤ → Option String
  pub bcrypt_compare : String → String → Bool
  pub argon2 : Argon2

abbrev pub key_marker : String
key_marker = "ppk_"

-- `strings.TrimPrefix`
unfoldable pub trim_prefix : String → String → String
trim_prefix s p = if starts_with s p then slice s (len p) (len s) else s

pub data HashError : Type 0 where
  invalid_key bcrypt_failed : HashError

-- The raw key and the prefix that identifies it.
unfoldable pub generate_api_key : Crypto → List ℕ → String × String
generate_api_key c key_bytes =
    let encoded = c.raw_url_encode key_bytes in
    (key_marker & encoded, if leb 8 (len encoded) then slice encoded 0 8 else encoded)

unfoldable pub hash_bcrypt : Crypto → List ℕ → String → ℤ → HashError ⊎ String
hash_bcrypt c salt text cost = elim (c.bcrypt_generate salt text cost) [
  | none ↦ inl bcrypt_failed
  | some hash ↦ inr hash
]

unfoldable pub hash_key : Crypto → Config → List ℕ → String → HashError ⊎ String
unfolding hash_bcrypt
hash_key c cfg salt raw_key =
    let key_data = trim_prefix raw_key key_marker in
    if key_data == raw_key
    then inl invalid_key
    else if cfg.api_key_hash_algorithm == "bcrypt"
    then hash_bcrypt c salt key_data cfg.bcrypt_cost
    else if cfg.api_key_hash_algorithm == "argon2"
    then inr (hash_argon2 c.argon2 salt key_data cfg)
    else hash_bcrypt c salt key_data cfg.bcrypt_cost

unfoldable pub verify_key : Crypto → String → String → Bool
verify_key c raw_key stored_hash =
    let key_data = trim_prefix raw_key key_marker in
    if key_data == raw_key
    then false
    else if starts_with stored_hash "$2"
    then c.bcrypt_compare stored_hash key_data
    else if starts_with stored_hash "$argon2"
    then verify_argon2 c.argon2 key_data stored_hash
    else false

unfoldable pub extract_key_prefix : String → String
extract_key_prefix raw_key =
    let key_data = trim_prefix raw_key key_marker in
    if key_data == raw_key || ltb (len key_data) 8 then "" else slice key_data 0 8

-- What the code relies on: a bcrypt hash begins with `$2` and matches the text that it was made of,
-- and the laws of the argon2 form.
pub record CryptoLaws (c : Crypto) : Type 0 where
  pub bcrypt_format :
      (salt : List ℕ) (text : String) (cost : ℤ) (hash : String)
      → c.bcrypt_generate salt text cost ≡ some hash
      → starts_with hash "$2" ≡ true
  pub bcrypt_match :
      (salt : List ℕ) (text : String) (cost : ℤ) (hash : String)
      → c.bcrypt_generate salt text cost ≡ some hash
      → c.bcrypt_compare hash text ≡ true
  pub argon2_laws : Argon2Laws c.argon2

-- The prefix by which `VerifyKey` tells an argon2 hash.
hash_argon2-starts_with :
    (a : Argon2) (cfg : Config) (salt : List ℕ) (text : String)
    → (starts_with (hash_argon2 a salt text cfg) "$argon2" ≡ true)
      × (starts_with (hash_argon2 a salt text cfg) "$2" ≡ false)
unfolding hash_argon2
hash_argon2-starts_with a cfg salt text =
    let rest = encoded_rest a salt text cfg in
    (
      ap (λ (x : String). starts_with x "$argon2") (append_assoc "$argon2" "id$v=19$" rest)
          ∙ starts_with-append "$argon2" ("id$v=19$" & rest),
      ap (λ (x : String). starts_with x "$2") (append_assoc "$a" "rgon2id$v=19$" rest)
          ∙ ap (λ (x : String). is_eq (compare x "$2"))
              (slice-append_left "$a" ("rgon2id$v=19$" & rest)),
    )

module _ (c : Crypto) (laws : CryptoLaws c) (cfg : Config) (sized : IsSized cfg) (salt : List ℕ)
    (raw_key hash : String) where
  bcrypt_verifies :
      (cost : ℤ)
      → (trim_prefix raw_key key_marker == raw_key) ≡ false
      → hash_bcrypt c salt (trim_prefix raw_key key_marker) cost ≡ inr hash
      → verify_key c raw_key hash ≡ true
  unfolding hash_bcrypt verify_key
  bcrypt_verifies cost marked h =
      elim (Option-cases (c.bcrypt_generate salt (trim_prefix raw_key key_marker) cost)) [
        | inl e ↦ ground (arith, e, h)
        | inr (x, e) ↦
            let same : x ≡ hash = ground (arith, e, h) in
            let e' = e ∙ ap some same in
            ground (
              arith,
              marked,
              laws.bcrypt_format salt (trim_prefix raw_key key_marker) cost hash e',
              laws.bcrypt_match salt (trim_prefix raw_key key_marker) cost hash e',
            )
      ]

  argon2_verifies :
      (trim_prefix raw_key key_marker == raw_key) ≡ false
      → ◌≡◌ {A = HashError ⊎ String}
          (inr (hash_argon2 c.argon2 salt (trim_prefix raw_key key_marker) cfg))
          (inr hash)
      → verify_key c raw_key hash ≡ true
  unfolding verify_key
  argon2_verifies marked h =
      let text = trim_prefix raw_key key_marker in
      let same : hash_argon2 c.argon2 salt text cfg ≡ hash = ground (arith, h) in
      let starts = hash_argon2-starts_with c.argon2 cfg salt text in
      subst (λ x. verify_key c raw_key x ≡ true) same
        (ground (
          arith,
          marked,
          starts,
          verify_argon2-hash_argon2 c.argon2 laws.argon2_laws cfg sized salt text,
        ))

  -- A raw key verifies against the hash that `HashKey` makes of it, whichever algorithm is
  -- configured, for the numbers that Go's types hold, provided that the libraries behave as
  -- `CryptoLaws` says: bcrypt matches a text against its own hash, and what `hashArgon2` writes with
  -- base64 and `Sprintf` is what `verifyArgon2` reads with base64 and `Sscanf`.
  pub verify-hash_key : hash_key c cfg salt raw_key ≡ inr hash → verify_key c raw_key hash ≡ true
  unfolding hash_key
  verify-hash_key h = elim (Bool-cases (trim_prefix raw_key key_marker == raw_key)) [
    | inl bare ↦ absurd (ground (arith, bare, h))
    | inr marked ↦ elim (Bool-cases (cfg.api_key_hash_algorithm == "bcrypt")) [
      | inl b ↦
          bcrypt_verifies cfg.bcrypt_cost marked (sym (if_false _ _ marked ∙ if_true _ _ b) ∙ h)
      | inr nb ↦ elim (Bool-cases (cfg.api_key_hash_algorithm == "argon2")) [
        | inl a ↦
            argon2_verifies marked (sym (if_false _ _ marked ∙ if_false _ _ nb ∙ if_true _ _ a) ∙ h)
        | inr na ↦
            bcrypt_verifies cfg.bcrypt_cost marked
              (sym (if_false _ _ marked ∙ if_false _ _ nb ∙ if_false _ _ na) ∙ h)
      ]
    ]
  ]
