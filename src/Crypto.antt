-- ===== src/Crypto.antt =====
-- apps/api/src/common/crypto.service.ts: the envelope in which credentials and second-factor secrets
-- are stored. AES-256-GCM, SHA-256, base64 and the random bytes are Node's; `Cipher` holds what they
-- yield. Texts and bytes are lists of numbers, and the keys are those of the configuration, the
-- current one first.
pub mod Dotted
pub mod Bound
mod Examples
use godeye.Prelude.{
  Text, same_text, ℕ, refl, Bool, true, false, not, ◌&&◌, Option, none, some, List, [], ◌∷◌, ◌==◌,
  if◌then◌else◌,
}
use godeye.Crypto.Dotted.{split, join}

-- A sealed text: the bytes, and the tag that authenticates them.
pub record Sealed : Type 0 where
  pub ciphertext : List ℕ
  pub tag : List ℕ

pub record Cipher : Type 0 where
  -- the first eight hexadecimal digits of the SHA-256 of a key
  pub key_id : ℕ → Text
  pub seal : (key : ℕ) → (iv : List ℕ) → (aad : Option Text) → (plaintext : Text) → Sealed
  -- `none` where `final` throws
  pub unseal : (key : ℕ) → (iv : List ℕ) → (aad : Option Text) → Sealed → Option Text
  pub to_base64 : List ℕ → Text
  pub of_base64 : Text → List ℕ

-- `if (aad)`: an empty label is none.
abbrev pub label : Option Text → Option Text
label none = none
label (some []) = none
label (some (c ∷ cs)) = some (c ∷ cs)

abbrev pub v1 : Text
v1 = b'v' ∷ b'1' ∷ []

-- A part of the payload; one that is missing or empty is none.
abbrev pub part : List Text → Option Text
part [] = none
part (w ∷ ws) = label (some w)

abbrev pub rest : List Text → List Text
rest [] = []
rest (w ∷ ws) = ws

abbrev pub is_v1 : List Text → Bool
is_v1 [] = false
is_v1 (w ∷ ws) = same_text w v1

module _ (f : Cipher) where
  unfoldable pub encrypt : (key : ℕ) → (iv : List ℕ) → Text → Option Text → Text
  encrypt key iv plaintext aad =
      let sealed = f.seal key iv (label aad) plaintext in
      join (
        v1
        ∷ f.key_id key
        ∷ f.to_base64 iv
        ∷ f.to_base64 sealed.tag
        ∷ f.to_base64 sealed.ciphertext
        ∷ [])

  unfoldable pub key_for : List ℕ → Text → Option ℕ
  key_for [] id = none
  key_for (key ∷ keys) id =
      let later = key_for keys id in if same_text (f.key_id key) id then some key else later

  abbrev pub open_sealed : ℕ → Text → Text → Text → Option Text → Option Text
  open_sealed key iv tag ciphertext aad =
      f.unseal key (f.of_base64 iv) (label aad)
        (record { ciphertext = f.of_base64 ciphertext; tag = f.of_base64 tag })

  -- The legacy form is tried with each key, and has no label.
  unfoldable pub try_keys : List ℕ → Text → Text → Text → Option Text
  try_keys [] iv tag ciphertext = none
  try_keys (key ∷ keys) iv tag ciphertext =
      let later = try_keys keys iv tag ciphertext in
      elim (open_sealed key iv tag ciphertext none) [
        | some plaintext ↦ some plaintext
        | none ↦ later
      ]

  unfoldable pub decrypt_legacy : List ℕ → List Text → Option Text
  decrypt_legacy keys parts = elim (part parts) [
    | none ↦ none
    | some iv ↦ elim (part (rest parts)) [
      | none ↦ none
      | some tag ↦ elim (part (rest (rest parts))) [
        | none ↦ none
        | some ciphertext ↦ try_keys keys iv tag ciphertext
      ]
    ]
  ]

  unfoldable pub decrypt_v1 : List ℕ → List Text → Option Text → Option Text
  decrypt_v1 keys parts aad = elim (part parts) [
    | none ↦ none
    | some id ↦ elim (part (rest parts)) [
      | none ↦ none
      | some iv ↦ elim (part (rest (rest parts))) [
        | none ↦ none
        | some tag ↦ elim (part (rest (rest (rest parts)))) [
          | none ↦ none
          | some ciphertext ↦ elim (key_for keys id) [
            | none ↦ none
            | some key ↦ open_sealed key iv tag ciphertext aad
          ]
        ]
      ]
    ]
  ]

  -- `none` is each of the exceptions.
  unfoldable pub decrypt : List ℕ → Text → Option Text → Option Text
  decrypt keys payload aad =
      let parts = split payload in
      if is_v1 parts then decrypt_v1 keys (rest parts) aad else decrypt_legacy keys parts
