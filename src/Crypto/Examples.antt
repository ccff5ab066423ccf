-- ===== src/Crypto/Examples.antt =====
-- A toy cipher that keeps to the documented laws, on which the theorems about the envelope are applied.
use godeye.Prelude.{
  Text, same_text, same_text_refl, same_text-eq, ℕ, ◌+◌, ◌-◌, ◌≡◌, ◌≢◌, refl, true, false, Option,
  none, some, List, [], ◌∷◌, map, arith, if◌then◌else◌, ap, sym, Bool-cases, inl, inr,
}
use godeye.Crypto.Dotted.{has_no_dot}
use godeye.Crypto.{Cipher, encrypt, decrypt}
use godeye.Crypto.Bound.{is_empty, IsGcm, as_legacy, decrypt-encrypt, encrypt_bound}

-- The tag names the label, the ciphertext is the text.
abbrev tag_of : Option Text → Text
tag_of none = 7 ∷ []
tag_of (some t) = 7 ∷ 1 ∷ t

abbrev toy : Cipher
toy = record {
  key_id = λ key. (key + 100) ∷ [];
  seal = λ key iv aad p. record { ciphertext = p; tag = tag_of aad };
  unseal = λ key iv aad s. if same_text s.tag (tag_of aad) then some s.ciphertext else none;
  to_base64 = map (λ b. b + 100);
  of_base64 = map (λ c. c - 100);
}

tag_of-inj : (a b : Option Text) → tag_of a ≡ tag_of b → a ≡ b
tag_of-inj none none e = refl
tag_of-inj none (some t) e = ground arith
tag_of-inj (some s) none e = ground arith
tag_of-inj (some s) (some t) e = ground arith

back : (bytes : List ℕ) → map (λ c. c - 100) (map (λ b. b + 100) bytes) ≡ bytes
back [] = refl
back (b ∷ bytes) = ground (arith, back bytes)

plain : (bytes : List ℕ) → has_no_dot (map (λ b. b + 100) bytes) ≡ true
plain [] = refl
plain (b ∷ bytes) = ground (arith, plain bytes)

empty : (bytes : List ℕ) → is_empty (map (λ b. b + 100) bytes) ≡ is_empty bytes
empty [] = refl
empty (b ∷ bytes) = refl

tag_long : (aad : Option Text) → is_empty (tag_of aad) ≡ false
tag_long none = refl
tag_long (some t) = refl

refused :
    (aad wrong : Option Text) (p : Text)
    → wrong ≢ aad
    → ◌≡◌ {A = Option Text} (if same_text (tag_of aad) (tag_of wrong) then some p else none) none
refused aad wrong p other = elim (Bool-cases (same_text (tag_of aad) (tag_of wrong))) [
  | inr apart ↦ ap (λ b. if b then some p else none) apart
  | inl same ↦
      absurd (other (sym (tag_of-inj aad wrong (same_text-eq (tag_of aad) (tag_of wrong) same))))
]

toy-IsGcm : IsGcm toy
toy-IsGcm = record {
  base64 = back;
  base64_plain = plain;
  base64_empty = empty;
  key_id_plain = λ key. ground arith;
  key_id_long = λ key. refl;
  tag_long = λ key iv aad p. tag_long aad;
  same_length = λ key iv aad p. refl;
  opens = λ key iv aad p. ap (λ b. if b then some p else none) (same_text_refl (tag_of aad));
  binds = λ key other iv aad wrong p h. refused aad wrong p h;
}

abbrev secret : Text
secret = 5 ∷ 6 ∷ []

abbrev org : Text
org = 9 ∷ []

abbrev other_org : Text
other_org = 8 ∷ []

-- A rotation is in flight: the key 3 is a previous one.
decrypt-encrypt_example :
    decrypt toy (4 ∷ 3 ∷ []) (encrypt toy 3 (1 ∷ 2 ∷ []) secret (some org)) (some org) ≡ some secret
decrypt-encrypt_example =
    decrypt-encrypt toy toy-IsGcm (4 ∷ 3 ∷ []) 3 (1 ∷ 2 ∷ []) secret (some org) refl refl
      (λ other here same. ground arith)

encrypt_bound_example :
    (decrypt toy (4 ∷ 3 ∷ []) (encrypt toy 3 (1 ∷ 2 ∷ []) secret (some org)) (some other_org)
      ≡ none)
    × (decrypt toy
          (4 ∷ 3 ∷ [])
          (as_legacy toy toy-IsGcm 3 (1 ∷ 2 ∷ []) secret (some org))
          (some other_org)
        ≡ none)
unfolding same_text
encrypt_bound_example =
    encrypt_bound toy toy-IsGcm (4 ∷ 3 ∷ []) 3 (1 ∷ 2 ∷ []) secret (some org) (some other_org) refl
      refl (λ e. ground arith) (λ e. ground arith)
