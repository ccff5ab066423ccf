-- ===== src/Crypto/Bound.antt =====
-- What the envelope gives back, and to whom.
use godeye.Prelude.{
  Text, same_text, same_text_refl, same_text-eq, ℕ, ◌≡◌, ◌≢◌, refl, ap, ◌∙◌, Bool, true, false,
  ◌||◌, Option, none, some, List, [], ◌∷◌, arith, ◌==◌, if◌then◌else◌, Bool-cases, Option-cases,
  inl, inr,
}
use godeye.Crypto.Dotted.{split, join, has_no_dot, split-join}
use godeye.Crypto.{
  Sealed, Cipher, label, v1, rest, is_v1, encrypt, key_for, open_sealed, try_keys, decrypt_legacy,
  decrypt_v1, decrypt,
}

abbrev pub is_empty : Text → Bool
is_empty [] = true
is_empty (c ∷ cs) = false

-- What Node documents of base64, of hexadecimal digits and of AES-256-GCM: an encoding is undone, has
-- no dot and is empty for no bytes alone; the ciphertext is as long as the text; what was sealed is
-- unsealed under the same key and label, and is refused under any other label, whatever the key.
pub record IsGcm (f : Cipher) : Type 0 where
  pub base64 : (bytes : List ℕ) → f.of_base64 (f.to_base64 bytes) ≡ bytes
  pub base64_plain : (bytes : List ℕ) → has_no_dot (f.to_base64 bytes) ≡ true
  pub base64_empty : (bytes : List ℕ) → is_empty (f.to_base64 bytes) ≡ is_empty bytes
  pub key_id_plain : (key : ℕ) → has_no_dot (f.key_id key) ≡ true
  pub key_id_long : (key : ℕ) → is_empty (f.key_id key) ≡ false
  pub tag_long :
      (key : ℕ) (iv : List ℕ) (aad : Option Text) (p : Text)
      → is_empty (f.seal key iv aad p).tag ≡ false
  pub same_length :
      (key : ℕ) (iv : List ℕ) (aad : Option Text) (p : Text)
      → is_empty (f.seal key iv aad p).ciphertext ≡ is_empty p
  pub opens :
      (key : ℕ) (iv : List ℕ) (aad : Option Text) (p : Text)
      → f.unseal key iv aad (f.seal key iv aad p) ≡ some p
  pub binds :
      (key other : ℕ) (iv : List ℕ) (aad wrong : Option Text) (p : Text)
      → wrong ≢ aad
      → f.unseal other iv wrong (f.seal key iv aad p) ≡ none

both : (b : Bool) → ◌≡◌ {A = Option Text} (if b then none else none) none
both true = refl
both false = refl

module _ (f : Cipher) (gcm : IsGcm f) where
  open gcm use {
    base64, base64_plain, base64_empty, key_id_plain, key_id_long, tag_long, same_length, opens,
    binds,
  }

  label-long : (w : Text) → is_empty w ≡ false → label (some w) ≡ some w
  label-long [] h = ground arith
  label-long (c ∷ cs) h = refl

  abbrev pub is_configured : ℕ → List ℕ → Bool
  is_configured key [] = false
  is_configured key (k ∷ keys) = k == key || is_configured key keys

  not_same : (k key : ℕ) → same_text (f.key_id k) (f.key_id key) ≡ false → (k == key) ≡ false
  not_same k key h = elim (Bool-cases (k == key)) [
    | inr apart ↦ apart
    | inl same ↦
        let is : k ≡ key = ground arith in
        let refl_id = same_text_refl (f.key_id key) in
        let moved : same_text (f.key_id k) (f.key_id key) ≡ true =
          ap (λ j. same_text (f.key_id j) (f.key_id key)) is ∙ refl_id in
        ground arith
  ]

  -- The parts of a payload that was written.
  parts_of : ℕ → List ℕ → Text → Option Text → List Text
  parts_of key iv p aad =
      let s = f.seal key iv (label aad) p in
      v1 ∷ f.key_id key ∷ f.to_base64 iv ∷ f.to_base64 s.tag ∷ f.to_base64 s.ciphertext ∷ []

  split-encrypt :
      (key : ℕ) (iv : List ℕ) (p : Text) (aad : Option Text)
      → split (encrypt f key iv p aad) ≡ parts_of key iv p aad
  unfolding encrypt parts_of
  split-encrypt key iv p aad =
      let s = f.seal key iv (label aad) p in
      split-join v1
        (f.key_id key ∷ f.to_base64 iv ∷ f.to_base64 s.tag ∷ f.to_base64 s.ciphertext ∷ [])
        (
          refl,
          (
            key_id_plain key,
            (base64_plain iv, (base64_plain s.tag, (base64_plain s.ciphertext, tt))),
          ),
        )

  key_for-found :
      (keys : List ℕ) (key : ℕ)
      → is_configured key keys ≡ true
      → ((other : ℕ)
          → is_configured other keys ≡ true
          → f.key_id other ≡ f.key_id key
          → other ≡ key)
      → key_for f keys (f.key_id key) ≡ some key
  unfolding key_for
  key_for-found [] key here single = ground arith
  key_for-found (k ∷ keys) key here single =
      elim (Bool-cases (same_text (f.key_id k) (f.key_id key))) [
        | inl same ↦
            let is : k ≡ key =
              single k (ground arith) (same_text-eq (f.key_id k) (f.key_id key) same) in
            ground arith
        | inr other ↦
            let apart : (k == key) ≡ false = not_same k key other in
            ground (arith, key_for-found keys key (ground arith) (λ j h. single j (ground arith)))
      ]

  -- What a known key makes of the parts.
  abbrev with_key : Option ℕ → Text → Text → Text → Option Text → Option Text
  with_key none iv tag ct aad = none
  with_key (some key) iv tag ct aad = open_sealed f key iv tag ct aad

  decrypt_v1-parts :
      (keys : List ℕ) (id iv tag ct : Text) (aad : Option Text)
      → is_empty id ≡ false
      → is_empty iv ≡ false
      → is_empty tag ≡ false
      → decrypt_v1 f keys (id ∷ iv ∷ tag ∷ ct ∷ []) aad
        ≡ (if is_empty ct then none else with_key (key_for f keys id) iv tag ct aad)
  unfolding decrypt_v1
  decrypt_v1-parts keys [] iv tag ct aad p q r = ground arith
  decrypt_v1-parts keys (c ∷ id) [] tag ct aad p q r = ground arith
  decrypt_v1-parts keys (c ∷ id) (d ∷ iv) [] ct aad p q r = ground arith
  decrypt_v1-parts keys (c ∷ id) (d ∷ iv) (e ∷ tag) [] aad p q r = refl
  decrypt_v1-parts keys (c ∷ id) (d ∷ iv) (e ∷ tag) (g ∷ ct) aad p q r =
      elim (Option-cases (key_for f keys (c ∷ id))) [
        | inl unknown ↦ ground arith
        | inr (k, known) ↦ ground arith
      ]

  -- The same on what was sealed.
  abbrev unsealed : Option ℕ → List ℕ → Option Text → Sealed → Option Text
  unsealed none iv aad s = none
  unsealed (some key) iv aad s = f.unseal key iv (label aad) s

  with_key-unsealed :
      (found : Option ℕ) (iv : List ℕ) (aad : Option Text) (s : Sealed)
      → with_key found (f.to_base64 iv) (f.to_base64 s.tag) (f.to_base64 s.ciphertext) aad
        ≡ unsealed found iv aad s
  with_key-unsealed none iv aad s = refl
  with_key-unsealed (some key) iv aad s = λ i.
      f.unseal key (base64 iv i) (label aad)
        (record { ciphertext = base64 s.ciphertext i; tag = base64 s.tag i })

  decrypt-opened :
      (keys : List ℕ) (key : ℕ) (iv : List ℕ) (p : Text) (aad aad2 : Option Text)
      → is_empty iv ≡ false
      → decrypt f keys (encrypt f key iv p aad) aad2 ≡ (
          if is_empty p
          then none
          else unsealed (key_for f keys (f.key_id key)) iv aad2 (f.seal key iv (label aad) p))
  unfolding decrypt same_text parts_of
  decrypt-opened keys key iv p aad aad2 some_iv =
      let s = f.seal key iv (label aad) p in
      ap (λ ps. if is_v1 ps then decrypt_v1 f keys (rest ps) aad2 else decrypt_legacy f keys ps)
        (split-encrypt key iv p aad)
      ∙ decrypt_v1-parts keys (f.key_id key) (f.to_base64 iv) (f.to_base64 s.tag)
          (f.to_base64 s.ciphertext) aad2 (key_id_long key) (base64_empty iv ∙ some_iv)
          (base64_empty s.tag ∙ tag_long key iv (label aad) p)
      ∙ (λ i.
          if (base64_empty s.ciphertext ∙ same_length key iv (label aad) p) i
          then none
          else with_key-unsealed (key_for f keys (f.key_id key)) iv aad2 s i)

  -- What was encrypted is decrypted, under the same label, by any configuration that has the key, as
  -- the current or as a previous one, provided that no other configured key has the same id. The empty
  -- text is the exception: its payload is refused as malformed.
  pub decrypt-encrypt :
      (keys : List ℕ) (key : ℕ) (iv : List ℕ) (p : Text) (aad : Option Text)
      → is_empty iv ≡ false
      → is_configured key keys ≡ true
      → ((other : ℕ)
          → is_configured other keys ≡ true
          → f.key_id other ≡ f.key_id key
          → other ≡ key)
      → decrypt f keys (encrypt f key iv p aad) aad ≡ (if is_empty p then none else some p)
  decrypt-encrypt keys key iv p aad some_iv here single =
      let s = f.seal key iv (label aad) p in
      decrypt-opened keys key iv p aad aad some_iv
      ∙ ap (λ found. if is_empty p then none else unsealed found iv aad s)
          (key_for-found keys key here single)
      ∙ ap (λ o. if is_empty p then none else o) (opens key iv (label aad) p)

  try_keys-none :
      (keys : List ℕ) (key : ℕ) (iv : List ℕ) (p : Text) (aad : Option Text)
      → none ≢ label aad
      → let s = f.seal key iv (label aad) p in
        try_keys f keys (f.to_base64 iv) (f.to_base64 s.tag) (f.to_base64 s.ciphertext) ≡ none
  unfolding try_keys
  try_keys-none [] key iv p aad other = refl
  try_keys-none (k ∷ keys) key iv p aad other =
      let s = f.seal key iv (label aad) p in
      let shut : open_sealed f k (f.to_base64 iv) (f.to_base64 s.tag) (f.to_base64 s.ciphertext)
            none
          ≡ none =
        (λ i.
          f.unseal k (base64 iv i) none
            (record { ciphertext = base64 s.ciphertext i; tag = base64 s.tag i }))
        ∙ binds key k iv (label aad) none p other in
      ground (arith, shut, try_keys-none keys key iv p aad other)

  unsealed-none :
      (found : Option ℕ) (key : ℕ) (iv : List ℕ) (p : Text) (aad wrong : Option Text)
      → label wrong ≢ label aad
      → unsealed found iv wrong (f.seal key iv (label aad) p) ≡ none
  unsealed-none none key iv p aad wrong other = refl
  unsealed-none (some k) key iv p aad wrong other = binds key k iv (label aad) (label wrong) p other

  -- A payload without its version and its key id, in the legacy form.
  abbrev pub as_legacy : ℕ → List ℕ → Text → Option Text → Text
  as_legacy key iv p aad =
      let s = f.seal key iv (label aad) p in
      join (f.to_base64 iv ∷ f.to_base64 s.tag ∷ f.to_base64 s.ciphertext ∷ [])

  legacy-parts :
      (keys : List ℕ) (iv tag ct : Text)
      → try_keys f keys iv tag ct ≡ none
      → decrypt_legacy f keys (iv ∷ tag ∷ ct ∷ []) ≡ none
  unfolding decrypt_legacy
  legacy-parts keys [] tag ct h = refl
  legacy-parts keys (c ∷ iv) [] ct h = refl
  legacy-parts keys (c ∷ iv) (d ∷ tag) [] h = refl
  legacy-parts keys (c ∷ iv) (d ∷ tag) (e ∷ ct) h = h

  -- A payload that was written for one tenant is of no use to another. Under any other label it is
  -- not decrypted, whatever keys are configured. Nor is it, where it was written with a label, after
  -- its version and key id are cut off, so that it is read as a legacy payload, which has no label.
  pub encrypt_bound :
      (keys : List ℕ) (key : ℕ) (iv : List ℕ) (p : Text) (aad wrong : Option Text)
      → is_empty iv ≡ false
      → same_text (f.to_base64 iv) v1 ≡ false
      → label wrong ≢ label aad
      → none ≢ label aad
      → (decrypt f keys (encrypt f key iv p aad) wrong ≡ none)
        × (decrypt f keys (as_legacy key iv p aad) wrong ≡ none)
  unfolding decrypt
  encrypt_bound keys key iv p aad wrong some_iv not_v1 other labelled =
      let s = f.seal key iv (label aad) p in
      let shut = unsealed-none (key_for f keys (f.key_id key)) key iv p aad wrong other in
      let legacy =
        legacy-parts keys (f.to_base64 iv) (f.to_base64 s.tag) (f.to_base64 s.ciphertext)
          (try_keys-none keys key iv p aad labelled) in
      (
        decrypt-opened keys key iv p aad wrong some_iv
            ∙ ap (λ o. if is_empty p then none else o) shut
            ∙ both (is_empty p),
        ap (λ ps. if is_v1 ps then decrypt_v1 f keys (rest ps) wrong else decrypt_legacy f keys ps)
              (split-join (f.to_base64 iv) (f.to_base64 s.tag ∷ f.to_base64 s.ciphertext ∷ [])
                (base64_plain iv, (base64_plain s.tag, (base64_plain s.ciphertext, tt))))
            ∙ (λ i.
                if not_v1 i
                then decrypt_v1 f keys (f.to_base64 s.tag ∷ f.to_base64 s.ciphertext ∷ []) wrong
                else decrypt_legacy f keys
                    (f.to_base64 iv ∷ f.to_base64 s.tag ∷ f.to_base64 s.ciphertext ∷ []))
            ∙ legacy,
      )
