-- ===== src/Auth/Codes/Single.antt =====
-- A recovery code is accepted as it is shown, and works once.
use godeye.Prelude.{
  take, Option, ℕ, zero, suc, ◌≡◌, refl, Bool, true, false, not, ◌&&◌, ◌||◌, none, some, List, [],
  ◌∷◌, ◌++◌, arith, ◌==◌, if◌then◌else◌, is_some, get_or, ◌⊎◌, inl, inr, Option-cases, Bool-cases,
}
use godeye.Db.{Each}
use godeye.Auth.Model.{MfaBackupCode, Tables, Data}
use godeye.Auth.Codes.{
  hyphen, is_space, drop, format_code, normalize_code, spend, matched, unused_of, unused_code,
  spend_code, redeem,
}

-- A character that upper case leaves alone and that is neither white space nor a hyphen.
abbrev pub IsPlain : (ℕ → List ℕ) → ℕ → Type 0
IsPlain upper c = (upper c ≡ c ∷ []) × (is_space c || c == hyphen ≡ false)

normalize-plain :
    (upper : ℕ → List ℕ) (cs : List ℕ) → Each (IsPlain upper) cs → normalize_code upper cs ≡ cs
unfolding normalize_code
normalize-plain upper [] h = refl
normalize-plain upper (c ∷ cs) (h, hs) = rw (h.0, h.1, normalize-plain upper cs hs) refl

normalize-split :
    (upper : ℕ → List ℕ) (n : ℕ) (cs : List ℕ)
    → upper hyphen ≡ hyphen ∷ []
    → Each (IsPlain upper) cs
    → normalize_code upper (take n cs ++ (hyphen ∷ drop n cs)) ≡ cs
unfolding normalize_code
normalize-split upper zero cs dash h = rw (dash, normalize-plain upper cs h) refl
normalize-split upper (suc n) [] dash h = rw dash refl
normalize-split upper (suc n) (c ∷ cs) dash (h, hs) =
    rw (h.0, h.1, normalize-split upper n cs dash hs) refl

-- A code that is typed as it is shown is the code that was issued, if upper case leaves its
-- characters and the hyphen alone.
pub normalize-format :
    (upper : ℕ → List ℕ) (raw : List ℕ)
    → upper hyphen ≡ hyphen ∷ []
    → Each (IsPlain upper) raw
    → normalize_code upper (format_code raw) ≡ raw
unfolding format_code
normalize-format upper raw dash h = normalize-split upper 5 raw dash h

-- The row that the loop finds.
record Match (P : MfaBackupCode → Type 0) (verify : ℕ → List ℕ → Option Bool) (candidate : List ℕ)
    (id : ℕ) : Type 0 where
  row : MfaBackupCode
  from : P row
  is_row : row.id ≡ id
  verified : verify row.code_hash candidate ≡ some true

matched-Match :
    (P : MfaBackupCode → Type 0) (verify : ℕ → List ℕ → Option Bool) (candidate : List ℕ)
    (found : Option ℕ) (id : ℕ) (cs : List MfaBackupCode)
    → Each P cs
    → matched verify candidate found cs ≡ some id
    → (found ≡ some id) ⊎ Match P verify candidate id
unfolding matched
matched-Match P verify candidate found id [] h e = inl e
matched-Match P verify candidate found id (c ∷ cs) (h, hs) e =
    elim (matched-Match P verify candidate
      (if get_or (verify c.code_hash candidate) false && not (is_some found)
        then some c.id
        else found)
      id cs hs e) [
        | inr m ↦ inr m
        | inl before ↦ elim (Option-cases (verify c.code_hash candidate)) [
          | inl threw ↦ inl (ground arith)
          | inr (answer, said) ↦ elim (Bool-cases answer) [
            | inr miss ↦ inl (ground arith)
            | inl hit ↦ elim (Option-cases found) [
              | inr (j, had) ↦ inl (ground arith)
              | inl first ↦
                  inr (record { row = c; from = h; is_row = ground arith; verified = ground arith })
            ]
          ]
        ]
      ]

module _ (T : Tables) (verify : ℕ → List ℕ → Option Bool) (upper : ℕ → List ℕ) where
  open T use {codes as Codes}

  none_unused :
      (now id : ℕ) (rows : Codes.Rows)
      → Codes.count
          (unused_code T verify upper id)
          (Codes.update_many (unused_code T verify upper id) (spend now) (λ c. refl) rows)
        ≡ 0
  none_unused now id rows =
      Codes.count-eq-zero (unused_code T verify upper id)
        (Codes.update_many (unused_code T verify upper id) (spend now) (λ c. refl) rows)
        (λ k c e. elim (Option-cases (Codes.find_unique rows k)) [
          | inl gone ↦ ground (
            arith,
            Codes.find_unique-update_many (unused_code T verify upper id) (spend now) (λ x. refl)
                rows k,
          )
          | inr (c0, had) ↦ ground (
            arith,
            Codes.find_unique-update_many (unused_code T verify upper id) (spend now) (λ x. refl)
                rows k,
          )
        ])

  -- A code that is redeemed is an unused code of the user that the input verifies against. It is
  -- marked used, no other code changes, and spending it again is refused.
  pub redeem-single :
      (d d' : Data T) (now user_id : ℕ) (input : List ℕ)
      → redeem T verify upper d now user_id input ≡ (d', true)
      → (c : MfaBackupCode) × (Codes.find_unique d.codes c.id ≡ some c)
        × (c.user_id ≡ user_id)
        × (c.used_at ≡ none)
        × (verify c.code_hash (normalize_code upper input) ≡ some true)
        × (Codes.find_unique d'.codes c.id ≡ some (spend now c))
        × ((k : ℕ) → k == c.id ≡ false → Codes.find_unique d'.codes k ≡ Codes.find_unique d.codes k)
        × ((later : ℕ) → (spend_code T verify upper d' later c.id).1 ≡ false)
  unfolding redeem spend_code
  redeem-single d d' now user_id input e =
      let candidate = normalize_code upper input in
      let rows = Codes.find_many (unused_of T verify upper user_id) 20 d.codes in
      elim (Option-cases (matched verify candidate none rows)) [
        | inl miss ↦ ground arith
        | inr (id, found) ↦
            elim (matched-Match
              (λ c.
                (unused_of T verify upper user_id c ≡ true)
                × (Codes.find_unique d.codes c.id ≡ some c))
              verify candidate none id rows
              (Codes.find_many-sound (unused_of T verify upper user_id) 20 d.codes) found) [
                | inl never ↦ ground arith
                | inr m ↦
                    let after : d'.codes
                        ≡ Codes.update_many (unused_code T verify upper id) (spend now) (λ c. refl)
                            d.codes =
                      ground arith in
                    let rows_after =
                      Codes.find_unique-update_many (unused_code T verify upper id) (spend now)
                        (λ c. refl) d.codes in
                    (
                      m.row,
                      m.from.1,
                      ground (arith, m.from.0),
                      elim (Option-cases m.row.used_at) [
                        | inl unused ↦ unused
                        | inr (t, was) ↦ ground (arith, m.from.0)
                      ],
                      m.verified,
                      ground (arith, after, rows_after m.row.id, m.from.0, m.from.1, m.is_row),
                      λ k other. elim (Option-cases (Codes.find_unique d.codes k)) [
                        | inl gone ↦ ground (arith, after, rows_after k)
                        | inr (c, had) ↦ ground (
                          arith,
                          after,
                          rows_after k,
                          Codes.find_unique-key d.codes k c had,
                          m.is_row,
                        )
                      ],
                      λ later. ground (arith, after, m.is_row, none_unused now id d.codes),
                    )
              ]
      ]
