-- ===== src/Auth/Login/Replay.antt =====
-- A code of the authenticator app is accepted once.
use godeye.Prelude.{
  ℕ, ◌+◌, ◌≡◌, ◌≢◌, ◌<◌, true, ◌&&◌, Option, some, List, [], ◌∷◌, arith, ◌==◌, ltb, is_some, all,
  Option-cases, Bool-cases, inl, inr, ok,
}
use godeye.Auth.Login.{Factors, UsedCodes, forget_expired, remember, assert_valid_mfa_code}

-- One call of `assertValidMfaCode`.
pub record MfaCheck : Type 0 where
  pub now : ℕ
  pub encrypted_secret : Option ℕ
  pub code : List ℕ
  pub user_id : ℕ

module _ (f : Factors) where
  pub run_checks : UsedCodes → List MfaCheck → UsedCodes
  run_checks used [] = used
  run_checks used (c ∷ cs) =
      run_checks (assert_valid_mfa_code f used c.now c.encrypted_secret c.code c.user_id).0 cs

  check-keeps :
      (used : UsedCodes) (c : MfaCheck) (u h until : ℕ)
      → used u h ≡ some until
      → c.now < until
      → (assert_valid_mfa_code f used c.now c.encrypted_secret c.code c.user_id).0 u h ≡ some until
  unfolding assert_valid_mfa_code forget_expired
  check-keeps used c u h until held early = elim (Option-cases c.encrypted_secret) [
    | inl unset ↦ ground arith
    | inr (encrypted, set) ↦ elim (Option-cases (f.decrypt encrypted c.user_id)) [
      | inl broken ↦ ground arith
      | inr (secret, plain) ↦ elim (Bool-cases (f.verify_totp c.now c.code secret)) [
        | inr wrong ↦ ground arith
        | inl right ↦
            elim (Bool-cases
              (is_some (forget_expired used c.now c.user_id (f.sha256_text c.code)))) [
                | inl spent ↦ ground arith
                | inr fresh ↦ elim (Bool-cases (u == c.user_id && h == f.sha256_text c.code)) [
                  | inl same ↦ ground arith
                  | inr other ↦ ground arith
                ]
              ]
      ]
    ]
  ]

  run-keeps :
      (cs : List MfaCheck) (used : UsedCodes) (u h until : ℕ)
      → used u h ≡ some until
      → all (λ c. ltb c.now until) cs ≡ true
      → run_checks used cs u h ≡ some until
  unfolding run_checks
  run-keeps [] used u h until held early = held
  run-keeps (c ∷ cs) used u h until held early =
      run-keeps cs (assert_valid_mfa_code f used c.now c.encrypted_secret c.code c.user_id).0 u h
        until (check-keeps used c u h until held (ground arith)) (ground arith)

  accepted-held :
      (used used' : UsedCodes) (now : ℕ) (secret : Option ℕ) (code : List ℕ) (user_id : ℕ)
      → assert_valid_mfa_code f used now secret code user_id ≡ (used', ok tt)
      → used' user_id (f.sha256_text code) ≡ some (now + 90_000)
  unfolding assert_valid_mfa_code
  accepted-held used used' now secret code user_id accepted = elim (Option-cases secret) [
    | inl unset ↦ ground arith
    | inr (encrypted, set) ↦ elim (Option-cases (f.decrypt encrypted user_id)) [
      | inl broken ↦ ground arith
      | inr (plain_secret, plain) ↦
          let stored : remember (forget_expired used now) user_id (f.sha256_text code)
                (now + 90_000) user_id (f.sha256_text code)
              ≡ some (now + 90_000) =
            ground arith in
          ground arith
    ]
  ]

  -- A code of the authenticator app that was accepted for a user is not accepted for that user again
  -- for 90 seconds, whatever other checks the replica makes in the meantime.
  pub mfa_code-once :
      (used used' : UsedCodes) (now later : ℕ) (secret secret' : Option ℕ) (code : List ℕ)
      (user_id : ℕ) (checks : List MfaCheck)
      → assert_valid_mfa_code f used now secret code user_id ≡ (used', ok tt)
      → all (λ c. ltb c.now (now + 90_000)) checks ≡ true
      → later < now + 90_000
      → (assert_valid_mfa_code f (run_checks used' checks) later secret' code user_id).1 ≢ ok tt
  unfolding assert_valid_mfa_code forget_expired
  mfa_code-once used used' now later secret secret' code user_id checks accepted early soon again =
      let first : used' user_id (f.sha256_text code) ≡ some (now + 90_000) =
        accepted-held used used' now secret code user_id accepted in
      let held = run-keeps checks used' user_id (f.sha256_text code) (now + 90_000) first early in
      elim (Option-cases secret') [
        | inl unset ↦ ground arith
        | inr (encrypted, set) ↦ elim (Option-cases (f.decrypt encrypted user_id)) [
          | inl broken ↦ ground arith
          | inr (plain_secret, plain) ↦ ground (arith, held)
        ]
      ]
