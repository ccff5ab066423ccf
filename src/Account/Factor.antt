-- ===== src/Account/Factor.antt =====
-- apps/api/src/auth/auth.service.ts: switching the second factor on and off, and new recovery codes.
use godeye.Prelude.{ℕ, refl, true, false, not, none, some, List, if◌then◌else◌, Result, ok, err}
use godeye.Auth.Model.{User, Tables, Data}
use godeye.Auth.Codes.{regenerate, revoke_all}
use godeye.Auth.Login.{Factors, Server, assert_valid_mfa_code}
use godeye.Guard.{MemberCache, bump_all_sessions}
use godeye.Account.{
  AccountRefusal, user_not_found, wrong_password, mfa_already_enabled, mfa_not_enabled,
  write_failed, factor_refused, update_user,
}

abbrev pub with_secret : ℕ → User → User
with_secret secret u = record u { mfa_secret = some secret }

abbrev pub with_mfa_on : User → User
with_mfa_on u = record u { mfa_enabled = true }

abbrev pub with_mfa_off : User → User
with_mfa_off u = record u { mfa_enabled = false; mfa_secret = none }

module _ (T : Tables) (f : Factors) where
  open T use {users as Users}

  -- `secret` is the fresh secret.
  unfoldable pub setup_mfa : Data T → ℕ → ℕ → Data T × Result AccountRefusal (Unit {0})
  setup_mfa d user_id secret = elim (Users.find_unique d.users user_id) [
    | none ↦ (d, err user_not_found)
    | some user ↦
        if user.mfa_enabled
        then (d, err mfa_already_enabled)
        else (update_user T f d user_id (with_secret (f.encrypt secret user_id)) (λ u. refl), ok tt)
  ]

  -- `fresh` has the ids and the hashes of the recovery codes that are issued.
  unfoldable pub enable_mfa :
      Server T
      → MemberCache
      → ℕ
      → ℕ
      → List ℕ
      → List (ℕ × ℕ)
      → (Server T × MemberCache) × Result AccountRefusal (Unit {0})
  enable_mfa s c now user_id code fresh = elim (Users.find_unique s.data_rows.users user_id) [
    | none ↦ ((s, c), err user_not_found)
    | some user ↦
        let (used, shown) = assert_valid_mfa_code f s.used_codes now user.mfa_secret code user_id in
        let s1 : Server T = record s { used_codes = used } in
        elim shown [
          | err e ↦ ((s1, c), err (factor_refused e))
          | ok done ↦
              let d = update_user T f s.data_rows user_id with_mfa_on (λ u. refl) in
              elim (regenerate T f.verify_code f.upper d user_id fresh) [
                | none ↦ ((record s1 { data_rows = d }, c), err write_failed)
                | some d' ↦
                    let (d2, c2) = bump_all_sessions T f.sha256 d' c user_id in
                    ((record s1 { data_rows = d2 }, c2), ok tt)
              ]
        ]
  ]

  unfoldable pub regenerate_backup_codes :
      Data T → ℕ → ℕ → List (ℕ × ℕ) → Data T × Result AccountRefusal (Unit {0})
  regenerate_backup_codes d user_id password fresh = elim (Users.find_unique d.users user_id) [
    | none ↦ (d, err user_not_found)
    | some user ↦
        if not user.mfa_enabled
        then (d, err mfa_not_enabled)
        else if not (f.verify_password user.password_hash password)
        then (d, err wrong_password)
        else elim (regenerate T f.verify_code f.upper d user_id fresh) [
          | none ↦ (d, err write_failed)
          | some d' ↦ (d', ok tt)
        ]
  ]

  unfoldable pub disable_mfa :
      Server T
      → MemberCache
      → ℕ
      → ℕ
      → ℕ
      → List ℕ
      → (Server T × MemberCache) × Result AccountRefusal (Unit {0})
  disable_mfa s c now user_id password code = elim (Users.find_unique s.data_rows.users user_id) [
    | none ↦ ((s, c), err user_not_found)
    | some user ↦
        if not user.mfa_enabled
        then ((s, c), err mfa_not_enabled)
        else if not (f.verify_password user.password_hash password)
        then ((s, c), err wrong_password)
        else let (used, shown) =
            assert_valid_mfa_code f s.used_codes now user.mfa_secret code user_id in
          let s1 : Server T = record s { used_codes = used } in
          elim shown [
            | err e ↦ ((s1, c), err (factor_refused e))
            | ok done ↦
                let d = update_user T f s.data_rows user_id with_mfa_off (λ u. refl) in
                let d' = revoke_all T f.verify_code f.upper d user_id in
                let (d2, c2) = bump_all_sessions T f.sha256 d' c user_id in
                ((record s1 { data_rows = d2 }, c2), ok tt)
          ]
  ]
