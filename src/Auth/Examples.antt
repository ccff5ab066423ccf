-- ===== src/Auth/Examples.antt =====
-- Concrete tables, on which the theorems about sign-in and its tokens are applied.
use godeye.Prelude.{
  ℕ, ◌+◌, ◌≡◌, refl, Bool, true, false, Option, none, some, List, [], ◌∷◌, arith, ok, err, ◌==◌,
  if◌then◌else◌,
}
use godeye.Db.ListTable.{list_table}
use godeye.Auth.Model.{
  OrgRole, Invitation, invitation_key, invitation_clash, User, RefreshToken, PasswordResetToken,
  MfaBackupCode, Membership, Tables, Data, user_key, user_clash, refresh_key, refresh_clash,
  reset_key, reset_clash, code_key, code_clash, member_key, member_clash, invalid_refresh_token,
}
use godeye.Auth.Backoff.{Store}
use godeye.Auth.Backoff.Bounds.{IsRecent}
use godeye.Auth.Refresh.{Random, Session, refresh, new_token}
use godeye.Auth.Refresh.Reuse.{IsDead, IsUnique}
use godeye.Auth.Refresh.Theft.{rotated_token-reuse}
use godeye.Auth.Reset.{claim}
use godeye.Auth.Reset.Once.{consumes, requests, run_resets, claim-once}
use godeye.Auth.Codes.{normalize_code, redeem, spend_code, spend, matched}
use godeye.Auth.Codes.Single.{redeem-single}

pub user-covers : (r s : User) → user_key r ≡ user_key s → user_clash r s ≡ true
user-covers r s h = ground arith

pub refresh-covers : (r s : RefreshToken) → refresh_key r ≡ refresh_key s → refresh_clash r s ≡ true
refresh-covers r s h = ground arith

pub reset-covers : (r s : PasswordResetToken) → reset_key r ≡ reset_key s → reset_clash r s ≡ true
reset-covers r s h = ground arith

pub code-covers : (r s : MfaBackupCode) → code_key r ≡ code_key s → code_clash r s ≡ true
code-covers r s h = ground arith

pub member-covers : (r s : Membership) → member_key r ≡ member_key s → member_clash r s ≡ true
member-covers r s h = ground arith

pub invitation-covers :
    (r s : Invitation) → invitation_key r ≡ invitation_key s → invitation_clash r s ≡ true
invitation-covers r s h = ground arith

abbrev pub auth_tables : Tables
auth_tables = record {
  users = list_table user_key user_clash user-covers;
  refresh_tokens = list_table refresh_key refresh_clash refresh-covers;
  resets = list_table reset_key reset_clash reset-covers;
  codes = list_table code_key code_clash code-covers;
  memberships = list_table member_key member_clash member-covers;
  invitations = list_table invitation_key invitation_clash invitation-covers;
}

-- In place of SHA-256.
abbrev digest : ℕ → ℕ
digest token = token + 1000

abbrev session_row : RefreshToken
session_row = record {
  id = 5;
  user_id = 1;
  org_id = some 8;
  family_id = some 77;
  token_hash = 1042;
  expires_at = 9000;
  revoked_at = none;
}

abbrev link : PasswordResetToken
link = record { id = 6; user_id = 1; token_hash = 1050; expires_at = 9000; used_at = none }

abbrev recovery : MfaBackupCode
recovery = record { id = 3; user_id = 1; code_hash = 4; used_at = none }

abbrev seat : Membership
seat = record { id = 2; user_id = 1; org_id = 8; role = OrgRole.editor; session_version = 0 }

abbrev accounts : Data auth_tables
unfolding list_table
accounts = record {
  users = (
    record { id = 1; email = 11; password_hash = 12; mfa_enabled = false; mfa_secret = none } ∷ [],
    (refl, tt),
  );
  refresh_tokens = (session_row ∷ [], (refl, tt));
  resets = (link ∷ [], (refl, tt));
  codes = (recovery ∷ [], (refl, tt));
  memberships = (seat ∷ [], (refl, tt));
  invitations = ([], tt);
}

abbrev randomness : ℕ → Random
randomness n = record { row_id = n; token = n + 100; family = n + 200 }

abbrev refreshed : Data auth_tables
refreshed = (refresh auth_tables digest accounts 100 (randomness 20) 42).0

abbrev next_session : Session
next_session = record { user_id = 1; org_id = 8; role = OrgRole.editor; refresh_token = 120 }

accounts-IsUnique : IsUnique auth_tables digest accounts.refresh_tokens
unfolding list_table
accounts-IsUnique j k r s ej ek same = ground arith

rotated_token-reuse_example :
    let reused = refresh auth_tables digest refreshed 200 (randomness 30) 42 in
    (reused.1 ≡ err invalid_refresh_token)
    × IsDead auth_tables digest reused.0 77
    × ((refresh auth_tables digest reused.0 300 (randomness 40) 120).1 ≡ err invalid_refresh_token)
unfolding list_table refresh new_token
rotated_token-reuse_example =
    rotated_token-reuse auth_tables digest accounts refreshed 100 200 300 (randomness 20)
      (randomness 30) (randomness 40) 42 77 session_row next_session accounts-IsUnique refl refl
      refl

claim-once_example :
    let d' =
      run_resets auth_tables digest
        (claim auth_tables digest accounts 10 link 13).0
        (requests 11 11 7 60 ∷ consumes 12 60 14 ∷ []) in
    let second = claim auth_tables digest d' 15 link 16 in
    (second.1 ≡ ok none)
    × (second.0.users ≡ d'.users)
    × (second.0.refresh_tokens ≡ d'.refresh_tokens)
claim-once_example =
    claim-once auth_tables digest accounts 10 15 link 13 16
      (requests 11 11 7 60 ∷ consumes 12 60 14 ∷ []) refl

-- In place of argon2: the text of one character is its own hash.
abbrev argon : ℕ → List ℕ → Option Bool
argon code_hash (c ∷ []) = some (code_hash == c)
argon code_hash text = none

abbrev upper_case : ℕ → List ℕ
upper_case c = c ∷ []

abbrev redeemed : Data auth_tables
redeemed = (redeem auth_tables argon upper_case accounts 10 1 (4 ∷ [])).0

redeem-single_example :
    (c : MfaBackupCode) × (auth_tables.codes.find_unique accounts.codes c.id ≡ some c)
    × (c.user_id ≡ 1)
    × (c.used_at ≡ none)
    × (argon c.code_hash (normalize_code upper_case (4 ∷ [])) ≡ some true)
    × (auth_tables.codes.find_unique redeemed.codes c.id ≡ some (spend 10 c))
    × ((k : ℕ)
        → k == c.id ≡ false
        → auth_tables.codes.find_unique redeemed.codes k
          ≡ auth_tables.codes.find_unique accounts.codes k)
    × ((later : ℕ) → (spend_code auth_tables argon upper_case redeemed later c.id).1 ≡ false)
unfolding list_table redeem normalize_code matched
redeem-single_example =
    redeem-single auth_tables argon upper_case accounts redeemed 10 1 (4 ∷ []) refl

abbrev counters : Store
counters k = if k == 1 then some (record { failures = 6; expires_at = 3600000 }) else none

counters-IsRecent : IsRecent counters 0
counters-IsRecent k c e = ground arith
