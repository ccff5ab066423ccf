-- ===== src/Auth/Model.antt =====
-- The rows of packages/db/prisma/schema.prisma that the token services of apps/api/src/auth read
-- and write, with the columns that they use. Ids, addresses and hashes are numbers, since the code
-- only compares them; times are milliseconds.
use godeye.Prelude.{ℕ, Bool, Option, ◌==◌, ◌&&◌, ◌||◌}
use godeye.Db.{Table}

pub record User : Type 0 where
  pub id : ℕ
  pub email : ℕ
  pub password_hash : ℕ
  pub mfa_enabled : Bool
  pub mfa_secret : Option ℕ

pub record RefreshToken : Type 0 where
  pub id : ℕ
  pub user_id : ℕ
  pub org_id : Option ℕ
  pub family_id : Option ℕ
  pub token_hash : ℕ
  pub expires_at : ℕ
  pub revoked_at : Option ℕ

pub record PasswordResetToken : Type 0 where
  pub id : ℕ
  pub user_id : ℕ
  pub token_hash : ℕ
  pub expires_at : ℕ
  pub used_at : Option ℕ

pub record MfaBackupCode : Type 0 where
  pub id : ℕ
  pub user_id : ℕ
  pub code_hash : ℕ
  pub used_at : Option ℕ

pub data OrgRole : Type 0 where
  viewer editor admin owner : OrgRole

pub record Membership : Type 0 where
  pub id : ℕ
  pub user_id : ℕ
  pub org_id : ℕ
  pub role : OrgRole
  pub session_version : ℕ

pub record Invitation : Type 0 where
  pub id : ℕ
  pub org_id : ℕ
  pub email : ℕ
  pub role : OrgRole
  pub token_hash : ℕ
  pub expires_at : ℕ
  pub accepted_at : Option ℕ
  pub revoked_at : Option ℕ

abbrev pub user_key : User → ℕ
user_key r = r.id

abbrev pub user_clash : User → User → Bool
user_clash r s = r.id == s.id || r.email == s.email

abbrev pub refresh_key : RefreshToken → ℕ
refresh_key r = r.id

abbrev pub refresh_clash : RefreshToken → RefreshToken → Bool
refresh_clash r s = r.id == s.id || r.token_hash == s.token_hash

abbrev pub reset_key : PasswordResetToken → ℕ
reset_key r = r.id

abbrev pub reset_clash : PasswordResetToken → PasswordResetToken → Bool
reset_clash r s = r.id == s.id || r.token_hash == s.token_hash

abbrev pub code_key : MfaBackupCode → ℕ
code_key r = r.id

abbrev pub code_clash : MfaBackupCode → MfaBackupCode → Bool
code_clash r s = r.id == s.id

abbrev pub member_key : Membership → ℕ
member_key r = r.id

abbrev pub member_clash : Membership → Membership → Bool
member_clash r s = r.id == s.id || r.user_id == s.user_id && r.org_id == s.org_id

abbrev pub invitation_key : Invitation → ℕ
invitation_key r = r.id

abbrev pub invitation_clash : Invitation → Invitation → Bool
invitation_clash r s = r.id == s.id || r.token_hash == s.token_hash

pub record Tables : Type 1 where
  pub users : Table User user_key user_clash
  pub refresh_tokens : Table RefreshToken refresh_key refresh_clash
  pub resets : Table PasswordResetToken reset_key reset_clash
  pub codes : Table MfaBackupCode code_key code_clash
  pub memberships : Table Membership member_key member_clash
  pub invitations : Table Invitation invitation_key invitation_clash

pub record Data (T : Tables) : Type 0 where
  pub users : T.users.Rows
  pub refresh_tokens : T.refresh_tokens.Rows
  pub resets : T.resets.Rows
  pub codes : T.codes.Rows
  pub memberships : T.memberships.Rows
  pub invitations : T.invitations.Rows

-- The exceptions of the modelled calls.
pub data Refusal : Type 0 where
  invalid_refresh_token no_organization record_not_found database_error : Refusal
