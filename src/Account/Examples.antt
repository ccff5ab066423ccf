-- ===== src/Account/Examples.antt =====
-- A concrete account, on which the theorems about signing in and about accounts are applied.
use godeye.Prelude.{
  List, ℕ, ◌≤◌, ◌≡◌, ◌≢◌, ◌⊎◌, refl, true, false, some, none, [], ◌∷◌, arith, err, ok, is_some,
  get_or, ◌==◌,
}
use godeye.Db.ListTable.{list_table}
use godeye.Auth.Model.{OrgRole, User, Membership, RefreshToken, Invitation, Data}
use godeye.Auth.Backoff.Bounds.{all_reached}
use godeye.Auth.Backoff.{Store, assert_not_backed_off, backoff_delay_seconds}
use godeye.Auth.Codes.{redeem, normalize_code, matched}
use godeye.Auth.Refresh.{Random, Session, new_token, create_session, first_membership}
use godeye.Auth.Login.{
  Factors, UsedCodes, forget_expired, assert_valid_mfa_code, Server, LoginInput, find_user,
  second_factor, check_factor, open_session, login,
}
use godeye.Auth.Login.Replay.{run_checks, mfa_code-once}
use godeye.Auth.Login.Sound.{IsShown, login_sound}
use godeye.Auth.Examples.{auth_tables}
use godeye.Guard.{
  MemberCache, LiveMembership, AccessToken, live_row, judge, session_ended, bump_all_sessions,
}
use godeye.Account.{
  JoinInput, invitation_invalid, valid_invitation, change_password, accept_invitation, joining_user,
  new_user, join, mark_accepted, hash_of,
}
use godeye.Account.Password.{change_password-ends}
use godeye.Account.Spent.{Join, run_joins}
use godeye.Account.Joining.{IsUniqueToken, accept_invitation-once}

-- In place of argon2, otplib, SHA-256 and the cipher: a password is its own hash, and the code of
-- the app is the secret.
abbrev pub toy : Factors
toy = record {
  sha256 = λ t. t;
  sha256_text = λ cs. elim cs [ [] ↦ 0 | c ∷ rest ↦ c ];
  hash_password = λ p. p;
  verify_password = λ h p. h == p;
  verify_code = λ h cs. some false;
  upper = λ c. c ∷ [];
  encrypt = λ s u. s;
  decrypt = λ e u. some e;
  keys_of = λ email ip. record { account = email; address = ip };
  verify_totp = λ now cs secret. elim cs [ [] ↦ false | c ∷ rest ↦ c == secret ];
}

abbrev ada : User
ada = record { id = 1; email = 11; password_hash = 12; mfa_enabled = true; mfa_secret = some 65 }

abbrev desk : Membership
desk = record { id = 2; user_id = 1; org_id = 8; role = OrgRole.admin; session_version = 0 }

abbrev letter : Invitation
letter = record {
  id = 5;
  org_id = 9;
  email = 30;
  role = OrgRole.editor;
  token_hash = 77;
  expires_at = 9000;
  accepted_at = none;
  revoked_at = none;
}

abbrev books : Data auth_tables
unfolding list_table
books = record {
  users = (ada ∷ [], (refl, tt));
  refresh_tokens = ([], tt);
  resets = ([], tt);
  codes = ([], tt);
  memberships = (desk ∷ [], (refl, tt));
  invitations = (letter ∷ [], (refl, tt));
}

abbrev no_codes : UsedCodes
no_codes u h = none

abbrev calm : Store
calm k = none

abbrev server : Server auth_tables
server = record { data_rows = books; backoff = calm; used_codes = no_codes }

abbrev chance : Random
chance = record { row_id = 40; token = 41; family = 42 }

abbrev once_used : UsedCodes
once_used = (assert_valid_mfa_code toy no_codes 10 (some 65) (65 ∷ []) 1).0

mfa_code-once_example :
    (assert_valid_mfa_code toy
      (run_checks toy once_used
        (record { now = 20; encrypted_secret = some 65; code = 66 ∷ []; user_id = 1 } ∷ []))
      60
      (some 65)
      (65 ∷ [])
      1).1
    ≢ ok tt
unfolding assert_valid_mfa_code forget_expired
mfa_code-once_example =
    mfa_code-once toy no_codes once_used 10 60 (some 65) (some 65) (65 ∷ []) 1
      (record { now = 20; encrypted_secret = some 65; code = 66 ∷ []; user_id = 1 } ∷ []) refl refl
      (omega arith)

abbrev good_login : LoginInput
good_login = record { email = 11; ip = 12; password = 12; mfa_code = some (65 ∷ []) }

abbrev signed_in : Server auth_tables
signed_in = (login auth_tables toy all_reached server 10 good_login chance).0

abbrev opened : Session
opened = record { user_id = 1; org_id = 8; role = OrgRole.admin; refresh_token = 41 }

login_sound_example :
    (assert_not_backed_off all_reached calm 10 (record { account = 11; address = 12 }) ≡ none)
    × (signed_in.backoff 11 ≡ none)
    × (user : User) × (find_user auth_tables toy books 11 ≡ some user)
    × (opened.user_id ≡ user.id)
    × (toy.verify_password user.password_hash 12 ≡ true)
    × (user.mfa_enabled ≡ true → IsShown auth_tables toy server 10 user (some (65 ∷ [])))
unfolding list_table login assert_not_backed_off backoff_delay_seconds find_user check_factor
    second_factor redeem normalize_code matched assert_valid_mfa_code forget_expired open_session
    first_membership create_session new_token
login_sound_example =
    login_sound auth_tables toy all_reached server signed_in 10 good_login chance opened refl

abbrev empty_cache : MemberCache
empty_cache u o = none

abbrev rekeyed : Data auth_tables × MemberCache
rekeyed = (change_password auth_tables toy books empty_cache 10 1 12 13 false none).0

change_password-ends_example :
    ((u : User) → auth_tables.users.find_unique rekeyed.0.users 1 ≡ some u → u.password_hash ≡ 13)
    × ((k : ℕ) (r : RefreshToken)
        → auth_tables.refresh_tokens.find_unique rekeyed.0.refresh_tokens k ≡ some r
        → r.user_id ≡ 1
        → (is_some r.revoked_at ≡ true) ⊎ (hash_of auth_tables toy none ≡ some r.token_hash))
    × ((auth : AccessToken) (required : OrgRole) (live : LiveMembership)
        → auth.sub ≡ 1
        → ((k : ℕ) (m : Membership)
            → auth_tables.memberships.find_unique books.memberships k ≡ some m
            → m.user_id ≡ 1
            → m.org_id ≡ auth.org_id
            → get_or auth.sv 0 ≤ m.session_version)
        → live_row auth_tables toy.sha256 rekeyed.0 auth.sub auth.org_id ≡ some live
        → judge required auth (some live) ≡ err session_ended)
unfolding list_table change_password bump_all_sessions
change_password-ends_example =
    change_password-ends auth_tables toy books rekeyed.0 empty_cache rekeyed.1 10 1 12 13 0 false
      none refl

abbrev reply : JoinInput
reply = record {
  token = 77;
  password = 50;
  has_name = true;
  mfa_code = none;
  weak = false;
  breached = false;
  new_user_id = 3;
  new_membership_id = 4;
}

abbrev joined : Server auth_tables
joined = (accept_invitation auth_tables toy server 10 reply chance).0

books-IsUniqueToken : IsUniqueToken auth_tables toy books.invitations
unfolding list_table
books-IsUniqueToken j k r s ej ek same = ground arith

abbrev retries : List Join
retries = record { now = 15; input = reply; random = chance } ∷ []

accept_invitation-once_example :
    ((i : Invitation) × (valid_invitation auth_tables toy books 10 77 ≡ ok i)
      × (9 ≡ i.org_id)
      × (OrgRole.editor ≡ i.role))
    × (accept_invitation auth_tables toy (run_joins auth_tables toy joined retries) 20 reply chance
        ≡ (run_joins auth_tables toy joined retries, err invitation_invalid))
unfolding list_table accept_invitation valid_invitation joining_user new_user join mark_accepted
    create_session new_token
accept_invitation-once_example =
    accept_invitation-once auth_tables toy server joined 10 20 reply reply chance chance
      (record { user_id = 3; org_id = 9; role = OrgRole.editor; refresh_token = 41 }) retries
      books-IsUniqueToken refl refl
