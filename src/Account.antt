-- ===== src/Account.antt =====
-- apps/api/src/auth/auth.service.ts: the account of a user. Changing the password or the address,
-- joining a workspace; Factor switches the second factor on and off. Profiles, audit rows and emails
-- are left out; `breached` and `weak` are the answers of the breached-password service and of the
-- password schema.
pub mod Password
pub mod Spent
pub mod Joining
pub mod Factor
pub mod Examples
use godeye.Prelude.{
  ℕ, ◌≡◌, refl, Bool, true, false, not, ◌&&◌, ◌||◌, Option, none, some, List, ◌==◌, ltb,
  if◌then◌else◌, is_some, Result, ok, err,
}
use godeye.Auth.Model.{OrgRole, User, Membership, RefreshToken, Invitation, Tables, Data, Refusal}
use godeye.Auth.Codes.{regenerate, revoke_all}
use godeye.Auth.Refresh.{Random, Session, revoke, create_session}
use godeye.Auth.Login.{
  Factors, LoginRefusal, Server, UsedCodes, assert_valid_mfa_code, mfa_required,
}
use godeye.Auth.Reset.{with_password}
use godeye.Members.{find_member}
use godeye.Guard.{MemberCache, bump_all_sessions}

pub data AccountRefusal : Type 0 where
  user_not_found wrong_password password_breached password_too_weak email_in_use : AccountRefusal
  invitation_invalid invitation_expired already_joined name_required : AccountRefusal
  mfa_already_enabled mfa_not_enabled write_failed : AccountRefusal
  factor_refused : LoginRefusal → AccountRefusal
  session_refused : Refusal → AccountRefusal

abbrev pub with_email : ℕ → User → User
with_email email u = record u { email = email }

abbrev pub accept : ℕ → Invitation → Invitation
accept now i = record i { accepted_at = some now }

-- `...(keepHash ? { tokenHash: { not: keepHash } } : {})`
abbrev pub is_kept : Option ℕ → ℕ → Bool
is_kept none h = false
is_kept (some kept) h = h == kept

pub record JoinInput : Type 0 where
  pub token : ℕ
  pub password : ℕ
  pub has_name : Bool
  pub mfa_code : Option (List ℕ)
  pub weak : Bool
  pub breached : Bool
  -- the ids that the database gives the rows
  pub new_user_id : ℕ
  pub new_membership_id : ℕ

module _ (T : Tables) (f : Factors) where
  open T use {
    users as Users, memberships as Memberships, refresh_tokens as Tokens,
    invitations as Invitations,
  }

  -- `where: { userId, revokedAt: null, tokenHash: { not } }`
  abbrev pub other_session : ℕ → Option ℕ → RefreshToken → Bool
  other_session user_id kept r =
      r.user_id == user_id && not (is_some r.revoked_at) && not (is_kept kept r.token_hash)

  abbrev pub update_user : Data T → ℕ → (g : User → User) → ((u : User) → (g u).id ≡ u.id) → Data T
  update_user d id g keeps = record d {
    users = Users.update_many (λ u. u.id == id) g keeps d.users;
  }

  abbrev pub hash_of : Option ℕ → Option ℕ
  hash_of none = none
  hash_of (some token) = some (f.sha256 token)

  -- The result is the number of sessions that ended.
  unfoldable pub change_password :
      Data T
      → MemberCache
      → ℕ
      → ℕ
      → ℕ
      → ℕ
      → Bool
      → Option ℕ
      → (Data T × MemberCache) × Result AccountRefusal ℕ
  change_password d c now user_id current_password new_password breached keep_token =
      elim (Users.find_unique d.users user_id) [
        | none ↦ ((d, c), err user_not_found)
        | some user ↦
            if not (f.verify_password user.password_hash current_password)
            then ((d, c), err wrong_password)
            else if breached
            then ((d, c), err password_breached)
            else let (d1, c1) = bump_all_sessions T f.sha256 d c user_id in
              let others = other_session user_id (hash_of keep_token) in
              let d2 =
                update_user d1 user_id (with_password (f.hash_password new_password)) (λ u. refl) in
              (
                (
                  record d2 {
                    refresh_tokens =
                        Tokens.update_many others (revoke now) (λ r. refl) d2.refresh_tokens;
                  },
                  c1,
                ),
                ok (Tokens.count others d1.refresh_tokens),
              )
      ]

  unfoldable pub change_email : Data T → ℕ → ℕ → ℕ → Data T × Result AccountRefusal (Unit {0})
  change_email d user_id password email = elim (Users.find_unique d.users user_id) [
    | none ↦ (d, err user_not_found)
    | some user ↦
        if not (f.verify_password user.password_hash password)
        then (d, err wrong_password)
        else if email == user.email
        then (d, ok tt)
        else if is_some (Users.find_first (λ u. u.email == email) d.users)
        then (d, err email_in_use)
        else (update_user d user_id (with_email email) (λ u. refl), ok tt)
  ]

  unfoldable pub valid_invitation : Data T → ℕ → ℕ → Result AccountRefusal Invitation
  valid_invitation d now token =
      elim (Invitations.find_first (λ i. i.token_hash == f.sha256 token) d.invitations) [
        | none ↦ err invitation_invalid
        | some i ↦
            if is_some i.revoked_at || is_some i.accepted_at
            then err invitation_invalid
            else if ltb i.expires_at now
            then err invitation_expired
            else ok i
      ]

  unfoldable pub mark_accepted : Data T → ℕ → ℕ → Data T
  mark_accepted d now id = record d {
    invitations = Invitations.update_many (λ i. i.id == id) (accept now) (λ i. refl) d.invitations;
  }

  abbrev pub invited : Invitation → ℕ → ℕ → Membership
  invited i user_id id = record {
    id = id;
    user_id = user_id;
    org_id = i.org_id;
    role = i.role;
    session_version = 0;
  }

  -- The second factor of an account that exists; here no recovery code is tried.
  unfoldable pub join_factor :
      UsedCodes → ℕ → User → Option (List ℕ) → UsedCodes × Result LoginRefusal (Unit {0})
  join_factor used now user none = (used, if user.mfa_enabled then err mfa_required else ok tt)
  join_factor used now user (some code) =
      if user.mfa_enabled
      then assert_valid_mfa_code f used now user.mfa_secret code user.id
      else (used, ok tt)

  -- An account that exists shows its password and its second factor.
  unfoldable pub known_user :
      Server T → ℕ → Invitation → JoinInput → User → Server T × Result AccountRefusal ℕ
  known_user s now i input user =
      if not (f.verify_password user.password_hash input.password)
      then (s, err wrong_password)
      else let (used, shown) = join_factor s.used_codes now user input.mfa_code in
        let s' : Server T = record s { used_codes = used } in
        elim shown [
          | err e ↦ (s', err (factor_refused e))
          | ok done ↦
              if is_some (find_member T f.sha256 s.data_rows i.org_id user.id)
              then (
                record s' { data_rows = mark_accepted s.data_rows now i.id },
                err already_joined,
              )
              else (s', ok user.id)
        ]

  -- A new account for the invited address.
  unfoldable pub new_user : Server T → Invitation → JoinInput → Server T × Result AccountRefusal ℕ
  new_user s i input =
      if not input.has_name
      then (s, err name_required)
      else if input.weak
      then (s, err password_too_weak)
      else if input.breached
      then (s, err password_breached)
      else elim (Users.create
          (record {
            id = input.new_user_id;
            email = i.email;
            password_hash = f.hash_password input.password;
            mfa_enabled = false;
            mfa_secret = none;
          })
          s.data_rows.users) [
            | none ↦ (s, err write_failed)
            | some users ↦ (
              record s { data_rows = record s.data_rows { users = users } },
              ok input.new_user_id,
            )
          ]

  unfoldable pub joining_user :
      Server T → ℕ → Invitation → JoinInput → Server T × Result AccountRefusal ℕ
  joining_user s now i input = elim (Users.find_first (λ u. u.email == i.email) s.data_rows.users) [
    | some u ↦ known_user s now i input u
    | none ↦ new_user s i input
  ]

  -- The transaction of the membership and the invitation, and the session after it.
  unfoldable pub join :
      Server T → ℕ → Invitation → JoinInput → ℕ → Random → Server T × Result AccountRefusal Session
  join s now i input user_id random =
      let m = invited i user_id input.new_membership_id in
      elim (Memberships.create m s.data_rows.memberships) [
        | none ↦ (s, err write_failed)
        | some rows ↦
            let d = mark_accepted (record s.data_rows { memberships = rows }) now i.id in
            let (d', session) = create_session T f.sha256 d now m none random in
            let s' : Server T = record s { data_rows = d' } in
            elim session [ ok opened ↦ (s', ok opened) | err e ↦ (s', err (session_refused e)) ]
      ]

  unfoldable pub accept_invitation :
      Server T → ℕ → JoinInput → Random → Server T × Result AccountRefusal Session
  accept_invitation s now input random = elim (valid_invitation s.data_rows now input.token) [
    | err e ↦ (s, err e)
    | ok i ↦
        let (s', user) = joining_user s now i input in
        elim user [ err e ↦ (s', err e) | ok user_id ↦ join s' now i input user_id random ]
  ]
