-- ===== src/Members.antt =====
-- apps/api/src/members/members.service.ts: roles, invitations and the removal of members, with the
-- ranks of apps/api/src/common/roles.guard.ts. The caller's role is the one of the request. Emails
-- and ids are numbers; audit rows, links and sockets are left out.
pub mod Owners
mod Examples
use godeye.Prelude.{
  ℕ, suc, ◌+◌, ◌*◌, refl, Bool, not, ◌&&◌, Option, none, some, ◌==◌, leb, ltb, if◌then◌else◌,
  is_some, Result, ok, err,
}
use godeye.Auth.Model.{OrgRole, User, Membership, RefreshToken, Invitation, Tables, Data}
use godeye.Auth.Refresh.{revoke, same_id}

abbrev pub role_rank : OrgRole → ℕ
role_rank OrgRole.owner = 4
role_rank OrgRole.admin = 3
role_rank OrgRole.editor = 2
role_rank OrgRole.viewer = 1

abbrev pub invite_ttl_days : ℕ
invite_ttl_days = 7

-- The caller of a request.
pub record Caller : Type 0 where
  pub user_id : ℕ
  pub org_id : ℕ
  pub role : OrgRole

pub data Refusal : Type 0 where
  own_role member_not_found outranked not_grantable owner_cannot_leave admins_only : Refusal
  seat_limit_reached already_a_member database_error invitation_not_found already_accepted : Refusal

-- The tests of `assertOutranks` and `assertGrantable`.
abbrev pub refuses : OrgRole → OrgRole → Bool
refuses caller role = leb (role_rank caller) (role_rank role)

abbrev pub with_role : OrgRole → Membership → Membership
with_role role m = record m { role = role; session_version = suc m.session_version }

abbrev pub retire : ℕ → Invitation → Invitation
retire now i = record i { revoked_at = some now }

-- The checks of `remove` on the member that it found.
unfoldable pub remove_refused : Caller → ℕ → Membership → Option Refusal
remove_refused caller target_id target =
    if target_id == caller.user_id
    then (if role_rank target.role == 4 then some owner_cannot_leave else none)
    else if ltb (role_rank caller.role) 3
    then some admins_only
    else if refuses caller.role target.role
    then some outranked
    else none

module _ (T : Tables) (hash : ℕ → ℕ) where
  open T use {
    users as Users, memberships as Memberships, refresh_tokens as Tokens,
    invitations as Invitations,
  }

  unfoldable pub find_member : Data T → ℕ → ℕ → Option Membership
  find_member d org_id user_id =
      Memberships.find_first (λ m. m.user_id == user_id && m.org_id == org_id) d.memberships

  -- `where: { userId, orgId, revokedAt: null }`
  abbrev pub scoped_where : ℕ → ℕ → RefreshToken → Bool
  scoped_where user_id org_id r =
      r.user_id == user_id && same_id r.org_id org_id && not (is_some r.revoked_at)

  unfoldable pub revoke_sessions : Data T → ℕ → ℕ → ℕ → Data T
  revoke_sessions d now user_id org_id = record d {
    refresh_tokens =
        Tokens.update_many (scoped_where user_id org_id) (revoke now) (λ r. refl) d.refresh_tokens;
  }

  unfoldable pub change_role :
      Data T → ℕ → Caller → ℕ → OrgRole → Data T × Result Refusal (Unit {0})
  unfolding find_member revoke_sessions
  change_role d now caller target_id role =
      if target_id == caller.user_id
      then (d, err own_role)
      else elim (find_member d caller.org_id target_id) [
        | none ↦ (d, err member_not_found)
        | some target ↦
            if refuses caller.role target.role
            then (d, err outranked)
            else if refuses caller.role role
            then (d, err not_grantable)
            else (
              revoke_sessions
                  (record d {
                    memberships =
                        Memberships.update_many (λ m. m.id == target.id) (with_role role)
                          (λ m. refl) d.memberships;
                  })
                  now target_id caller.org_id,
              ok tt,
            )
      ]

  unfoldable pub remove : Data T → ℕ → Caller → ℕ → Data T × Result Refusal (Unit {0})
  unfolding find_member remove_refused revoke_sessions
  remove d now caller target_id = elim (find_member d caller.org_id target_id) [
    | none ↦ (d, err member_not_found)
    | some target ↦ elim (remove_refused caller target_id target) [
      | some refusal ↦ (d, err refusal)
      | none ↦ (
        revoke_sessions
            (record d {
              memberships = Memberships.delete_many (λ m. m.id == target.id) d.memberships;
            })
            now target_id caller.org_id,
        ok tt,
      )
    ]
  ]

  -- `where: { orgId, email, acceptedAt: null, revokedAt: null }`
  abbrev pub pending_where : ℕ → ℕ → Invitation → Bool
  pending_where org_id email i =
      i.org_id == org_id
      && i.email == email
      && not (is_some i.accepted_at)
      && not (is_some i.revoked_at)

  unfoldable pub new_invitation : ℕ → ℕ → ℕ → OrgRole → ℕ → ℕ → Invitation
  new_invitation now org_id email role row_id token = record {
    id = row_id;
    org_id = org_id;
    email = email;
    role = role;
    token_hash = hash token;
    expires_at = now + invite_ttl_days * 24 * 3600 * 1000;
    accepted_at = none;
    revoked_at = none;
  }

  -- Whether the address belongs to a member of the workspace.
  unfoldable pub is_member : Data T → ℕ → ℕ → Bool
  unfolding find_member
  is_member d org_id email = elim (Users.find_first (λ u. u.email == email) d.users) [
    | none ↦ Bool.false
    | some user ↦ is_some (find_member d org_id user.id)
  ]

  -- `within` is what `billing.assertWithinLimit` answers for one more seat; `row_id` and `token` are
  -- the random values of the new row.
  unfoldable pub invite :
      Data T → ℕ → Caller → Bool → ℕ → OrgRole → ℕ → ℕ → Data T × Result Refusal (Unit {0})
  unfolding is_member new_invitation
  invite d now caller within email role row_id token =
      if refuses caller.role role
      then (d, err not_grantable)
      else if not within
      then (d, err seat_limit_reached)
      else if is_member d caller.org_id email
      then (d, err already_a_member)
      else elim (Invitations.create (new_invitation now caller.org_id email role row_id token) (
          Invitations.update_many (pending_where caller.org_id email) (retire now) (λ i. refl)
            d.invitations)) [
              | none ↦ (d, err database_error)
              | some rows ↦ (record d { invitations = rows }, ok tt)
            ]

  unfoldable pub revoke_invitation : Data T → ℕ → Caller → ℕ → Data T × Result Refusal (Unit {0})
  revoke_invitation d now caller id =
      elim (Invitations.find_first (λ i. i.id == id && i.org_id == caller.org_id) d.invitations) [
        | none ↦ (d, err invitation_not_found)
        | some invitation ↦ if is_some invitation.accepted_at then (d, err already_accepted) else (
          record d {
            invitations =
                Invitations.update_many (λ i. i.id == id) (retire now) (λ i. refl) d.invitations;
          },
          ok tt,
        )
      ]
