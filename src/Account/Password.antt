-- ===== src/Account/Password.antt =====
-- A password change ends every other session of the user.
use godeye.Prelude.{
  Option, ℕ, ◌≡◌, ◌≤◌, refl, Bool, true, ◌&&◌, ◌⊎◌, some, arith, ◌==◌, is_some, get_or,
  Option-cases, Bool-cases, inl, inr, ok, err,
}
use godeye.Auth.Model.{OrgRole, User, Membership, RefreshToken, Tables, Data}
use godeye.Auth.Refresh.{revoke}
use godeye.Auth.Reset.{with_password}
use godeye.Auth.Login.{Factors}
use godeye.Members.{find_member}
use godeye.Guard.{
  LiveMembership, MemberCache, AccessToken, session_ended, judge, live_row, bump_version,
  bump_all_sessions,
}
use godeye.Account.{hash_of, other_session, change_password}

module _ (T : Tables) (f : Factors) where
  open T use {users as Users, memberships as Memberships, refresh_tokens as Tokens}

  -- What a password change that succeeds did.
  record Rekeyed (d d' : Data T) (now user_id new_password : ℕ) (keep : Option ℕ) (n : ℕ)
      : Type 0 where
    users :
        d'.users
        ≡ Users.update_many
            (λ u. u.id == user_id)
            (with_password (f.hash_password new_password))
            (λ u. refl)
            d.users
    members :
        d'.memberships
        ≡ Memberships.update_many (λ m. m.user_id == user_id) bump_version (λ m. refl) d.memberships
    tokens :
        d'.refresh_tokens
        ≡ Tokens.update_many
            (other_session T f user_id (hash_of T f keep))
            (revoke now)
            (λ r. refl)
            d.refresh_tokens

  change_password-Rekeyed :
      (d d' : Data T) (c c' : MemberCache) (now user_id current new n : ℕ) (breached : Bool)
      (keep : Option ℕ)
      → change_password T f d c now user_id current new breached keep ≡ ((d', c'), ok n)
      → Rekeyed d d' now user_id new keep n
  unfolding change_password bump_all_sessions
  change_password-Rekeyed d d' c c' now user_id current new n breached keep e =
      elim (Option-cases (Users.find_unique d.users user_id)) [
        | inl nobody ↦ ground arith
        | inr (user, had) ↦ record {
          users = ground arith;
          members = ground arith;
          tokens = ground arith;
        }
      ]

  -- A password change that succeeds gives the user the new password, revokes every refresh token of
  -- the user but the one that is kept, and retires the access tokens: a token of the user that was
  -- minted before, with the version that its membership row had or an earlier one, is refused by the
  -- guard on the rows as they are now, in every workspace.
  pub change_password-ends :
      (d d' : Data T) (c c' : MemberCache) (now user_id current new n : ℕ) (breached : Bool)
      (keep : Option ℕ)
      → change_password T f d c now user_id current new breached keep ≡ ((d', c'), ok n)
      → ((u : User)
          → Users.find_unique d'.users user_id ≡ some u
          → u.password_hash ≡ f.hash_password new)
        × ((k : ℕ) (r : RefreshToken)
            → Tokens.find_unique d'.refresh_tokens k ≡ some r
            → r.user_id ≡ user_id
            → (is_some r.revoked_at ≡ true) ⊎ (hash_of T f keep ≡ some r.token_hash))
        × ((auth : AccessToken) (required : OrgRole) (live : LiveMembership)
            → auth.sub ≡ user_id
            → ((k : ℕ) (m : Membership)
                → Memberships.find_unique d.memberships k ≡ some m
                → m.user_id ≡ user_id
                → m.org_id ≡ auth.org_id
                → get_or auth.sv 0 ≤ m.session_version)
            → live_row T f.sha256 d' auth.sub auth.org_id ≡ some live
            → judge required auth (some live) ≡ err session_ended)
  unfolding live_row judge find_member
  change_password-ends d d' c c' now user_id current new n breached keep e =
      let done = change_password-Rekeyed d d' c c' now user_id current new n breached keep e in
      let renewed =
        Users.find_unique-update_many (λ u. u.id == user_id) (with_password (f.hash_password new))
          (λ u. refl) d.users user_id in
      let ended =
        Tokens.find_unique-update_many (other_session T f user_id (hash_of T f keep)) (revoke now)
          (λ r. refl) d.refresh_tokens in
      let bumped =
        Memberships.find_unique-update_many (λ m. m.user_id == user_id) bump_version (λ m. refl)
          d.memberships in
      (
        λ u got. elim (Option-cases (Users.find_unique d.users user_id)) [
          | inl gone ↦ ground (arith, done.users, renewed)
          | inr (u0, had) ↦
              ground (arith, done.users, renewed, Users.find_unique-key d.users user_id u0 had)
        ],
        λ k r got mine. elim (Option-cases (Tokens.find_unique d.refresh_tokens k)) [
          | inl gone ↦ ground (arith, done.tokens, ended k)
          | inr (r0, had) ↦ elim (Option-cases (hash_of T f keep)) [
            | inl none_kept ↦ inl (ground (arith, done.tokens, ended k))
            | inr (kept, is_it) ↦ elim (Bool-cases (r0.token_hash == kept)) [
              | inl spared ↦ inr (ground (arith, done.tokens, ended k))
              | inr other ↦ inl (ground (arith, done.tokens, ended k))
            ]
          ]
        ],
        λ auth required live mine minted row.
            elim (Option-cases (
              Memberships.find_first (λ m. m.user_id == auth.sub && m.org_id == auth.org_id)
                d'.memberships)) [
                  | inl nobody ↦ ground arith
                  | inr (m, found) ↦
                      let (hit, there) =
                        Memberships.find_first-sound
                          (λ m. m.user_id == auth.sub && m.org_id == auth.org_id) d'.memberships m
                          found in
                      elim (Option-cases (Memberships.find_unique d.memberships m.id)) [
                        | inl gone ↦ ground (arith, done.members, bumped m.id)
                        | inr (m0, had) ↦
                            ground (arith, done.members, bumped m.id, minted m.id m0 had)
                      ]
                ],
      )
