-- ===== src/Auth/Reset.antt =====
-- apps/api/src/auth/password-reset.service.ts. `hash` is SHA-256 (Node's own); addresses are
-- normalised numbers, and the emails that are sent are left out.
pub mod Once
use godeye.Prelude.{
  ℕ, ◌+◌, ◌*◌, refl, Bool, true, false, not, ◌&&◌, ◌||◌, Option, none, some, ◌==◌, ltb,
  if◌then◌else◌, is_some, Result, ok, err,
}
use godeye.Auth.Model.{
  User, RefreshToken, PasswordResetToken, Tables, Data, Refusal, record_not_found, database_error,
}
use godeye.Auth.Refresh.{revoke}

abbrev pub ttl_minutes : ℕ
ttl_minutes = 30

abbrev pub mark_used : ℕ → PasswordResetToken → PasswordResetToken
mark_used now r = record r { used_at = some now }

abbrev pub with_password : ℕ → User → User
with_password password_hash u = record u { password_hash = password_hash }

module _ (T : Tables) (hash : ℕ → ℕ) where
  open T use {users as Users, refresh_tokens as Tokens, resets as Resets}

  unfoldable pub new_reset : ℕ → ℕ → ℕ → ℕ → PasswordResetToken
  new_reset now user_id row_id token = record {
    id = row_id;
    user_id = user_id;
    token_hash = hash token;
    expires_at = now + ttl_minutes * 60000;
    used_at = none;
  }

  -- `where: { userId, usedAt: null }`
  abbrev pub outstanding_where : ℕ → PasswordResetToken → Bool
  outstanding_where user_id r = r.user_id == user_id && not (is_some r.used_at)

  -- `row_id` and `token` are the random values of the new row.
  unfoldable pub request : Data T → ℕ → ℕ → ℕ → ℕ → Data T × Result Refusal (Unit {0})
  unfolding new_reset
  request d now address row_id token = elim (Users.find_first (λ u. u.email == address) d.users) [
    | none ↦ (d, ok tt)
    | some user ↦
        let d' : Data T = record d {
          resets =
              Resets.update_many (outstanding_where user.id) (mark_used now) (λ r. refl) d.resets;
        } in
        elim (Resets.create (new_reset now user.id row_id token) d'.resets) [
          | none ↦ (d', err database_error)
          | some resets ↦ (record d' { resets = resets }, ok tt)
        ]
  ]

  -- `where: { id, usedAt: null }`
  abbrev pub unused_where : ℕ → PasswordResetToken → Bool
  unused_where id r = r.id == id && not (is_some r.used_at)

  -- `where: { userId, revokedAt: null }`
  abbrev pub session_where : ℕ → RefreshToken → Bool
  session_where user_id r = r.user_id == user_id && not (is_some r.revoked_at)

  -- `consume` from its conditional update on, for the row that it read before.
  unfoldable pub claim : Data T → ℕ → PasswordResetToken → ℕ → Data T × Result Refusal (Option ℕ)
  claim d now reset new_password_hash =
      let d1 : Data T = record d {
        resets = Resets.update_many (unused_where reset.id) (mark_used now) (λ r. refl) d.resets;
      } in
      if not (Resets.count (unused_where reset.id) d.resets == 1)
      then (d1, ok none)
      else elim (Users.find_unique d.users reset.user_id) [
        | none ↦ (d1, err record_not_found)
        | some user ↦ (
          record d1 {
            users =
                Users.update_many (λ u. u.id == reset.user_id) (with_password new_password_hash)
                  (λ u. refl) d.users;
            refresh_tokens =
                Tokens.update_many (session_where user.id) (revoke now) (λ r. refl)
                  d.refresh_tokens;
          },
          ok (some user.id),
        )
      ]

  unfoldable pub find_reset : Data T → ℕ → Option PasswordResetToken
  find_reset d token = Resets.find_first (λ r. r.token_hash == hash token) d.resets

  unfoldable pub consume : Data T → ℕ → ℕ → ℕ → Data T × Result Refusal (Option ℕ)
  unfolding find_reset
  consume d now token new_password_hash = elim (find_reset d token) [
    | none ↦ (d, ok none)
    | some reset ↦
        if is_some reset.used_at || ltb reset.expires_at now
        then (d, ok none)
        else claim d now reset new_password_hash
  ]

  unfoldable pub purge_expired : Data T → ℕ → Data T
  purge_expired d before = record d {
    resets = Resets.delete_many (λ r. ltb r.expires_at before) d.resets;
  }
