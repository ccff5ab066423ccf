-- ===== src/Auth/Refresh.antt =====
-- apps/api/src/auth/auth.service.ts: sessions, their refresh tokens, and the rotation of these.
-- `hash` is SHA-256 (apps/api/src/common/crypto.service.ts, Node's own). `findFirst` on the
-- memberships of a user stands for the first of the list ordered by `createdAt`.
pub mod Reuse
pub mod Theft
use godeye.Prelude.{
  ℕ, ◌+◌, ◌*◌, ◌≡◌, refl, Bool, true, false, not, ◌&&◌, Option, none, some, ◌==◌, ltb,
  if◌then◌else◌, is_some, get_or, Result, ok, err,
}
use godeye.Auth.Model.{
  OrgRole, RefreshToken, Membership, Tables, Data, Refusal, invalid_refresh_token, no_organization,
  database_error,
}

abbrev pub refresh_token_ttl : ℕ
refresh_token_ttl = 30 * 24 * 3600 * 1000

-- The random values of a new session: the id of its row, the token, and a family for a first one.
pub record Random : Type 0 where
  pub row_id : ℕ
  pub token : ℕ
  pub family : ℕ

-- What the access token of a session says, and the refresh token beside it.
pub record Session : Type 0 where
  pub user_id : ℕ
  pub org_id : ℕ
  pub role : OrgRole
  pub refresh_token : ℕ

abbrev pub revoke : ℕ → RefreshToken → RefreshToken
revoke now r = record r { revoked_at = some now }

abbrev pub same_id : Option ℕ → ℕ → Bool
same_id none k = false
same_id (some j) k = j == k

module _ (T : Tables) (hash : ℕ → ℕ) where
  open T use {refresh_tokens as Tokens, memberships as Memberships}

  unfoldable pub new_token : ℕ → ℕ → ℕ → Option ℕ → Random → RefreshToken
  new_token now user_id org_id family random = record {
    id = random.row_id;
    user_id = user_id;
    org_id = some org_id;
    family_id = some (get_or family random.family);
    token_hash = hash random.token;
    expires_at = now + refresh_token_ttl;
    revoked_at = none;
  }

  unfoldable pub create_session :
      Data T → ℕ → Membership → Option ℕ → Random → Data T × Result Refusal Session
  create_session d now m family random =
      elim (Tokens.create (new_token now m.user_id m.org_id family random) d.refresh_tokens) [
        | none ↦ (d, err database_error)
        | some rows ↦ (
          record d { refresh_tokens = rows },
          ok (record {
            user_id = m.user_id;
            org_id = m.org_id;
            role = m.role;
            refresh_token = random.token;
          }),
        )
      ]

  abbrev pub with_hash : ℕ → RefreshToken → Bool
  with_hash token r = r.token_hash == hash token

  -- `where: { familyId, revokedAt: null }`
  abbrev pub family_where : ℕ → RefreshToken → Bool
  family_where family r = same_id r.family_id family && not (is_some r.revoked_at)

  unfoldable pub revoke_family : Data T → ℕ → Option ℕ → Data T
  revoke_family d now none = d
  revoke_family d now (some family) = record d {
    refresh_tokens =
        Tokens.update_many (family_where family) (revoke now) (λ r. refl) d.refresh_tokens;
  }

  abbrev pub member_of : ℕ → ℕ → Membership → Bool
  member_of user_id org_id m = m.user_id == user_id && m.org_id == org_id

  unfoldable pub first_membership : Data T → ℕ → Option Membership
  first_membership d user_id = Memberships.find_first (λ m. m.user_id == user_id) d.memberships

  -- The workspace of the session, or else the first one of the user.
  unfoldable pub workspace_of : Data T → RefreshToken → Option Membership
  unfolding first_membership
  workspace_of d stored = elim stored.org_id [
    | none ↦ first_membership d stored.user_id
    | some org ↦ elim (Memberships.find_first (member_of stored.user_id org) d.memberships) [
      | none ↦ first_membership d stored.user_id
      | some m ↦ some m
    ]
  ]

  unfoldable pub revoke_one : Data T → ℕ → ℕ → Data T
  revoke_one d now id = record d {
    refresh_tokens = Tokens.update_many (λ r. r.id == id) (revoke now) (λ r. refl) d.refresh_tokens;
  }

  unfoldable pub refresh : Data T → ℕ → Random → ℕ → Data T × Result Refusal Session
  unfolding revoke_family workspace_of revoke_one create_session
  refresh d now random token = elim (Tokens.find_first (with_hash token) d.refresh_tokens) [
    | none ↦ (d, err invalid_refresh_token)
    | some stored ↦
        if is_some stored.revoked_at
        then (revoke_family d now stored.family_id, err invalid_refresh_token)
        else if ltb stored.expires_at now
        then (d, err invalid_refresh_token)
        else let d' = revoke_one d now stored.id in
          elim (workspace_of d' stored) [
            | none ↦ (d', err no_organization)
            | some m ↦ create_session d' now m stored.family_id random
          ]
  ]

  -- The token is absent where the request carries none.
  unfoldable pub logout : Data T → ℕ → Option ℕ → Data T
  logout d now none = d
  logout d now (some token) = record d {
    refresh_tokens =
        Tokens.update_many (λ r. with_hash token r && not (is_some r.revoked_at)) (revoke now)
          (λ r. refl) d.refresh_tokens;
  }

  unfoldable pub switch_org : Data T → ℕ → ℕ → ℕ → Random → Data T × Result Refusal Session
  unfolding create_session
  switch_org d now user_id org_id random =
      elim (Memberships.find_first (member_of user_id org_id) d.memberships) [
        | none ↦ (d, err no_organization)
        | some m ↦ create_session d now m none random
      ]
