-- ===== src/Guard/Demotion.antt =====
-- What a role change does to the sessions that are already out: the members service, its cache
-- invalidation and the guard together.
use godeye.Prelude.{ℕ, ◌≡◌, refl, some, ◌==◌}
use godeye.Auth.Model.{OrgRole, Membership, Tables, Data}
use godeye.Auth.Refresh.{revoke}
use godeye.Members.{with_role, scoped_where}

module _ (T : Tables) (hash : ℕ → ℕ) where
  open T use {memberships as Memberships, refresh_tokens as Tokens}

  -- The unique index on user and workspace.
  abbrev pub IsOnePer : Memberships.Rows → Type 0
  IsOnePer rows =
      (j k : ℕ) (r s : Membership)
      → Memberships.find_unique rows j ≡ some r
      → Memberships.find_unique rows k ≡ some s
      → r.user_id ≡ s.user_id
      → r.org_id ≡ s.org_id
      → j ≡ k

  -- What a role change that succeeds did.
  record Changed (d d' : Data T) (now org_id target_id : ℕ) (role : OrgRole) (target : Membership)
      : Type 0 where
    members :
        d'.memberships
        ≡ Memberships.update_many
            (λ m. m.id == target.id)
            (with_role role)
            (λ m. refl)
            d.memberships
    tokens :
        d'.refresh_tokens
        ≡ Tokens.update_many
            (scoped_where T hash target_id org_id)
            (revoke now)
            (λ r. refl)
            d.refresh_tokens
