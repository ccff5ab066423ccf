-- ===== src/Members/Examples.antt =====
-- Concrete members, on which the theorems about them are applied.
use godeye.Prelude.{ℕ, ◌≡◌, refl, false, some, none, [], ◌∷◌}
use godeye.Db.ListTable.{list_table}
use godeye.Auth.Model.{OrgRole, Membership, Data}
use godeye.Auth.Examples.{auth_tables}
use godeye.Members.{Caller}
use godeye.Members.Owners.{changes_role, removes, run_members, owner_kept}

abbrev digest_of : ℕ → ℕ
digest_of token = token

abbrev founder : Membership
founder = record { id = 2; user_id = 1; org_id = 8; role = OrgRole.owner; session_version = 0 }

abbrev writer : Membership
writer = record { id = 3; user_id = 4; org_id = 8; role = OrgRole.editor; session_version = 0 }

abbrev team : Data auth_tables
unfolding list_table
team = record {
  users = (
    record { id = 1; email = 11; password_hash = 12; mfa_enabled = false; mfa_secret = none } ∷ [],
    (refl, tt),
  );
  refresh_tokens = ([], tt);
  resets = ([], tt);
  codes = ([], tt);
  memberships = (founder ∷ writer ∷ [], (refl, (refl, tt)));
  invitations = ([], tt);
}

abbrev chief : Caller
chief = record { user_id = 1; org_id = 8; role = OrgRole.owner }

abbrev scribe : Caller
scribe = record { user_id = 4; org_id = 8; role = OrgRole.editor }

owner_kept_example :
    auth_tables.memberships.find_unique
      (run_members auth_tables digest_of team
        ((5, scribe, removes 1) ∷ (6, chief, changes_role 4 OrgRole.admin) ∷ [])).memberships
      2
    ≡ some founder
unfolding list_table
owner_kept_example =
    owner_kept auth_tables digest_of
      ((5, scribe, removes 1) ∷ (6, chief, changes_role 4 OrgRole.admin) ∷ []) team 2 founder refl
      refl
