-- ===== src/Guard/Examples.antt =====
-- Concrete members and tokens, on which the theorems about the guard are applied.
use godeye.Prelude.{ℕ, ◌+◌, ◌≤◌, ◌<◌, ◌≡◌, refl, true, false, some, none, [], ◌∷◌, arith}
use godeye.Db.ListTable.{list_table}
use godeye.Auth.Model.{OrgRole, Membership, Data}
use godeye.Auth.Examples.{auth_tables}
use godeye.Members.{Caller, role_rank, find_member, change_role}
use godeye.Guard.{MemberCache, AccessToken, Route, live_row, current, judge, can_activate}
use godeye.Guard.Recent.{IsHonest, can_activate-recent}

abbrev plain : ℕ → ℕ
plain token = token

abbrev boss : Membership
boss = record { id = 2; user_id = 1; org_id = 8; role = OrgRole.owner; session_version = 0 }

abbrev helper : Membership
helper = record { id = 3; user_id = 4; org_id = 8; role = OrgRole.admin; session_version = 6 }

abbrev staff : Data auth_tables
unfolding list_table
staff = record {
  users = ([], tt);
  refresh_tokens = ([], tt);
  resets = ([], tt);
  codes = ([], tt);
  memberships = (boss ∷ helper ∷ [], (refl, (refl, tt)));
  invitations = ([], tt);
}

abbrev nothing_cached : MemberCache
nothing_cached u o = none

abbrev badge : AccessToken
badge = record { sub = 4; org_id = 8; role = some OrgRole.admin; sv = some 6 }

abbrev admin_route : Route
admin_route = record { is_http = true; is_public = false; min_role = some OrgRole.admin }

nothing-IsHonest : IsHonest auth_tables plain (λ t. staff) 20 nothing_cached 100
nothing-IsHonest = record { entry = λ u o e q. ground arith }

abbrev cached_after : MemberCache
cached_after =
    (can_activate auth_tables plain staff nothing_cached 100 115 admin_route (some badge)).0

can_activate-recent_example :
    IsHonest auth_tables plain (λ t. staff) 20 cached_after 115
    × ((t : ℕ) × (t ≤ 115)
        × (100 < t + 5000 + 20)
        × (live_row auth_tables plain staff 4 8
            ≡ some (record { role = OrgRole.admin; session_version = 6 }))
        × (role_rank OrgRole.admin ≤ role_rank OrgRole.admin))
unfolding list_table can_activate current live_row judge find_member
can_activate-recent_example =
    can_activate-recent auth_tables plain (λ t. staff) 20 nothing_cached cached_after 100 110 115
      admin_route badge OrgRole.admin OrgRole.admin nothing-IsHonest (omega arith) (omega arith)
      (omega arith) refl refl refl refl

abbrev director : Caller
director = record { user_id = 1; org_id = 8; role = OrgRole.owner }

abbrev demoted : Data auth_tables
demoted = (change_role auth_tables plain staff 50 director 4 OrgRole.viewer).0
