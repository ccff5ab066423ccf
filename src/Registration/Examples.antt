-- ===== src/Registration/Examples.antt =====
-- A concrete registration, on which the theorem about it is applied.
use text.Mathlib.Text.{◌==◌ as str_eq}
use godeye.Prelude.{ℕ, ◌+◌, ◌≡◌, refl, true, false, not, ◌&&◌, none, some, [], leb, ◌==◌}
use godeye.Db.ListTable.{list_table}
use godeye.Auth.Model.{OrgRole}
use godeye.Auth.Refresh.{Random, Session, create_session, new_token}
use godeye.Auth.Examples.{auth_tables}
use godeye.Account.Examples.{toy}
use godeye.Billing.Model.{Organization, is_exempt}
use godeye.Billing.Access.{cache_clear, decide, org_view}
use godeye.Billing.Access.Sweep.{plan_by_code}
use godeye.Billing.Examples.{tables, fresh, pro}
use godeye.Registration.{
  RegisterInput, NewRows, Registry, unique_slug, try_slug, create_account, register,
}
use godeye.Registration.Trial.{register_opens}

abbrev registry : Registry auth_tables tables toy
unfolding list_table
registry = record {
  accounts = record {
    users = ([], tt);
    refresh_tokens = ([], tt);
    resets = ([], tt);
    codes = ([], tt);
    memberships = ([], tt);
    invitations = ([], tt);
  };
  billing = fresh;
  cache = cache_clear;
}

-- The first slug is taken.
abbrev form : RegisterInput
form = record {
  email = 11;
  password = 12;
  is_business = true;
  has_organization_name = true;
  slug_base = "acme";
}

abbrev rows : NewRows
rows = record { user_id = 3; membership_id = 4; org_id = 2; slug_end = λ i. "3fa" }

abbrev drawn : Random
drawn = record { row_id = 9; token = 42; family = 43 }

abbrev opened : Session
opened = record { user_id = 3; org_id = 2; role = OrgRole.owner; refresh_token = 42 }

register_opens_example :
    (o : Organization) × (tables.orgs.find_unique
        (register auth_tables tables toy registry 100 form false rows drawn).0.billing.orgs
        opened.org_id
      ≡ some o)
    × (auth_tables.users.find_first (λ u. u.email == 11) registry.accounts.users ≡ none)
    × (opened.user_id ≡ rows.user_id)
    × (opened.org_id ≡ rows.org_id)
    × (opened.role ≡ OrgRole.owner)
    × ((k : ℕ) (other : Organization)
        → tables.orgs.find_unique registry.billing.orgs k ≡ some other
        → str_eq o.slug other.slug ≡ false)
    × ((t : ℕ)
        → (decide t (
            org_view tables
              (register auth_tables tables toy registry 100 form false rows drawn).0.billing
              opened.org_id)).locked
          ≡ (not (is_exempt o.slug) && leb (100 + 86_400_000) t))
unfolding list_table register create_account unique_slug try_slug create_session new_token
    plan_by_code
register_opens_example =
    register_opens auth_tables tables toy registry
      (register auth_tables tables toy registry 100 form false rows drawn).0 100 form false rows
      drawn opened pro refl refl refl
