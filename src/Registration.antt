-- ===== src/Registration.antt =====
-- apps/api/src/auth/auth.service.ts: register, which opens an account, its first workspace and the
-- trial of it. It works on the tables of Auth and of Billing. What the service makes of the name for
-- the first slug, the answer on breached passwords and the random values are arguments.
pub mod Trial
mod Examples
use Prim.Native.String
use text.Mathlib.Text.{◌==◌ as str_eq}
use godeye.Prelude.{
  ℕ, zero, suc, refl, Bool, true, false, not, ◌&&◌, Option, none, some, String, ◌==◌, if◌then◌else◌,
  Result, ok, err,
}
use godeye.Auth.Model as A
use godeye.Auth.Model.{OrgRole, Membership, User}
use godeye.Auth.Refresh.{Random, Session, create_session}
use godeye.Auth.Login.{Factors}
use godeye.Billing.Model as B
use godeye.Billing.Model.{Organization}
use godeye.Billing.Access.{Cache}
use godeye.Billing.Access.Sweep.{start_trial}

pub record RegisterInput : Type 0 where
  pub email : ℕ
  pub password : ℕ
  pub is_business : Bool
  pub has_organization_name : Bool
  pub slug_base : String

-- The ids of the new rows, and the random ends of a slug.
pub record NewRows : Type 0 where
  pub user_id : ℕ
  pub membership_id : ℕ
  pub org_id : ℕ
  pub slug_end : ℕ → String

pub data RegisterRefusal : Type 0 where
  email_taken organization_name_required password_breached write_failed : RegisterRefusal

module _ (T : A.Tables) (L : B.Tables) (f : Factors) where
  open T use {users as Users, memberships as Memberships}
  open L use {orgs as Orgs}

  pub record Registry : Type 0 where
    pub accounts : A.Data T
    pub billing : B.Data L
    pub cache : Cache

  -- The attempts that are left, the number of the attempt, and the slug that it tries.
  unfoldable pub try_slug : Orgs.Rows → String → (ℕ → String) → ℕ → ℕ → String → String
  try_slug rows base slug_end zero i slug = String.◌++◌ base (String.◌++◌ "-" (slug_end i))
  try_slug rows base slug_end (suc n) i slug =
      let next =
        try_slug rows base slug_end n (suc i) (String.◌++◌ base (String.◌++◌ "-" (slug_end i))) in
      elim (Orgs.find_first (λ o. str_eq o.slug slug) rows) [ none ↦ slug | some taken ↦ next ]

  unfoldable pub unique_slug : Orgs.Rows → String → (ℕ → String) → String
  unique_slug rows base slug_end = try_slug rows base slug_end 5 0 base

  abbrev pub owner_membership : NewRows → Membership
  owner_membership new = record {
    id = new.membership_id;
    user_id = new.user_id;
    org_id = new.org_id;
    role = OrgRole.owner;
    session_version = 0;
  }

  abbrev pub registered_user : RegisterInput → NewRows → User
  registered_user input new = record {
    id = new.user_id;
    email = input.email;
    password_hash = f.hash_password input.password;
    mfa_enabled = false;
    mfa_secret = none;
  }

  -- The user, the workspace and the membership are one nested create.
  unfoldable pub create_account : Registry → RegisterInput → NewRows → Option Registry
  create_account s input new =
      let slug = unique_slug s.billing.orgs input.slug_base new.slug_end in
      elim (Users.create (registered_user input new) s.accounts.users) [
        | none ↦ none
        | some users ↦ elim (Orgs.create (record { id = new.org_id; slug = slug }) s.billing.orgs) [
          | none ↦ none
          | some orgs ↦ elim (Memberships.create (owner_membership new) s.accounts.memberships) [
            | none ↦ none
            | some memberships ↦ some (record s {
              accounts = record s.accounts { users = users; memberships = memberships };
              billing = record s.billing { orgs = orgs };
            })
          ]
        ]
      ]

  unfoldable pub register :
      Registry
      → ℕ
      → RegisterInput
      → (breached : Bool) → NewRows
      → Random
      → Registry × Result RegisterRefusal Session
  register s now input breached new random =
      elim (Users.find_first (λ u. u.email == input.email) s.accounts.users) [
        | some existing ↦ (s, err email_taken)
        | none ↦
            if input.is_business && not input.has_organization_name
            then (s, err organization_name_required)
            else if breached
            then (s, err password_breached)
            else elim (create_account s input new) [
              | none ↦ (s, err write_failed)
              | some s1 ↦
                  let (billing, cache, trial_ends_at) =
                    start_trial L s1.billing s1.cache new.org_id now in
                  let (accounts, session) =
                    create_session T f.sha256 s1.accounts now (owner_membership new) none random in
                  let s2 : Registry = record {
                    accounts = accounts;
                    billing = billing;
                    cache = cache;
                  } in
                  elim session [ ok opened ↦ (s2, ok opened) | err e ↦ (s2, err write_failed) ]
            ]
      ]
