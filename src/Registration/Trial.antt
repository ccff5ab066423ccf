-- ===== src/Registration/Trial.antt =====
-- What a registration opens.
use text.Mathlib.Text.{◌==◌ as str_eq}
use godeye.Prelude.{
  ℕ, ◌+◌, ◌≡◌, Bool, false, not, ◌&&◌, none, some, arith, ◌==◌, leb, Option-cases, inl, inr, ap,
  ◌∙◌, ok, Result-cases,
}
use godeye.Auth.Model as A
use godeye.Auth.Model.{OrgRole, Membership, User}
use godeye.Auth.Refresh.{Random, Session, create_session}
use godeye.Auth.Login.{Factors}
use godeye.Billing.Model as B
use godeye.Billing.Model.{Organization, Plan, is_exempt}
use godeye.Billing.Access.{decide, org_view}
use godeye.Billing.Access.Sweep.{start_trial, plan_by_code}
use godeye.Billing.Access.Sweep.Trial.{orgs-start_trial, start_trial-locked}
use godeye.Registration.{
  RegisterInput, NewRows, Registry, unique_slug, owner_membership, registered_user, create_account,
  register,
}

module _ (T : A.Tables) (L : B.Tables) (f : Factors) where
  open T use {users as Users, memberships as Memberships}
  open L use {orgs as Orgs, subs as Subs}

  abbrev new_org : Registry T L f → RegisterInput → NewRows → Organization
  new_org s input new = record {
    id = new.org_id;
    slug = unique_slug T L f s.billing.orgs input.slug_base new.slug_end;
  }

  create_account-org :
      (s s' : Registry T L f) (input : RegisterInput) (new : NewRows)
      → create_account T L f s input new ≡ some s'
      → (Orgs.find_unique s'.billing.orgs new.org_id ≡ some (new_org s input new))
        × (s'.billing.subs ≡ s.billing.subs)
        × (s'.billing.plans ≡ s.billing.plans)
        × ((k : ℕ) (o : Organization)
            → Orgs.find_unique s.billing.orgs k ≡ some o
            → str_eq (new_org s input new).slug o.slug ≡ false)
  unfolding create_account
  create_account-org s s' input new e =
      elim (Option-cases (Users.create (registered_user T L f input new) s.accounts.users)) [
        | inl no_user ↦ ground arith
        | inr (users, u) ↦ elim (Option-cases (Orgs.create (new_org s input new) s.billing.orgs)) [
          | inl no_org ↦ ground arith
          | inr (orgs, o) ↦
              elim (Option-cases
                (Memberships.create (owner_membership T L f new) s.accounts.memberships)) [
                  | inl no_member ↦ ground arith
                  | inr (members, m) ↦
                      let stored =
                        Orgs.find_unique-create (new_org s input new) s.billing.orgs orgs new.org_id
                          o in
                      (
                        ground arith,
                        ground arith,
                        ground arith,
                        λ k row had. ground (
                          arith,
                          Orgs.create-clash (new_org s input new) s.billing.orgs k row had,
                        ),
                      )
                ]
        ]
      ]

  session_of :
      (d : A.Data T) (now : ℕ) (m : Membership) (random : Random) (session : Session)
      → (create_session T f.sha256 d now m none random).1 ≡ ok session
      → (session.user_id ≡ m.user_id) × (session.org_id ≡ m.org_id) × (session.role ≡ m.role)
  unfolding create_session
  session_of d now m random session e = (ground arith, ground arith, ground arith)

  -- In a database that has a PRO plan and no subscription under the new id, a registration that succeeds
  -- is of an address that no user had, and signs in as the owner of a workspace that is stored and whose
  -- slug no other had. That workspace may write for exactly 24 hours, unless its slug is one of the
  -- exempt ones: then it is never locked.
  pub register_opens :
      (s s' : Registry T L f) (now : ℕ) (input : RegisterInput) (breached : Bool) (new : NewRows)
      (random : Random) (session : Session) (pro : Plan)
      → register T L f s now input breached new random ≡ (s', ok session)
      → Subs.find_unique s.billing.subs new.org_id ≡ none
      → plan_by_code L s.billing "PRO" ≡ some pro
      → (o : Organization) × (Orgs.find_unique s'.billing.orgs session.org_id ≡ some o)
        × (Users.find_first (λ u. u.email == input.email) s.accounts.users ≡ none)
        × (session.user_id ≡ new.user_id)
        × (session.org_id ≡ new.org_id)
        × (session.role ≡ OrgRole.owner)
        × ((k : ℕ) (other : Organization)
            → Orgs.find_unique s.billing.orgs k ≡ some other
            → str_eq o.slug other.slug ≡ false)
        × ((t : ℕ)
            → (decide t (org_view L s'.billing session.org_id)).locked
              ≡ (not (is_exempt o.slug) && leb (now + 86_400_000) t))
  unfolding register plan_by_code
  register_opens s s' now input breached new random session pro e none_yet plan =
      elim (Option-cases (Users.find_first (λ u. u.email == input.email) s.accounts.users)) [
        | inr (u, taken) ↦ ground arith
        | inl free ↦ elim (Option-cases (create_account T L f s input new)) [
          | inl failed ↦ ground arith
          | inr (s1, made) ↦
              let (stored, subs, plans, slug) = create_account-org s s1 input new made in
              let opened =
                create_session T f.sha256 s1.accounts now (owner_membership T L f new) none
                  random in
              elim (Result-cases opened.1) [
                | inl (bad, no_session) ↦ ground arith
                | inr (fine, yes_session) ↦
                    let (user, org, role) =
                      session_of s1.accounts now (owner_membership T L f new) random fine
                        yes_session in
                    let same : session ≡ fine = ground arith in
                    let billing : s'.billing
                        ≡ (start_trial L s1.billing s1.cache new.org_id now).0 =
                      ground arith in
                    let locked =
                      start_trial-locked L s1.billing s1.cache new.org_id now (new_org s input new)
                        pro stored (ap (λ rows. Subs.find_unique rows new.org_id) subs ∙ none_yet)
                        (ap (λ rows. L.plans.find_first (λ p. str_eq p.code "PRO") rows) plans
                          ∙ plan) in
                    let at_org = ap (λ x. x.org_id) same ∙ org in
                    (
                      new_org s input new,
                      ap (λ b. Orgs.find_unique b.orgs session.org_id) billing
                          ∙ ap (λ rows. Orgs.find_unique rows session.org_id)
                              (orgs-start_trial L s1.billing s1.cache new.org_id now)
                          ∙ ap (Orgs.find_unique s1.billing.orgs) at_org
                          ∙ stored,
                      free,
                      ap (λ x. x.user_id) same ∙ user,
                      ap (λ x. x.org_id) same ∙ org,
                      ap (λ x. x.role) same ∙ role,
                      slug,
                      λ t.
                          ap (λ k. (decide t (org_view L s'.billing k)).locked) at_org
                          ∙ ap (λ b. (decide t (org_view L b new.org_id)).locked) billing
                          ∙ locked t,
                    )
              ]
        ]
      ]
