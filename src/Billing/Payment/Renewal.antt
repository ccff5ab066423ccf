-- ===== src/Billing/Payment/Renewal.antt =====
-- A renewal charge that carries no subscription code.
use godeye.Prelude.{ℕ, ◌≡◌, inl, inr, true, false, none, some, arith, leb}
use godeye.Billing.Model.{is_exempt, Organization, SubscriptionStatus, Subscription, Tables, Data}
use godeye.Billing.Access.{Cache, decide, org_view}
use godeye.Billing.Payment.{Payment, paid_until, paid_fields, apply_payment}
use godeye.Billing.Payment.Cases.{apply_cases}
use godeye.Billing.Payment.Credit.{find-Applied, orgs-Applied}

module _ (T : Tables) where
  open T use {orgs as Orgs, subs as Subs}

  -- A workspace with a card subscription, which is never locked by its date, is charged again by
  -- card; the event names neither a subscription code nor a next payment date. From then on the
  -- workspace is locked as soon as the old renewal date is reached.
  pub renewal-locks :
      (d : Data T) (c : Cache) (now k e code : ℕ) (p : Payment) (o : Organization)
      (s : Subscription)
      → p.is_once ≡ false
      → p.org_id ≡ some k
      → p.subscription_code ≡ none
      → p.next_payment_date ≡ none
      → Orgs.find_unique d.orgs k ≡ some o
      → is_exempt o.slug ≡ false
      → Subs.find_unique d.subs k ≡ some s
      → s.status ≡ SubscriptionStatus.active
      → s.provider_subscription_id ≡ some code
      → s.current_period_end ≡ some e
      → (apply_payment T d c now p).2 ≡ true
      → (t : ℕ)
      → ((decide t (org_view T d k)).locked ≡ false)
        × ((decide t (org_view T (apply_payment T d c now p).0 k)).locked ≡ leb e t)
  unfolding decide org_view paid_until paid_fields
  renewal-locks d c now k e code p o s w names sc np f x g active card period h t =
      elim (apply_cases T d c now p) [
        | inl same ↦ absurd (ground (arith, same))
        | inr a ↦ (
          ground (arith, Orgs.find_unique-key d.orgs k o f),
          rw (a.outcome, org_view)
              (ground (
                arith,
                find-Applied T a k,
                orgs-Applied T a,
                a.names_org,
                Orgs.find_unique-key d.orgs k o f,
              )),
        )
      ]
