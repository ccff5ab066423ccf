-- ===== src/Billing/Payment.antt =====
-- apps/api/src/billing/billing.module.ts: what a payment does. `applyPayment`, `verifyPayment` and
-- `handlePaystackEvent`.
--
-- Paystack's payload and its answers are arguments. The audit rows, the receipt and the log are
-- left out: they stand outside the transaction and cannot fail it.
pub mod Cases
pub mod First
pub mod Once
pub mod Credit
pub mod Renewal
pub mod Overlap
use text.Mathlib.Text.{◌==◌ as str_eq}
use godeye.Prelude.{
  ℕ, ◌+◌, ◌*◌, max, ◌≡◌, refl, Bool, true, false, Option, none, some, ◌==◌, if◌then◌else◌, get_or,
  is_some, String, Result, ok, err,
}
use mathlib.Core.Option
use godeye.Billing.Model.{
  SubscriptionStatus, Subscription, PaymentMode, once, subscription, PaymentApplication, same_value,
  Plan, Tables, Data,
}
use godeye.Billing.Access.{Cache, cache_delete}
use godeye.Billing.Access.Sweep.{plan_by_code, with_status}

abbrev pub one_month_days : ℕ
one_month_days = 31

abbrev pub one_month_ms : ℕ
one_month_ms = one_month_days * 24 * 3600 * 1000

-- The `data` of a Paystack event, field by field as `applyPayment` reads it. `next_payment_date`
-- is the result of `parseDate`.
pub record Payment : Type 0 where
  pub org_id : Option ℕ
  pub plan_code : Option String
  pub is_once : Bool
  pub reference : Option ℕ
  pub event_id : Option ℕ
  pub customer_code : Option ℕ
  pub subscription_code : Option ℕ
  pub next_payment_date : Option ℕ

-- `until ? { currentPeriodEnd: until } : {}`
abbrev pub or_keep : Option ℕ → Option ℕ → Option ℕ
or_keep none old = old
or_keep (some d) old = some d

-- What the payment pays for: the new end of the period, from the row that the transaction reads.
unfoldable pub paid_until : ℕ → Payment → Option Subscription → Option ℕ
paid_until now p existing =
    let current : Option ℕ = elim existing [ none ↦ none | some s ↦ s.current_period_end ] in
    if p.is_once then some (max now (get_or current 0) + one_month_ms) else p.next_payment_date

-- `fields`, written over an existing row.
unfoldable pub paid_fields : Plan → Payment → Option ℕ → Subscription → Subscription
paid_fields plan p until s = record s {
  plan_id = plan.id;
  status = SubscriptionStatus.active;
  provider_customer_id = p.customer_code;
  provider_subscription_id = if p.is_once then none else p.subscription_code;
  current_period_end = or_keep until s.current_period_end;
}

unfoldable pub blank : ℕ → Plan → Subscription
blank org_id plan = record {
  org_id = org_id;
  plan_id = plan.id;
  status = SubscriptionStatus.trialing;
  provider_customer_id = none;
  provider_subscription_id = none;
  current_period_end = none;
}

pub marker : ℕ → String → ℕ → Payment → PaymentApplication
marker org_id code reference p = record {
  reference = reference;
  org_id = org_id;
  event_id = p.event_id;
  plan_code = code;
  mode = if p.is_once then once else subscription;
  paid_until = none;
}

abbrev pub set_paid_until : Option ℕ → PaymentApplication → PaymentApplication
set_paid_until until a = record a { paid_until = until }

pub data Refusal : Type 0 where
  not_configured not_verified another_workspace : Refusal

-- The events that `handlePaystackEvent` tells apart.
pub data EventKind : Type 0 where
  charge_success subscription_create subscription_disable subscription_not_renew : EventKind
  other : EventKind

module _ (T : Tables) where
  open T use {subs as Subs, payments as Payments}

  -- The `upsert` of the transaction.
  pub upsert : Data T → ℕ → Plan → Payment → Option ℕ → Option Subs.Rows
  unfolding blank paid_fields
  upsert d org_id plan p until = elim (Subs.find_unique d.subs org_id) [
    | none ↦ Subs.create (paid_fields plan p until (blank org_id plan)) d.subs
    | some existing ↦
        some
          (Subs.update_many (λ s. s.org_id == org_id) (paid_fields plan p until) (λ s. refl) d.subs)
  ]

  -- The transaction, with the row that its `findUnique` reads. `none` is a unique violation, which rolls
  -- everything back. PostgreSQL runs it at READ COMMITTED: another transaction may be committed between
  -- that read and the `upsert`, so the row that was read need not be the one that is there.
  unfoldable pub transaction_from :
      Data T → Option Subscription → ℕ → ℕ → String → ℕ → Plan → Payment → Option (Data T)
  unfolding marker upsert paid_until
  transaction_from d existing now org_id code reference plan p =
      elim (Payments.create (marker org_id code reference p) d.payments) [
        | none ↦ none
        | some marked ↦
            let until = paid_until now p existing in
            elim (upsert d org_id plan p until) [
              | none ↦ none
              | some subs ↦ some (record d {
                subs = subs;
                payments =
                    Payments.update_many (λ a. a.reference == reference) (set_paid_until until)
                      (λ a. refl) marked;
              })
            ]
      ]

  -- The transaction where none of the same workspace overlaps it.
  pub transaction : Data T → ℕ → ℕ → String → ℕ → Plan → Payment → Option (Data T)
  unfolding transaction_from
  transaction d now org_id code reference plan p =
      transaction_from d (Subs.find_unique d.subs org_id) now org_id code reference plan p

  -- With the workspace, the plan code and the reference at hand.
  pub apply_named : Data T → Cache → ℕ → ℕ → String → ℕ → Payment → Data T × Cache × Bool
  unfolding transaction
  apply_named d c now org_id code reference p = elim (plan_by_code T d code) [
    | none ↦ (d, c, false)
    | some plan ↦ elim (transaction d now org_id code reference plan p) [
      | none ↦ (d, c, false)
      | some d' ↦ (d', cache_delete c org_id, true)
    ]
  ]

  unfoldable pub apply_payment : Data T → Cache → ℕ → Payment → Data T × Cache × Bool
  unfolding apply_named
  apply_payment d c now p = elim p.org_id [
    | none ↦ (d, c, false)
    | some org_id ↦ elim p.plan_code [
      | none ↦ (d, c, false)
      | some code ↦ elim p.reference [
        | none ↦ (d, c, false)
        | some reference ↦ apply_named d c now org_id code reference p
      ]
    ]
  ]

  -- Paystack's answer to the verification of a reference: `none` if the call failed, else whether
  -- the payment succeeded, and its data. The result is `applied`.
  pub verify_payment :
      Data T → Cache → ℕ → Bool → ℕ → Option (Bool × Payment) → Data T × Cache × Result Refusal Bool
  verify_payment d c now configured org_id answer =
      if configured
      then elim answer [
        | none ↦ (d, c, err not_verified)
        | some (success, p) ↦
            let tried = apply_payment d c now p in
            if success
            then if same_value p.org_id (some org_id)
              then (tried.0, tried.1, ok tried.2)
              else (d, c, err another_workspace)
            else (d, c, ok false)
      ]
      else (d, c, err not_configured)

  -- `subscription.disable` and `subscription.not_renew`. The row is found by its subscription
  -- code and written by its id, which goes with its organisation.
  cancel : Data T → Cache → Option ℕ → Data T × Cache
  cancel d c none = (d, c)
  cancel d c (some code) =
      elim (Subs.find_first (λ s. same_value s.provider_subscription_id (some code)) d.subs) [
        | none ↦ (d, c)
        | some sub ↦ (
          record d {
            subs =
                Subs.update_many (λ s. s.org_id == sub.org_id)
                  (with_status SubscriptionStatus.canceled) (λ s. refl) d.subs;
          },
          cache_delete c sub.org_id,
        )
      ]

  pub handle_paystack_event : Data T → Cache → ℕ → EventKind → Payment → Data T × Cache
  unfolding cancel
  handle_paystack_event d c now charge_success p =
      let (d', c', applied) = apply_payment d c now p in (d', c')
  handle_paystack_event d c now subscription_create p =
      let (d', c', applied) = apply_payment d c now p in (d', c')
  handle_paystack_event d c now subscription_disable p = cancel d c p.subscription_code
  handle_paystack_event d c now subscription_not_renew p = cancel d c p.subscription_code
  handle_paystack_event d c now other p = (d, c)
