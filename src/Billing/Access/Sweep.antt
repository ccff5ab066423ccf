-- ===== src/Billing/Access/Sweep.antt =====
-- apps/api/src/billing/workspace-access.service.ts: the calls that record the trial and its end,
-- `startTrial`, `sweep` and `backfillMissing`. The log lines are left out.
pub mod Verdicts
pub mod Idempotent
pub mod Trial
use text.Mathlib.Text.{◌==◌ as str_eq}
use godeye.Prelude.{
  ℕ, ◌+◌, ◌≡◌, refl, Bool, true, false, not, ◌&&◌, ◌||◌, Option, none, some, List, [], ◌∷◌, ◌==◌,
  if◌then◌else◌, is_some, get_or, map, ltb, String,
}
use mathlib.Core.Option
use godeye.Billing.Model.{
  is_exempt, SubscriptionStatus, Subscription, Organization, Plan, Tables, Data,
}
use godeye.Billing.Access.{Cache, cache_delete, cache_clear, trial_ms, backfill_batch, reached}

pub record SweepResult : Type 0 where
  pub expired : ℕ
  pub lapsed : ℕ
  pub backfilled : ℕ
  pub comped : ℕ

abbrev pub is_trialing : SubscriptionStatus → Bool
is_trialing SubscriptionStatus.trialing = true
is_trialing _ = false

abbrev pub is_active : SubscriptionStatus → Bool
is_active SubscriptionStatus.active = true
is_active _ = false

abbrev pub with_status : SubscriptionStatus → Subscription → Subscription
with_status st s = record s { status = st }

-- The relation filters `org: { slug: { notIn } }` and `org: { slug: { in } }`.
abbrev pub is_payable_org : Option Organization → Bool
is_payable_org none = false
is_payable_org (some o) = not (is_exempt o.slug)

abbrev pub is_exempt_org : Option Organization → Bool
is_exempt_org none = false
is_exempt_org (some o) = is_exempt o.slug

new_subscription : ℕ → ℕ → SubscriptionStatus → Option ℕ → Subscription
new_subscription org_id plan_id st until = record {
  org_id = org_id;
  plan_id = plan_id;
  status = st;
  provider_customer_id = none;
  provider_subscription_id = none;
  current_period_end = until;
}

module _ (T : Tables) where
  open T use {orgs as Orgs, subs as Subs, plans as Plans}

  unfoldable pub plan_by_code : Data T → String → Option Plan
  plan_by_code d code = Plans.find_first (λ p. str_eq p.code code) d.plans

  -- Upserts with an empty `update`: an existing row stays as it is.
  pub start_trial : Data T → Cache → ℕ → ℕ → Data T × Cache × Option ℕ
  unfolding new_subscription
  start_trial d c org_id now = elim (plan_by_code d "PRO") [
    | none ↦ (d, c, none)
    | some plan ↦
        let until = now + trial_ms in
        let row = new_subscription org_id plan.id SubscriptionStatus.trialing (some until) in
        elim (Subs.find_unique d.subs org_id) [
          | some existing ↦ (d, cache_delete c org_id, some until)
          | none ↦ elim (Subs.create row d.subs) [
            | none ↦ (d, c, none)
            | some subs ↦ (record d { subs = subs }, cache_delete c org_id, some until)
          ]
        ]
  ]

  -- The three `updateMany` of `sweep`, and their `where`.
  pub expired_where : Data T → ℕ → Subscription → Bool
  expired_where d now s =
      is_trialing s.status
      && reached now s.current_period_end
      && is_payable_org (Orgs.find_unique d.orgs s.org_id)

  pub lapsed_where : Data T → ℕ → Subscription → Bool
  lapsed_where d now s =
      is_active s.status
      && not (is_some s.provider_subscription_id)
      && reached now s.current_period_end
      && is_payable_org (Orgs.find_unique d.orgs s.org_id)

  pub comped_where : Data T → Subscription → Bool
  comped_where d s = is_exempt_org (Orgs.find_unique d.orgs s.org_id) && not (is_active s.status)

  pub set_status : SubscriptionStatus → (Subscription → Bool) → Data T → Data T
  set_status st p d = record d { subs = Subs.update_many p (with_status st) (λ s. refl) d.subs }

  pub expire : ℕ → Data T → Data T
  expire now d = set_status SubscriptionStatus.past_due (expired_where d now) d

  pub lapse : ℕ → Data T → Data T
  lapse now d = set_status SubscriptionStatus.past_due (lapsed_where d now) d

  pub comp : Data T → Data T
  comp d = set_status SubscriptionStatus.active (comped_where d) d

  -- One element of the `data` of `createMany`.
  pub backfill_row : Plan → Option Plan → ℕ → Organization → Subscription
  unfolding new_subscription
  backfill_row pro vip now org =
      if is_exempt org.slug
      then new_subscription org.id (get_or (Option.map (λ (p : Plan). p.id) vip) pro.id)
          SubscriptionStatus.active none
      else new_subscription org.id pro.id SubscriptionStatus.trialing (some (now + trial_ms))

  -- `createMany` with `skipDuplicates`: a row that clashes is passed over.
  pub create_all : List Subscription → Subs.Rows → Subs.Rows × ℕ
  create_all [] subs = (subs, 0)
  create_all (r ∷ rs) subs = elim (Subs.create r subs) [
    | none ↦ create_all rs subs
    | some subs' ↦ let (last, n) = create_all rs subs' in (last, n + 1)
  ]

  pub orphans : Data T → List Organization
  orphans d =
      Orgs.find_many (λ o. not (is_some (Subs.find_unique d.subs o.id))) backfill_batch d.orgs

  pub backfill_missing : Data T → ℕ → Data T × ℕ
  unfolding create_all backfill_row orphans
  backfill_missing d now = elim (plan_by_code d "PRO") [
    | none ↦ (d, 0)
    | some pro ↦
        let (subs, n) =
          create_all (map (backfill_row pro (plan_by_code d "VIP") now) (orphans d)) d.subs in
        (record d { subs = subs }, n)
  ]

  pub sweep : Data T → Cache → ℕ → Data T × Cache × SweepResult
  sweep d c now =
      let d1 = expire now d in
      let d2 = lapse now d1 in
      let d3 = comp d2 in
      let filled = backfill_missing d3 now in
      let result : SweepResult = record {
        expired = Subs.count (expired_where d now) d.subs;
        lapsed = Subs.count (lapsed_where d1 now) d1.subs;
        comped = Subs.count (comped_where d2) d2.subs;
        backfilled = filled.1;
      } in
      let changed =
        ltb 0 result.expired
        || ltb 0 result.lapsed
        || ltb 0 result.comped
        || ltb 0 result.backfilled in
      (filled.0, if changed then cache_clear else c, result)
