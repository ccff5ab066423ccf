-- ===== src/Billing/Limits.antt =====
-- apps/api/src/billing/billing.module.ts: the effective plan, its limits, this month's usage and
-- `assertWithinLimit`. The answers of the five counting queries of `usage` are an argument.
use godeye.Prelude.{
  ℕ, ◌+◌, ◌≤◌, ◌≡◌, ◌↔◌, Bool, true, false, Option, none, some, arith, ltb, if◌then◌else◌, get_or,
  Result, ok, err,
}
use godeye.Billing.Model.{PlanLimits, SubscriptionStatus, Subscription, Plan, Tables, Data}
use godeye.Billing.Access.Sweep.{plan_by_code}

abbrev pub entry_limits : PlanLimits
entry_limits = record {
  posts_per_month = 30;
  ai_tokens_per_month = 100000;
  connections = 3;
  seats = 1;
}

pub data UsageMetric : Type 0 where
  posts_per_month ai_tokens_per_month connections seats : UsageMetric

-- `limits[metric]`
abbrev pub metric_of : UsageMetric → PlanLimits → ℕ
metric_of posts_per_month l = l.posts_per_month
metric_of ai_tokens_per_month l = l.ai_tokens_per_month
metric_of connections l = l.connections
metric_of seats l = l.seats

-- What the queries of `usage` answer. The sums of the token columns are null for no rows.
pub record Counts : Type 0 where
  pub posts : ℕ
  pub input_tokens : Option ℕ
  pub output_tokens : Option ℕ
  pub connections : ℕ
  pub seats : ℕ
  pub pending_invites : ℕ

unfoldable pub usage : Counts → PlanLimits
usage c = record {
  posts_per_month = c.posts;
  ai_tokens_per_month = get_or c.input_tokens 0 + get_or c.output_tokens 0;
  connections = c.connections;
  seats = c.seats + c.pending_invites;
}

-- `{ ...ENTRY_LIMITS, ...raw }`
unfoldable pub limits_of : Option Plan → PlanLimits
limits_of none = entry_limits
limits_of (some plan) = record {
  posts_per_month = get_or plan.limits.posts_per_month entry_limits.posts_per_month;
  ai_tokens_per_month = get_or plan.limits.ai_tokens_per_month entry_limits.ai_tokens_per_month;
  connections = get_or plan.limits.connections entry_limits.connections;
  seats = get_or plan.limits.seats entry_limits.seats;
}

abbrev pub is_canceled : SubscriptionStatus → Bool
is_canceled SubscriptionStatus.canceled = true
is_canceled _ = false

pub data LimitError : Type 0 where
  plan_limit_reached : LimitError

module _ (T : Tables) where
  open T use {subs as Subs, plans as Plans}

  unfoldable pub effective_plan : Data T → ℕ → Option Plan × Option Subscription
  effective_plan d org_id =
      let entry = plan_by_code T d "PRO" in
      elim (Subs.find_unique d.subs org_id) [
        | none ↦ (entry, none)
        | some sub ↦
            if is_canceled sub.status
            then (entry, some sub)
            else (Plans.find_unique d.plans sub.plan_id, some sub)
      ]

  unfoldable pub assert_within_limit :
      Data T → Counts → ℕ → UsageMetric → ℕ → Result LimitError (Unit {0})
  assert_within_limit d counts org_id metric count =
      let limit = metric_of metric (limits_of (effective_plan d org_id).0) in
      let used = metric_of metric (usage counts) in
      if ltb limit (used + count) then err plan_limit_reached else ok tt

  -- An action that asks for `count` more of a metric is allowed exactly when afterwards the use
  -- is within the limit of the plan in force: the plan of the subscription if there is one that
  -- is not canceled, else the entry plan, and the entry limits where the plan is silent.
  pub within_limit_iff :
      (d : Data T) (counts : Counts) (org_id : ℕ) (metric : UsageMetric) (count : ℕ)
      → (assert_within_limit d counts org_id metric count ≡ ok tt) ↔ (
          metric_of metric (usage counts) + count
          ≤ metric_of metric (limits_of (effective_plan d org_id).0))
  unfolding assert_within_limit
  within_limit_iff d counts org_id metric count = ground arith

  -- A canceled subscription counts for nothing: its workspace has the limits of one that never
  -- subscribed.
  pub canceled-effective_plan :
      (d : Data T) (org_id other : ℕ) (s : Subscription)
      → Subs.find_unique d.subs org_id ≡ some s
      → s.status ≡ SubscriptionStatus.canceled
      → Subs.find_unique d.subs other ≡ none
      → (counts : Counts) (metric : UsageMetric) (count : ℕ)
      → assert_within_limit d counts org_id metric count
        ≡ assert_within_limit d counts other metric count
  unfolding assert_within_limit effective_plan
  canceled-effective_plan d org_id k s e c f counts metric count = ground arith
