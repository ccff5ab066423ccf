-- ===== src/Billing/Access.antt =====
-- apps/api/src/billing/workspace-access.service.ts: who may write, and for how much longer.
--
-- `now` is one reading of `Date.now()`. The in-process cache is a map from organisation ids.
pub mod Cache
pub mod Sweep
pub mod Entitled
use text.Mathlib.Text.{◌==◌ as str_eq}
use godeye.Prelude.{
  ℕ, ◌+◌, ◌*◌, ◌≡◌, refl, Bool, true, false, not, ◌&&◌, String, Option, none, some, List, [], ◌∷◌,
  leb, ltb, ◌==◌, if◌then◌else◌, is_some, min,
}
use mathlib.Core.Option
use godeye.Billing.Model.{
  trial_hours, is_exempt, WorkspaceAccessStatus, WorkspaceAccess, SubscriptionStatus, Subscription,
  Organization, Plan, Tables, Data,
}

abbrev pub trial_ms : ℕ
trial_ms = trial_hours * 3600 * 1000

abbrev pub cache_ttl_ms : ℕ
cache_ttl_ms = 30000

abbrev pub backfill_batch : ℕ
backfill_batch = 500

-- What the `select` of `state` brings of the subscription and of its organisation.
pub record SubView : Type 0 where
  pub status : SubscriptionStatus
  pub current_period_end : Option ℕ
  pub provider_subscription_id : Option ℕ
  pub plan : Option String

pub record OrgView : Type 0 where
  pub slug : String
  pub subscription : Option SubView

-- `!!d && d.getTime() <= now`
abbrev pub reached : ℕ → Option ℕ → Bool
reached now none = false
reached now (some d) = leb d now

verdict : WorkspaceAccessStatus → Bool → Option ℕ → Option String → WorkspaceAccess
verdict s l e p = record { status = s; locked = l; trial_ends_at = e; plan_code = p }

-- The `status` branches of `decide`, over the fields of the subscription.
decide_status : ℕ → SubView → SubscriptionStatus → WorkspaceAccess
unfolding verdict
decide_status now sub SubscriptionStatus.trialing =
    let expired = reached now sub.current_period_end in
    verdict (if expired then WorkspaceAccessStatus.locked else WorkspaceAccessStatus.trialing)
      expired sub.current_period_end sub.plan
decide_status now sub SubscriptionStatus.active =
    let bought_month = not (is_some sub.provider_subscription_id) in
    let ended = reached now sub.current_period_end in
    if bought_month && ended
    then verdict WorkspaceAccessStatus.locked true none sub.plan
    else verdict WorkspaceAccessStatus.active false none sub.plan
decide_status now sub SubscriptionStatus.past_due =
    verdict WorkspaceAccessStatus.locked true none sub.plan
decide_status now sub SubscriptionStatus.canceled =
    verdict WorkspaceAccessStatus.locked true none sub.plan

plan_code_of : Option SubView → Option String
plan_code_of none = none
plan_code_of (some sub) = sub.plan

decide_sub : ℕ → Option SubView → WorkspaceAccess
unfolding decide_status
decide_sub now none = verdict WorkspaceAccessStatus.trialing false none none
decide_sub now (some sub) = decide_status now sub sub.status

unfoldable pub decide : ℕ → Option OrgView → WorkspaceAccess
unfolding decide_sub plan_code_of
decide now none = verdict WorkspaceAccessStatus.active false none none
decide now (some org) =
    if is_exempt org.slug
    then verdict WorkspaceAccessStatus.exempt false none (plan_code_of org.subscription)
    else decide_sub now org.subscription

pub record CacheEntry : Type 0 where
  pub expires_at : ℕ
  pub value : WorkspaceAccess

abbrev pub Cache : Type 0
Cache = ℕ → Option CacheEntry

abbrev pub cache_set : Cache → ℕ → CacheEntry → Cache
cache_set c k e j = if k == j then some e else c j

abbrev pub cache_delete : Cache → ℕ → Cache
cache_delete c k j = if k == j then none else c j

abbrev pub cache_clear : Cache
cache_clear j = none

-- `Math.min(a, b)` where `none` is `Infinity`
abbrev pub min_until : ℕ → Option ℕ → ℕ
min_until a none = a
min_until a (some b) = min a b

-- The end of a month that no card renews.
bought_month_end : Option OrgView → Option ℕ
bought_month_end none = none
bought_month_end (some org) = elim org.subscription [
  | none ↦ none
  | some sub ↦ if is_some sub.provider_subscription_id then none else sub.current_period_end
]

-- What `state` stores on a miss.
pub fresh_entry : ℕ → Option OrgView → CacheEntry
unfolding bought_month_end
fresh_entry now org =
    let value = decide now org in
    record {
      expires_at =
          min_until (min_until (now + cache_ttl_ms) value.trial_ends_at) (bought_month_end org);
      value = value;
    }

module _ (T : Tables) where
  open T use {orgs as Orgs, subs as Subs, plans as Plans}

  -- The joins that the `select` names.
  sub_view : Data T → Subscription → SubView
  sub_view d s = record {
    status = s.status;
    current_period_end = s.current_period_end;
    provider_subscription_id = s.provider_subscription_id;
    plan = Option.map (λ (p : Plan). p.code) (Plans.find_unique d.plans s.plan_id);
  }

  unfoldable pub org_view : Data T → ℕ → Option OrgView
  unfolding sub_view
  org_view d org_id =
      Option.map
        (λ (o : Organization). record {
          slug = o.slug;
          subscription = Option.map (sub_view d) (Subs.find_unique d.subs o.id);
        })
        (Orgs.find_unique d.orgs org_id)

  -- `now` is read for the test of the cached entry, `later` after the query has answered.
  pub state : Data T → Cache → ℕ → ℕ → ℕ → WorkspaceAccess × Cache
  state d c org_id now later =
      let entry = fresh_entry later (org_view d org_id) in
      let missed : WorkspaceAccess × Cache = (entry.value, cache_set c org_id entry) in
      elim (c org_id) [
        | none ↦ missed
        | some hit ↦ if ltb now hit.expires_at then (hit.value, c) else missed
      ]
