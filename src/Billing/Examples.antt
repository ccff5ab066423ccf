-- ===== src/Billing/Examples.antt =====
-- Concrete tables, on which the theorems about billing are applied.
use godeye.Prelude.{
  ℕ, ◌+◌, ◌*◌, ◌≤◌, ◌≡◌, refl, true, false, none, some, List, [], ◌∷◌, arith, ok, err,
}
use godeye.Db.ListTable.{list_table}
use godeye.Billing.Model.{
  SubscriptionStatus, Subscription, Organization, Plan, PaymentApplication, Tables, Data, org_key,
  org_clash, sub_key, sub_clash, plan_key, plan_clash, payment_key, payment_clash, is_exempt,
}
use godeye.Billing.Access.{Cache, cache_clear, decide, org_view, state}
use godeye.Billing.Access.Cache.{IsCoherent, state-decide, state-IsCoherent}
use godeye.Billing.Access.Entitled.{Entitled}
use godeye.Billing.Access.Sweep.{plan_by_code, sweep}
use godeye.Billing.Access.Sweep.Verdicts.{SameVerdict, sweep-verdict}
use godeye.Billing.Limits.{
  Counts, UsageMetric, usage, limits_of, effective_plan, assert_within_limit, plan_limit_reached,
}
use godeye.Billing.TrialLock.{
  is_read_method, is_open_path, Request, intercept, workspace_locked, intercept-write,
}
use godeye.Billing.Payment.{
  paid_until, paid_fields, transaction_from, Payment, charge_success, apply_payment,
}
use godeye.Billing.Payment.Once.{Call, webhook, browser, run, without_reference, applied-once}
use godeye.Billing.Payment.Credit.{once-locked, pay_all, end_of, months_add_up}
use godeye.Billing.Payment.Overlap.{overlap-loses}
use godeye.Billing.Payment.Renewal.{renewal-locks}

pub org-covers : (r s : Organization) → org_key r ≡ org_key s → org_clash r s ≡ true
org-covers r s h = ground arith

pub sub-covers : (r s : Subscription) → sub_key r ≡ sub_key s → sub_clash r s ≡ true
sub-covers r s h = ground arith

pub plan-covers : (r s : Plan) → plan_key r ≡ plan_key s → plan_clash r s ≡ true
plan-covers r s h = ground arith

pub payment-covers :
    (r s : PaymentApplication) → payment_key r ≡ payment_key s → payment_clash r s ≡ true
payment-covers r s h = ground arith

abbrev pub tables : Tables
tables = record {
  orgs = list_table org_key org_clash org-covers;
  subs = list_table sub_key sub_clash sub-covers;
  plans = list_table plan_key plan_clash plan-covers;
  payments = list_table payment_key payment_clash payment-covers;
}

abbrev pub acme : Organization
acme = record { id = 1; slug = "acme" }

abbrev pub pro : Plan
pro = record {
  id = 7;
  code = "PRO";
  limits = record {
    posts_per_month = some 30;
    ai_tokens_per_month = none;
    connections = some 3;
    seats = some 1;
  };
}

abbrev card : Subscription
card = record {
  org_id = 1;
  plan_id = 7;
  status = SubscriptionStatus.active;
  provider_customer_id = some 4;
  provider_subscription_id = some 5;
  current_period_end = some 1000;
}

-- One workspace and the PRO plan; no subscription yet.
abbrev pub fresh : Data tables
unfolding list_table
fresh = record {
  orgs = (acme ∷ [], (refl, tt));
  subs = ([], tt);
  plans = (pro ∷ [], (refl, tt));
  payments = ([], tt);
}

-- The same with a card subscription.
abbrev subscribed : Data tables
unfolding list_table
subscribed = record fresh { subs = (card ∷ [], (refl, tt)) }

IsCoherent-clear : (d : Data tables) (now : ℕ) → IsCoherent tables d cache_clear now
IsCoherent-clear d now = record { at = λ k e p. cc }

state-decide_example :
    (t : ℕ) × (3 ≤ t)
    × (t ≤ 4)
    × ((state tables subscribed cache_clear 1 3 4).0 ≡ decide t (org_view tables subscribed 1))
state-decide_example =
    state-decide tables subscribed 1 (omega arith) (IsCoherent-clear subscribed 3)

state-IsCoherent_example :
    IsCoherent tables subscribed (state tables subscribed cache_clear 1 3 4).1 4
state-IsCoherent_example =
    state-IsCoherent tables subscribed 1 (omega arith) (IsCoherent-clear subscribed 3)

sweep-verdict_example :
    SameVerdict
      (decide 2000 (org_view tables (sweep tables subscribed cache_clear 2000).0 1))
      (decide 2000 (org_view tables subscribed 1))
sweep-verdict_example = sweep-verdict tables subscribed cache_clear 2000 1

abbrev write_request : Request
write_request = record { is_http = true; method = "POST"; org_id = some 1; path = "/content" }

intercept-write_example :
    (((t : ℕ) → 3 ≤ t → t ≤ 4 → ¬ Entitled t (record { slug = "acme"; subscription = none }))
      → (intercept tables fresh cache_clear 3 4 write_request).0 ≡ err workspace_locked)
    × (((t : ℕ) → 3 ≤ t → t ≤ 4 → Entitled t (record { slug = "acme"; subscription = none }))
        → (intercept tables fresh cache_clear 3 4 write_request).0 ≡ ok tt)
unfolding list_table org_view is_read_method is_open_path
intercept-write_example =
    intercept-write tables fresh cache_clear 3 4 write_request 1
      (record { slug = "acme"; subscription = none }) (omega arith) (IsCoherent-clear fresh 3)
      (record { http = refl; writes = refl; signed_in = refl; closed_path = refl }) refl

abbrev month : Payment
month = record {
  org_id = some 1;
  plan_code = some "PRO";
  is_once = true;
  reference = some 77;
  event_id = none;
  customer_code = none;
  subscription_code = none;
  next_payment_date = none;
}

abbrev deliveries : List Call
deliveries = webhook 20 charge_success month ∷ browser 30 true 1 (some (true, month)) ∷ []

applied-once_example :
    let after : Data tables × Cache = (
      (apply_payment tables fresh cache_clear 10 month).0,
      (apply_payment tables fresh cache_clear 10 month).1,
    ) in
    run tables after deliveries ≡ run tables after (without_reference 77 deliveries)
unfolding list_table apply_payment plan_by_code
applied-once_example = applied-once tables fresh cache_clear 10 month 77 deliveries refl refl

once-locked_example :
    (decide 2678400009
      (org_view tables (apply_payment tables fresh cache_clear 10 month).0 1)).locked
    ≡ false
unfolding list_table apply_payment plan_by_code is_exempt
once-locked_example =
    once-locked tables fresh cache_clear 10 1 month acme refl refl refl refl refl 2678400009

months_add_up_example :
    end_of (tables.subs.find_unique fresh.subs 1)
      + (pay_all tables fresh cache_clear 1 ((10, month) ∷ (20, month) ∷ [])).1 * 2678400000
    ≤ end_of (
        tables.subs.find_unique
          (pay_all tables fresh cache_clear 1 ((10, month) ∷ (20, month) ∷ [])).0.subs
          1)
months_add_up_example =
    months_add_up tables fresh cache_clear 1 ((10, month) ∷ (20, month) ∷ []) (refl, (refl, tt))

abbrev renewal : Payment
renewal = record month { is_once = false; reference = some 78; customer_code = some 4 }

renewal-locks_example :
    ((decide 1000 (org_view tables subscribed 1)).locked ≡ false)
    × ((decide 1000
          (org_view tables (apply_payment tables subscribed cache_clear 10 renewal).0 1)).locked
        ≡ true)
unfolding list_table apply_payment plan_by_code is_exempt
renewal-locks_example =
    renewal-locks tables subscribed cache_clear 10 1 1000 5 renewal acme card refl refl refl refl
      refl refl refl refl refl refl refl 1000

abbrev month_counts : Counts
month_counts = record {
  posts = 29;
  input_tokens = none;
  output_tokens = some 10;
  connections = 1;
  seats = 1;
  pending_invites = 0;
}

-- The thirtieth post is the last one of a month.
thirtieth_post :
    (assert_within_limit tables fresh month_counts 1 UsageMetric.posts_per_month 1 ≡ ok tt)
    × (assert_within_limit tables fresh month_counts 1 UsageMetric.posts_per_month 2
        ≡ err plan_limit_reached)
unfolding list_table assert_within_limit effective_plan plan_by_code limits_of usage
thirtieth_post = (refl, refl)

abbrev next_month : Payment
next_month = record month { reference = some 78 }

-- The tables after the payments `month` at 10 and `next_month` at 20, whose transactions overlap.
abbrev after_first : Data tables
after_first = elim (transaction_from tables fresh none 10 1 "PRO" 77 pro month) [
  | none ↦ fresh
  | some d ↦ d
]

abbrev after_both : Data tables
after_both = elim (transaction_from tables after_first none 20 1 "PRO" 78 pro next_month) [
  | none ↦ fresh
  | some d ↦ d
]

overlap-loses_example :
    (end_of (tables.subs.find_unique after_first.subs 1) ≡ 2678400010)
    × (end_of (tables.subs.find_unique after_both.subs 1) ≡ 2678400020)
unfolding list_table transaction_from paid_until paid_fields
overlap-loses_example =
    overlap-loses tables fresh after_first after_both 10 20 1 77 78 "PRO" "PRO" pro pro month
      next_month refl refl refl refl
