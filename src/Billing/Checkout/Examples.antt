-- ===== src/Billing/Checkout/Examples.antt =====
-- A month bought by M-Pesa, on which the theorem about a checkout is applied.
use godeye.Prelude.{ℕ, ◌+◌, max, ◌≡◌, refl, true, false, none, some, [], ◌∷◌, arith}
use godeye.Db.ListTable.{list_table}
use godeye.Billing.Model.{once, SubscriptionStatus, Subscription}
use godeye.Billing.Access.{cache_clear}
use godeye.Billing.Access.Sweep.{plan_by_code}
use godeye.Billing.Payment.{Payment, one_month_ms, apply_payment}
use godeye.Billing.Checkout.{
  mpesa, mobile_money, PaystackConfig, PlanAnswer, CheckoutRequest, InitAnswer, checkout,
  checkout_request, charge_of, one_off_request,
}
use godeye.Billing.Checkout.Pays.{IsPriced, checkout-apply_payment}
use godeye.Billing.Examples.{tables, fresh, pro, acme}

abbrev config : PaystackConfig
config = record { configured = true; methods = mpesa ∷ []; plan_codes = λ code. none }

abbrev no_plans : ℕ → PlanAnswer
no_plans plan = record { accepted = false; amount = none; currency = none }

abbrev opened : CheckoutRequest → InitAnswer
opened q = record { accepted = true; authorization_url = some 300; reference = some 77 }

abbrev asked : CheckoutRequest
asked = record {
  email = 40;
  charge = record {
    plan = none;
    amount = 245100;
    currency = some "KES";
    channels = mobile_money ∷ [];
  };
  metadata = record { org_id = 1; plan_code = "PRO"; user_id = 2; method = mpesa; mode = once };
}

abbrev paid : Payment
paid = record {
  org_id = some 1;
  plan_code = some "PRO";
  is_once = true;
  reference = some 77;
  event_id = some 78;
  customer_code = none;
  subscription_code = none;
  next_payment_date = none;
}

checkout-apply_payment_example :
    IsPriced config no_plans "PRO" mpesa asked.charge
    × ((apply_payment tables fresh cache_clear 10 paid).2 ≡ true)
    × ((s : Subscription) × (tables.subs.find_unique
            (apply_payment tables fresh cache_clear 10 paid).0.subs
            1
          ≡ some s)
        × (s.plan_id ≡ 7)
        × (s.status ≡ SubscriptionStatus.active)
        × (s.current_period_end ≡ some (max 10 0 + one_month_ms)))
unfolding list_table checkout checkout_request charge_of one_off_request plan_by_code
checkout-apply_payment_example =
    checkout-apply_payment tables config no_plans opened (some 40) 1 2 "PRO" mpesa asked
      (record { url = 300; reference = some 77 }) fresh cache_clear 10 77 pro paid acme refl
      (record { names_org = refl; names_code = refl; names_mode = refl }) refl refl refl
      (λ k a at. ground arith)
