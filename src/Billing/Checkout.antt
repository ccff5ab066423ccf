-- ===== src/Billing/Checkout.antt =====
-- apps/api/src/billing/billing.module.ts: how a payment is started (checkout with its requests) and how
-- its webhook comes in. What Paystack answers and the HMAC are arguments; URLs, e-mail addresses and
-- the codes of Paystack's plans are numbers.
pub mod Pays
mod Examples
use text.Mathlib.Text.{◌==◌ as str_eq}
use godeye.Prelude.{
  String, Text, same_text, ℕ, zero, suc, ◌*◌, Bool, true, false, not, ◌&&◌, Option, none, some,
  List, [], ◌∷◌, if◌then◌else◌, Result, ok, err,
}
use godeye.Billing.Model.{PlanDefinition, plans, PaymentMode, once, subscription, Tables, Data}
use godeye.Billing.Access.{Cache}
use godeye.Billing.Payment.{Payment, EventKind, handle_paystack_event}

pub data PaymentMethod : Type 0 where
  card apple_pay mpesa : PaymentMethod

pub data PaystackChannel : Type 0 where
  mobile_money apple_pay_sheet : PaystackChannel

pub data CheckoutRefusal : Type 0 where
  not_configured method_unavailable no_email no_plan_configured plan_not_recognised :
      CheckoutRefusal
  unknown_plan checkout_failed : CheckoutRefusal

abbrev pub same_method : PaymentMethod → PaymentMethod → Bool
same_method card card = true
same_method apple_pay apple_pay = true
same_method mpesa mpesa = true
same_method _ _ = false

abbrev pub offers : List PaymentMethod → PaymentMethod → Bool
offers [] m = false
offers (x ∷ xs) m = if same_method x m then true else offers xs m

-- `env.paystack`
pub record PaystackConfig : Type 0 where
  pub configured : Bool
  pub methods : List PaymentMethod
  pub plan_codes : String → Option ℕ

-- Paystack's answer on a plan: `accepted` is `res.ok && data.status`.
pub record PlanAnswer : Type 0 where
  pub accepted : Bool
  pub amount : Option ℕ
  pub currency : Option String

-- What Paystack is asked to charge.
pub record Charge : Type 0 where
  pub plan : Option ℕ
  pub amount : ℕ
  pub currency : Option String
  pub channels : List PaystackChannel

pub record Metadata : Type 0 where
  pub org_id : ℕ
  pub plan_code : String
  pub user_id : ℕ
  pub method : PaymentMethod
  pub mode : PaymentMode

pub record CheckoutRequest : Type 0 where
  pub email : ℕ
  pub charge : Charge
  pub metadata : Metadata

-- Paystack's answer on a request: `accepted` is `res.ok && data.status`.
pub record InitAnswer : Type 0 where
  pub accepted : Bool
  pub authorization_url : Option ℕ
  pub reference : Option ℕ

pub record Started : Type 0 where
  pub url : ℕ
  pub reference : Option ℕ

abbrev pub find_plan : List PlanDefinition → String → Option PlanDefinition
find_plan [] code = none
find_plan (p ∷ ps) code = if str_eq p.code code then some p else find_plan ps code

unfoldable pub paystack_plan : PlanAnswer → Result CheckoutRefusal (ℕ × Option String)
paystack_plan answer = elim answer.amount [
  | none ↦ err plan_not_recognised
  | some zero ↦ err plan_not_recognised
  | some (suc n) ↦ if answer.accepted then ok (suc n, answer.currency) else err plan_not_recognised
]

unfoldable pub subscription_request :
    PaystackConfig → (ℕ → PlanAnswer) → String → Result CheckoutRefusal Charge
unfolding paystack_plan
subscription_request config ask code = elim (config.plan_codes code) [
  | none ↦ err no_plan_configured
  | some plan ↦ elim (paystack_plan (ask plan)) [
    | err e ↦ err e
    | ok (amount, currency) ↦
        ok (record { plan = some plan; amount = amount; currency = currency; channels = [] })
  ]
]

abbrev pub one_off_price : String → PaymentMethod → Result CheckoutRefusal (ℕ × String)
one_off_price code method = elim (find_plan plans code) [
  | none ↦ err unknown_plan
  | some p ↦ elim method [
    | mpesa ↦ ok (p.price_monthly_kes, "KES")
    | _ ↦ ok (p.price_monthly_usd, "USD")
  ]
]

abbrev channel_of : PaymentMethod → PaystackChannel
channel_of mpesa = mobile_money
channel_of _ = apple_pay_sheet

unfoldable pub one_off_request : String → PaymentMethod → Result CheckoutRefusal Charge
one_off_request code method = elim (one_off_price code method) [
  | err e ↦ err e
  | ok (amount, currency) ↦ ok (record {
    plan = none;
    amount = amount * 100;
    currency = some currency;
    channels = channel_of method ∷ [];
  })
]

abbrev pub mode_of : PaymentMethod → PaymentMode
mode_of card = subscription
mode_of _ = once

unfoldable pub charge_of :
    PaystackConfig → (ℕ → PlanAnswer) → String → PaymentMethod → Result CheckoutRefusal Charge
unfolding subscription_request one_off_request
charge_of config ask code card = subscription_request config ask code
charge_of config ask code apple_pay = one_off_request code apple_pay
charge_of config ask code mpesa = one_off_request code mpesa

-- The request that Paystack is sent, where one is.
unfoldable pub checkout_request :
    PaystackConfig
    → (ℕ → PlanAnswer)
    → (email : Option ℕ) → (org_id user_id : ℕ) → String
    → PaymentMethod
    → Result CheckoutRefusal CheckoutRequest
unfolding charge_of
checkout_request config ask email org_id user_id code method =
    if not config.configured
    then err not_configured
    else if not (offers config.methods method)
    then err method_unavailable
    else elim email [
      | none ↦ err no_email
      | some address ↦ elim (charge_of config ask code method) [
        | err e ↦ err e
        | ok charge ↦ ok (record {
          email = address;
          charge = charge;
          metadata = record {
            org_id = org_id;
            plan_code = code;
            user_id = user_id;
            method = method;
            mode = mode_of method;
          };
        })
      ]
    ]

unfoldable pub checkout :
    PaystackConfig
    → (ℕ → PlanAnswer)
    → (CheckoutRequest → InitAnswer)
    → (email : Option ℕ) → (org_id user_id : ℕ) → String
    → PaymentMethod
    → Result CheckoutRefusal (CheckoutRequest × Started)
unfolding checkout_request
checkout config ask start email org_id user_id code method =
    elim (checkout_request config ask email org_id user_id code method) [
      | err e ↦ err e
      | ok request ↦ elim (start request).authorization_url [
        | none ↦ err checkout_failed
        | some url ↦
            if (start request).accepted
            then ok (request, record { url = url; reference = (start request).reference })
            else err checkout_failed
      ]
    ]

-- The raw body and the header, where they are there; `hmac` is the hex text of the HMAC of a body.
unfoldable pub verify_paystack_signature :
    (configured : Bool) → (hmac : ℕ → Text) → Option ℕ → Option Text → Bool
verify_paystack_signature configured hmac none header = false
verify_paystack_signature configured hmac (some raw) none = false
verify_paystack_signature configured hmac (some raw) (some []) = false
verify_paystack_signature configured hmac (some raw) (some (c ∷ cs)) =
    configured && same_text (hmac raw) (c ∷ cs)

-- The webhook of Paystack. A body that carries a signature is parsed; the parser is `parse`.
unfoldable pub paystack :
    (T : Tables)
    → Data T
    → Cache
    → (now : ℕ) → (configured : Bool) → (hmac : ℕ → Text) → (parse : ℕ → EventKind × Payment)
    → Option ℕ
    → Option Text
    → Data T × Cache × Bool
unfolding verify_paystack_signature
paystack T d c now configured hmac parse none header = (d, c, false)
paystack T d c now configured hmac parse (some raw) header =
    let (kind, payment) = parse raw in
    let (d', c') = handle_paystack_event T d c now kind payment in
    if verify_paystack_signature configured hmac (some raw) header
    then (d', c', true)
    else (d, c, false)
