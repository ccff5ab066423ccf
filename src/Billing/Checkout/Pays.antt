-- ===== src/Billing/Checkout/Pays.antt =====
-- What a checkout charges for is what its payment gives.
use godeye.Prelude.{
  String, ℕ, ◌+◌, ◌*◌, max, ◌≡◌, refl, Bool, true, false, Option, none, some, arith, Result, ok, ap,
  ◌∙◌, sym, Option-cases, Bool-cases, Result-cases, inl, inr, if◌then◌else◌, get_or,
}
use godeye.Billing.Model.{
  Organization, plans, PlanDefinition, PaymentMode, once, subscription, SubscriptionStatus,
  Subscription, Plan, PaymentApplication, payment_clash, Tables, Data,
}
use godeye.Billing.Access.{Cache}
use godeye.Billing.Access.Sweep.{plan_by_code}
use godeye.Billing.Payment.{
  Payment, marker, paid_until, paid_fields, blank, apply_payment, one_month_ms, or_keep,
}
use godeye.Billing.Payment.First.{apply_payment-new}
use godeye.Billing.Payment.Cases.{apply_cases}
use godeye.Billing.Payment.Credit.{end_of, find-Applied}
use godeye.Billing.Checkout.{
  PaymentMethod, card, apple_pay, mpesa, PaystackConfig, PlanAnswer, Charge, CheckoutRequest,
  InitAnswer, Started, find_plan, paystack_plan, subscription_request, one_off_request, charge_of,
  checkout_request, checkout, mode_of, offers,
}

abbrev is_once_mode : PaymentMode → Bool
is_once_mode once = true
is_once_mode subscription = false

-- The payment of a request, which Paystack gives the metadata of the request back with.
pub record IsPaymentOf (q : CheckoutRequest) (p : Payment) : Type 0 where
  pub names_org : p.org_id ≡ some q.metadata.org_id
  pub names_code : p.plan_code ≡ some q.metadata.plan_code
  pub names_mode : p.is_once ≡ is_once_mode q.metadata.mode

-- What a plan costs: Paystack's own figure where it renews, and else that of the catalogue.
abbrev pub IsPriced : PaystackConfig → (ℕ → PlanAnswer) → String → PaymentMethod → Charge → Type 0
IsPriced config ask code card charge =
    (plan : ℕ) × (config.plan_codes code ≡ some plan)
    × (charge.plan ≡ some plan)
    × ((ask plan).amount ≡ some charge.amount)
IsPriced config ask code apple_pay charge =
    (p : PlanDefinition) × (find_plan plans code ≡ some p)
    × (charge.plan ≡ none)
    × (charge.amount ≡ p.price_monthly_usd * 100)
    × (charge.currency ≡ some "USD")
IsPriced config ask code mpesa charge =
    (p : PlanDefinition) × (find_plan plans code ≡ some p)
    × (charge.plan ≡ none)
    × (charge.amount ≡ p.price_monthly_kes * 100)
    × (charge.currency ≡ some "KES")

charge_of-IsPriced :
    (config : PaystackConfig) (ask : ℕ → PlanAnswer) (code : String) (method : PaymentMethod)
    (charge : Charge)
    → charge_of config ask code method ≡ ok charge
    → IsPriced config ask code method charge
unfolding charge_of subscription_request one_off_request paystack_plan
charge_of-IsPriced config ask code card charge e = elim (Option-cases (config.plan_codes code)) [
  | inl missing ↦ ground arith
  | inr (plan, has) ↦ elim (Option-cases (ask plan).amount) [
    | inl missing ↦ ground arith
    | inr (amount, is) ↦ (plan, has, ground arith, ground arith)
  ]
]
charge_of-IsPriced config ask code apple_pay charge e = elim (Option-cases (find_plan plans code)) [
  | inl missing ↦ ground arith
  | inr (p, is) ↦ (p, is, ground arith, ground arith, ground arith)
]
charge_of-IsPriced config ask code mpesa charge e = elim (Option-cases (find_plan plans code)) [
  | inl missing ↦ ground arith
  | inr (p, is) ↦ (p, is, ground arith, ground arith, ground arith)
]

-- The request of a checkout that was started.
checkout_sends :
    (config : PaystackConfig) (ask : ℕ → PlanAnswer) (start : CheckoutRequest → InitAnswer)
    (email : Option ℕ) (org_id user_id : ℕ) (code : String) (method : PaymentMethod)
    (q : CheckoutRequest) (st : Started)
    → checkout config ask start email org_id user_id code method ≡ ok (q, st)
    → (charge_of config ask code method ≡ ok q.charge)
      × (q.metadata.org_id ≡ org_id)
      × (q.metadata.plan_code ≡ code)
      × (q.metadata.mode ≡ mode_of method)
unfolding checkout checkout_request
checkout_sends config ask start email org_id user_id code method q st e =
    elim (Bool-cases config.configured) [
      | inr off ↦ ground arith
      | inl on ↦ elim (Bool-cases (offers config.methods method)) [
        | inr unoffered ↦ ground arith
        | inl offered ↦ elim (Option-cases email) [
          | inl missing ↦ ground arith
          | inr (address, there) ↦ elim (Result-cases (charge_of config ask code method)) [
            | inl (why, refused) ↦ ground arith
            | inr (charge, priced) ↦
                let request : CheckoutRequest = record {
                  email = address;
                  charge = charge;
                  metadata = record {
                    org_id = org_id;
                    plan_code = code;
                    user_id = user_id;
                    method = method;
                    mode = mode_of method;
                  };
                } in
                elim (Option-cases (start request).authorization_url) [
                  | inl nowhere ↦ ground arith
                  | inr (url, at) ↦ elim (Bool-cases (start request).accepted) [
                    | inr no_good ↦ ground arith
                    | inl good ↦
                        let same : request ≡ q = ground arith in
                        (
                          priced ∙ ap (λ (q : CheckoutRequest). Result.ok q.charge) same,
                          sym (ap (λ (q : CheckoutRequest). q.metadata.org_id) same),
                          sym (ap (λ (q : CheckoutRequest). q.metadata.plan_code) same),
                          sym (ap (λ (q : CheckoutRequest). q.metadata.mode) same),
                        )
                  ]
                ]
          ]
        ]
      ]
    ]

abbrev pub period_of : Option Subscription → Option ℕ
period_of none = none
period_of (some s) = s.current_period_end

module _ (T : Tables) where
  open T use {orgs as Orgs, subs as Subs, payments as Payments}

  -- A checkout that is started charges what the plan costs: Paystack's own figure, under its plan, for
  -- a card, and else the price of the catalogue in the currency of the method. And what is paid for it
  -- is given: the payment that comes back with the metadata of the request is applied, if the workspace
  -- and the plan of the checkout still have their rows, no payment with its reference or its event was
  -- recorded before, and no other transaction overlaps its own. The workspace of the checkout is then
  -- active on the plan of the checkout, and a month that was bought outright ends 31 days after the
  -- later of now and the end of the period before.
  pub checkout-apply_payment :
      (config : PaystackConfig) (ask : ℕ → PlanAnswer) (start : CheckoutRequest → InitAnswer)
      (email : Option ℕ) (org_id user_id : ℕ) (code : String) (method : PaymentMethod)
      (q : CheckoutRequest) (st : Started) (d : Data T) (c : Cache) (now r : ℕ) (plan : Plan)
      (p : Payment) (o : Organization)
      → checkout config ask start email org_id user_id code method ≡ ok (q, st)
      → IsPaymentOf q p
      → p.reference ≡ some r
      → Orgs.find_unique d.orgs org_id ≡ some o
      → plan_by_code T d code ≡ some plan
      → ((k : ℕ) (a : PaymentApplication)
          → Payments.find_unique d.payments k ≡ some a
          → payment_clash (marker org_id code r p) a ≡ false)
      → IsPriced config ask code method q.charge
        × ((apply_payment T d c now p).2 ≡ true)
        × ((s : Subscription) × (Subs.find_unique (apply_payment T d c now p).0.subs org_id
              ≡ some s)
            × (s.plan_id ≡ plan.id)
            × (s.status ≡ SubscriptionStatus.active)
            × (s.current_period_end ≡ (
                if is_once_mode (mode_of method)
                then some (max now (end_of (Subs.find_unique d.subs org_id)) + one_month_ms)
                else or_keep p.next_payment_date (period_of (Subs.find_unique d.subs org_id)))))
  unfolding paid_until paid_fields blank
  checkout-apply_payment config ask start email org_id user_id code method q st d c now r plan p o e
        of f there_is has new =
      let (charges, of_org, of_code, of_mode) =
        checkout_sends config ask start email org_id user_id code method q st e in
      let applied =
        apply_payment-new T d c now org_id r code plan p (of.names_org ∙ ap some of_org)
          (of.names_code ∙ ap some of_code) f has new in
      (
        charge_of-IsPriced config ask code method q.charge charges,
        applied,
        elim (apply_cases T d c now p) [
          | inl same ↦ absurd (ground (arith, same))
          | inr a ↦
              let row = find-Applied T a org_id in
              let named : a.org_id ≡ org_id = ground (arith, a.names_org, of.names_org) in
              let chosen : a.code ≡ code = ground (arith, a.names_code, of.names_code) in
              let planned : a.plan ≡ plan = ground (arith, a.found_plan) in
              let mode = of.names_mode in
              let before = Subs.find_unique d.subs org_id in
              let after : Subscription =
                paid_fields plan p (paid_until now p before) (get_or before (blank org_id plan)) in
              let there : Subs.find_unique a.after.subs org_id ≡ some after = ground arith in
              (
                after,
                ap (λ (m : Data T × Cache × Bool). Subs.find_unique m.0.subs org_id) a.outcome
                    ∙ there,
                refl,
                refl,
                elim (Option-cases before) [
                  | inl fresh ↦ ground arith
                  | inr (s, old) ↦ ground arith
                ],
              )
        ],
      )
