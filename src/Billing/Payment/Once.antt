-- ===== src/Billing/Payment/Once.antt =====
-- A payment is applied at most once, whichever of the webhook and the browser comes first.
use godeye.Prelude.{
  ℕ, ◌≡◌, refl, inl, inr, Bool, true, false, Option, none, some, List, [], ◌∷◌, arith, ◌==◌,
  if◌then◌else◌, Option-cases, Bool-cases, is_some, String,
}
use mathlib.Core.Option
use mathlib.Core.Path.{subst}
use godeye.Db.{patch}
use godeye.Billing.Model.{Plan, Tables, Data, same_value}
use godeye.Billing.Access.{Cache}
use godeye.Billing.Payment.{
  Payment, EventKind, charge_success, subscription_create, subscription_disable,
  subscription_not_renew, other, marker, set_paid_until, paid_until, apply_payment, verify_payment,
  cancel, handle_paystack_event,
}
use godeye.Billing.Payment.Cases.{Committed, apply_cases}

-- A call that reaches the payment code, with the time of the call: a webhook, or the browser
-- that is back from the checkout, with Paystack's answer to it.
pub data Call : Type 0 where
  webhook : ℕ → EventKind → Payment → Call
  browser : ℕ → Bool → ℕ → Option (Bool × Payment) → Call

-- The reference that a call would apply.
abbrev pub pays : Call → Option ℕ
pays (webhook now charge_success p) = p.reference
pays (webhook now subscription_create p) = p.reference
pays (browser now configured org_id (some (success, p))) = p.reference
pays _ = none

abbrev pub without_reference : ℕ → List Call → List Call
without_reference r [] = []
without_reference r (call ∷ calls) =
    if same_value (pays call) (some r)
    then without_reference r calls
    else call ∷ without_reference r calls

module _ (T : Tables) where
  open T use {subs as Subs, payments as Payments}

  -- The reference stands in the ledger.
  abbrev pub IsApplied : Data T → ℕ → Type 0
  IsApplied d r = is_some (Payments.find_unique d.payments r) ≡ true

  module _ {d d' : Data T} {now org_id : ℕ} {code : String} {r : ℕ} {plan : Plan} {p : Payment}
      (committed : Committed T d d' now org_id code r plan p) where
    find-committed :
        (j : ℕ)
        → Payments.find_unique d'.payments j
          ≡ Option.map
              (patch
                (λ a. a.reference == r)
                (set_paid_until (paid_until now p (Subs.find_unique d.subs org_id))))
              (if r == j then some (marker org_id code r p) else Payments.find_unique d.payments j)
    unfolding marker
    find-committed j = rw committed.result (
        rw Payments.find_unique-update_many (
          rw
            (Payments.find_unique-create (marker org_id code r p) d.payments committed.marked j
              committed.created)
            refl))

    transaction-keeps : (j : ℕ) → IsApplied d j → IsApplied d' j
    transaction-keeps j h = ground (arith, find-committed j)

    transaction-marks : IsApplied d' r
    transaction-marks = ground (arith, find-committed r)

    transaction-fresh : IsApplied d r → ⊥
    unfolding marker
    transaction-fresh h = elim (Option-cases (Payments.find_unique d.payments r)) [
      | inl f ↦ cc
      | inr (a, f) ↦ ground (
        arith,
        committed.created,
        Payments.create-clash (marker org_id code r p) d.payments r a f,
        Payments.find_unique-key d.payments r a f,
      )
    ]

  -- A payment whose reference is in the ledger changes nothing and reports that it did not apply.
  apply_payment-IsApplied :
      (d : Data T) (c : Cache) (now : ℕ) (p : Payment) (r : ℕ)
      → p.reference ≡ some r
      → IsApplied d r
      → apply_payment T d c now p ≡ (d, c, false)
  apply_payment-IsApplied d c now p r e h = elim (apply_cases T d c now p) [
    | inl same ↦ same
    | inr a ↦ absurd (transaction-fresh a.committed (ground (arith, a.names_reference)))
  ]

  apply_payment-keeps :
      (d : Data T) (c : Cache) (now : ℕ) (p : Payment) (j : ℕ)
      → IsApplied d j
      → IsApplied (apply_payment T d c now p).0 j
  apply_payment-keeps d c now p j h = elim (apply_cases T d c now p) [
    | inl same ↦ rw same h
    | inr a ↦ rw a.outcome (transaction-keeps a.committed j h)
  ]

  apply_payment-marks :
      (d : Data T) (c : Cache) (now : ℕ) (p : Payment) (r : ℕ)
      → p.reference ≡ some r
      → (apply_payment T d c now p).2 ≡ true
      → IsApplied (apply_payment T d c now p).0 r
  apply_payment-marks d c now p r e h = elim (apply_cases T d c now p) [
    | inl same ↦ absurd (ground (arith, same))
    | inr a ↦ rw a.outcome (
        subst (IsApplied a.after) (ground (arith, a.names_reference))
          (transaction-marks a.committed))
  ]

  pub step : Data T × Cache → Call → Data T × Cache
  step (d, c) (webhook now kind p) = handle_paystack_event T d c now kind p
  step (d, c) (browser now configured org_id answer) =
      let out = verify_payment T d c now configured org_id answer in (out.0, out.1)

  pub run : Data T × Cache → List Call → Data T × Cache
  run s [] = s
  run s (call ∷ calls) = run (step s call) calls

  step-IsApplied :
      (d : Data T) (c : Cache) (call : Call) (r : ℕ)
      → same_value (pays call) (some r) ≡ true
      → IsApplied d r
      → step (d, c) call ≡ (d, c)
  unfolding step handle_paystack_event verify_payment
  step-IsApplied d c (webhook now charge_success p) r e h =
      ground (arith, apply_payment-IsApplied d c now p r)
  step-IsApplied d c (webhook now subscription_create p) r e h =
      ground (arith, apply_payment-IsApplied d c now p r)
  step-IsApplied d c (webhook now subscription_disable p) r e h = cc
  step-IsApplied d c (webhook now subscription_not_renew p) r e h = cc
  step-IsApplied d c (webhook now other p) r e h = cc
  step-IsApplied d c (browser now configured org_id none) r e h = cc
  step-IsApplied d c (browser now configured org_id (some (success, p))) r e h =
      ground (arith, apply_payment-IsApplied d c now p r)

  cancel-payments :
      (d : Data T) (c : Cache) (code : Option ℕ) → (cancel T d c code).0.payments ≡ d.payments
  unfolding cancel
  cancel-payments d c none = refl
  cancel-payments d c (some code) = ground arith

  step-keeps :
      (d : Data T) (c : Cache) (call : Call) (r : ℕ)
      → IsApplied d r
      → IsApplied (step (d, c) call).0 r
  unfolding step handle_paystack_event verify_payment
  step-keeps d c (webhook now charge_success p) r h = apply_payment-keeps d c now p r h
  step-keeps d c (webhook now subscription_create p) r h = apply_payment-keeps d c now p r h
  step-keeps d c (webhook now subscription_disable p) r h =
      ground (arith, cancel-payments d c p.subscription_code)
  step-keeps d c (webhook now subscription_not_renew p) r h =
      ground (arith, cancel-payments d c p.subscription_code)
  step-keeps d c (webhook now other p) r h = h
  step-keeps d c (browser now configured org_id none) r h = ground arith
  step-keeps d c (browser now configured org_id (some (success, p))) r h =
      ground (arith, apply_payment-keeps d c now p r h)

  run-without_reference :
      (s : Data T × Cache) (calls : List Call) (r : ℕ)
      → IsApplied s.0 r
      → run s calls ≡ run s (without_reference r calls)
  unfolding run
  run-without_reference s [] r h = refl
  run-without_reference (d, c) (call ∷ calls) r h =
      elim (Bool-cases (same_value (pays call) (some r))) [
        | inl again ↦
            rw (again, step-IsApplied d c call r again h) (run-without_reference (d, c) calls r h)
        | inr fresh ↦
            rw fresh (run-without_reference (step (d, c) call) calls r (step-keeps d c call r h))
      ]

  -- Once a payment has been applied, every later delivery of its reference, by webhook or by the
  -- browser and among any other calls, might as well not have happened: tables and cache end up
  -- the same without it.
  pub applied-once :
      (d : Data T) (c : Cache) (now : ℕ) (p : Payment) (r : ℕ) (calls : List Call)
      → p.reference ≡ some r
      → (apply_payment T d c now p).2 ≡ true
      → let after : Data T × Cache =
          ((apply_payment T d c now p).0, (apply_payment T d c now p).1) in
        run after calls ≡ run after (without_reference r calls)
  applied-once d c now p r calls e h =
      run-without_reference ((apply_payment T d c now p).0, (apply_payment T d c now p).1) calls r
        (apply_payment-marks d c now p r e h)
