-- ===== src/Billing/Reconciliation.antt =====
-- apps/api/src/billing/reconciliation.service.ts: which payments Paystack knows of and the tables do not.
-- Paystack's answer is an argument, `none` where the list could not be had. The timers, the leader
-- election around the job and the gauge are left out.
pub mod Exact
mod Examples
use mathlib.Core.Option
use godeye.Prelude.{
  ℕ, ◌≤◌, ◌≡◌, refl, Bool, true, false, not, ◌&&◌, ◌||◌, Option, none, some, List, [], ◌∷◌, ◌==◌,
  arith, is_some, any, length, if◌then◌else◌, Result, ok, err, Option-cases, Bool-cases, inl, inr,
  ap, ◌∙◌,
}
use godeye.Db.{Each}
use godeye.Billing.Model.{PaymentApplication, Tables, Data}

-- A transaction of the list. `org_id` is `metadata?.orgId`.
pub record PaystackTransaction : Type 0 where
  pub reference : Option ℕ
  pub success : Bool
  pub org_id : Option ℕ

pub record Report : Type 0 where
  pub checked : ℕ
  pub missing : List ℕ

-- A successful transaction with its reference.
pub record Charged : Type 0 where
  pub reference : ℕ
  pub org_id : Option ℕ

pub data ListFailed : Type 0 where
  list_failed : ListFailed

unfoldable pub charged : List PaystackTransaction → List Charged
charged [] = []
charged (t ∷ ts) =
    let rest = charged ts in
    elim t.reference [
      | none ↦ rest
      | some r ↦ if t.success then record { reference = r; org_id = t.org_id } ∷ rest else rest
    ]

abbrev pub is_reference : ℕ → Charged → Bool
is_reference r t = t.reference == r

unfoldable pub missing_of : (ℕ → Bool) → List Charged → List ℕ
missing_of seen [] = []
missing_of seen (t ∷ ts) =
    let rest = missing_of seen ts in
    if not (seen t.reference) && is_some t.org_id then t.reference ∷ rest else rest

module _ (T : Tables) where
  open T use {payments as Payments}

  -- `reference: { in: references }`
  abbrev pub among : List Charged → PaymentApplication → Bool
  among transactions a = any (is_reference a.reference) transactions

  unfoldable pub reconcile : Data T → Option (List PaystackTransaction) → Result ListFailed Report
  unfolding charged missing_of
  reconcile d none = err list_failed
  reconcile d (some answer) =
      let transactions = charged answer in
      let known = Payments.find_many (among transactions) 500 d.payments in
      ok (record {
        checked = length transactions;
        missing = missing_of (λ r. any (λ a. a.reference == r) known) transactions;
      })
