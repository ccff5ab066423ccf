-- ===== src/Billing/Payment/First.antt =====
-- A payment whose reference and event are new is applied.
use godeye.Prelude.{
  String, ℕ, ◌≡◌, refl, true, false, Option, some, arith, ◌==◌, Option-cases, inl, inr,
}
use godeye.Billing.Model.{PaymentApplication, payment_clash, Plan, Tables, Data}
use godeye.Billing.Access.{Cache}
use godeye.Billing.Access.Sweep.{plan_by_code}
use godeye.Billing.Payment.{
  Payment, marker, paid_until, paid_fields, blank, upsert, transaction_from, transaction,
  apply_payment,
}

module _ (T : Tables) where
  open T use {subs as Subs, payments as Payments}

  upsert-some :
      (d : Data T) (org_id : ℕ) (plan : Plan) (p : Payment) (until : Option ℕ)
      → (rows : Subs.Rows) × (upsert T d org_id plan p until ≡ some rows)
  unfolding upsert paid_fields blank
  upsert-some d org_id plan p until = elim (Option-cases (Subs.find_unique d.subs org_id)) [
    | inl missing ↦
        let row = paid_fields plan p until (blank org_id plan) in
        let (rows, made) =
          Subs.create-new row d.subs (λ j s f. ground (arith, Subs.find_unique-key d.subs j s f)) in
        (rows, ground arith)
    | inr (s, found) ↦ (
      Subs.update_many (λ s. s.org_id == org_id) (paid_fields plan p until) (λ s. refl) d.subs,
      ground arith,
    )
  ]

  -- A reference that was not applied before is applied.
  pub apply_payment-new :
      (d : Data T) (c : Cache) (now org_id r : ℕ) (code : String) (plan : Plan) (p : Payment)
      → p.org_id ≡ some org_id
      → p.plan_code ≡ some code
      → p.reference ≡ some r
      → plan_by_code T d code ≡ some plan
      → ((k : ℕ) (a : PaymentApplication)
          → Payments.find_unique d.payments k ≡ some a
          → payment_clash (marker org_id code r p) a ≡ false)
      → (apply_payment T d c now p).2 ≡ true
  unfolding apply_payment transaction transaction_from
  apply_payment-new d c now org_id r code plan p o q f has new =
      let (marked, made) = Payments.create-new (marker org_id code r p) d.payments new in
      let (rows, upserted) =
        upsert-some d org_id plan p (paid_until now p (Subs.find_unique d.subs org_id)) in
      ground arith
