-- ===== src/Billing/Payment/Cases.antt =====
-- The outcomes of the transaction and of `applyPayment`, as records of what was read and written.
use godeye.Prelude.{
  ℕ, ◌≡◌, refl, ◌⊎◌, inl, inr, true, false, some, arith, Option-cases, String, ◌==◌,
}
use godeye.Billing.Model.{Plan, Tables, Data}
use godeye.Billing.Access.{Cache, cache_delete}
use godeye.Billing.Access.Sweep.{plan_by_code}
use godeye.Billing.Payment.{
  Payment, marker, set_paid_until, upsert, paid_until, transaction_from, transaction, apply_payment,
}

module _ (T : Tables) where
  open T use {subs as Subs, payments as Payments}

  -- A transaction that was committed.
  pub record Committed (d d' : Data T) (now org_id : ℕ) (code : String) (r : ℕ) (plan : Plan)
      (p : Payment) : Type 0 where
    pub marked : Payments.Rows
    pub subs : Subs.Rows
    pub created : Payments.create (marker org_id code r p) d.payments ≡ some marked
    pub upserted :
        upsert T d org_id plan p (paid_until now p (Subs.find_unique d.subs org_id)) ≡ some subs
    pub result : d' ≡ record d {
      subs = subs;
      payments =
          Payments.update_many
            (λ a. a.reference == r)
            (set_paid_until (paid_until now p (Subs.find_unique d.subs org_id)))
            (λ a. refl)
            marked;
    }

  pub transaction_cases :
      (d d' : Data T) (now org_id : ℕ) (code : String) (r : ℕ) (plan : Plan) (p : Payment)
      → transaction T d now org_id code r plan p ≡ some d'
      → Committed d d' now org_id code r plan p
  unfolding transaction transaction_from
  transaction_cases d d' now org_id code r plan p e =
      elim (Option-cases (Payments.create (marker org_id code r p) d.payments)) [
        | inl f ↦ absurd (ground arith)
        | inr (marked, f) ↦
            elim (Option-cases
              (upsert T d org_id plan p (paid_until now p (Subs.find_unique d.subs org_id)))) [
                | inl g ↦ absurd (ground arith)
                | inr (subs, g) ↦ record {
                  marked = marked;
                  subs = subs;
                  created = f;
                  upserted = g;
                  result = ground arith;
                }
              ]
      ]

  -- A payment that was applied.
  pub record Applied (d : Data T) (c : Cache) (now : ℕ) (p : Payment) : Type 0 where
    pub org_id : ℕ
    pub code : String
    pub reference : ℕ
    pub plan : Plan
    pub after : Data T
    pub names_org : p.org_id ≡ some org_id
    pub names_code : p.plan_code ≡ some code
    pub names_reference : p.reference ≡ some reference
    pub found_plan : plan_by_code T d code ≡ some plan
    pub committed : Committed d after now org_id code reference plan p
    pub outcome : apply_payment T d c now p ≡ (after, cache_delete c org_id, true)

  pub apply_cases :
      (d : Data T) (c : Cache) (now : ℕ) (p : Payment)
      → (apply_payment T d c now p ≡ (d, c, false)) ⊎ Applied d c now p
  unfolding apply_payment
  apply_cases d c now p = elim (Option-cases p.org_id) [
    | inl a ↦ inl (ground arith)
    | inr (org_id, a) ↦ elim (Option-cases p.plan_code) [
      | inl b ↦ inl (ground arith)
      | inr (code, b) ↦ elim (Option-cases p.reference) [
        | inl r ↦ inl (ground arith)
        | inr (reference, r) ↦ elim (Option-cases (plan_by_code T d code)) [
          | inl q ↦ inl (ground arith)
          | inr (plan, q) ↦ elim (Option-cases (transaction T d now org_id code reference plan p)) [
            | inl t ↦ inl (ground arith)
            | inr (after, t) ↦ inr (record {
              org_id = org_id;
              code = code;
              reference = reference;
              plan = plan;
              after = after;
              names_org = a;
              names_code = b;
              names_reference = r;
              found_plan = q;
              committed = transaction_cases d after now org_id code reference plan p t;
              outcome = ground arith;
            })
          ]
        ]
      ]
    ]
  ]
