-- ===== src/Billing/Payment/Overlap.antt =====
-- Two payments of one workspace whose transactions overlap.
use godeye.Prelude.{ℕ, ◌+◌, max, ◌≡◌, true, some, arith, String, Option, Option-cases, inl, inr}
use godeye.Billing.Model.{Subscription, Plan, Tables, Data}
use godeye.Billing.Payment.{
  Payment, one_month_ms, marker, paid_until, paid_fields, upsert, transaction_from,
}
use godeye.Billing.Payment.Credit.{end_of, find-upsert}

module _ (T : Tables) where
  open T use {subs as Subs, payments as Payments}

  transaction_from-end :
      (d d' : Data T) (existing : Option Subscription) (now k r : ℕ) (code : String) (plan : Plan)
      (p : Payment)
      → p.is_once ≡ true
      → transaction_from T d existing now k code r plan p ≡ some d'
      → end_of (Subs.find_unique d'.subs k) ≡ max now (end_of existing) + one_month_ms
  unfolding transaction_from paid_until paid_fields
  transaction_from-end d d' existing now k r code plan p w e =
      elim (Option-cases (Payments.create (marker k code r p) d.payments)) [
        | inl failed ↦ ground arith
        | inr (marked, made) ↦
            elim (Option-cases (upsert T d k plan p (paid_until now p existing))) [
              | inl failed ↦ ground arith
              | inr (subs, written) ↦
                  let row = find-upsert T d k plan p (paid_until now p existing) subs k written in
                  elim (Option-cases existing) [
                    | inl nothing ↦ ground arith
                    | inr (s, had) ↦ ground arith
                  ]
            ]
      ]

  -- Where the transactions of two one-off payments of a workspace overlap, so that both read the row
  -- that stood before either, only one of the two months is bought: both are applied, and the end is 31
  -- days after the later of the second payment and the end before both.
  pub overlap-loses :
      (d d1 d2 : Data T) (now now' k r r' : ℕ) (code code' : String) (plan plan' : Plan)
      (p q : Payment)
      → p.is_once ≡ true
      → q.is_once ≡ true
      → transaction_from T d (Subs.find_unique d.subs k) now k code r plan p ≡ some d1
      → transaction_from T d1 (Subs.find_unique d.subs k) now' k code' r' plan' q ≡ some d2
      → (end_of (Subs.find_unique d1.subs k)
          ≡ max now (end_of (Subs.find_unique d.subs k)) + one_month_ms)
        × (end_of (Subs.find_unique d2.subs k)
            ≡ max now' (end_of (Subs.find_unique d.subs k)) + one_month_ms)
  overlap-loses d d1 d2 now now' k r r' code code' plan plan' p q w w' e e' = (
    transaction_from-end d d1 (Subs.find_unique d.subs k) now k r code plan p w e,
    transaction_from-end d1 d2 (Subs.find_unique d.subs k) now' k r' code' plan' q w' e',
  )
