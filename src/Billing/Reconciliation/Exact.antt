-- ===== src/Billing/Reconciliation/Exact.antt =====
-- The report names exactly the payments that were lost.
use godeye.Prelude.{
  ℕ, ◌≤◌, ◌≡◌, refl, Bool, true, false, not, ◌&&◌, some, List, [], ◌∷◌, ◌==◌, arith, is_some, any,
  ok, Option-cases, Bool-cases, inl, inr, ap, ◌∙◌, sym,
}
use godeye.Db.{Each}
use godeye.Billing.Model.{PaymentApplication, same_value, Tables, Data}
use godeye.Billing.Reconciliation.{
  PaystackTransaction, Report, Charged, charged, is_reference, missing_of, among, reconcile,
}

-- A successful transaction of the reference, for a workspace.
unfoldable pub is_owed : ℕ → PaystackTransaction → Bool
is_owed k t = t.success && same_value t.reference (some k) && is_some t.org_id

is_named : ℕ → Charged → Bool
is_named k t = is_reference k t && is_some t.org_id

any-charged :
    (k : ℕ) (ts : List PaystackTransaction) → any (is_named k) (charged ts) ≡ any (is_owed k) ts
unfolding is_named is_owed charged
any-charged k [] = refl
any-charged k (t ∷ ts) = elim (Option-cases t.reference) [
  | inl unnamed ↦ ground (arith, any-charged k ts)
  | inr (r, has) ↦ ground (arith, any-charged k ts)
]

any-named :
    (k : ℕ) (ts : List Charged) → any (is_named k) ts ≡ true → any (is_reference k) ts ≡ true
unfolding is_named
any-named k [] h = ground arith
any-named k (t ∷ ts) h = ground (arith, any-named k ts)

any-missing_of :
    (seen : ℕ → Bool) (k : ℕ) (ts : List Charged)
    → any (λ m. m == k) (missing_of seen ts) ≡ (any (is_named k) ts && not (seen k))
unfolding is_named missing_of
any-missing_of seen k [] = refl
any-missing_of seen k (t ∷ ts) = elim (Bool-cases (t.reference == k)) [
  | inl this ↦
      let same : seen t.reference ≡ seen k = ap seen (ground arith) in
      ground (arith, any-missing_of seen k ts)
  | inr other ↦ ground (arith, any-missing_of seen k ts)
]

none_of {ℓ κ} :
    {A : Type κ} (P : A → Type ℓ) (q : A → Bool) (l : List A)
    → Each P l
    → ((x : A) → P x → q x ≡ false)
    → any q l ≡ false
none_of P q [] each fails = refl
none_of P q (x ∷ l) each fails = ground (arith, fails x each.0, none_of P q l each.1 fails)

module _ (T : Tables) where
  open T use {payments as Payments}

  any-known :
      (d : Data T) (ts : List Charged) (k : ℕ)
      → Payments.count (among T ts) d.payments ≤ 500
      → any (is_reference k) ts ≡ true
      → any (λ a. a.reference == k) (Payments.find_many (among T ts) 500 d.payments)
        ≡ is_some (Payments.find_unique d.payments k)
  any-known d ts k le asked = elim (Option-cases (Payments.find_unique d.payments k)) [
    | inr (a, at) ↦
        let key = Payments.find_unique-key d.payments k a at in
        let within : among T ts a ≡ true = ap (λ r. any (is_reference r) ts) key ∙ asked in
        Payments.find_many-all (among T ts) (λ a. a.reference == k) 500 d.payments k a le at within
          (ground arith)
        ∙ ground arith
    | inl missing ↦
        none_of _ (λ a. a.reference == k) (Payments.find_many (among T ts) 500 d.payments)
          (Payments.find_many-sound (among T ts) 500 d.payments)
          (λ a is. elim (Bool-cases (a.reference == k)) [
            | inr other ↦ other
            | inl this ↦
                let here =
                  ap (Payments.find_unique d.payments) (let e : k ≡ a.reference = ground arith in e)
                  ∙ is.1 in
                ground arith
          ])
        ∙ ground arith
  ]

  -- The report names exactly the payments that were lost: the references of the successful
  -- transactions for a workspace that have no row, where the rows of the transactions asked for are at
  -- most 500.
  pub reconcile_exact :
      (d : Data T) (answer : List PaystackTransaction) (report : Report) (k : ℕ)
      → Payments.count (among T (charged answer)) d.payments ≤ 500
      → reconcile T d (some answer) ≡ ok report
      → any (λ m. m == k) report.missing
        ≡ (any (is_owed k) answer && not (is_some (Payments.find_unique d.payments k)))
  unfolding reconcile
  reconcile_exact d answer report k le e =
      let ts = charged answer in
      let known = Payments.find_many (among T ts) 500 d.payments in
      let seen = λ (r : ℕ). any (λ (a : PaymentApplication). a.reference == r) known in
      let named = any-missing_of seen k ts in
      let owed = any-charged k answer in
      let is : missing_of seen ts ≡ report.missing = ground arith in
      sym (ap (any (λ m. m == k)) is) ∙ named ∙ elim (Bool-cases (any (is_named k) ts)) [
        | inr not_named ↦ ground arith
        | inl has ↦ let found = any-known d ts k le (any-named k ts has) in ground arith
      ]
