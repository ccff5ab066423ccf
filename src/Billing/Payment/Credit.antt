-- ===== src/Billing/Payment/Credit.antt =====
-- What a payment buys.
use godeye.Prelude.{
  false, not, ◌&&◌, ℕ, suc, ◌+◌, ◌*◌, ◌≤◌, max, ◌≡◌, ◌≢◌, refl, inl, inr, true, false, Option, none,
  some, List, [], ◌∷◌, arith, ◌==◌, if◌then◌else◌, Option-cases, get_or, leb,
}
use mathlib.Core.Option
use godeye.Db.{patch}
use godeye.Billing.Model.{is_exempt, same_value, Organization, Subscription, Plan, Tables, Data}
use godeye.Billing.Access.{Cache, decide, org_view}
use godeye.Billing.Payment.{
  Payment, one_month_ms, paid_until, paid_fields, blank, upsert, apply_payment,
}
use godeye.Billing.Payment.Cases.{Applied, apply_cases}

-- The end of the paid period of a workspace, 0 if there is none.
abbrev pub end_of : Option Subscription → ℕ
end_of none = 0
end_of (some s) = get_or s.current_period_end 0

module _ (T : Tables) where
  open T use {orgs as Orgs, subs as Subs}

  pub find-upsert :
      (d : Data T) (org_id : ℕ) (plan : Plan) (p : Payment) (until : Option ℕ) (subs : Subs.Rows)
      (k : ℕ)
      → upsert T d org_id plan p until ≡ some subs
      → Subs.find_unique subs k ≡ (
          if org_id == k
          then some (
              paid_fields plan p until
                (get_or (Subs.find_unique d.subs org_id) (blank org_id plan)))
          else Subs.find_unique d.subs k)
  unfolding upsert blank paid_fields
  find-upsert d org_id plan p until subs k e =
      elim (Option-cases (Subs.find_unique d.subs org_id)) [
        | inl f ↦ ground (
          arith,
          Subs.find_unique-create (paid_fields plan p until (blank org_id plan)) d.subs subs k,
        )
        | inr (s, f) ↦ elim (Option-cases (Subs.find_unique d.subs k)) [
          | inl g ↦ ground (arith, updated)
          | inr (r, g) ↦ ground (
            arith,
            updated,
            Subs.find_unique-key d.subs org_id s f,
            Subs.find_unique-key d.subs k r g,
          )
        ]
      ]
    where
      updated :
          Subs.find_unique
            (Subs.update_many
              (λ r. r.org_id == org_id)
              (paid_fields plan p until)
              (λ r. refl)
              d.subs)
            k
          ≡ Option.map
              (patch (λ r. r.org_id == org_id) (paid_fields plan p until))
              (Subs.find_unique d.subs k)
      updated =
          Subs.find_unique-update_many (λ r. r.org_id == org_id) (paid_fields plan p until)
            (λ r. refl) d.subs k

  -- The subscription of every workspace after a payment that was applied.
  pub find-Applied :
      {d : Data T} {c : Cache} {now : ℕ} {p : Payment} (a : Applied T d c now p) (k : ℕ)
      → Subs.find_unique a.after.subs k ≡ (
          if a.org_id == k
          then some (
              paid_fields a.plan p
                (paid_until now p (Subs.find_unique d.subs a.org_id))
                (get_or (Subs.find_unique d.subs a.org_id) (blank a.org_id a.plan)))
          else Subs.find_unique d.subs k)
  find-Applied {d} {now} {p} a k = ground (
    arith,
    a.committed.result,
    find-upsert d a.org_id a.plan p (paid_until now p (Subs.find_unique d.subs a.org_id))
        a.committed.subs k a.committed.upserted,
  )

  pub orgs-Applied :
      {d : Data T} {c : Cache} {now : ℕ} {p : Payment} (a : Applied T d c now p)
      → a.after.orgs ≡ d.orgs
  orgs-Applied a = rw a.committed.result

  -- A one-off payment that is applied, for a workspace that is not exempt: it is unlocked for
  -- exactly 31 days from the later of now and the end of the period that it had.
  pub once-locked :
      (d : Data T) (c : Cache) (now k : ℕ) (p : Payment) (o : Organization)
      → p.is_once ≡ true
      → p.org_id ≡ some k
      → Orgs.find_unique d.orgs k ≡ some o
      → is_exempt o.slug ≡ false
      → (apply_payment T d c now p).2 ≡ true
      → (t : ℕ)
      → (decide t (org_view T (apply_payment T d c now p).0 k)).locked
        ≡ leb (max now (end_of (Subs.find_unique d.subs k)) + one_month_ms) t
  unfolding decide org_view paid_until paid_fields
  once-locked d c now k p o w e f x h t = elim (apply_cases T d c now p) [
    | inl same ↦ absurd (ground (arith, same))
    | inr a ↦
        rw (a.outcome, org_view)
          (ground (
            arith,
            find-Applied a k,
            orgs-Applied a,
            a.names_org,
            Orgs.find_unique-key d.orgs k o f,
          ))
  ]

  -- A payment leaves the subscription of every workspace but the one that it names as it was.
  pub payment-other :
      (d : Data T) (c : Cache) (now j : ℕ) (p : Payment)
      → p.org_id ≢ some j
      → Subs.find_unique (apply_payment T d c now p).0.subs j ≡ Subs.find_unique d.subs j
  payment-other d c now j p h = elim (apply_cases T d c now p) [
    | inl same ↦ rw same
    | inr a ↦ rw a.outcome (ground (arith, find-Applied a j, a.names_org, h))
  ]

  -- Payments for any workspaces in a row, each at its time, and how many for the workspace `k` were
  -- applied.
  pub pay_all : Data T → Cache → ℕ → List (ℕ × Payment) → Data T × ℕ
  pay_all d c k [] = (d, 0)
  pay_all d c k ((now, p) ∷ ps) =
      let out = apply_payment T d c now p in
      let (last, n) = pay_all out.0 out.1 k ps in
      (last, if same_value p.org_id (some k) && out.2 then suc n else n)

  -- Those for the workspace `k` are one-off.
  abbrev pub AllOnce : ℕ → List (ℕ × Payment) → Type 0
  AllOnce k [] = Unit
  AllOnce k ((now, p) ∷ ps) = (same_value p.org_id (some k) && not p.is_once ≡ false) × AllOnce k ps

  once-end :
      (d : Data T) (c : Cache) (now k : ℕ) (p : Payment)
      → same_value p.org_id (some k) && not p.is_once ≡ false
      → end_of (Subs.find_unique d.subs k)
          + (if same_value p.org_id (some k) && (apply_payment T d c now p).2
              then one_month_ms
              else 0)
        ≤ end_of (Subs.find_unique (apply_payment T d c now p).0.subs k)
  unfolding paid_until paid_fields
  once-end d c now k p w = elim (apply_cases T d c now p) [
    | inl same ↦ rw same (ground arith)
    | inr a ↦ rw a.outcome (ground (arith, find-Applied a k, a.names_org))
  ]

  -- No bought month is lost where payments come one after the other: whatever payments for whatever
  -- workspaces come, whenever they come, if those of a workspace are all one-off and no transaction of
  -- one overlaps that of another, each of them that is applied moves the end of the period at least 31
  -- days on.
  pub months_add_up :
      (d : Data T) (c : Cache) (k : ℕ) (ps : List (ℕ × Payment))
      → AllOnce k ps
      → end_of (Subs.find_unique d.subs k) + (pay_all d c k ps).1 * one_month_ms
        ≤ end_of (Subs.find_unique (pay_all d c k ps).0.subs k)
  unfolding pay_all
  months_add_up d c k [] h = omega arith
  months_add_up d c k ((now, p) ∷ ps) h = ground (
    arith,
    once-end d c now k p h.0,
    months_add_up (apply_payment T d c now p).0 (apply_payment T d c now p).1 k ps h.1,
  )
