-- ===== src/Billing/Access/Sweep/Idempotent.antt =====
-- A second sweep at the same time finds nothing to expire, to lapse or to comp.
use godeye.Prelude.{ℕ, ◌≡◌, Bool, false, some, List, arith, inl, inr, Option-cases, map}
use godeye.Billing.Model.{SubscriptionStatus, Subscription, Plan, Tables, Data}
use godeye.Billing.Access.{Cache}
use godeye.Billing.Access.Sweep.{
  plan_by_code, expired_where, lapsed_where, comped_where, set_status, expire, lapse, comp,
  backfill_row, orphans, backfill_missing, sweep,
}
use godeye.Billing.Access.Sweep.Verdicts.{
  find-set_status, create_all-keeps, create_all-new, IsBackfill, Each-orphans,
}

module _ (T : Tables) where
  open T use {orgs as Orgs, subs as Subs, plans as Plans}

  -- No `where` of the sweep picks the subscription.
  abbrev Unpicked : Data T → ℕ → Subscription → Type 0
  Unpicked d now s =
      (expired_where T d now s ≡ false)
      × (lapsed_where T d now s ≡ false)
      × (comped_where T d s ≡ false)

  abbrev IsSettled : Data T → ℕ → Type 0
  IsSettled d now =
      (k : ℕ) (s : Subscription) → Subs.find_unique d.subs k ≡ some s → Unpicked d now s

  passes : ℕ → Data T → Data T
  passes now d = comp T (lapse T now (expire T now d))

  module _ (d : Data T) (now : ℕ) where
    passes-IsSettled : IsSettled (passes now d) now
    unfolding passes comp lapse expire set_status expired_where lapsed_where comped_where
    passes-IsSettled k s e =
        let d1 = expire T now d in
        let d2 = lapse T now d1 in
        ground (
          arith,
          find-set_status T SubscriptionStatus.past_due (expired_where T d now) d k,
          find-set_status T SubscriptionStatus.past_due (lapsed_where T d1 now) d1 k,
          find-set_status T SubscriptionStatus.active (comped_where T d2) d2 k,
        )

    IsBackfill-Unpicked :
        (pro : Plan) (s : Subscription) → IsBackfill T pro d now s → Unpicked d now s
    unfolding backfill_row expired_where lapsed_where comped_where
    IsBackfill-Unpicked pro s (o, e, q) = ground arith

    backfill-IsSettled : IsSettled d now → IsSettled (backfill_missing T d now).0 now
    unfolding backfill_missing expired_where lapsed_where comped_where
    backfill-IsSettled h k s e = elim (Option-cases (plan_by_code T d "PRO")) [
      | inl p ↦ ground (arith, h k s)
      | inr (pro, p) ↦
          let rows : List Subscription =
            map (backfill_row T pro (plan_by_code T d "VIP") now) (orphans T d) in
          elim (create_all-new T (IsBackfill T pro d now) rows d.subs k s (Each-orphans T pro d now)
            (ground arith)) [
              | inl old ↦ ground (arith, h k s old)
              | inr new ↦ ground (arith, IsBackfill-Unpicked pro s new)
            ]
    ]

  -- On settled tables an update that picks nothing changes no row.
  set_status-unpicked :
      (st : SubscriptionStatus) (p : Subscription → Bool) (d : Data T)
      → ((k : ℕ) (s : Subscription) → Subs.find_unique d.subs k ≡ some s → p s ≡ false)
      → (k : ℕ) → Subs.find_unique (set_status T st p d).subs k ≡ Subs.find_unique d.subs k
  set_status-unpicked st p d h k = elim (Option-cases (Subs.find_unique d.subs k)) [
    | inl e ↦ ground (arith, find-set_status T st p d k)
    | inr (s, e) ↦ ground (arith, find-set_status T st p d k, h k s)
  ]

  module _ (d : Data T) (now : ℕ) (settled : IsSettled d now) where
    expire-unpicked : (k : ℕ) → Subs.find_unique (expire T now d).subs k ≡ Subs.find_unique d.subs k
    unfolding expire
    expire-unpicked =
        set_status-unpicked SubscriptionStatus.past_due (expired_where T d now) d
          (λ k s e. (settled k s e).0)

    lapse-unpicked : (k : ℕ) → Subs.find_unique (lapse T now d).subs k ≡ Subs.find_unique d.subs k
    unfolding lapse
    lapse-unpicked =
        set_status-unpicked SubscriptionStatus.past_due (lapsed_where T d now) d
          (λ k s e. (settled k s e).1)

    comp-unpicked : (k : ℕ) → Subs.find_unique (comp T d).subs k ≡ Subs.find_unique d.subs k
    unfolding comp
    comp-unpicked =
        set_status-unpicked SubscriptionStatus.active (comped_where T d) d
          (λ k s e. (settled k s e).2)

    expire-IsSettled : IsSettled (expire T now d) now
    unfolding expire set_status expired_where lapsed_where comped_where
    expire-IsSettled k s e = ground (arith, settled k s, expire-unpicked k)

    lapse-IsSettled : IsSettled (lapse T now d) now
    unfolding lapse set_status expired_where lapsed_where comped_where
    lapse-IsSettled k s e = ground (arith, settled k s, lapse-unpicked k)

  backfill_missing-keeps :
      (d : Data T) (now k : ℕ) (s : Subscription)
      → Subs.find_unique d.subs k ≡ some s
      → Subs.find_unique (backfill_missing T d now).0.subs k ≡ some s
  unfolding backfill_missing
  backfill_missing-keeps d now k s e = elim (Option-cases (plan_by_code T d "PRO")) [
    | inl p ↦ ground arith
    | inr (pro, p) ↦
        let rows : List Subscription =
          map (backfill_row T pro (plan_by_code T d "VIP") now) (orphans T d) in
        ground (arith, create_all-keeps T rows d.subs k s e)
  ]

  -- A second sweep at the same time counts nothing expired, lapsed or comped, and leaves every
  -- subscription as the first one left it. (It may backfill further organisations, since one
  -- sweep takes 500 of them at most.)
  pub sweep_idempotent :
      (d : Data T) (c c' : Cache) (now : ℕ)
      → let first = (sweep T d c now).0 in
        let second = sweep T first c' now in
        (second.2.expired ≡ 0)
        × (second.2.lapsed ≡ 0)
        × (second.2.comped ≡ 0)
        × ((k : ℕ) (s : Subscription)
            → Subs.find_unique first.subs k ≡ some s
            → Subs.find_unique second.0.subs k ≡ some s)
  unfolding sweep passes
  sweep_idempotent d c c' now =
      let settled = backfill-IsSettled (passes now d) now (passes-IsSettled d now) in
      let d1 = (backfill_missing T (passes now d) now).0 in
      let d2 = expire T now d1 in
      let d3 = lapse T now d2 in
      let settled2 = expire-IsSettled d1 now settled in
      let settled3 = lapse-IsSettled d2 now settled2 in
      (
        Subs.count-eq-zero _ d1.subs (λ k s e. (settled k s e).0),
        Subs.count-eq-zero _ d2.subs (λ k s e. (settled2 k s e).1),
        Subs.count-eq-zero _ d3.subs (λ k s e. (settled3 k s e).2),
        λ k s e. backfill_missing-keeps (comp T d3) now k s (
            rw
              (
                comp-unpicked d3 now settled3 k,
                lapse-unpicked d2 now settled2 k,
                expire-unpicked d1 now settled k,
              )
              e),
      )
