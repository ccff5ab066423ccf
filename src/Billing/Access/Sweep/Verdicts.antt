-- ===== src/Billing/Access/Sweep/Verdicts.antt =====
-- The sweep writes down what the clock already says: no workspace's verdict changes by it.
use mathlib.Core.Option
use godeye.Prelude.{
  ℕ, ◌≡◌, refl, Bool, true, none, some, List, [], ◌∷◌, arith, inl, inr, Option-cases, Bool-cases,
  ◌==◌, map, ◌⊎◌, not, is_some,
}
use mathlib.Core.Path.{subst}
use godeye.Db.{patch, Each}
use godeye.Billing.Model.{
  SubscriptionStatus, Subscription, Organization, Plan, WorkspaceAccess, Tables, Data,
}
use godeye.Billing.Access.{decide, Cache, org_view, sub_view, backfill_batch}
use godeye.Billing.Access.Sweep.{
  plan_by_code, expired_where, lapsed_where, comped_where, set_status, expire, lapse, comp,
  with_status, backfill_row, create_all, orphans, backfill_missing, sweep,
}

abbrev pub SameVerdict : WorkspaceAccess → WorkspaceAccess → Type 0
SameVerdict a b = (a.status ≡ b.status) × (a.locked ≡ b.locked)

module _ (T : Tables) where
  open T use {orgs as Orgs, subs as Subs, plans as Plans}

  pub find-set_status :
      (st : SubscriptionStatus) (p : Subscription → Bool) (d : Data T) (k : ℕ)
      → Subs.find_unique (set_status T st p d).subs k
        ≡ Option.map (patch p (with_status st)) (Subs.find_unique d.subs k)
  unfolding set_status
  find-set_status st p d k = Subs.find_unique-update_many p (with_status st) (λ s. refl) d.subs k

  expire-verdict :
      (d : Data T) (now k : ℕ)
      → SameVerdict (decide now (org_view T (expire T now d) k)) (decide now (org_view T d k))
  unfolding expire set_status expired_where org_view decide
  expire-verdict d now k = elim (Option-cases (Orgs.find_unique d.orgs k)) [
    | inl e ↦ ground arith
    | inr (o, e) ↦ elim (Option-cases (Subs.find_unique d.subs o.id)) [
      | inl e' ↦
          ground (arith, find-set_status SubscriptionStatus.past_due (expired_where T d now) d o.id)
      | inr (s, e') ↦ ground (
        arith,
        find-set_status SubscriptionStatus.past_due (expired_where T d now) d o.id,
        Orgs.find_unique-key d.orgs k o,
        Subs.find_unique-key d.subs o.id s,
      )
    ]
  ]

  lapse-verdict :
      (d : Data T) (now k : ℕ)
      → SameVerdict (decide now (org_view T (lapse T now d) k)) (decide now (org_view T d k))
  unfolding lapse set_status lapsed_where org_view decide
  lapse-verdict d now k = elim (Option-cases (Orgs.find_unique d.orgs k)) [
    | inl e ↦ ground arith
    | inr (o, e) ↦ elim (Option-cases (Subs.find_unique d.subs o.id)) [
      | inl e' ↦
          ground (arith, find-set_status SubscriptionStatus.past_due (lapsed_where T d now) d o.id)
      | inr (s, e') ↦ ground (
        arith,
        find-set_status SubscriptionStatus.past_due (lapsed_where T d now) d o.id,
        Orgs.find_unique-key d.orgs k o,
        Subs.find_unique-key d.subs o.id s,
      )
    ]
  ]

  comp-verdict :
      (d : Data T) (now k : ℕ)
      → SameVerdict (decide now (org_view T (comp T d) k)) (decide now (org_view T d k))
  unfolding comp set_status comped_where org_view decide
  comp-verdict d now k = elim (Option-cases (Orgs.find_unique d.orgs k)) [
    | inl e ↦ ground arith
    | inr (o, e) ↦ elim (Option-cases (Subs.find_unique d.subs o.id)) [
      | inl e' ↦ ground (arith, find-set_status SubscriptionStatus.active (comped_where T d) d o.id)
      | inr (s, e') ↦ ground (
        arith,
        find-set_status SubscriptionStatus.active (comped_where T d) d o.id,
        Orgs.find_unique-key d.orgs k o,
        Subs.find_unique-key d.subs o.id s,
      )
    ]
  ]

  pub create_all-keeps :
      (rs : List Subscription) (subs : Subs.Rows) (k : ℕ) (s : Subscription)
      → Subs.find_unique subs k ≡ some s
      → Subs.find_unique (create_all T rs subs).0 k ≡ some s
  unfolding create_all
  create_all-keeps [] subs k s e = e
  create_all-keeps (r ∷ rs) subs k s e = elim (Option-cases (Subs.create r subs)) [
    | inl c ↦ rw (c, create_all) (create_all-keeps rs subs k s e)
    | inr (t, c) ↦
        rw (c, create_all)
          (create_all-keeps rs t k s (
            ground (
              arith,
              Subs.find_unique-create r subs t k c,
              Subs.create-clash r subs k s e,
              Subs.find_unique-key subs k s,
            )))
  ]

  pub create_all-new :
      (P : Subscription → Type 0) (rs : List Subscription) (subs : Subs.Rows) (k : ℕ)
      (s : Subscription)
      → Each P rs
      → Subs.find_unique (create_all T rs subs).0 k ≡ some s
      → (Subs.find_unique subs k ≡ some s) ⊎ P s
  unfolding create_all
  create_all-new P [] subs k s h e = inl e
  create_all-new P (r ∷ rs) subs k s h e = elim (Option-cases (Subs.create r subs)) [
    | inl c ↦ create_all-new P rs subs k s h.1 (rw (c, create_all) at e)
    | inr (t, c) ↦ elim (create_all-new P rs t k s h.1 (rw (c, create_all) at e)) [
      | inl f ↦ elim (Bool-cases (r.org_id == k)) [
        | inl same ↦ inr (subst P (ground (arith, Subs.find_unique-create r subs t k c)) h.0)
        | inr other ↦ inl (ground (arith, Subs.find_unique-create r subs t k c))
      ]
      | inr p ↦ inr p
    ]
  ]

  -- What `backfill_missing` inserts: the row of an organisation that has none.
  module _ (pro : Plan) (d : Data T) (now : ℕ) where
    abbrev pub IsBackfill : Subscription → Type 0
    IsBackfill s =
        (o : Organization) × (Orgs.find_unique d.orgs o.id ≡ some o)
        × (s ≡ backfill_row T pro (plan_by_code T d "VIP") now o)

    Each-backfill_row :
        (l : List Organization)
        → Each
            (λ o.
              (not (is_some (Subs.find_unique d.subs o.id)) ≡ true)
              × (Orgs.find_unique d.orgs o.id ≡ some o))
            l
        → Each IsBackfill (map (backfill_row T pro (plan_by_code T d "VIP") now) l)
    Each-backfill_row [] h = tt
    Each-backfill_row (o ∷ l) h = ((o, h.0.1, refl), Each-backfill_row l h.1)

    pub Each-orphans :
        Each IsBackfill (map (backfill_row T pro (plan_by_code T d "VIP") now) (orphans T d))
    unfolding orphans
    Each-orphans = Each-backfill_row (orphans T d) (Orgs.find_many-sound _ backfill_batch d.orgs)

    -- The decision about an organisation whose subscription was just backfilled.
    filled-verdict :
        (k : ℕ) (o : Organization) (s : Subscription)
        → Orgs.find_unique d.orgs k ≡ some o
        → s.org_id ≡ k
        → IsBackfill s
        → SameVerdict
            (decide now (some (record { slug = o.slug; subscription = some (sub_view T d s) })))
            (decide now (some (record { slug = o.slug; subscription = none })))
    unfolding backfill_row decide sub_view
    filled-verdict k o s e i (o', f, q) = ground arith

  backfill-verdict :
      (d : Data T) (now k : ℕ)
      → SameVerdict
          (decide now (org_view T (backfill_missing T d now).0 k))
          (decide now (org_view T d k))
  unfolding org_view backfill_missing
  backfill-verdict d now k = elim (Option-cases (plan_by_code T d "PRO")) [
    | inl none_pro ↦ rw (none_pro, backfill_missing) (refl, refl)
    | inr (pro, p) ↦ elim (Option-cases (Orgs.find_unique d.orgs k)) [
      | inl no_org ↦ ground arith
      | inr (o, e) ↦
          let rows : List Subscription =
            map (backfill_row T pro (plan_by_code T d "VIP") now) (orphans T d) in
          elim (Option-cases (Subs.find_unique d.subs o.id)) [
            | inr (s, had) ↦ ground (arith, create_all-keeps rows d.subs o.id s had)
            | inl orphan ↦
                elim (Option-cases (Subs.find_unique (create_all T rows d.subs).0 o.id)) [
                  | inl still ↦ ground arith
                  | inr (s, filled) ↦
                      elim (create_all-new (IsBackfill pro d now) rows d.subs o.id s
                        (Each-orphans pro d now) filled) [
                          | inl old ↦ cc
                          | inr new ↦ ground (
                            arith,
                            filled-verdict pro d now k o s e
                                (ground (
                                  arith,
                                  Orgs.find_unique-key d.orgs k o e,
                                  Subs.find_unique-key (create_all T rows d.subs).0 o.id s filled,
                                ))
                                new,
                          )
                        ]
                ]
          ]
    ]
  ]

  -- For every workspace: the sweep leaves the status and the lock that `decide` computes at that
  -- time as they were, whether it expires, lapses, comps or backfills its subscription.
  pub sweep-verdict :
      (d : Data T) (c : Cache) (now k : ℕ)
      → SameVerdict (decide now (org_view T (sweep T d c now).0 k)) (decide now (org_view T d k))
  unfolding sweep
  sweep-verdict d c now k =
      let d1 = expire T now d in
      let d2 = lapse T now d1 in
      let d3 = comp T d2 in
      ground (
        arith,
        expire-verdict d now k,
        lapse-verdict d1 now k,
        comp-verdict d2 now k,
        backfill-verdict d3 now k,
      )
