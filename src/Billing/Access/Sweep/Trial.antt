-- ===== src/Billing/Access/Sweep/Trial.antt =====
-- A workspace gets one trial of 24 hours.
use godeye.Prelude.{
  ℕ, ◌+◌, ◌≡◌, false, none, some, arith, ap, inl, inr, Option-cases, leb, not, ◌&&◌,
}
use godeye.Billing.Model.{
  is_exempt, SubscriptionStatus, Subscription, Organization, Plan, Tables, Data,
}
use godeye.Billing.Access.{Cache, decide, org_view, trial_ms}
use godeye.Billing.Access.Sweep.{plan_by_code, start_trial, new_subscription}

module _ (T : Tables) where
  open T use {orgs as Orgs, subs as Subs, plans as Plans}

  start_trial-existing :
      (d : Data T) (c : Cache) (k now : ℕ) (s : Subscription)
      → Subs.find_unique d.subs k ≡ some s
      → (start_trial T d c k now).0 ≡ d
  unfolding start_trial
  start_trial-existing d c k now s e = elim (Option-cases (plan_by_code T d "PRO")) [
    | inl p ↦ ground arith
    | inr (pro, p) ↦ ground arith
  ]

  start_trial-new :
      (d : Data T) (c : Cache) (k now : ℕ) (pro : Plan)
      → Subs.find_unique d.subs k ≡ none
      → plan_by_code T d "PRO" ≡ some pro
      → (t : Subs.Rows) × ((start_trial T d c k now).0 ≡ record d { subs = t })
        × (Subs.find_unique t k
            ≡ some (new_subscription k pro.id SubscriptionStatus.trialing (some (now + trial_ms))))
  unfolding start_trial
  start_trial-new d c k now pro e p =
      let row = new_subscription k pro.id SubscriptionStatus.trialing (some (now + trial_ms)) in
      let (t, made) =
        Subs.create-new row d.subs (λ j s f. ground (arith, Subs.find_unique-key d.subs j s f)) in
      (t, ground arith, ground (arith, Subs.find_unique-create row d.subs t k made))

  pub orgs-start_trial :
      (d : Data T) (c : Cache) (k now : ℕ) → (start_trial T d c k now).0.orgs ≡ d.orgs
  unfolding start_trial
  orgs-start_trial d c k now = elim (Option-cases (plan_by_code T d "PRO")) [
    | inl p ↦ ground arith
    | inr (pro, p) ↦ elim (Option-cases (Subs.find_unique d.subs k)) [
      | inr (s, f) ↦ ground arith
      | inl e ↦ let (t, made, row) = start_trial-new d c k now pro e p in ap (λ x. x.orgs) made
    ]
  ]

  pub start_trial-locked :
      (d : Data T) (c : Cache) (k now : ℕ) (o : Organization) (pro : Plan)
      → Orgs.find_unique d.orgs k ≡ some o
      → Subs.find_unique d.subs k ≡ none
      → plan_by_code T d "PRO" ≡ some pro
      → (t : ℕ)
      → (decide t (org_view T (start_trial T d c k now).0 k)).locked
        ≡ (not (is_exempt o.slug) && leb (now + trial_ms) t)
  unfolding decide org_view new_subscription
  start_trial-locked d c k now o pro e f p t =
      let (subs, made, row) = start_trial-new d c k now pro f p in
      rw made (ground (arith, row, Orgs.find_unique-key d.orgs k o e))

  -- A workspace with no subscription that is not exempt, in a database with a PRO plan: the
  -- first `startTrial` lets it write for exactly 24 hours, and a second one, at any later time,
  -- adds nothing.
  pub start_trial-once :
      (d : Data T) (c c' : Cache) (k now later : ℕ) (o : Organization) (pro : Plan)
      → Orgs.find_unique d.orgs k ≡ some o
      → is_exempt o.slug ≡ false
      → Subs.find_unique d.subs k ≡ none
      → plan_by_code T d "PRO" ≡ some pro
      → (t : ℕ)
      → let once = (start_trial T d c k now).0 in
        let twice = (start_trial T once c' k later).0 in
        (decide t (org_view T twice k)).locked ≡ leb (now + trial_ms) t
  unfolding decide org_view new_subscription
  start_trial-once d c c' k now later o pro e x f p t =
      let (subs, made, row) = start_trial-new d c k now pro f p in
      let s = new_subscription k pro.id SubscriptionStatus.trialing (some (now + trial_ms)) in
      rw (start_trial-existing (start_trial T d c k now).0 c' k later s (rw made row))
        (rw made (ground (arith, row, Orgs.find_unique-key d.orgs k o e)))
