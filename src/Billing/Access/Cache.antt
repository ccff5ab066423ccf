-- ===== src/Billing/Access/Cache.antt =====
-- The cache of access decisions is never stale: what it answers is what `decide` would.
use godeye.Prelude.{
  ℕ, ◌≤◌, ◌<◌, ◌≡◌, refl, Option, none, some, arith, inl, inr, Option-cases, Bool-cases, ltb,
}
use godeye.Billing.Model.{Tables, Data}
use godeye.Billing.Access.{decide, OrgView, CacheEntry, Cache, fresh_entry, org_view, state}

fresh_entry-decide :
    (now later : ℕ) (org : Option OrgView)
    → now ≤ later
    → later < (fresh_entry now org).expires_at
    → decide later org ≡ (fresh_entry now org).value
unfolding fresh_entry decide
fresh_entry-decide now later none h k = refl
fresh_entry-decide now later (some org) h k = ground arith

module _ (T : Tables) where
  -- Until an entry expires, it holds the decision that the tables give.
  pub record IsCoherent (d : Data T) (c : Cache) (now : ℕ) : Type 0 where
    pub at :
        (k : ℕ) (e : CacheEntry)
        → c k ≡ some e
        → (later : ℕ) → now ≤ later
        → later < e.expires_at
        → decide later (org_view T d k) ≡ e.value

  module _ (d : Data T) {c : Cache} (k : ℕ) {now later : ℕ} (ordered : now ≤ later) where
    -- With a cache that agrees with the tables, `state` answers what `decide` gives at a time between
    -- the start of the call and its end, whether the answer is cached or not.
    pub state-decide :
        IsCoherent d c now
        → (t : ℕ) × (now ≤ t)
          × (t ≤ later)
          × ((state T d c k now later).0 ≡ decide t (org_view T d k))
    unfolding state fresh_entry
    state-decide h = elim (Option-cases (c k)) [
      | inl e ↦ (later, ordered, omega arith, rw (e, state))
      | inr (hit, e) ↦ elim (Bool-cases (ltb now hit.expires_at)) [
        | inl fresh ↦ (now, omega arith, ordered, ground (arith, h.at k hit e now))
        | inr stale ↦ (later, ordered, omega arith, ground arith)
      ]
    ]

    -- `state` keeps the cache in agreement with the tables: until an entry expires, it holds the decision
    -- that the tables give.
    pub state-IsCoherent : IsCoherent d c now → IsCoherent d (state T d c k now later).1 later
    unfolding state
    state-IsCoherent h = record {
      at = λ j e p t le lt.
          ground (
            arith,
            λ (q : c j ≡ some e). h.at j e q t,
            fresh_entry-decide later t (org_view T d k),
          );
    }
