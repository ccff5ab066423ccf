-- ===== src/Guard/Recent.antt =====
-- How old an answer of the membership cache can be.
use godeye.Prelude.{
  ℕ, ◌+◌, ◌-◌, ◌≡◌, ◌≤◌, ◌<◌, true, false, ◌&&◌, some, arith, ◌==◌, ltb, get_or, ok, Option-cases,
  Bool-cases, inl, inr, ◌⊎◌,
}
use mathlib.Core.Path.{subst}
use godeye.Auth.Model.{OrgRole, Tables, Data}
use godeye.Members.{role_rank}
use godeye.Guard.{
  CachedMember, MemberCache, AccessToken, Route, judge, live_row, current, can_activate, cache_ttl,
}

module _ (T : Tables) (hash : ℕ → ℕ) (db : ℕ → Data T) (slow : ℕ) where
  -- `db t` is the database at the time `t`, and a read is stored at most `slow` after it was made.
  -- Every entry was stored before `now` and holds what the database said when it was read.
  pub record IsHonest (c : MemberCache) (now : ℕ) : Type 0 where
    pub entry :
        (u o : ℕ) (e : CachedMember)
        → c u o ≡ some e
        → (t : ℕ) × (t ≤ e.at)
          × (e.at ≤ t + slow)
          × (e.at ≤ now)
          × (e.value ≡ live_row T hash (db t) u o)

  -- An entry after the call was there before, or holds the row that the call read.
  current_entry :
      (c : MemberCache) (u o now read later v w : ℕ) (e : CachedMember)
      → (current T hash (db read) c u o now later).1 v w ≡ some e
      → (c v w ≡ some e)
        ⊎ ((v ≡ u) × (w ≡ o) × (e ≡ record { value = live_row T hash (db read) u o; at = later }))
  unfolding current
  current_entry c u o now read later v w e q = elim (Bool-cases (v == u && w == o)) [
    | inr other ↦ elim (Option-cases (c u o)) [
      | inl missed ↦ inl (ground arith)
      | inr (hit, had) ↦ inl (ground arith)
    ]
    | inl same ↦ elim (Option-cases (c u o)) [
      | inl missed ↦ inr (ground arith, ground arith, ground arith)
      | inr (hit, had) ↦ elim (Bool-cases (ltb (now - hit.at) cache_ttl)) [
        | inl young ↦ inl (ground arith)
        | inr old ↦ inr (ground arith, ground arith, ground arith)
      ]
    ]
  ]

  current-IsHonest :
      (c : MemberCache) (u o now read later : ℕ)
      → IsHonest c now
      → now ≤ later
      → read ≤ later
      → later ≤ read + slow
      → IsHonest (current T hash (db read) c u o now later).1 later
  current-IsHonest c u o now read later h after le quick = record {
    entry = λ v w e q. elim (current_entry c u o now read later v w e q) [
      | inl old ↦
          let (t, before, soon, past, says) = h.entry v w e old in
          (t, before, soon, omega arith, says)
      | inr (is_u, is_o, new) ↦ (read, ground arith, ground arith, ground arith, ground arith)
    ];
  }

  current-recent :
      (c : MemberCache) (u o now read later : ℕ)
      → IsHonest c now
      → now ≤ read
      → read ≤ later
      → (t : ℕ) × (t ≤ later)
        × (now < t + 5000 + slow)
        × ((current T hash (db read) c u o now later).0 ≡ live_row T hash (db t) u o)
  unfolding current
  current-recent c u o now read later h start le = elim (Option-cases (c u o)) [
    | inl missed ↦ (read, le, omega arith, ground arith)
    | inr (hit, had) ↦ elim (Bool-cases (ltb (now - hit.at) cache_ttl)) [
      | inl young ↦
          let (t, before, quick, past, says) = h.entry u o hit had in
          (t, omega arith, ground arith, ground arith)
      | inr old ↦ (read, le, omega arith, ground arith)
    ]
  ]

  -- Where the guard lets a request to a protected route through, the database said, at a time less
  -- than five seconds and the duration of one read ago or later, that the caller was a member, in a
  -- role that the route asks for, with the session version of the token; that is the role that the
  -- handler sees. And the cache that the guard leaves is as good as the one that it found.
  pub can_activate-recent :
      (c c' : MemberCache) (now read later : ℕ) (route : Route) (auth : AccessToken)
      (required role : OrgRole)
      → IsHonest c now
      → now ≤ read
      → read ≤ later
      → later ≤ read + slow
      → route.is_http ≡ true
      → route.is_public ≡ false
      → route.min_role ≡ some required
      → can_activate T hash (db read) c now later route (some auth) ≡ (c', ok (some role))
      → IsHonest c' later
        × ((t : ℕ) × (t ≤ later)
            × (now < t + 5000 + slow)
            × (live_row T hash (db t) auth.sub auth.org_id
                ≡ some (record { role = role; session_version = get_or auth.sv 0 }))
            × (role_rank required ≤ role_rank role))
  unfolding can_activate judge
  can_activate-recent c c' now read later route auth required role h start le quick web closed asks
        e =
      elim (Option-cases auth.role) [
        | inl absent ↦ ground arith
        | inr (claimed, has) ↦
            let (t, before, age, says) =
              current-recent c auth.sub auth.org_id now read later h start le in
            let kept =
              current-IsHonest c auth.sub auth.org_id now read later h (omega arith) le quick in
            elim (Option-cases (current T hash (db read) c auth.sub auth.org_id now later).0) [
              | inl nobody ↦ ground arith
              | inr (live, here) ↦ (
                subst (λ x. IsHonest x later) (ground arith) kept,
                (t, before, age, ground arith, ground arith),
              )
            ]
      ]
