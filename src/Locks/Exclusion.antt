-- ===== src/Locks/Exclusion.antt =====
-- Two replicas run the job at once only after one of them has overrun its time.
use godeye.Prelude.{ℕ, ◌+◌, ◌≡◌, ◌<◌, false, some, arith, ◌==◌, Option-cases, Bool-cases, inl, inr}
use godeye.Locks.{
  held, set_nx, compare_and_delete, Run, World, Step, tries, finishes, fails, waits, Reach, starts,
  steps,
}

-- A run that is inside its time holds the lock, and no two runs have the same token.
record IsFair (w : World) : Type 0 where
  holds :
      (i : ℕ) (r : Run)
      → w.replicas i ≡ some r
      → w.now < r.since + r.ttl
      → w.lock ≡ some (record { token = r.token; expires_at = r.since + r.ttl })
  distinct :
      (i j : ℕ) (r s : Run)
      → w.replicas i ≡ some r
      → w.replicas j ≡ some s
      → r.token ≡ s.token
      → i ≡ j

Step-IsFair : {w w' : World} → Step w w' → IsFair w → IsFair w'
unfolding set_nx compare_and_delete
Step-IsFair (tries w i token ttl idle new) h = elim (Option-cases (held w.now w.lock)) [
  | inl free ↦ record {
    holds = λ j s at early. elim (Bool-cases (j == i)) [
      | inl mine ↦ ground arith
      | inr other ↦ ground (arith, h.holds j s)
    ];
    distinct = λ j k s t sj tk same. elim (Bool-cases (j == i)) [
      | inl mine ↦ elim (Bool-cases (k == i)) [
        | inl mine' ↦ ground arith
        | inr other ↦ ground (arith, new k t)
      ]
      | inr other ↦ elim (Bool-cases (k == i)) [
        | inl mine ↦ ground (arith, new j s)
        | inr other' ↦ ground (arith, h.distinct j k s t)
      ]
    ];
  }
  | inr (l, busy) ↦ record {
    holds = λ j s at early. ground (arith, h.holds j s);
    distinct = λ j k s t sj tk same. ground (arith, h.distinct j k s t);
  }
]
Step-IsFair (finishes w i r runs) h = record {
  holds = λ j s at early. elim (Bool-cases (j == i)) [
    | inl mine ↦ ground arith
    | inr other ↦ ground (arith, h.holds j s, h.distinct j i s r)
  ];
  distinct = λ j k s t sj tk same. ground (arith, h.distinct j k s t);
}
Step-IsFair (fails w i r runs) h = record {
  holds = λ j s at early. ground (arith, h.holds j s);
  distinct = λ j k s t sj tk same. ground (arith, h.distinct j k s t);
}
Step-IsFair (waits w later after) h = record {
  holds = λ j s at early. h.holds j s at (omega arith);
  distinct = h.distinct;
}

Reach-IsFair : {w : World} → Reach w → IsFair w
Reach-IsFair (starts now) = record {
  holds = λ i r at early. ground arith;
  distinct = λ i j r s at at' same. ground arith;
}
Reach-IsFair (steps r st) = Step-IsFair st (Reach-IsFair r)

-- Of all the replicas, at most one is inside the job and inside the time of its lock, however their
-- attempts, releases, failures and the clock interleave: two are in the job together only where one
-- of them has overrun its time.
pub mutual_exclusion :
    {w : World} (i j : ℕ) (r s : Run)
    → Reach w
    → w.replicas i ≡ some r
    → w.replicas j ≡ some s
    → w.now < r.since + r.ttl
    → w.now < s.since + s.ttl
    → i ≡ j
mutual_exclusion i j r s reached at at' early early' =
    let fair = Reach-IsFair reached in
    fair.distinct i j r s at at'
      (ground (arith, fair.holds i r at early, fair.holds j s at' early'))

-- A replica that has overrun its time and releases leaves the lock of another one in place.
pub late_release-keeps :
    {w : World} (i j : ℕ) (r s : Run)
    → Reach w
    → w.replicas i ≡ some r
    → w.replicas j ≡ some s
    → w.now < s.since + s.ttl
    → j == i ≡ false
    → compare_and_delete w.lock w.now r.token ≡ w.lock
unfolding compare_and_delete
late_release-keeps i j r s reached at at' early other =
    let fair = Reach-IsFair reached in
    ground (arith, fair.holds j s at' early, fair.distinct j i s r at' at)
