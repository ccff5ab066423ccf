-- ===== src/Locks.antt =====
-- apps/api/src/common/leader-lock.ts: one replica runs a periodic job. Redis answers `SET … NX PX`
-- from the lock that has not expired, and deletes by comparing the token. Several replicas interleave:
-- each runs `runExclusively` in three steps, and time passes in between.
pub mod Exclusion
mod Examples
use godeye.Prelude.{
  ℕ, ◌+◌, ◌≡◌, ◌≤◌, refl, Bool, true, false, Option, none, some, ◌==◌, ltb, if◌then◌else◌,
}

pub record Lock : Type 0 where
  pub token : ℕ
  pub expires_at : ℕ

-- The lock that is in force at `now`.
abbrev pub held : ℕ → Option Lock → Option Lock
held now none = none
held now (some l) = if ltb now l.expires_at then some l else none

-- `SET key token PX ttl NX`
unfoldable pub set_nx : Option Lock → ℕ → ℕ → ℕ → Option Lock × Bool
set_nx lock now token ttl = elim (held now lock) [
  | none ↦ (some (record { token = token; expires_at = now + ttl }), true)
  | some l ↦ (lock, false)
]

-- The script that releases: delete if the token is still the own one.
unfoldable pub compare_and_delete : Option Lock → ℕ → ℕ → Option Lock
compare_and_delete lock now token = elim (held now lock) [
  | none ↦ lock
  | some l ↦ if l.token == token then none else lock
]

-- A run that has the lock: its token, and when it got the lock.
pub record Run : Type 0 where
  pub token : ℕ
  pub since : ℕ
  pub ttl : ℕ

-- A replica is idle, or inside `job`.
abbrev pub Replica : Type 0
Replica = Option Run

pub record World : Type 0 where
  pub now : ℕ
  pub lock : Option Lock
  pub replicas : ℕ → Replica

abbrev pub at_replica : (ℕ → Replica) → ℕ → Replica → ℕ → Replica
at_replica rs i r j = if j == i then r else rs j

-- One step of the world. `tries` is the attempt with a token that no run has yet, `finishes` the end of a
-- job and the release, `fails` the end with a store that cannot be reached, `waits` the clock.
pub data Step : World → World → Type 0 where
  tries :
      (w : World) (i token ttl : ℕ)
      → w.replicas i ≡ none
      → ((j : ℕ) (r : Run) → w.replicas j ≡ some r → r.token == token ≡ false)
      → Step w (record {
        now = w.now;
        lock = (set_nx w.lock w.now token ttl).0;
        replicas =
            if (set_nx w.lock w.now token ttl).1
            then at_replica w.replicas i (some (record { token = token; since = w.now; ttl = ttl }))
            else w.replicas;
      })
  finishes :
      (w : World) (i : ℕ) (r : Run)
      → w.replicas i ≡ some r
      → Step w (record {
        now = w.now;
        lock = compare_and_delete w.lock w.now r.token;
        replicas = at_replica w.replicas i none;
      })
  fails :
      (w : World) (i : ℕ) (r : Run)
      → w.replicas i ≡ some r
      → Step w (record { now = w.now; lock = w.lock; replicas = at_replica w.replicas i none })
  waits :
      (w : World) (later : ℕ)
      → w.now ≤ later
      → Step w (record { now = later; lock = w.lock; replicas = w.replicas })

abbrev pub initial : ℕ → World
initial now = record { now = now; lock = none; replicas = λ i. none }

pub data Reach : World → Type 0 where
  starts : (now : ℕ) → Reach (initial now)
  steps : {w w' : World} → Reach w → Step w w' → Reach w'
