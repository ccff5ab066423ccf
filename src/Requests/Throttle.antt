-- ===== src/Requests/Throttle.antt =====
-- apps/api/src/common/throttler-storage.ts: the rate-limit counters. Redis is a map from keys to a
-- counter and the time at which it is forgotten; the script runs in one step there. A call whose
-- `reachable` is false is one that Redis does not answer.
pub mod Window
use godeye.Prelude.{
  ℕ, ◌+◌, ◌-◌, ◌/◌, refl, max, Bool, true, false, Option, none, some, ltb, leb, ◌==◌, if◌then◌else◌,
}

pub record Counter : Type 0 where
  pub hits : ℕ
  pub expires_at : ℕ

abbrev pub Counters : Type 0
Counters = ℕ → Option Counter

abbrev pub put_counter : Counters → ℕ → Counter → Counters
put_counter store key c k = if k == key then some c else store k

-- What a call asks for: the throttler's settings and the weight of the route.
pub record Bump : Type 0 where
  pub ttl : ℕ
  pub limit : ℕ
  pub block_duration : ℕ
  pub cost : ℕ

pub record ThrottlerRecord : Type 0 where
  pub total_hits : ℕ
  pub time_to_expire : ℕ
  pub is_blocked : Bool
  pub time_to_block_expire : ℕ

abbrev pub ceil_seconds : ℕ → ℕ
ceil_seconds ms = (ms + 999) / 1000

-- `INCRBY`: a counter that is missing or forgotten starts at 0, without a time of its own.
abbrev pub hits_before : Option Counter → ℕ → ℕ
hits_before none now = 0
hits_before (some c) now = if ltb now c.expires_at then c.hits else 0

abbrev pub expiry_before : Option Counter → ℕ
expiry_before none = 0
expiry_before (some c) = c.expires_at

-- The script: the count, the window on the first hit, and the longer one of a block.
unfoldable pub increment : Option Counter → ℕ → Bump → Counter
increment before now b =
    let hits = hits_before before now + max 1 b.cost in
    let expires_at = if leb hits (max 1 b.cost) then now + b.ttl else expiry_before before in
    record {
      hits = hits;
      expires_at =
          if ltb b.limit hits
          then (if ltb (expires_at - now) b.block_duration
              then now + b.block_duration
              else expires_at)
          else expires_at;
    }

-- `MemoryCounters.bump`
unfoldable pub bump : Option Counter → ℕ → Bump → Counter
bump none now b = record { hits = max 1 b.cost; expires_at = now + b.ttl }
bump (some c) now b =
    if leb c.expires_at now
    then record { hits = max 1 b.cost; expires_at = now + b.ttl }
    else record c { hits = c.hits + max 1 b.cost }

-- The record that both ways answer from the counter that they leave.
unfoldable pub record_of : Counter → ℕ → Bump → ThrottlerRecord
record_of c now b = record {
  total_hits = c.hits;
  time_to_expire = ceil_seconds (c.expires_at - now);
  is_blocked = ltb b.limit c.hits;
  time_to_block_expire = ceil_seconds (c.expires_at - now);
}

-- The shared counters and those of this process.
pub record Storage : Type 0 where
  pub shared : Counters
  pub memory : Counters

unfoldable pub increment_by :
    Storage → ℕ → (reachable : Bool) → ℕ → Bump → ThrottlerRecord × Storage
increment_by s now reachable key b =
    let c = (if reachable then increment (s.shared key) now b else bump (s.memory key) now b) in
    (
      record_of c now b,
      if reachable
          then record s { shared = put_counter s.shared key c }
          else record s { memory = put_counter s.memory key c },
    )
