-- ===== src/Auth/Backoff.antt =====
-- apps/api/src/auth/login-backoff.service.ts: the delay after failed sign-ins. Redis is a map from
-- keys to a counter and the time at which it expires; `mget` and `pttl` answer from it. Which of
-- the commands of a sign-in reach Redis is an argument; one that does not is passed over.
pub mod Bounds
use godeye.Prelude.{
  ℕ, suc, ◌+◌, ◌-◌, ◌*◌, ◌/◌, ◌^◌, ◌≤◌, ◌≡◌, refl, min, max, Bool, true, false, Option, none, some,
  arith, ltb, leb, if◌then◌else◌, ◌==◌,
}

abbrev pub free_attempts : ℕ
free_attempts = 5

abbrev pub base_delay_seconds : ℕ
base_delay_seconds = 15

abbrev pub max_delay_seconds : ℕ
max_delay_seconds = 900

abbrev pub window_seconds : ℕ
window_seconds = 3600

unfoldable pub backoff_delay_seconds : ℕ → ℕ
backoff_delay_seconds failures =
    if leb failures free_attempts
    then 0
    else min max_delay_seconds (base_delay_seconds * 2 ^ (failures - free_attempts - 1))

pub record Counter : Type 0 where
  pub failures : ℕ
  pub expires_at : ℕ

abbrev pub Store : Type 0
Store = ℕ → Option Counter

-- The two keys of a sign-in: the account and the address.
pub record Keys : Type 0 where
  pub account : ℕ
  pub address : ℕ

-- Which commands reach Redis: `mget`, the two `pttl`, and the writes.
pub record Redis : Type 0 where
  pub reads : Bool
  pub account_ttl : Bool
  pub address_ttl : Bool
  pub writes : Bool

abbrev pub live : ℕ → Option Counter → Option Counter
live now none = none
live now (some c) = if ltb now c.expires_at then some c else none

-- `Number(c ?? 0)` of what `mget` answers for a key.
abbrev pub failures_of : Option Counter → ℕ
failures_of none = 0
failures_of (some c) = c.failures

-- The milliseconds that `pttl` answers; 0 in place of the negative answer for a missing key.
abbrev pub remaining_of : ℕ → Option Counter → ℕ
remaining_of now none = 0
remaining_of now (some c) = c.expires_at - now

-- `.catch(() => -1)`
abbrev pub if_answered : Bool → ℕ → ℕ
if_answered true ms = ms
if_answered false ms = 0

abbrev pub ceil_seconds : ℕ → ℕ
ceil_seconds ms = (ms + 999) / 1000

-- The seconds that are left of a delay. The source subtracts `WINDOW_SECONDS - ceil(remaining / 1000)`,
-- which is written on the other side here, so that a result below 0 is 0.
unfoldable pub wait_of : ℕ → ℕ → ℕ
wait_of delay remaining =
    if ltb 0 remaining then delay + ceil_seconds remaining - window_seconds else delay

-- `none` lets the sign-in go on, `some wait` refuses it for that many seconds.
unfoldable pub assert_not_backed_off : Redis → Store → ℕ → Keys → Option ℕ
unfolding wait_of
assert_not_backed_off redis store now keys =
    let account = live now (store keys.account) in
    let address = live now (store keys.address) in
    let delay = backoff_delay_seconds (max (failures_of account) (failures_of address)) in
    let remaining =
      max (if_answered redis.account_ttl (remaining_of now account))
        (if_answered redis.address_ttl (remaining_of now address)) in
    let wait = wait_of delay remaining in
    if redis.reads
    then (if delay == 0 then none else if wait == 0 then none else some wait)
    else none

-- `incr`, then `expire`.
abbrev pub bump : ℕ → Option Counter → Counter
bump now c = record {
  failures = suc (failures_of (live now c));
  expires_at = now + window_seconds * 1000;
}

abbrev pub set : Store → ℕ → Option Counter → Store
set store key c k = if key == k then c else store k

unfoldable pub record_failure : Redis → Store → ℕ → Keys → Store
record_failure redis store now keys =
    let store' = set store keys.account (some (bump now (store keys.account))) in
    if redis.writes then set store' keys.address (some (bump now (store' keys.address))) else store

unfoldable pub record_success : Redis → Store → Keys → Store
record_success redis store keys = if redis.writes then set store keys.account none else store
