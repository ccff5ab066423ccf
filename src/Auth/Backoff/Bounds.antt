-- ===== src/Auth/Backoff/Bounds.antt =====
-- How long the delay after failed sign-ins can be, and that it ends.
use Prim.Native.Nat.pow
use godeye.Prelude.{
  Bool, true, false, ℕ, zero, suc, ◌+◌, ◌-◌, ◌*◌, ◌^◌, ◌≤◌, ◌≡◌, refl, ap, ◌∙◌, min, max, Option,
  none, some, arith, leb, Bool-cases, Option-cases, inl, inr,
}
use godeye.Auth.Backoff.{
  Redis, if_answered, Counter, Store, Keys, backoff_delay_seconds, live, failures_of, remaining_of,
  wait_of, assert_not_backed_off, record_failure,
}

power_suc : (n : ℕ) → 2 ^ suc n ≡ 2 ^ n * 2
power_suc n = λ i. pow.suc 2 n i

-- The delay is at most 15 minutes.
pub delay_bounded : (n : ℕ) → backoff_delay_seconds n ≤ 900
unfolding backoff_delay_seconds
delay_bounded n = ground arith

capped_double : (x : ℕ) → min 900 (15 * x) ≤ min 900 (15 * (x * 2))
capped_double x = omega arith

no_delay : backoff_delay_seconds 0 ≡ 0
unfolding backoff_delay_seconds
no_delay = refl

delay_suc : (n : ℕ) → backoff_delay_seconds n ≤ backoff_delay_seconds (suc n)
unfolding backoff_delay_seconds
delay_suc n = elim (Bool-cases (leb n 5)) [
  | inl free ↦ ground arith
  | inr spent ↦
      let next : suc n - 5 - 1 ≡ suc (n - 5 - 1) = ground arith in
      let twice : 2 ^ (suc n - 5 - 1) ≡ 2 ^ (n - 5 - 1) * 2 =
        ap (λ m. 2 ^ m) next ∙ power_suc (n - 5 - 1) in
      ground (arith, capped_double (2 ^ (n - 5 - 1)))
]

-- More failures never shorten the delay.
pub delay_monotone : (m n : ℕ) → m ≤ n → backoff_delay_seconds m ≤ backoff_delay_seconds n
delay_monotone m zero h = ground arith
delay_monotone m (suc n) h = ground (arith, delay_monotone m n, delay_suc n)

-- No counter expires later than a window from now.
abbrev pub IsRecent : Store → ℕ → Type 0
IsRecent store now = (k : ℕ) (c : Counter) → store k ≡ some c → c.expires_at ≤ now + 3600000

-- Recording a failure keeps that, and so does the passing of time.
pub record_failure-IsRecent :
    (redis : Redis) (store : Store) (now later : ℕ) (keys : Keys)
    → now ≤ later
    → IsRecent store now
    → IsRecent (record_failure redis store later keys) later
unfolding record_failure
record_failure-IsRecent redis store now later keys h recent k c e = elim (Bool-cases redis.writes) [
  | inl written ↦ ground (arith, recent k c)
  | inr lost ↦ ground (arith, recent k c)
]

wait_of_bounded : (delay remaining : ℕ) → remaining ≤ 3600000 → wait_of delay remaining ≤ delay
unfolding wait_of
wait_of_bounded delay remaining h = ground arith

remaining_bounded :
    (store : Store) (now k : ℕ)
    → IsRecent store now
    → remaining_of now (live now (store k)) ≤ 3600000
remaining_bounded store now k recent = elim (Option-cases (store k)) [
  | inl missing ↦ ground arith
  | inr (c, has) ↦ ground (arith, recent k c has)
]

failures_later :
    (now later : ℕ) (c : Option Counter)
    → now ≤ later
    → failures_of (live later c) ≤ failures_of (live now c)
failures_later now later none h = ground arith
failures_later now later (some c) h = ground arith

remaining_later :
    (now t : ℕ) (c : Option Counter)
    → remaining_of (now + t) (live (now + t) c) ≡ remaining_of now (live now c) - t
remaining_later now t none = ground arith
remaining_later now t (some c) = ground arith

over_failures :
    (now : ℕ) (c : Option Counter)
    → remaining_of now (live now c) ≡ 0
    → failures_of (live now c) ≡ 0
over_failures now none h = ground arith
over_failures now (some c) h = ground arith

answered_bounded : (b : Bool) (ms : ℕ) → if_answered b ms ≤ ms
answered_bounded true ms = omega arith
answered_bounded false ms = omega arith

abbrev pub all_reached : Redis
all_reached = record { reads = true; account_ttl = true; address_ttl = true; writes = true }

-- A sign-in is refused for at least one second and at most 15 minutes, if no counter outlives its
-- window.
pub wait_bounded :
    (redis : Redis) (store : Store) (now : ℕ) (keys : Keys) (w : ℕ)
    → IsRecent store now
    → assert_not_backed_off redis store now keys ≡ some w
    → (1 ≤ w) × (w ≤ 900)
unfolding assert_not_backed_off
wait_bounded redis store now keys w recent e =
    let account = live now (store keys.account) in
    let address = live now (store keys.address) in
    let delay = backoff_delay_seconds (max (failures_of account) (failures_of address)) in
    let left =
      max (if_answered redis.account_ttl (remaining_of now account))
        (if_answered redis.address_ttl (remaining_of now address)) in
    let small : left ≤ 3600000 = omega (
      arith,
      answered_bounded redis.account_ttl (remaining_of now account),
      answered_bounded redis.address_ttl (remaining_of now address),
      remaining_bounded store now keys.account recent,
      remaining_bounded store now keys.address recent,
    ) in
    ground (
      arith,
      small,
      remaining_bounded store now keys.account recent,
      remaining_bounded store now keys.address recent,
      wait_of_bounded delay left,
      delay_bounded (max (failures_of account) (failures_of address)),
    )

wait_of_later :
    (delay delay' left left' w : ℕ)
    → delay' ≤ delay
    → left' ≡ left - 1000 * w
    → wait_of delay left ≡ w
    → (left' ≡ 0 → delay' ≡ 0)
    → wait_of delay' left' ≡ 0
unfolding wait_of
wait_of_later delay delay' left left' w less passed wait over = ground arith

-- The wait that a refusal names is enough where Redis is reached: a sign-in that is refused for some seconds is let
-- through after that time, if no failure is recorded in between. So nobody is locked out for good.
pub wait_enough :
    (store : Store) (now : ℕ) (keys : Keys) (w : ℕ)
    → assert_not_backed_off all_reached store now keys ≡ some w
    → assert_not_backed_off all_reached store (now + 1000 * w) keys ≡ none
unfolding assert_not_backed_off
wait_enough store now keys w e =
    let later = now + 1000 * w in
    let account = live now (store keys.account) in
    let address = live now (store keys.address) in
    let account' = live later (store keys.account) in
    let address' = live later (store keys.address) in
    let count = max (failures_of account) (failures_of address) in
    let count' = max (failures_of account') (failures_of address') in
    let left = max (remaining_of now account) (remaining_of now address) in
    let left' = max (remaining_of later account') (remaining_of later address') in
    let fewer : count' ≤ count = omega (
      arith,
      failures_later now later (store keys.account) (omega arith),
      failures_later now later (store keys.address) (omega arith),
    ) in
    let passed : left' ≡ left - 1000 * w = omega (
      arith,
      remaining_later now (1000 * w) (store keys.account),
      remaining_later now (1000 * w) (store keys.address),
    ) in
    let none_left : left' ≡ 0 → count' ≡ 0 = λ z. omega (
      arith,
      over_failures later (store keys.account) (omega arith),
      over_failures later (store keys.address) (omega arith),
    ) in
    let over : left' ≡ 0 → backoff_delay_seconds count' ≡ 0 =
      λ z. ap backoff_delay_seconds (none_left z) ∙ no_delay in
    ground (
      arith,
      wait_of_later (backoff_delay_seconds count) (backoff_delay_seconds count') left left' w
          (delay_monotone count' count fewer) passed (ground arith) over,
    )
