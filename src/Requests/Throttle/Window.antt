-- ===== src/Requests/Throttle/Window.antt =====
-- What the counters let through in one window.
use godeye.Prelude.{
  ℕ, ◌+◌, ◌-◌, ◌*◌, ◌≤◌, ◌<◌, ◌≡◌, refl, max, Bool, true, false, not, ◌&&◌, Option, none, some,
  List, [], ◌∷◌, arith, ltb, leb, ◌==◌, if◌then◌else◌, Bool-cases, inl, inr, ap, ◌∙◌,
}
use godeye.Requests.Throttle.{Counter, Bump, increment, bump, record_of, Storage, increment_by}

-- A request on some key, and whether Redis answers it.
pub record Call : Type 0 where
  pub key : ℕ
  pub now : ℕ
  pub reachable : Bool
  pub cost : ℕ

-- The settings of a throttler, the same for each of its calls.
pub record Settings : Type 0 where
  pub ttl : ℕ
  pub limit : ℕ
  pub block_duration : ℕ

abbrev pub asks : Settings → Call → Bump
asks t a = record { ttl = t.ttl; limit = t.limit; block_duration = t.block_duration; cost = a.cost }

abbrev pub is_by : Bool → Call → Bool
is_by true a = a.reachable
is_by false a = not a.reachable

-- The cost of the calls on a key that are let through by Redis, or by the process where `by` is false.
pub passed : Settings → Bool → ℕ → Storage → List Call → ℕ
unfolding increment_by
passed t by key s [] = 0
passed t by key s (a ∷ calls) =
    let (answer, s') = increment_by s a.now a.reachable a.key (asks t a) in
    let rest = passed t by key s' calls in
    if a.key == key && not answer.is_blocked && is_by by a then max 1 a.cost + rest else rest

-- Every call of the list is made in a span of time.
abbrev pub IsWithin : ℕ → ℕ → List Call → Type 0
IsWithin start end [] = Unit {0}
IsWithin start end (a ∷ calls) = (start ≤ a.now) × (a.now < end) × IsWithin start end calls

abbrev pub counter_by : Bool → Storage → ℕ → Option Counter
counter_by true s key = s.shared key
counter_by false s key = s.memory key

-- A counter that is missing, or forgotten at that time.
abbrev pub is_over : ℕ → Option Counter → Bool
is_over start none = true
is_over start (some c) = leb c.expires_at start

next_other :
    (t : Settings) (by : Bool) (key : ℕ) (s : Storage) (a : Call)
    → (a.key == key && is_by by a) ≡ false
    → counter_by by (increment_by s a.now a.reachable a.key (asks t a)).1 key ≡ counter_by by s key
unfolding increment_by
next_other t true key s a other = ground arith
next_other t false key s a other = ground arith

-- What a call of its own kind leaves in a counter that had `hits`.
Counted : Settings → Bool → ℕ → Storage → Call → (hits end : ℕ) → Type 0
Counted t by key s a hits end =
    (c : Counter) × (counter_by by (increment_by s a.now a.reachable a.key (asks t a)).1 key
      ≡ some c)
    × (c.hits ≡ hits + max 1 a.cost)
    × (end ≤ c.expires_at)
    × ((increment_by s a.now a.reachable a.key (asks t a)).0.is_blocked
        ≡ ltb t.limit (hits + max 1 a.cost))

next_live :
    (t : Settings) (by : Bool) (key : ℕ) (s : Storage) (a : Call) (end : ℕ) (c : Counter)
    → (a.key == key && is_by by a) ≡ true
    → counter_by by s key ≡ some c
    → 0 < c.hits
    → a.now < end
    → end ≤ c.expires_at
    → Counted t by key s a c.hits end
unfolding Counted increment_by increment bump record_of
next_live t true key s a end c same at some_hits before long =
    (increment (some c) a.now (asks t a), ground arith, ground arith, ground arith, ground arith)
next_live t false key s a end c same at some_hits before long =
    (bump (some c) a.now (asks t a), ground arith, ground arith, ground arith, ground arith)

next_first :
    (t : Settings) (by : Bool) (key : ℕ) (s : Storage) (a : Call) (start : ℕ)
    → (a.key == key && is_by by a) ≡ true
    → is_over start (counter_by by s key) ≡ true
    → start ≤ a.now
    → Counted t by key s a 0 (start + t.ttl)
unfolding Counted increment_by increment bump record_of
next_first t true key s a start same over after = (
  increment (s.shared key) a.now (asks t a),
  ground arith,
  ground arith,
  ground arith,
  ground arith,
)
next_first t false key s a start same over after =
    (bump (s.memory key) a.now (asks t a), ground arith, ground arith, ground arith, ground arith)

-- A live counter goes on counting until its end, and only what still fits is let through.
passed-live :
    (t : Settings) (by : Bool) (key : ℕ) (calls : List Call) (s : Storage) (start end : ℕ)
    (c : Counter)
    → IsWithin start end calls
    → counter_by by s key ≡ some c
    → 0 < c.hits
    → end ≤ c.expires_at
    → passed t by key s calls ≤ t.limit - c.hits
unfolding passed Counted
passed-live t by key [] s start end c within at some_hits long = ground arith
passed-live t by key (a ∷ calls) s start end c (after, before, within) at some_hits long =
    elim (Bool-cases (a.key == key && is_by by a)) [
      | inl same ↦
          let (c', at', count, long', blocked) =
            next_live t by key s a end c same at some_hits before long in
          let rest =
            passed-live t by key calls (increment_by s a.now a.reachable a.key (asks t a)).1 start
              end c' within at' (ground arith) long' in
          ground arith
      | inr other ↦
          let kept = next_other t by key s a other in
          let rest =
            passed-live t by key calls (increment_by s a.now a.reachable a.key (asks t a)).1 start
              end c within (kept ∙ at) some_hits long in
          ground (arith)
    ]

-- Of the requests on one key that come within one window, from a counter that has begun no window
-- or whose window is over, Redis lets through a cost of at most the limit, and so does the process,
-- which counts on its own when Redis does not answer: in whatever order they come, whatever each
-- costs, and also while the other of the two answers some.
pub passed_bounded :
    (t : Settings) (by : Bool) (key : ℕ) (calls : List Call) (s : Storage) (start : ℕ)
    → IsWithin start (start + t.ttl) calls
    → is_over start (counter_by by s key) ≡ true
    → passed t by key s calls ≤ t.limit
unfolding passed Counted
passed_bounded t by key [] s start within over = ground arith
passed_bounded t by key (a ∷ calls) s start (after, before, within) over =
    let s' = (increment_by s a.now a.reachable a.key (asks t a)).1 in
    elim (Bool-cases (a.key == key && is_by by a)) [
      | inl same ↦
          let (c', at', count, long', blocked) = next_first t by key s a start same over after in
          let rest =
            passed-live t by key calls s' start (start + t.ttl) c' within at' (ground arith)
              long' in
          ground arith
      | inr other ↦
          let kept = next_other t by key s a other in
          let rest =
            passed_bounded t by key calls s' start within (ap (is_over start) kept ∙ over) in
          ground arith
    ]

pub run_calls : Settings → Storage → List Call → Storage
run_calls t s [] = s
run_calls t s (a ∷ calls) = run_calls t (increment_by s a.now a.reachable a.key (asks t a)).1 calls

-- No call of the list is of that kind.
abbrev pub none_counted : Bool → ℕ → List Call → Bool
none_counted by key [] = true
none_counted by key (a ∷ calls) = not (a.key == key && is_by by a) && none_counted by key calls

run_other :
    (t : Settings) (by : Bool) (key : ℕ) (calls : List Call) (s : Storage)
    → none_counted by key calls ≡ true
    → counter_by by (run_calls t s calls) key ≡ counter_by by s key
unfolding run_calls
run_other t by key [] s other = refl
run_other t by key (a ∷ calls) s other =
    run_other t by key calls (increment_by s a.now a.reachable a.key (asks t a)).1 (ground arith)
    ∙ next_other t by key s a (ground arith)

answer_end :
    (t : Settings) (by : Bool) (key : ℕ) (s : Storage) (a : Call)
    → (a.key == key && is_by by a) ≡ true
    → (c : Counter) × (counter_by by (increment_by s a.now a.reachable a.key (asks t a)).1 key
        ≡ some c)
      × (c.expires_at
          ≤ a.now
            + (increment_by s a.now a.reachable a.key (asks t a)).0.time_to_block_expire * 1000)
unfolding increment_by record_of
answer_end t true key s a mine =
    (increment (s.shared key) a.now (asks t a), ground arith, ground arith)
answer_end t false key s a mine = (bump (s.memory key) a.now (asks t a), ground arith, ground arith)

-- The wait that an answer names is enough. After a request on a key, let it be blocked or not, the
-- next one that is counted in the same place, after that many seconds, is not blocked, unless its
-- own cost is over the limit. Requests on other keys may come between.
pub increment_by_released :
    (t : Settings) (by : Bool) (key : ℕ) (s : Storage) (a b : Call) (between : List Call)
    → (a.key == key && is_by by a) ≡ true
    → (b.key == key && is_by by b) ≡ true
    → none_counted by key between ≡ true
    → a.now + (increment_by s a.now a.reachable a.key (asks t a)).0.time_to_block_expire * 1000
      ≤ b.now
    → max 1 b.cost ≤ t.limit
    → (increment_by
        (run_calls t (increment_by s a.now a.reachable a.key (asks t a)).1 between)
        b.now
        b.reachable
        b.key
        (asks t b)).0.is_blocked
      ≡ false
unfolding Counted increment_by record_of
increment_by_released t by key s a b between mine same other waited fits =
    let s' = (increment_by s a.now a.reachable a.key (asks t a)).1 in
    let kept = run_other t by key between s' other in
    let (c, at, ends) = answer_end t by key s a mine in
    let over : is_over b.now (counter_by by (run_calls t s' between) key) ≡ true =
      ap (is_over b.now) (kept ∙ at) ∙ ground arith in
    let (c2, at2, count, long, blocked) =
      next_first t by key (run_calls t s' between) b b.now same over (ground arith) in
    ground arith
