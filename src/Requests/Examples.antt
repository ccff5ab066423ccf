-- ===== src/Requests/Examples.antt =====
-- Concrete requests, on which the theorems about the checks before the handlers are applied.
use text.Mathlib.Text.{◌==◌ as str_eq}
use godeye.Prelude.{
  String, ℕ, ◌≤◌, ◌≡◌, ◌⊎◌, refl, Bool, true, false, ◌||◌, Option, none, some, List, [], ◌∷◌, arith,
}
use godeye.Requests.Throttle.{Storage, increment_by, increment, record_of}
use godeye.Requests.Throttle.Window.{
  Call, Settings, asks, passed, run_calls, passed_bounded, increment_by_released,
}
use godeye.Requests.Egress.{
  V6Text, parse_v6, is_blocked_v6, is_blocked_groups, quad, is_blocked_v4, Address, v4_address,
  no_address, Url, port_of, is_internal_name, assert_public_url, judge_answers, v4_to_int,
  blocked_address,
}
use godeye.Requests.Egress.Blocks.{is_special_v4, is_blocked_v4-is_special_v4}
use godeye.Requests.Egress.Public.{IsPublic, AllPublic, assert_public_url-AllPublic}

abbrev nothing_counted : Storage
nothing_counted = record { shared = λ key. none; memory = λ key. none }

abbrev three_a_minute : Settings
three_a_minute = record { ttl = 60000; limit = 3; block_duration = 120000 }

abbrev call : ℕ → Bool → ℕ → Call
call now reachable cost = record { key = 7; now = now; reachable = reachable; cost = cost }

abbrev burst : List Call
burst =
    call 100 true 1 ∷ call 200 true 2 ∷ call 300 false 2 ∷ call 400 true 1 ∷ call 500 true 0 ∷ []

passed_bounded_example : passed three_a_minute true 7 nothing_counted burst ≤ 3
passed_bounded_example =
    passed_bounded three_a_minute true 7 burst nothing_counted 100
      (
        ground arith,
        ground arith,
        (
          ground arith,
          ground arith,
          (
            ground arith,
            ground arith,
            (ground arith, ground arith, (ground arith, ground arith, tt)),
          ),
        ),
      )
      refl

abbrev over_limit : Storage
over_limit = record {
  shared = λ key. some (record { hits = 3; expires_at = 60100 });
  memory = λ key. none;
}

increment_by_released_example :
    (increment_by
      (run_calls three_a_minute
        (increment_by over_limit 500 true 7 (asks three_a_minute (call 500 true 1))).1
        (call 600 false 1 ∷ []))
      120500
      true
      7
      (asks three_a_minute (call 120500 true 1))).0.is_blocked
    ≡ false
unfolding increment_by increment record_of
increment_by_released_example =
    increment_by_released three_a_minute true 7 over_limit (call 500 true 1) (call 120500 true 1)
      (call 600 false 1 ∷ []) refl refl refl (ground arith) (ground arith)

is_blocked_v4-is_special_v4_example : is_blocked_v4 (quad 172 31 0 1) ≡ is_special_v4 172 31 0
is_blocked_v4-is_special_v4_example =
    is_blocked_v4-is_special_v4 172 31 0 1 (ground arith) (ground arith) (ground arith)
      (ground arith)

abbrev shop : Url
shop = record {
  protocol = "https:";
  has_credentials = false;
  port = none;
  host = "shop.example";
  literal = no_address;
}

abbrev answer : Address
answer = v4_address (quad 93 184 216 34)

abbrev dns : String → Option (List Address)
dns host = some (answer ∷ [])

assert_public_url-AllPublic_example :
    (shop ≡ shop)
    × ((str_eq shop.protocol "http:" || str_eq shop.protocol "https:") ≡ true)
    × (shop.has_credentials ≡ false)
    × ((port_of shop ≡ 80) ⊎ (port_of shop ≡ 443))
    × (is_internal_name shop.host ≡ false)
    × (IsPublic shop.literal
        ⊎ ((a : Address) × (rest : List Address) × (dns shop.host ≡ some (a ∷ rest))
            × AllPublic (a ∷ rest)))
unfolding assert_public_url judge_answers blocked_address is_blocked_v4 v4_to_int is_internal_name
assert_public_url-AllPublic_example = assert_public_url-AllPublic dns shop shop refl

-- Tests of the names and of the forms of an address.
internal_names :
    (is_internal_name "db.railway.internal" ≡ true)
    × (is_internal_name "localhost" ≡ true)
    × (is_internal_name "internal.example" ≡ false)
    × (is_internal_name "local" ≡ false)
unfolding is_internal_name
internal_names = (refl, refl, refl, refl)

-- ::ffff:10.0.0.1 in the form that `new URL` gives it, and 2606:4700::1.
abbrev mapped_private : V6Text
mapped_private = record { halves = [] ∷ (some 65535 ∷ some 2560 ∷ some 1 ∷ []) ∷ []; dotted = none }

judged_v6 :
    (is_blocked_v6 mapped_private ≡ true)
    × (is_blocked_v6
          (record { halves = [] ∷ (some 65535 ∷ []) ∷ []; dotted = some (quad 10 0 0 1) })
        ≡ true)
    × (is_blocked_v6
          (record { halves = (some 9734 ∷ some 18176 ∷ []) ∷ (some 1 ∷ []) ∷ []; dotted = none })
        ≡ false)
unfolding is_blocked_v6 parse_v6 is_blocked_groups is_blocked_v4 v4_to_int
judged_v6 = (refl, refl, refl)
