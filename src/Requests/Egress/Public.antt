-- ===== src/Requests/Egress/Public.antt =====
-- Which URLs the guard lets through.
use text.Mathlib.Text.{◌==◌ as str_eq}
use mathlib.Core.Path.{subst}
use godeye.Prelude.{
  String, ℕ, ◌*◌, ◌/◌, ◌%◌, ◌≤◌, ◌<◌, ◌≡◌, ◌⊎◌, inl, inr, refl, sym, ap, ◌∙◌, Bool, true, false,
  ◌&&◌, ◌||◌, Option, none, some, List, [], ◌∷◌, arith, leb, ◌==◌, if◌then◌else◌, Bool-cases,
  Option-cases, ok,
}
use godeye.Requests.Egress.{
  V4Text, quad, v4_to_int, is_blocked_v4, V6Text, parse_v6, as_v4, is_blocked_groups, is_blocked_v6,
  Address, v4_address, v6_address, no_address, blocked_address, is_ip, is_internal_name, Url,
  port_of, some_blocked, judge_answers, assert_public_url,
}
use godeye.Requests.Egress.Parsing.{v4_to_int-IsQuad, Writes, parse_v6-IsGroups}
use godeye.Requests.Egress.Blocks.{is_special_v4, is_blocked_v4-is_special_v4}

-- The v6 addresses that stand for the v4 address in their last two groups: the mapped, the
-- compatible and the NAT64 form. The compatible one has the loopback and the unspecified address.
abbrev pub embeds_v4 : ℕ → ℕ → ℕ → ℕ → ℕ → ℕ → Bool
embeds_v4 g0 g1 g2 g3 g4 g5 =
    (g0 == 0 && g1 == 0 && g2 == 0 && g3 == 0 && g4 == 0 && (g5 == 0 || g5 == 65535))
    || (g0 == 100 && g1 == 65435 && g2 == 0 && g3 == 0 && g4 == 0 && g5 == 0)

-- Unique-local, link-local and multicast.
abbrev pub is_local_v6 : ℕ → Bool
is_local_v6 g0 = (leb 64512 g0 && leb g0 65023) || (leb 65152 g0 && leb g0 65215) || leb 65280 g0

abbrev pub is_special_v6 : ℕ → ℕ → ℕ → ℕ → ℕ → ℕ → ℕ → ℕ → Bool
is_special_v6 g0 g1 g2 g3 g4 g5 g6 g7 =
    if embeds_v4 g0 g1 g2 g3 g4 g5
    then is_special_v4 (g6 / 256) (g6 % 256) (g7 / 256)
    else is_local_v6 g0

as_v4-special :
    (g6 g7 : ℕ)
    → g6 ≤ 65535
    → g7 ≤ 65535
    → is_blocked_v4 (as_v4 g6 g7) ≡ is_special_v4 (g6 / 256) (g6 % 256) (g7 / 256)
as_v4-special g6 g7 p q =
    is_blocked_v4-is_special_v4 (g6 / 256) (g6 % 256) (g7 / 256) (g7 % 256) (ground arith)
      (ground arith) (ground arith) (ground arith)

-- The tests in their order, with the two answers on the embedded address left open.
choose :
    (g0 g1 g2 g3 g4 g5 g6 : ℕ) (blocked special : Bool)
    → blocked ≡ special
    → (g6 ≡ 0 → special ≡ true)
    → g0 ≤ 65535
    → (let zeros_5 = g0 == 0 && g1 == 0 && g2 == 0 && g3 == 0 && g4 == 0 in
        if zeros_5 && g5 == 65535
        then blocked
        else if zeros_5 && g5 == 0 && g6 == 0
        then true
        else if zeros_5 && g5 == 0
        then blocked
        else if g0 == 100 && g1 == 65435 && (g2 == 0 && g3 == 0 && g4 == 0 && g5 == 0)
        then blocked
        else if g0 / 512 * 512 == 64512
        then true
        else if g0 / 64 * 64 == 65152
        then true
        else g0 / 256 * 256 == 65280)
      ≡ (if embeds_v4 g0 g1 g2 g3 g4 g5 then special else is_local_v6 g0)
choose g0 g1 g2 g3 g4 g5 g6 blocked special same zero small = ground arith

-- A v6 address of eight groups of 16 bits is blocked exactly when it stands for a v4 address in one of
-- the special-purpose blocks, or else is a unique-local, a link-local or a multicast one.
pub is_blocked_groups-is_special_v6 :
    (g0 g1 g2 g3 g4 g5 g6 g7 : ℕ)
    → g0 ≤ 65535
    → g6 ≤ 65535
    → g7 ≤ 65535
    → is_blocked_groups (g0 ∷ g1 ∷ g2 ∷ g3 ∷ g4 ∷ g5 ∷ g6 ∷ g7 ∷ [])
      ≡ is_special_v6 g0 g1 g2 g3 g4 g5 g6 g7
unfolding is_blocked_groups
is_blocked_groups-is_special_v6 g0 g1 g2 g3 g4 g5 g6 g7 p q r =
    choose g0 g1 g2 g3 g4 g5 g6 (is_blocked_v4 (as_v4 g6 g7))
      (is_special_v4 (g6 / 256) (g6 % 256) (g7 / 256)) (as_v4-special g6 g7 q r)
      (λ z. (λ i. is_special_v4 (z i / 256) (z i % 256) (g7 / 256)) ∙ refl) p

-- An address outside the special-purpose blocks of is_special_v4 and is_special_v6. A v6 address is the
-- eight groups that its text writes.
abbrev pub IsPublic : Address → Type 0
IsPublic (v4_address t) =
    (a b c d : ℕ) × (t ≡ quad a b c d)
    × (a < 256)
    × (b < 256)
    × (c < 256)
    × (d < 256)
    × (is_special_v4 a b c ≡ false)
IsPublic (v6_address t) =
    (g0 g1 g2 g3 g4 g5 g6 g7 : ℕ) × Writes t (g0 ∷ g1 ∷ g2 ∷ g3 ∷ g4 ∷ g5 ∷ g6 ∷ g7 ∷ [])
    × (is_special_v6 g0 g1 g2 g3 g4 g5 g6 g7 ≡ false)
IsPublic no_address = ⊥

abbrev pub AllPublic : List Address → Type 0
AllPublic [] = Unit {0}
AllPublic (a ∷ rest) = IsPublic a × AllPublic rest

blocked_v4-IsPublic : (t : V4Text) → is_blocked_v4 t ≡ false → IsPublic (v4_address t)
unfolding is_blocked_v4
blocked_v4-IsPublic t free = elim (Option-cases (v4_to_int t)) [
  | inl bad ↦ ground arith
  | inr (value, good) ↦
      let (a, b, c, d, is, p, q, r, s) = v4_to_int-IsQuad t value good in
      (
        a,
        b,
        c,
        d,
        is,
        p,
        q,
        r,
        s,
        sym (is_blocked_v4-is_special_v4 a b c d p q r s) ∙ ap is_blocked_v4 (sym is) ∙ free,
      )
]

blocked_v6-IsPublic : (t : V6Text) → is_blocked_v6 t ≡ false → IsPublic (v6_address t)
unfolding is_blocked_v6
blocked_v6-IsPublic t free = elim (Option-cases (parse_v6 t)) [
  | inl bad ↦ ground arith
  | inr (groups, good) ↦
      let ((g0, g1, g2, g3, g4, g5, g6, g7, is, p, q, r), writes) =
        parse_v6-IsGroups t groups good in
      let judged : is_blocked_groups groups ≡ false = ground arith in
      (
        g0,
        g1,
        g2,
        g3,
        g4,
        g5,
        g6,
        g7,
        subst (Writes t) is writes,
        sym (is_blocked_groups-is_special_v6 g0 g1 g2 g3 g4 g5 g6 g7 p q r)
            ∙ ap is_blocked_groups (sym is)
            ∙ judged,
      )
]

blocked_address-IsPublic : (a : Address) → blocked_address a ≡ false → IsPublic a
unfolding blocked_address
blocked_address-IsPublic (v4_address t) free = blocked_v4-IsPublic t free
blocked_address-IsPublic (v6_address t) free = blocked_v6-IsPublic t free
blocked_address-IsPublic no_address free = ground arith

some_blocked-AllPublic :
    (addresses : List Address) → some_blocked addresses ≡ false → AllPublic addresses
some_blocked-AllPublic [] free = tt
some_blocked-AllPublic (a ∷ rest) free =
    (blocked_address-IsPublic a (ground arith), some_blocked-AllPublic rest (ground arith))

judge_answers-ok :
    (asked url : Url) (answers : Option (List Address))
    → judge_answers asked answers ≡ ok url
    → (a : Address) × (rest : List Address) × (url ≡ asked)
      × (answers ≡ some (a ∷ rest))
      × (some_blocked (a ∷ rest) ≡ false)
unfolding judge_answers
judge_answers-ok asked url none e = ground arith
judge_answers-ok asked url (some []) e = ground arith
judge_answers-ok asked url (some (a ∷ rest)) e = (a, rest, ground arith, refl, ground arith)

assert_public_url_cases :
    (lookup : String → Option (List Address)) (url asked : Url)
    → assert_public_url lookup (some asked) ≡ ok url
    → (url ≡ asked)
      × ((str_eq asked.protocol "http:" || str_eq asked.protocol "https:") ≡ true)
      × (asked.has_credentials ≡ false)
      × ((port_of asked ≡ 80) ⊎ (port_of asked ≡ 443))
      × (is_internal_name asked.host ≡ false)
      × ((blocked_address asked.literal ≡ false)
          ⊎ ((a : Address) × (rest : List Address) × (lookup asked.host ≡ some (a ∷ rest))
              × (some_blocked (a ∷ rest) ≡ false)))
unfolding assert_public_url
assert_public_url_cases lookup url asked e = elim (Bool-cases (is_ip asked.literal)) [
  | inl literal ↦
      (ground arith, ground arith, ground arith, ground arith, ground arith, inl (ground arith))
  | inr name ↦
      let (a, rest, is, answers, free) =
        judge_answers-ok asked url (lookup asked.host) (ground arith) in
      (is, ground arith, ground arith, ground arith, ground arith, inr (a, rest, answers, free))
]

-- Where the guard lets a URL through, it is an HTTP one without credentials on port 80 or 443, its
-- host is none of the internal names, and it is either a public address or a name whose every answer
-- of the DNS, of which there is one at least, is a public address. A v4 address is public outside the
-- blocks of is_special_v4. A v6 one is what its text writes, the zeros in the place of the `::`; it is
-- public if it is no unique-local, link-local or multicast address and stands, where it is of the
-- mapped, the compatible or the NAT64 form, for a public v4 address. Other forms that embed a v4
-- address are not looked into.
pub assert_public_url-AllPublic :
    (lookup : String → Option (List Address)) (url asked : Url)
    → assert_public_url lookup (some asked) ≡ ok url
    → (url ≡ asked)
      × ((str_eq asked.protocol "http:" || str_eq asked.protocol "https:") ≡ true)
      × (asked.has_credentials ≡ false)
      × ((port_of asked ≡ 80) ⊎ (port_of asked ≡ 443))
      × (is_internal_name asked.host ≡ false)
      × (IsPublic asked.literal
          ⊎ ((a : Address) × (rest : List Address) × (lookup asked.host ≡ some (a ∷ rest))
              × AllPublic (a ∷ rest)))
assert_public_url-AllPublic lookup url asked e =
    let (is, protocol, credentials, port, name, way) = assert_public_url_cases lookup url asked e in
    (
      is,
      protocol,
      credentials,
      port,
      name,
      elim way [
        | inl free ↦ inl (blocked_address-IsPublic asked.literal free)
        | inr (a, rest, answers, free) ↦
            inr (a, rest, answers, some_blocked-AllPublic (a ∷ rest) free)
      ],
    )
