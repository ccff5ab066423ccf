-- ===== src/Requests/Egress.antt =====
-- apps/api/src/common/url-guard.ts: the guard on a URL that a customer names. `new URL`, `isIP` and
-- the DNS lookup are libraries: what they yield is an argument. The text of an address is what its
-- splits and `Number` or `parseInt` make of it, `none` where that is no natural number.
pub mod Blocks
pub mod Parsing
pub mod Public
use Prim.Native.String.{len, slice}
use text.Mathlib.Text.{◌==◌ as str_eq}
use godeye.Prelude.{
  ℕ, zero, suc, ◌+◌, ◌-◌, ◌*◌, ◌/◌, ◌%◌, ◌^◌, refl, Bool, true, false, not, ◌&&◌, ◌||◌, Option,
  none, some, List, [], ◌∷◌, ◌++◌, length, String, ltb, leb, ◌==◌, if◌then◌else◌, Result, ok, err,
}

-- The parts of a dotted text.
abbrev pub V4Text : Type 0
V4Text = List (Option ℕ)

abbrev pub quad : ℕ → ℕ → ℕ → ℕ → V4Text
quad a b c d = some a ∷ some b ∷ some c ∷ some d ∷ []

-- `(value << 8) | octet`, as 32 bits.
abbrev pub shift_in : ℕ → ℕ → ℕ
shift_in value octet = (value * 256 + octet) % 4_294_967_296

unfoldable pub v4_to_int : V4Text → Option ℕ
v4_to_int (some a ∷ some b ∷ some c ∷ some d ∷ []) =
    if leb a 255 && leb b 255 && leb c 255 && leb d 255
    then some (shift_in (shift_in (shift_in (shift_in 0 a) b) c) d)
    else none
v4_to_int _ = none

abbrev pub blocked_v4 : List (V4Text × ℕ)
blocked_v4 =
    (quad 0 0 0 0, 8)
    ∷ (quad 10 0 0 0, 8)
    ∷ (quad 100 64 0 0, 10)
    ∷ (quad 127 0 0 0, 8)
    ∷ (quad 169 254 0 0, 16)
    ∷ (quad 172 16 0 0, 12)
    ∷ (quad 192 0 0 0, 24)
    ∷ (quad 192 0 2 0, 24)
    ∷ (quad 192 168 0 0, 16)
    ∷ (quad 198 18 0 0, 15)
    ∷ (quad 198 51 100 0, 24)
    ∷ (quad 203 0 113 0, 24)
    ∷ (quad 224 0 0 0, 4)
    ∷ (quad 240 0 0 0, 4)
    ∷ []

-- `value & mask`, the mask having the top `bits` bits.
abbrev pub masked : ℕ → ℕ → ℕ
masked value bits = value / 2 ^ (32 - bits) * 2 ^ (32 - bits)

abbrev pub in_network : ℕ → V4Text × ℕ → Bool
in_network value (network, bits) = elim (v4_to_int network) [
  | none ↦ false
  | some base ↦ masked value bits == masked base bits
]

abbrev pub in_some_network : ℕ → List (V4Text × ℕ) → Bool
in_some_network value [] = false
in_some_network value (n ∷ networks) = in_network value n || in_some_network value networks

abbrev pub same_parts : V4Text → V4Text → Bool
same_parts [] [] = true
same_parts (some a ∷ p) (some b ∷ q) = a == b && same_parts p q
same_parts _ _ = false

unfoldable pub is_blocked_v4 : V4Text → Bool
is_blocked_v4 address =
    if same_parts address (quad 100 100 100 200) || same_parts address (quad 255 255 255 255)
    then true
    else elim (v4_to_int address) [ none ↦ true | some value ↦ in_some_network value blocked_v4 ]

-- The text of a v6 address: the groups of the texts that `::` separates, and the dotted end.
pub record V6Text : Type 0 where
  pub halves : List (List (Option ℕ))
  pub dotted : Option V4Text

abbrev pub zeros : ℕ → List (Option ℕ)
zeros zero = []
zeros (suc n) = some 0 ∷ zeros n

-- The eight groups, all of them 16 bits wide.
abbrev pub eight_groups : List (Option ℕ) → Option (List ℕ)
eight_groups (some g0 ∷ some g1 ∷ some g2 ∷ some g3 ∷ some g4 ∷ some g5 ∷ some g6 ∷ some g7 ∷ []) =
    if leb g0 65535
      && leb g1 65535
      && leb g2 65535
      && leb g3 65535
      && leb g4 65535
      && leb g5 65535
      && leb g6 65535
      && leb g7 65535
    then some (g0 ∷ g1 ∷ g2 ∷ g3 ∷ g4 ∷ g5 ∷ g6 ∷ g7 ∷ [])
    else none
eight_groups _ = none

-- Where the groups are more than eight, the source throws a RangeError for the length of the fill;
-- here, as for each text that does not parse, the answer is `none`. `isIP` lets no such text come.
abbrev pub groups_of : List (List (Option ℕ)) → List (Option ℕ) → Option (List ℕ)
groups_of [] tail = eight_groups tail
groups_of (head ∷ []) tail = eight_groups (head ++ tail)
groups_of (head ∷ rest ∷ []) tail =
    eight_groups (head ++ zeros (8 - length head - length rest - length tail) ++ rest ++ tail)
groups_of _ tail = none

unfoldable pub parse_v6 : V6Text → Option (List ℕ)
parse_v6 t = elim t.dotted [
  | none ↦ groups_of t.halves []
  | some d ↦ elim (v4_to_int d) [
    | none ↦ none
    | some value ↦ groups_of t.halves (some (value / 65536) ∷ some (value % 65536) ∷ [])
  ]
]

abbrev pub as_v4 : ℕ → ℕ → V4Text
as_v4 g6 g7 = quad (g6 / 256) (g6 % 256) (g7 / 256) (g7 % 256)

unfoldable pub is_blocked_groups : List ℕ → Bool
is_blocked_groups (g0 ∷ g1 ∷ g2 ∷ g3 ∷ g4 ∷ g5 ∷ g6 ∷ g7 ∷ []) =
    let zeros_5 = g0 == 0 && g1 == 0 && g2 == 0 && g3 == 0 && g4 == 0 in
    if zeros_5 && g5 == 65535
    then is_blocked_v4 (as_v4 g6 g7)
    else if zeros_5 && g5 == 0 && g6 == 0
    then true
    else if zeros_5 && g5 == 0
    then is_blocked_v4 (as_v4 g6 g7)
    else if g0 == 100 && g1 == 65435 && (g2 == 0 && g3 == 0 && g4 == 0 && g5 == 0)
    then is_blocked_v4 (as_v4 g6 g7)
    else if g0 / 512 * 512 == 64512
    then true
    else if g0 / 64 * 64 == 65152
    then true
    else g0 / 256 * 256 == 65280
is_blocked_groups _ = true

unfoldable pub is_blocked_v6 : V6Text → Bool
is_blocked_v6 t = elim (parse_v6 t) [ none ↦ true | some g ↦ is_blocked_groups g ]

-- What `isIP` takes a text for.
pub data Address : Type 0 where
  v4_address : V4Text → Address
  v6_address : V6Text → Address
  no_address : Address

unfoldable pub blocked_address : Address → Bool
blocked_address (v4_address t) = is_blocked_v4 t
blocked_address (v6_address t) = is_blocked_v6 t
blocked_address no_address = true

abbrev pub is_ip : Address → Bool
is_ip no_address = false
is_ip _ = true

abbrev pub blocked_hosts : List String
blocked_hosts =
    "localhost" ∷ "localhost.localdomain" ∷ "metadata" ∷ "metadata.google.internal"
    ∷ "instance-data" ∷ []

abbrev pub blocked_suffixes : List String
blocked_suffixes =
    ".internal" ∷ ".railway.internal" ∷ ".local" ∷ ".localhost" ∷ ".cluster.local" ∷ ".svc"
    ∷ ".svc.cluster.local" ∷ []

abbrev pub has_some : (String → Bool) → List String → Bool
has_some p [] = false
has_some p (x ∷ xs) = p x || has_some p xs

abbrev pub ends_with : String → String → Bool
ends_with s t = leb (len t) (len s) && str_eq (slice s (len s - len t) (len s)) t

unfoldable pub is_internal_name : String → Bool
is_internal_name host =
    has_some (str_eq host) blocked_hosts || has_some (ends_with host) blocked_suffixes

-- What `new URL` yields: `host` is in lower case and without a last dot, `literal` is what it is
-- without its brackets.
pub record Url : Type 0 where
  pub protocol : String
  pub has_credentials : Bool
  pub port : Option ℕ
  pub host : String
  pub literal : Address

pub data UrlRefusal : Type 0 where
  invalid_url not_http credentials_in_url port_not_allowed no_host internal_service : UrlRefusal
  private_address unresolved resolves_to_nothing resolves_to_private : UrlRefusal

abbrev pub port_of : Url → ℕ
port_of url = elim url.port [ some p ↦ p | none ↦ if str_eq url.protocol "https:" then 443 else 80 ]

abbrev pub some_blocked : List Address → Bool
some_blocked [] = false
some_blocked (a ∷ rest) = blocked_address a || some_blocked rest

unfoldable pub judge_answers : Url → Option (List Address) → Result UrlRefusal Url
judge_answers url none = err unresolved
judge_answers url (some []) = err resolves_to_nothing
judge_answers url (some (a ∷ rest)) =
    if some_blocked (a ∷ rest) then err resolves_to_private else ok url

-- `parsed` is `none` where `new URL` throws, `lookup` answers `none` where it throws.
unfoldable pub assert_public_url :
    (lookup : String → Option (List Address)) → Option Url → Result UrlRefusal Url
assert_public_url lookup none = err invalid_url
assert_public_url lookup (some url) =
    if not (str_eq url.protocol "http:" || str_eq url.protocol "https:")
    then err not_http
    else if url.has_credentials
    then err credentials_in_url
    else if not (port_of url == 80 || port_of url == 443)
    then err port_not_allowed
    else if str_eq url.host ""
    then err no_host
    else if is_internal_name url.host
    then err internal_service
    else if is_ip url.literal
    then (if blocked_address url.literal then err private_address else ok url)
    else judge_answers url (lookup url.host)
