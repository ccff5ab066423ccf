-- ===== src/Requests/Egress/Blocks.antt =====
-- The test of an address by masks against a description of the special-purpose blocks by octets.
use godeye.Prelude.{
  ℕ, ◌+◌, ◌*◌, ◌<◌, ◌≡◌, refl, Bool, true, false, ◌&&◌, ◌||◌, none, some, arith, leb, ◌==◌,
  if◌then◌else◌, ap, sym, ◌∙◌, ◌⊎◌, inl, inr,
}
use godeye.Requests.Egress.Parsing.{v4_to_int-quad}
use godeye.Requests.Egress.{
  quad, v4_to_int, is_blocked_v4, blocked_v4, in_network, in_some_network, same_parts,
}

-- The special-purpose blocks of addresses, octet by octet.
abbrev pub is_special_v4 : ℕ → ℕ → ℕ → Bool
is_special_v4 a b c =
    (a == 0)
    || (a == 10)
    || (a == 100 && leb 64 b && leb b 127)
    || (a == 127)
    || (a == 169 && b == 254)
    || (a == 172 && leb 16 b && leb b 31)
    || (a == 192 && b == 0 && c == 0)
    || (a == 192 && b == 0 && c == 2)
    || (a == 192 && b == 168)
    || (a == 198 && leb 18 b && leb b 19)
    || (a == 198 && b == 51 && c == 100)
    || (a == 203 && b == 0 && c == 113)
    || (leb 224 a && leb a 239)
    || (leb 240 a)

abbrev IsAddress : ℕ → ℕ → ℕ → ℕ → ℕ → Type 0
IsAddress a b c d value =
    (a < 256) × (b < 256) × (c < 256) × (d < 256) × (value ≡ ((a * 256 + b) * 256 + c) * 256 + d)

-- Each network by itself.
module _ (a b c d value : ℕ) (is : IsAddress a b c d value) where
  this_network : in_network value (quad 0 0 0 0, 8) ≡ (a == 0)
  unfolding v4_to_int
  this_network = ground (arith, is)

  private_10 : in_network value (quad 10 0 0 0, 8) ≡ (a == 10)
  unfolding v4_to_int
  private_10 = ground (arith, is)

  shared_space : in_network value (quad 100 64 0 0, 10) ≡ (a == 100 && leb 64 b && leb b 127)
  unfolding v4_to_int
  shared_space = ground (arith, is)

  loopback : in_network value (quad 127 0 0 0, 8) ≡ (a == 127)
  unfolding v4_to_int
  loopback = ground (arith, is)

  link_local : in_network value (quad 169 254 0 0, 16) ≡ (a == 169 && b == 254)
  unfolding v4_to_int
  link_local = ground (arith, is)

  private_172 : in_network value (quad 172 16 0 0, 12) ≡ (a == 172 && leb 16 b && leb b 31)
  unfolding v4_to_int
  private_172 = ground (arith, is)

  protocol_block : in_network value (quad 192 0 0 0, 24) ≡ (a == 192 && b == 0 && c == 0)
  unfolding v4_to_int
  protocol_block = ground (arith, is)

  test_net_1 : in_network value (quad 192 0 2 0, 24) ≡ (a == 192 && b == 0 && c == 2)
  unfolding v4_to_int
  test_net_1 = ground (arith, is)

  private_192 : in_network value (quad 192 168 0 0, 16) ≡ (a == 192 && b == 168)
  unfolding v4_to_int
  private_192 = ground (arith, is)

  benchmarking : in_network value (quad 198 18 0 0, 15) ≡ (a == 198 && leb 18 b && leb b 19)
  unfolding v4_to_int
  benchmarking = ground (arith, is)

  test_net_2 : in_network value (quad 198 51 100 0, 24) ≡ (a == 198 && b == 51 && c == 100)
  unfolding v4_to_int
  test_net_2 = ground (arith, is)

  test_net_3 : in_network value (quad 203 0 113 0, 24) ≡ (a == 203 && b == 0 && c == 113)
  unfolding v4_to_int
  test_net_3 = ground (arith, is)

  multicast : in_network value (quad 224 0 0 0, 4) ≡ (leb 224 a && leb a 239)
  unfolding v4_to_int
  multicast = ground (arith, is)

  reserved : (in_network value (quad 240 0 0 0, 4) || false) ≡ leb 240 a
  unfolding v4_to_int
  reserved = ground (arith, is)

  in_some_network_special : in_some_network value blocked_v4 ≡ is_special_v4 a b c
  in_some_network_special =
      (λ i.
        this_network i
        || (private_10 i
            || (shared_space i
                || (loopback i
                    || (link_local i
                        || (private_172 i
                            || (protocol_block i
                                || (test_net_1 i
                                    || (private_192 i
                                        || (benchmarking i
                                            || (test_net_2 i
                                                || (test_net_3 i
                                                    || (multicast i || (reserved i))))))))))))))
      ∙ ground arith

is_exact : ℕ → ℕ → ℕ → ℕ → Bool
is_exact a b c d =
    same_parts (quad a b c d) (quad 100 100 100 200)
    || same_parts (quad a b c d) (quad 255 255 255 255)

-- The two addresses that are listed by themselves lie in blocks of the list.
is_exact-special : (a b c d : ℕ) → is_exact a b c d ≡ true → is_special_v4 a b c ≡ true
unfolding is_exact
is_exact-special a b c d exact =
    let which : ((a ≡ 100) × (b ≡ 100)) ⊎ (a ≡ 255) = ground arith in
    elim which [
      | inl (p, q) ↦ (λ i. is_special_v4 (p i) (q i) c) ∙ refl
      | inr p ↦ (λ i. is_special_v4 (p i) b c) ∙ refl
    ]

or_implied :
    (exact special : Bool)
    → (exact ≡ true → special ≡ true)
    → (if exact then true else special) ≡ special
or_implied true special implied = sym (implied refl)
or_implied false special implied = refl

-- The test by masks is the test by octets: an address is blocked exactly when it lies in one of the
-- special-purpose blocks.
pub is_blocked_v4-is_special_v4 :
    (a b c d : ℕ)
    → a < 256
    → b < 256
    → c < 256
    → d < 256
    → is_blocked_v4 (quad a b c d) ≡ is_special_v4 a b c
unfolding is_blocked_v4 is_exact
is_blocked_v4-is_special_v4 a b c d p q r s =
    let value = ((a * 256 + b) * 256 + c) * 256 + d in
    let parsed = v4_to_int-quad a b c d p q r s in
    let masks = in_some_network_special a b c d value (p, q, r, s, refl) in
    let exact = is_exact a b c d in
    ap
      (λ found.
        if exact then true else elim found [ none ↦ true | some v ↦ in_some_network v blocked_v4 ])
      parsed
    ∙ ap (λ blocked. if exact then true else blocked) masks
    ∙ or_implied exact (is_special_v4 a b c) (is_exact-special a b c d)
