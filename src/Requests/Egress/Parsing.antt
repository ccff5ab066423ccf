-- ===== src/Requests/Egress/Parsing.antt =====
-- What a text that parses looks like.
use mathlib.Core.Path.{subst}
use godeye.Prelude.{
  zero, suc, ◌+◌, ◌*◌, map, ap, sym, ◌∙◌, ℕ, ◌-◌, ◌/◌, ◌%◌, ◌≤◌, ◌<◌, ◌≡◌, inl, inr, refl, Option,
  none, some, List, [], ◌∷◌, ◌++◌, length, arith, Option-cases,
}
use godeye.Requests.Egress.{
  V4Text, quad, v4_to_int, eight_groups, groups_of, zeros, V6Text, parse_v6,
}

pub v4_to_int-IsQuad :
    (t : V4Text) (value : ℕ)
    → v4_to_int t ≡ some value
    → (a b c d : ℕ) × (t ≡ quad a b c d) × (a < 256) × (b < 256) × (c < 256) × (d < 256)
unfolding v4_to_int
v4_to_int-IsQuad [] value e = ground arith
v4_to_int-IsQuad (none ∷ rest) value e = ground arith
v4_to_int-IsQuad (some a ∷ []) value e = ground arith
v4_to_int-IsQuad (some a ∷ none ∷ rest) value e = ground arith
v4_to_int-IsQuad (some a ∷ some b ∷ []) value e = ground arith
v4_to_int-IsQuad (some a ∷ some b ∷ none ∷ rest) value e = ground arith
v4_to_int-IsQuad (some a ∷ some b ∷ some c ∷ []) value e = ground arith
v4_to_int-IsQuad (some a ∷ some b ∷ some c ∷ none ∷ rest) value e = ground arith
v4_to_int-IsQuad (some a ∷ some b ∷ some c ∷ some d ∷ more ∷ rest) value e = ground arith
v4_to_int-IsQuad (some a ∷ some b ∷ some c ∷ some d ∷ []) value e =
    (a, b, c, d, refl, ground arith, ground arith, ground arith, ground arith)

pub v4_to_int-quad :
    (a b c d : ℕ)
    → a < 256
    → b < 256
    → c < 256
    → d < 256
    → v4_to_int (quad a b c d) ≡ some (((a * 256 + b) * 256 + c) * 256 + d)
unfolding v4_to_int
v4_to_int-quad a b c d p q r s = ground arith

-- `n` groups that are zero.
abbrev pub gap : ℕ → List (Option ℕ)
gap zero = []
gap (suc n) = some 0 ∷ gap n

-- The two groups that a dotted end stands for.
abbrev pub IsTail : Option V4Text → List (Option ℕ) → Type 0
IsTail none tail = tail ≡ []
IsTail (some t) tail =
    (a b c d : ℕ) × (t ≡ quad a b c d) × (tail ≡ some (a * 256 + b) ∷ some (c * 256 + d) ∷ [])

-- The groups in the order in which they are written, with zeros in the place of the `::`, if any.
abbrev pub IsWritten : List (List (Option ℕ)) → List (Option ℕ) → List (Option ℕ) → Type 0
IsWritten [] tail full = full ≡ tail
IsWritten (head ∷ []) tail full = full ≡ head ++ tail
IsWritten (head ∷ rest ∷ []) tail full = (n : ℕ) × (full ≡ head ++ gap n ++ rest ++ tail)
IsWritten (head ∷ rest ∷ third ∷ more) tail full = ⊥

-- The eight groups that a text writes.
pub record Writes (t : V6Text) (groups : List ℕ) : Type 0 where
  pub tail : List (Option ℕ)
  pub is_tail : IsTail t.dotted tail
  pub is_written : IsWritten t.halves tail (map some groups)

abbrev pub IsGroups : List ℕ → Type 0
IsGroups groups =
    (g0 g1 g2 g3 g4 g5 g6 g7 : ℕ) × (groups ≡ g0 ∷ g1 ∷ g2 ∷ g3 ∷ g4 ∷ g5 ∷ g6 ∷ g7 ∷ [])
    × (g0 ≤ 65535)
    × (g6 ≤ 65535)
    × (g7 ≤ 65535)

eight_groups-IsGroups :
    (t : List (Option ℕ)) (groups : List ℕ)
    → eight_groups t ≡ some groups
    → IsGroups groups × (map some groups ≡ t)
eight_groups-IsGroups [] groups e = ground arith
eight_groups-IsGroups (none ∷ rest) groups e = ground arith
eight_groups-IsGroups (some g0 ∷ []) groups e = ground arith
eight_groups-IsGroups (some g0 ∷ none ∷ rest) groups e = ground arith
eight_groups-IsGroups (some g0 ∷ some g1 ∷ []) groups e = ground arith
eight_groups-IsGroups (some g0 ∷ some g1 ∷ none ∷ rest) groups e = ground arith
eight_groups-IsGroups (some g0 ∷ some g1 ∷ some g2 ∷ []) groups e = ground arith
eight_groups-IsGroups (some g0 ∷ some g1 ∷ some g2 ∷ none ∷ rest) groups e = ground arith
eight_groups-IsGroups (some g0 ∷ some g1 ∷ some g2 ∷ some g3 ∷ []) groups e = ground arith
eight_groups-IsGroups (some g0 ∷ some g1 ∷ some g2 ∷ some g3 ∷ none ∷ rest) groups e = ground arith
eight_groups-IsGroups (some g0 ∷ some g1 ∷ some g2 ∷ some g3 ∷ some g4 ∷ []) groups e = ground arith
eight_groups-IsGroups (some g0 ∷ some g1 ∷ some g2 ∷ some g3 ∷ some g4 ∷ none ∷ rest) groups e =
    ground arith
eight_groups-IsGroups (some g0 ∷ some g1 ∷ some g2 ∷ some g3 ∷ some g4 ∷ some g5 ∷ []) groups e =
    ground arith
eight_groups-IsGroups (some g0 ∷ some g1 ∷ some g2 ∷ some g3 ∷ some g4 ∷ some g5 ∷ none ∷ rest)
      groups e =
    ground arith
eight_groups-IsGroups (some g0 ∷ some g1 ∷ some g2 ∷ some g3 ∷ some g4 ∷ some g5 ∷ some g6 ∷ [])
      groups e =
    ground arith
eight_groups-IsGroups
      (some g0 ∷ some g1 ∷ some g2 ∷ some g3 ∷ some g4 ∷ some g5 ∷ some g6 ∷ none ∷ rest) groups e =
    ground arith
eight_groups-IsGroups
      (some g0 ∷ some g1 ∷ some g2 ∷ some g3 ∷ some g4 ∷ some g5 ∷ some g6 ∷ some g7 ∷ more ∷ rest)
      groups e =
    ground arith
eight_groups-IsGroups
      (some g0 ∷ some g1 ∷ some g2 ∷ some g3 ∷ some g4 ∷ some g5 ∷ some g6 ∷ some g7 ∷ []) groups
      e =
    (
      (g0, g1, g2, g3, g4, g5, g6, g7, ground arith, ground arith, ground arith, ground arith),
      ground arith,
    )

zeros-gap : (n : ℕ) → zeros n ≡ gap n
zeros-gap zero = refl
zeros-gap (suc n) = ap (◌∷◌ (some 0)) (zeros-gap n)

groups_of-IsGroups :
    (halves : List (List (Option ℕ))) (tail : List (Option ℕ)) (groups : List ℕ)
    → groups_of halves tail ≡ some groups
    → IsGroups groups × IsWritten halves tail (map some groups)
groups_of-IsGroups [] tail groups e = eight_groups-IsGroups tail groups e
groups_of-IsGroups (head ∷ []) tail groups e = eight_groups-IsGroups (head ++ tail) groups e
groups_of-IsGroups (head ∷ rest ∷ []) tail groups e =
    let n = 8 - length head - length rest - length tail in
    let (eight, full) = eight_groups-IsGroups (head ++ zeros n ++ rest ++ tail) groups e in
    (eight, (n, full ∙ ap (λ g. head ++ g ++ rest ++ tail) (zeros-gap n)))
groups_of-IsGroups (head ∷ rest ∷ third ∷ more) tail groups e = ground arith

pub parse_v6-IsGroups :
    (t : V6Text) (groups : List ℕ) → parse_v6 t ≡ some groups → IsGroups groups × Writes t groups
unfolding parse_v6
parse_v6-IsGroups t groups e = elim (Option-cases t.dotted) [
  | inl plain ↦
      let (eight, written) = groups_of-IsGroups t.halves [] groups (ground arith) in
      (
        eight,
        record {
          tail = [];
          is_tail = subst (λ x. IsTail x []) (sym plain) refl;
          is_written = written;
        },
      )
  | inr (d, dotted) ↦ elim (Option-cases (v4_to_int d)) [
    | inl bad ↦ ground arith
    | inr (value, good) ↦
        let tail = some (value / 65536) ∷ some (value % 65536) ∷ [] in
        let (eight, written) = groups_of-IsGroups t.halves tail groups (ground arith) in
        let (a, b, c, e, is, p, q, r, s) = v4_to_int-IsQuad d value good in
        let number = v4_to_int-quad a b c e p q r s in
        let both : some value ≡ some (((a * 256 + b) * 256 + c) * 256 + e) =
          sym good ∙ ap v4_to_int is ∙ number in
        let parts : value ≡ ((a * 256 + b) * 256 + c) * 256 + e = ground arith in
        let high : value / 65536 ≡ a * 256 + b = omega arith in
        let low : value % 65536 ≡ c * 256 + e = omega arith in
        (
          eight,
          record {
            tail = tail;
            is_tail =
                subst (λ x. IsTail x tail) (sym dotted)
                  (
                    a,
                    b,
                    c,
                    e,
                    is,
                    ap (λ x. some x ∷ some (value % 65536) ∷ []) high
                        ∙ ap (λ x. some (a * 256 + b) ∷ some x ∷ []) low,
                  );
            is_written = written;
          },
        )
  ]
]
