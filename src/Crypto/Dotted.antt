-- ===== src/Crypto/Dotted.antt =====
-- Texts as lists of characters: `split` and `join` at a dot.
use godeye.Prelude.{
  Text, ℕ, ◌≡◌, refl, ap, ◌∙◌, Bool, true, not, ◌&&◌, List, [], ◌∷◌, ◌++◌, arith, ◌==◌,
  if◌then◌else◌,
}

abbrev pub dot : ℕ
dot = b'.'

abbrev pub onto_first : ℕ → List Text → List Text
onto_first c [] = (c ∷ []) ∷ []
onto_first c (w ∷ ws) = (c ∷ w) ∷ ws

-- `text.split(".")`
unfoldable pub split : Text → List Text
split [] = [] ∷ []
split (c ∷ cs) = let later = split cs in if c == dot then [] ∷ later else onto_first c later

-- `parts.join(".")`
unfoldable pub join : List Text → Text
join [] = []
join (w ∷ []) = w
join (w ∷ v ∷ ws) = w ++ dot ∷ join (v ∷ ws)

abbrev pub has_no_dot : Text → Bool
has_no_dot [] = true
has_no_dot (c ∷ cs) = not (c == dot) && has_no_dot cs

split-append : (w r : Text) → has_no_dot w ≡ true → split (w ++ dot ∷ r) ≡ w ∷ split r
unfolding split
split-append [] r h = refl
split-append (c ∷ cs) r h = ground (arith, split-append cs r)

split_self : (w : Text) → has_no_dot w ≡ true → split w ≡ w ∷ []
unfolding split
split_self [] h = refl
split_self (c ∷ cs) h = ground (arith, split_self cs)

abbrev pub IsPart : List Text → Type 0
IsPart [] = Unit {0}
IsPart (w ∷ ws) = (has_no_dot w ≡ true) × IsPart ws

-- Splitting undoes joining, where no part has a dot.
pub split-join : (w : Text) (ws : List Text) → IsPart (w ∷ ws) → split (join (w ∷ ws)) ≡ w ∷ ws
unfolding join
split-join w [] (h, t) = split_self w h
split-join w (v ∷ ws) (h, t) =
    split-append w (join (v ∷ ws)) h ∙ ap (λ l. w ∷ l) (split-join v ws t)
