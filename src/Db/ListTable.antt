-- ===== src/Db/ListTable.antt =====
-- A table that keeps its rows in a list: it shows that the laws of `Table` can be met, and the
-- witnesses run on it.
use mathlib.Core.Path.{subst}
use godeye.Prelude.{
  ap, ℕ, zero, suc, ◌≡◌, ◌≤◌, refl, Bool, true, false, Option, none, some, List, [], ◌∷◌, arith,
  ◌==◌, if◌then◌else◌, length, any, inl, inr, Bool-cases,
}
use mathlib.Core.Option
use mathlib.Core.Option.{some-injective}
use godeye.Db.{Table, patch, Each, Apart}

module _ {Row : Type 0} (key : Row → ℕ) where
  abbrev pub find : ℕ → List Row → Option Row
  find k [] = none
  find k (r ∷ rs) = if key r == k then some r else find k rs

  abbrev pub Distinct : List Row → Type 0
  Distinct [] = Unit
  Distinct (r ∷ rs) = (find (key r) rs ≡ none) × Distinct rs

  pub find-key : (k : ℕ) (rs : List Row) (r : Row) → find k rs ≡ some r → key r ≡ k
  find-key k [] r h = ground arith
  find-key k (s ∷ rs) r h = ground (arith, find-key k rs r)

  abbrev pub first : (Row → Bool) → List Row → Option Row
  first p [] = none
  first p (r ∷ rs) = if p r then some r else first p rs

  pub first_sound :
      (p : Row → Bool) (rs : List Row) (s : Row)
      → Distinct rs
      → first p rs ≡ some s
      → (p s ≡ true) × (find (key s) rs ≡ some s)
  first_sound p [] s d h = ground arith
  first_sound p (r ∷ rs) s d h = ground (arith, first_sound p rs s d.1)

  pub first-none :
      (p : Row → Bool) (rs : List Row) (k : ℕ) (s : Row)
      → first p rs ≡ none
      → find k rs ≡ some s
      → p s ≡ false
  first-none p [] k s h e = ground arith
  first-none p (r ∷ rs) k s h e = ground (arith, first-none p rs k s)

  abbrev pub some_of : (Row → Bool) → ℕ → List Row → List Row
  some_of p n [] = []
  some_of p zero (r ∷ rs) = []
  some_of p (suc n) (r ∷ rs) = if p r then r ∷ some_of p n rs else some_of p (suc n) rs

  pub Each-weaken :
      (p : Row → Bool) (r : Row) (rs : List Row) (l : List Row)
      → find (key r) rs ≡ none
      → Each (λ s. (p s ≡ true) × (find (key s) rs ≡ some s)) l
      → Each (λ s. (p s ≡ true) × (find (key s) (r ∷ rs) ≡ some s)) l
  Each-weaken p r rs [] d h = tt
  Each-weaken p r rs (s ∷ l) d h = (ground arith, Each-weaken p r rs l d h.1)

  pub some_of_sound :
      (p : Row → Bool) (n : ℕ) (rs : List Row)
      → Distinct rs
      → Each (λ r. (p r ≡ true) × (find (key r) rs ≡ some r)) (some_of p n rs)
  some_of_sound p n [] d = tt
  some_of_sound p zero (r ∷ rs) d = tt
  some_of_sound p (suc n) (r ∷ rs) d = elim (Bool-cases (p r)) [
    | inl h ↦ rw h ((h, ground arith), Each-weaken p r rs _ d.0 (some_of_sound p n rs d.1))
    | inr h ↦ rw h (Each-weaken p r rs _ d.0 (some_of_sound p (suc n) rs d.1))
  ]

  pub length-some_of : (p : Row → Bool) (n : ℕ) (rs : List Row) → length (some_of p n rs) ≤ n
  length-some_of p n [] = omega arith
  length-some_of p zero (r ∷ rs) = omega arith
  length-some_of p (suc n) (r ∷ rs) =
      ground (arith, length-some_of p n rs, length-some_of p (suc n) rs)

  abbrev pub count_of : (Row → Bool) → List Row → ℕ
  count_of p [] = 0
  count_of p (r ∷ rs) = if p r then suc (count_of p rs) else count_of p rs

  pub count_of-eq-zero :
      (p : Row → Bool) (rs : List Row)
      → Distinct rs
      → ((k : ℕ) (r : Row) → find k rs ≡ some r → p r ≡ false)
      → count_of p rs ≡ 0
  count_of-eq-zero p [] d h = refl
  count_of-eq-zero p (r ∷ rs) d h =
      ground (arith, h (key r) r, count_of-eq-zero p rs d.1 λ k s e. ground (arith, h k s))

  pub count_of-zero :
      (p : Row → Bool) (rs : List Row) (k : ℕ) (r : Row)
      → count_of p rs ≡ 0
      → find k rs ≡ some r
      → p r ≡ false
  count_of-zero p [] k r h e = ground arith
  count_of-zero p (s ∷ rs) k r h e = ground (arith, count_of-zero p rs k r)

  apart_from :
      (r : Row) (rs l : List Row)
      → find (key r) rs ≡ none
      → Each (λ s. find (key s) rs ≡ some s) l
      → Each (λ s. (key r == key s) ≡ false) l
  apart_from r rs [] new h = tt
  apart_from r rs (s ∷ l) new h = (
    elim (Bool-cases (key r == key s)) [
      | inr other ↦ other
      | inl same ↦
          let there = ap (λ k. find k rs) (let e : key r ≡ key s = ground arith in e) in
          ground (arith, h.0)
    ],
    apart_from r rs l new h.1,
  )

  some_of-at :
      (p : Row → Bool) (rs l : List Row)
      → Each (λ s. (p s ≡ true) × (find (key s) rs ≡ some s)) l
      → Each (λ s. find (key s) rs ≡ some s) l
  some_of-at p rs [] h = tt
  some_of-at p rs (s ∷ l) h = (h.0.1, some_of-at p rs l h.1)

  pub some_of-Apart :
      (p : Row → Bool) (n : ℕ) (rs : List Row) → Distinct rs → Apart key (some_of p n rs)
  some_of-Apart p n [] d = tt
  some_of-Apart p zero (r ∷ rs) d = tt
  some_of-Apart p (suc n) (r ∷ rs) d = elim (Bool-cases (p r)) [
    | inr h ↦ rw h (some_of-Apart p (suc n) rs d.1)
    | inl h ↦ rw h (
      apart_from r rs (some_of p n rs) d.0
          (some_of-at p rs (some_of p n rs) (some_of_sound p n rs d.1)),
      some_of-Apart p n rs d.1,
    )
  ]

  pub some_of-all :
      (p q : Row → Bool) (n : ℕ) (rs : List Row) (k : ℕ) (r : Row)
      → count_of p rs ≤ n
      → find k rs ≡ some r
      → p r ≡ true
      → q r ≡ true
      → any q (some_of p n rs) ≡ true
  some_of-all p q n [] k r le at h g = ground arith
  some_of-all p q zero (s ∷ rs) k r le at h g =
      let none_pass = count_of-zero p (s ∷ rs) k r (ground arith) at in ground arith
  some_of-all p q (suc n) (s ∷ rs) k r le at h g =
      ground (arith, some_of-all p q n rs k r, some_of-all p q (suc n) rs k r)

  pub count_of-none :
      (p : Row → Bool) (rs : List Row) (k : ℕ)
      → Distinct rs
      → find k rs ≡ none
      → ((s : Row) → p s ≡ true → key s ≡ k)
      → count_of p rs ≡ 0
  count_of-none p [] k d e h = refl
  count_of-none p (r ∷ rs) k d e h = ground (arith, h r, count_of-none p rs k d.1)

  pub count_of-eq-one :
      (p : Row → Bool) (rs : List Row) (k : ℕ) (r : Row)
      → Distinct rs
      → find k rs ≡ some r
      → p r ≡ true
      → ((s : Row) → p s ≡ true → key s ≡ k)
      → count_of p rs ≡ 1
  count_of-eq-one p [] k r d e h only = ground arith
  count_of-eq-one p (s ∷ rs) k r d e h only =
      ground (arith, only s, count_of-none p rs k d.1, count_of-eq-one p rs k r d.1)

  abbrev pub patch_all : (Row → Bool) → (Row → Row) → List Row → List Row
  patch_all p f [] = []
  patch_all p f (r ∷ rs) = patch p f r ∷ patch_all p f rs

  module _ (p : Row → Bool) (f : Row → Row) (keeps : (r : Row) → key (f r) ≡ key r) where
    pub find-patch_all :
        (rs : List Row) (k : ℕ) → find k (patch_all p f rs) ≡ Option.map (patch p f) (find k rs)
    find-patch_all [] k = refl
    find-patch_all (r ∷ rs) k = ground (arith, keeps r, find-patch_all rs k)

    pub patch_all-Distinct : (rs : List Row) → Distinct rs → Distinct (patch_all p f rs)
    patch_all-Distinct [] d = tt
    patch_all-Distinct (r ∷ rs) d =
        (ground (arith, keeps r, find-patch_all rs (key r)), patch_all-Distinct rs d.1)

  abbrev pub without : (Row → Bool) → List Row → List Row
  without p [] = []
  without p (r ∷ rs) = if p r then without p rs else r ∷ without p rs

  pub find-without-none :
      (p : Row → Bool) (rs : List Row) (k : ℕ) → find k rs ≡ none → find k (without p rs) ≡ none
  find-without-none p [] k h = refl
  find-without-none p (r ∷ rs) k h = ground (arith, find-without-none p rs k)

  pub without-Distinct : (p : Row → Bool) (rs : List Row) → Distinct rs → Distinct (without p rs)
  without-Distinct p [] d = tt
  without-Distinct p (r ∷ rs) d = elim (Bool-cases (p r)) [
    | inl h ↦ rw h (without-Distinct p rs d.1)
    | inr h ↦ rw h (find-without-none p rs (key r) d.0, without-Distinct p rs d.1)
  ]

  pub find-without :
      (p : Row → Bool) (rs : List Row) (k : ℕ) (r : Row)
      → Distinct rs
      → find k rs ≡ some r
      → find k (without p rs) ≡ (if p r then none else some r)
  find-without p [] k r d h = ground arith
  find-without p (s ∷ rs) k r d h =
      ground (arith, find-without p rs k r d.1, find-without-none p rs k)

  abbrev pub ListRows : Type 0
  ListRows = (rs : List Row) × Distinct rs

module _ {Row : Type 0} (key : Row → ℕ) (clash : Row → Row → Bool)
    (covers : (r s : Row) → key r ≡ key s → clash r s ≡ true) where
  abbrev pub clashes : Row → List Row → Bool
  clashes r [] = false
  clashes r (s ∷ rs) = if clash r s then true else clashes r rs

  pub not_clashes-find :
      (r : Row) (rs : List Row) → clashes r rs ≡ false → find key (key r) rs ≡ none
  not_clashes-find r [] h = refl
  not_clashes-find r (s ∷ rs) h = ground (arith, covers r s, not_clashes-find r rs)

  pub clashes-find :
      (r : Row) (rs : List Row) (k : ℕ) (s : Row)
      → find key k rs ≡ some s
      → clash r s ≡ true
      → clashes r rs ≡ true
  clashes-find r [] k s e h = ground arith
  clashes-find r (u ∷ rs) k s e h = ground (arith, clashes-find r rs k s)

  pub clashes-new :
      (r : Row) (rs : List Row)
      → Distinct key rs
      → ((k : ℕ) (s : Row) → find key k rs ≡ some s → clash r s ≡ false)
      → clashes r rs ≡ false
  clashes-new r [] d h = refl
  clashes-new r (s ∷ rs) d h =
      ground (arith, h (key s) s, clashes-new r rs d.1 λ k u e. ground (arith, h k u))

  -- the insertion, with the outcome of the check and its proof
  pub insert_checked :
      (r : Row) (t : ListRows key) (b : Bool) → clashes r t.0 ≡ b → Option (ListRows key)
  insert_checked r t true h = none
  insert_checked r t false h = some (r ∷ t.0, (not_clashes-find r t.0 h, t.1))

  pub insert : Row → ListRows key → Option (ListRows key)
  unfolding insert_checked
  insert r t = insert_checked r t (clashes r t.0) refl

  pub find-insert_checked :
      (r : Row) (t t' : ListRows key) (k : ℕ) (b : Bool) (h : clashes r t.0 ≡ b)
      → insert_checked r t b h ≡ some t'
      → find key k t'.0 ≡ (if key r == k then some r else find key k t.0)
  unfolding insert_checked
  find-insert_checked r t t' k true h e = cc
  find-insert_checked r t t' k false h e =
      subst (λ u. find key k u.0 ≡ (if key r == k then some r else find key k t.0))
        (some-injective _ _ e) refl

  pub insert_checked-clash :
      (r : Row) (t : ListRows key) (b : Bool) (h : clashes r t.0 ≡ b)
      → clashes r t.0 ≡ true
      → insert_checked r t b h ≡ none
  unfolding insert_checked
  insert_checked-clash r t true h e = refl
  insert_checked-clash r t false h e = cc

  pub insert_checked-new :
      (r : Row) (t : ListRows key) (b : Bool) (h : clashes r t.0 ≡ b)
      → clashes r t.0 ≡ false
      → (t' : ListRows key) × (insert_checked r t b h ≡ some t')
  unfolding insert_checked
  insert_checked-new r t true h e = cc
  insert_checked-new r t false h e = (_, refl)

  pub insert-find :
      (r : Row) (t t' : ListRows key) (k : ℕ)
      → insert r t ≡ some t'
      → find key k t'.0 ≡ (if key r == k then some r else find key k t.0)
  unfolding insert
  insert-find r t t' k e = find-insert_checked r t t' k _ refl e

  pub insert-clash :
      (r : Row) (t : ListRows key) (k : ℕ) (s : Row)
      → find key k t.0 ≡ some s
      → clash r s ≡ true
      → insert r t ≡ none
  unfolding insert
  insert-clash r t k s e h = insert_checked-clash r t _ refl (clashes-find r t.0 k s e h)

  pub insert-new :
      (r : Row) (t : ListRows key)
      → ((k : ℕ) (s : Row) → find key k t.0 ≡ some s → clash r s ≡ false)
      → (t' : ListRows key) × (insert r t ≡ some t')
  unfolding insert
  insert-new r t h = insert_checked-new r t _ refl (clashes-new r t.0 t.1 h)

  unfoldable pub list_table : Table Row key clash
  unfolding insert insert_checked
  list_table = record {
    Rows = ListRows key;
    find_unique = λ t k. find key k t.0;
    find_first = λ p t. first key p t.0;
    find_many = λ p n t. some_of key p n t.0;
    count = λ p t. count_of key p t.0;
    update_many = λ p f keeps t. (patch_all key p f t.0, patch_all-Distinct key p f keeps t.0 t.1);
    create = insert;
    delete_many = λ p t. (without key p t.0, without-Distinct key p t.0 t.1);
    find_unique-key = λ t k r e. find-key key k t.0 r e;
    find_first-sound = λ p t r e. first_sound key p t.0 r t.1 e;
    find_first-none = λ p t k r h e. first-none key p t.0 k r h e;
    find_many-sound = λ p n t. some_of_sound key p n t.0 t.1;
    length-find_many = λ p n t. length-some_of key p n t.0;
    find_many-Apart = λ p n t. some_of-Apart key p n t.0 t.1;
    find_many-all = λ p q n t k r le at h g. some_of-all key p q n t.0 k r le at h g;
    count-eq-zero = λ p t h. count_of-eq-zero key p t.0 t.1 h;
    count-zero = λ p t k r h e. count_of-zero key p t.0 k r h e;
    count-eq-one = λ p t k r e h only. count_of-eq-one key p t.0 k r t.1 e h only;
    find_unique-update_many = λ p f keeps t k. find-patch_all key p f keeps t.0 k;
    find_unique-create = insert-find;
    create-clash = insert-clash;
    create-new = insert-new;
    find_unique-delete_many = λ p t k r e. find-without key p t.0 k r t.1 e;
    delete_many-none = λ p t k e. find-without-none key p t.0 k e;
  }
