-- ===== src/Db.antt =====
-- What the code relies on of a Prisma delegate, that is of one database table. Prisma and the
-- database are not part of the repository, so each component takes the tables that it uses as
-- parameters. The laws are the documented behaviour of the calls, stated by what `find_unique`
-- sees afterwards.
--
-- A row is identified by its key, a number in place of the string in the column: the code only
-- compares keys. `clash` says which two rows a unique index of the schema forbids together.
pub mod ListTable
use godeye.Prelude.{
  ℕ, ◌≡◌, ◌≤◌, Bool, true, false, Option, none, some, List, ◌==◌, if◌then◌else◌, length, any,
}
use mathlib.Core.Option

-- `f` on the rows that pass the `where`.
abbrev pub patch {ℓ} : {Row : Type ℓ} → (Row → Bool) → (Row → Row) → Row → Row
patch p f r = if p r then f r else r

-- Every element of the list satisfies the predicate.
abbrev pub Each {ℓ κ} : {A : Type ℓ} → (A → Type κ) → List A → Type κ
Each P List.[] = Unit
Each P (List.◌∷◌ x xs) = P x × Each P xs

-- No two elements of the list have the same key.
abbrev pub Apart {ℓ} : {A : Type ℓ} → (A → ℕ) → List A → Type 0
Apart key List.[] = Unit
Apart key (List.◌∷◌ x xs) = Each (λ y. (key x == key y) ≡ false) xs × Apart key xs

pub record Table (Row : Type 0) (key : Row → ℕ) (clash : Row → Row → Bool) : Type 1 where
  pub Rows : Type 0
  -- findUnique by the key
  pub find_unique : Rows → ℕ → Option Row
  -- findFirst, and findUnique by another column
  pub find_first : (Row → Bool) → Rows → Option Row
  -- findMany with `take`
  pub find_many : (Row → Bool) → ℕ → Rows → List Row
  pub count : (Row → Bool) → Rows → ℕ
  -- updateMany, and update: no call of the program changes a key
  pub update_many : (Row → Bool) → (f : Row → Row) → ((r : Row) → key (f r) ≡ key r) → Rows → Rows
  -- create: `none` is P2002, a violated unique index. A foreign key, which must name a row that is
  -- there, is left to the calls: a theorem that needs one has the row among its hypotheses
  pub create : Row → Rows → Option Rows
  pub delete_many : (Row → Bool) → Rows → Rows
  pub find_unique-key : (t : Rows) (k : ℕ) (r : Row) → find_unique t k ≡ some r → key r ≡ k
  pub find_first-sound :
      (p : Row → Bool) (t : Rows) (r : Row)
      → find_first p t ≡ some r
      → (p r ≡ true) × (find_unique t (key r) ≡ some r)
  pub find_first-none :
      (p : Row → Bool) (t : Rows) (k : ℕ) (r : Row)
      → find_first p t ≡ none
      → find_unique t k ≡ some r
      → p r ≡ false
  pub find_many-sound :
      (p : Row → Bool) (n : ℕ) (t : Rows)
      → Each (λ r. (p r ≡ true) × (find_unique t (key r) ≡ some r)) (find_many p n t)
  pub length-find_many : (p : Row → Bool) (n : ℕ) (t : Rows) → length (find_many p n t) ≤ n
  pub find_many-Apart : (p : Row → Bool) (n : ℕ) (t : Rows) → Apart key (find_many p n t)
  -- a `take` that is large enough leaves no row out
  pub find_many-all :
      (p q : Row → Bool) (n : ℕ) (t : Rows) (k : ℕ) (r : Row)
      → count p t ≤ n
      → find_unique t k ≡ some r
      → p r ≡ true
      → q r ≡ true
      → any q (find_many p n t) ≡ true
  pub count-eq-zero :
      (p : Row → Bool) (t : Rows)
      → ((k : ℕ) (r : Row) → find_unique t k ≡ some r → p r ≡ false)
      → count p t ≡ 0
  pub count-zero :
      (p : Row → Bool) (t : Rows) (k : ℕ) (r : Row)
      → count p t ≡ 0
      → find_unique t k ≡ some r
      → p r ≡ false
  -- a `where` that names the key matches one row at most
  pub count-eq-one :
      (p : Row → Bool) (t : Rows) (k : ℕ) (r : Row)
      → find_unique t k ≡ some r
      → p r ≡ true
      → ((s : Row) → p s ≡ true → key s ≡ k)
      → count p t ≡ 1
  pub find_unique-update_many :
      (p : Row → Bool) (f : Row → Row) (keeps : (r : Row) → key (f r) ≡ key r) (t : Rows) (k : ℕ)
      → find_unique (update_many p f keeps t) k ≡ Option.map (patch p f) (find_unique t k)
  pub find_unique-create :
      (r : Row) (t t' : Rows) (k : ℕ)
      → create r t ≡ some t'
      → find_unique t' k ≡ (if key r == k then some r else find_unique t k)
  pub create-clash :
      (r : Row) (t : Rows) (k : ℕ) (s : Row)
      → find_unique t k ≡ some s
      → clash r s ≡ true
      → create r t ≡ none
  pub create-new :
      (r : Row) (t : Rows)
      → ((k : ℕ) (s : Row) → find_unique t k ≡ some s → clash r s ≡ false)
      → (t' : Rows) × (create r t ≡ some t')
  pub find_unique-delete_many :
      (p : Row → Bool) (t : Rows) (k : ℕ) (r : Row)
      → find_unique t k ≡ some r
      → find_unique (delete_many p t) k ≡ (if p r then none else some r)
  pub delete_many-none :
      (p : Row → Bool) (t : Rows) (k : ℕ)
      → find_unique t k ≡ none
      → find_unique (delete_many p t) k ≡ none
