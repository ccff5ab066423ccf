-- ===== src/Seo/Order.antt =====
-- apps/api/src/seo/seo.module.ts: listFixes, which puts the worst first. `Array.sort` is a stable sort
-- by the language's definition; here each row is put behind those that are no worse.
use text.Mathlib.Text.{◌==◌ as str_eq}
use godeye.Prelude.{
  String, ℕ, ◌≡◌, ◌≤◌, refl, ap, ◌∙◌, Bool, ◌&&◌, none, some, List, [], ◌∷◌, arith, ◌==◌, leb,
  if◌then◌else◌, Result, ok, err, Bool-cases, Option-cases, inl, inr,
}
use godeye.Seo.{SeoFix, Tables, Data, SeoRefusal, audit_not_found}
use godeye.Seo.Fixes.{own_audit}

abbrev pub severity_rank : String → ℕ
severity_rank s =
    if str_eq s "critical"
    then 0
    else if str_eq s "warning"
    then 1
    else if str_eq s "info"
    then 2
    else 3

abbrev pub rank_of : SeoFix → ℕ
rank_of f = severity_rank f.severity

unfoldable pub insert_fix : SeoFix → List SeoFix → List SeoFix
insert_fix f [] = f ∷ []
insert_fix f (g ∷ gs) =
    let later = insert_fix f gs in if leb (rank_of f) (rank_of g) then f ∷ g ∷ gs else g ∷ later

-- The last row is put in first, so that a row comes before its equals that follow it.
unfoldable pub sort_fixes : List SeoFix → List SeoFix
unfolding insert_fix
sort_fixes [] = []
sort_fixes (f ∷ fs) = insert_fix f (sort_fixes fs)

module _ (T : Tables) where
  open T use {fixes as Fixes}

  abbrev pub fixes_where : ℕ → ℕ → SeoFix → Bool
  fixes_where org_id audit_id f = f.audit_id == audit_id && f.org_id == org_id

  unfoldable pub list_fixes : Data T → ℕ → ℕ → Result SeoRefusal (List SeoFix)
  unfolding sort_fixes
  list_fixes d org_id audit_id = elim (own_audit T d org_id audit_id) [
    | none ↦ err audit_not_found
    | some audit ↦ ok (sort_fixes (Fixes.find_many (fixes_where org_id audit_id) 2000 d.fixes))
  ]

-- No row comes before one that is worse.
abbrev pub IsBelow : ℕ → List SeoFix → Type 0
IsBelow r [] = Unit
IsBelow r (g ∷ gs) = (r ≤ rank_of g) × IsBelow r gs

abbrev pub IsWorstFirst : List SeoFix → Type 0
IsWorstFirst [] = Unit
IsWorstFirst (f ∷ fs) = IsBelow (rank_of f) fs × IsWorstFirst fs

-- The rows of one rank, in their order.
abbrev pub of_rank : ℕ → List SeoFix → List SeoFix
of_rank r [] = []
of_rank r (f ∷ fs) = if rank_of f == r then f ∷ of_rank r fs else of_rank r fs

IsBelow-le : (q r : ℕ) (fs : List SeoFix) → q ≤ r → IsBelow r fs → IsBelow q fs
IsBelow-le q r [] le below = tt
IsBelow-le q r (g ∷ gs) le (head, tail) = (omega arith, IsBelow-le q r gs le tail)

insert-IsBelow :
    (r : ℕ) (f : SeoFix) (fs : List SeoFix)
    → r ≤ rank_of f
    → IsBelow r fs
    → IsBelow r (insert_fix f fs)
unfolding insert_fix
insert-IsBelow r f [] le below = (le, tt)
insert-IsBelow r f (g ∷ gs) le (head, tail) = elim (Bool-cases (leb (rank_of f) (rank_of g))) [
  | inl before ↦ rw before (le, (head, tail))
  | inr after ↦ rw after (head, insert-IsBelow r f gs le tail)
]

insert-IsWorstFirst :
    (f : SeoFix) (fs : List SeoFix) → IsWorstFirst fs → IsWorstFirst (insert_fix f fs)
unfolding insert_fix
insert-IsWorstFirst f [] sorted = (tt, tt)
insert-IsWorstFirst f (g ∷ gs) (below, sorted) = elim (Bool-cases (leb (rank_of f) (rank_of g))) [
  | inl before ↦
      let le : rank_of f ≤ rank_of g = ground arith in
      rw before ((le, IsBelow-le (rank_of f) (rank_of g) gs le below), (below, sorted))
  | inr after ↦
      rw after
        (insert-IsBelow (rank_of g) f gs (ground arith) below, insert-IsWorstFirst f gs sorted)
]

insert-of_rank :
    (r : ℕ) (f : SeoFix) (fs : List SeoFix) → of_rank r (insert_fix f fs) ≡ of_rank r (f ∷ fs)
unfolding insert_fix
insert-of_rank r f [] = refl
insert-of_rank r f (g ∷ gs) = elim (Bool-cases (leb (rank_of f) (rank_of g))) [
  | inl before ↦ rw before refl
  | inr after ↦ rw after (ground (arith, insert-of_rank r f gs))
]

sort-IsWorstFirst : (fs : List SeoFix) → IsWorstFirst (sort_fixes fs)
unfolding sort_fixes
sort-IsWorstFirst [] = tt
sort-IsWorstFirst (f ∷ fs) = insert-IsWorstFirst f (sort_fixes fs) (sort-IsWorstFirst fs)

sort-of_rank : (r : ℕ) (fs : List SeoFix) → of_rank r (sort_fixes fs) ≡ of_rank r fs
unfolding sort_fixes
sort-of_rank r [] = refl
sort-of_rank r (f ∷ fs) =
    insert-of_rank r f (sort_fixes fs)
    ∙ ap (λ rest. if rank_of f == r then f ∷ rest else rest) (sort-of_rank r fs)

module _ (T : Tables) where
  open T use {fixes as Fixes}

  -- The list of fixes of an audit is that of the database put in order: the critical ones first, then
  -- the warnings, the hints and the rest, and within each of these exactly the rows that the database
  -- gave, in its order.
  pub list_fixes-IsWorstFirst :
      (d : Data T) (org_id audit_id : ℕ) (fs : List SeoFix)
      → list_fixes T d org_id audit_id ≡ ok fs
      → IsWorstFirst fs
        × ((r : ℕ)
            → of_rank r fs
              ≡ of_rank r (Fixes.find_many (fixes_where T org_id audit_id) 2000 d.fixes))
  unfolding list_fixes
  list_fixes-IsWorstFirst d org_id audit_id fs e =
      let rows = Fixes.find_many (fixes_where T org_id audit_id) 2000 d.fixes in
      elim (Option-cases (own_audit T d org_id audit_id)) [
        | inl missing ↦ ground arith
        | inr (a, own) ↦
            let is : sort_fixes rows ≡ fs = ground arith in
            rw (← is) (sort-IsWorstFirst rows, λ r. sort-of_rank r rows)
      ]
