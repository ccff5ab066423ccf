-- ===== src/Seo/Fixes/Verified.antt =====
-- No call of the API verifies a fix, and none reaches another workspace.
use godeye.Prelude.{
  ℕ, ◌≡◌, refl, Bool, true, false, not, ◌&&◌, some, List, [], ◌∷◌, arith, ◌∙◌, ◌==◌, Option-cases,
  inl, inr,
}
use godeye.Seo.{FixStatus, SeoAudit, SeoFix, Tables, Data}
use godeye.Seo.Audits.{clear_all, of_org, of_org_audit}
use godeye.Seo.Fixes.{FixRequest, moved, chosen, update_fix_status, bulk_update_fix_status}

-- The calls that write fixes, each with the workspace that makes it.
pub data FixCall : Type 0 where
  updates : (now org_id id : ℕ) → FixRequest → FixCall
  bulk_updates : (now org_id : ℕ) → List ℕ → FixRequest → FixCall
  clears : (org_id : ℕ) → FixCall

abbrev pub caller : FixCall → ℕ
caller (updates now org_id id request) = org_id
caller (bulk_updates now org_id ids request) = org_id
caller (clears org_id) = org_id

module _ (T : Tables) where
  open T use {audits as Audits, fixes as Fixes}

  unfoldable pub step_fix : Data T → FixCall → Data T
  unfolding update_fix_status bulk_update_fix_status clear_all
  step_fix d (updates now org_id id request) = (update_fix_status T d now org_id id request).0
  step_fix d (bulk_updates now org_id ids request) =
      (bulk_update_fix_status T d now org_id ids request).0
  step_fix d (clears org_id) = (clear_all T d org_id).0

  unfoldable pub run_fixes : Data T → List FixCall → Data T
  unfolding step_fix
  run_fixes d [] = d
  run_fixes d (c ∷ calls) = run_fixes (step_fix d c) calls

  patched-verified :
      (p : SeoFix → Bool) (request : FixRequest) (now : ℕ) (rows : Fixes.Rows) (k : ℕ) (f : SeoFix)
      → Fixes.find_unique (Fixes.update_many p (moved request now) (λ f. refl) rows) k ≡ some f
      → f.status ≡ FixStatus.verified
      → Fixes.find_unique rows k ≡ some f
  patched-verified p FixRequest.to_proposed now rows k f at is =
      ground (
        arith,
        Fixes.find_unique-update_many p (moved FixRequest.to_proposed now) (λ f. refl) rows k,
      )
  patched-verified p FixRequest.to_applied now rows k f at is =
      ground (
        arith,
        Fixes.find_unique-update_many p (moved FixRequest.to_applied now) (λ f. refl) rows k,
      )
  patched-verified p FixRequest.to_dismissed now rows k f at is = ground (
    arith,
    Fixes.find_unique-update_many p (moved FixRequest.to_dismissed now) (λ f. refl) rows k,
  )

  deleted-kept :
      (p : SeoFix → Bool) (rows : Fixes.Rows) (k : ℕ) (f : SeoFix)
      → Fixes.find_unique (Fixes.delete_many p rows) k ≡ some f
      → Fixes.find_unique rows k ≡ some f
  deleted-kept p rows k f at = elim (Option-cases (Fixes.find_unique rows k)) [
    | inl missing ↦ ground (arith, Fixes.delete_many-none p rows k missing)
    | inr (g, was) ↦ ground (arith, Fixes.find_unique-delete_many p rows k g was)
  ]

  step_fix-verified :
      (c : FixCall) (d : Data T) (k : ℕ) (f : SeoFix)
      → Fixes.find_unique (step_fix d c).fixes k ≡ some f
      → f.status ≡ FixStatus.verified
      → Fixes.find_unique d.fixes k ≡ some f
  unfolding step_fix update_fix_status bulk_update_fix_status clear_all
  step_fix-verified (updates now org_id id request) d k f at is =
      elim (Option-cases (Fixes.find_first (λ f. f.id == id && f.org_id == org_id) d.fixes)) [
        | inl missing ↦ ground arith
        | inr (g, found) ↦
            patched-verified (λ f. f.id == id && f.org_id == org_id) request now d.fixes k f
              (ground arith) is
      ]
  step_fix-verified (bulk_updates now org_id ids request) d k f at is =
      patched-verified (chosen T org_id ids) request now d.fixes k f at is
  step_fix-verified (clears org_id) d k f at is =
      deleted-kept (of_org_audit T d.audits org_id) d.fixes k f at

  -- No caller can award the verdict: whatever calls on fixes the workspaces make, in whatever order, a
  -- fix that is verified afterwards was so before, and is the same in every column.
  pub run_fixes_verified :
      (calls : List FixCall) (d : Data T) (k : ℕ) (f : SeoFix)
      → Fixes.find_unique (run_fixes d calls).fixes k ≡ some f
      → f.status ≡ FixStatus.verified
      → Fixes.find_unique d.fixes k ≡ some f
  unfolding run_fixes
  run_fixes_verified [] d k f at is = at
  run_fixes_verified (c ∷ calls) d k f at is =
      step_fix-verified c d k f (run_fixes_verified calls (step_fix d c) k f at is) is

  -- A fix with its audit, both of one workspace.
  IsOf : Data T → ℕ → ℕ → SeoFix → SeoAudit → Type 0
  IsOf d org_id k f a =
      (Fixes.find_unique d.fixes k ≡ some f)
      × (f.org_id ≡ org_id)
      × (Audits.find_unique d.audits f.audit_id ≡ some a)
      × (a.org_id ≡ org_id)

  step_fix-IsOf :
      (c : FixCall) (d : Data T) (org_id k : ℕ) (f : SeoFix) (a : SeoAudit)
      → IsOf d org_id k f a
      → (caller c == org_id) ≡ false
      → IsOf (step_fix d c) org_id k f a
  unfolding IsOf step_fix update_fix_status bulk_update_fix_status clear_all
  step_fix-IsOf (updates now org id request) d org_id k f a (at, of, audit, own) other =
      let after =
        Fixes.find_unique-update_many (λ f. f.id == id && f.org_id == org) (moved request now)
          (λ f. refl) d.fixes k in
      elim (Option-cases (Fixes.find_first (λ f. f.id == id && f.org_id == org) d.fixes)) [
        | inl missing ↦ (ground arith, of, ground arith, own)
        | inr (g, found) ↦ (ground arith, of, ground arith, own)
      ]
  step_fix-IsOf (bulk_updates now org ids request) d org_id k f a (at, of, audit, own) other = (
    Fixes.find_unique-update_many (chosen T org ids) (moved request now) (λ f. refl) d.fixes k
        ∙ ground arith,
    of,
    audit,
    own,
  )
  step_fix-IsOf (clears org) d org_id k f a (at, of, audit, own) other = (
    Fixes.find_unique-delete_many (of_org_audit T d.audits org) d.fixes k f at ∙ ground arith,
    of,
    Audits.find_unique-delete_many (of_org T org) d.audits f.audit_id a audit ∙ ground arith,
    own,
  )

  abbrev pub all_others : ℕ → List FixCall → Bool
  all_others org_id [] = true
  all_others org_id (c ∷ calls) = not (caller c == org_id) && all_others org_id calls

  run_fixes-IsOf :
      (calls : List FixCall) (d : Data T) (org_id k : ℕ) (f : SeoFix) (a : SeoAudit)
      → IsOf d org_id k f a
      → all_others org_id calls ≡ true
      → IsOf (run_fixes d calls) org_id k f a
  unfolding run_fixes
  run_fixes-IsOf [] d org_id k f a own others = own
  run_fixes-IsOf (c ∷ calls) d org_id k f a own others =
      run_fixes-IsOf calls (step_fix d c) org_id k f a
        (step_fix-IsOf c d org_id k f a own (ground arith)) (ground arith)

  -- Calls of other workspaces, in whatever order, leave a fix as it is, every column of it, where the
  -- audit of the fix is of the same workspace as the fix.
  pub run_fixes_isolated :
      (calls : List FixCall) (d : Data T) (k : ℕ) (f : SeoFix) (a : SeoAudit)
      → Fixes.find_unique d.fixes k ≡ some f
      → Audits.find_unique d.audits f.audit_id ≡ some a
      → a.org_id ≡ f.org_id
      → all_others f.org_id calls ≡ true
      → Fixes.find_unique (run_fixes d calls).fixes k ≡ some f
  unfolding IsOf
  run_fixes_isolated calls d k f a at audit own others =
      (run_fixes-IsOf calls d f.org_id k f a (at, refl, audit, own) others).0
