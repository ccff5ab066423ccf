-- ===== src/Seo/Fixes.antt =====
-- apps/api/src/seo/seo.module.ts: the life of a fix. listFixes stands in Order.
pub mod Verified
use godeye.Prelude.{
  ℕ, ◌≡◌, refl, Bool, true, false, not, ◌&&◌, ◌||◌, Option, none, some, List, [], ◌∷◌, ◌==◌,
  if◌then◌else◌, map, Result, ok, err,
}
use godeye.Seo.{
  FixStatus, FixKind, SeoAudit, SeoFix, Tables, Data, SeoRefusal, audit_not_found, fix_not_found,
  nothing_to_verify, nothing_to_submit, enqueue_failed,
}
use godeye.Seo.Audits.{clear_all}

-- The states that a caller may ask for; VERIFIED is none of them.
pub data FixRequest : Type 0 where
  to_proposed to_applied to_dismissed : FixRequest

abbrev pub asked_status : FixRequest → FixStatus
asked_status to_proposed = FixStatus.proposed
asked_status to_applied = FixStatus.applied
asked_status to_dismissed = FixStatus.dismissed

abbrev pub asked_applied_at : FixRequest → ℕ → Option ℕ
asked_applied_at to_applied now = some now
asked_applied_at _ now = none

abbrev pub moved : FixRequest → ℕ → SeoFix → SeoFix
moved request now f = record f {
  status = asked_status request;
  applied_at = asked_applied_at request now;
  verified_at = none;
  error = none;
}

abbrev pub is_checkable : FixStatus → Bool
is_checkable FixStatus.applied = true
is_checkable FixStatus.failed = true
is_checkable _ = false

abbrev pub is_verified : FixStatus → Bool
is_verified FixStatus.verified = true
is_verified _ = false

abbrev pub is_file : FixKind → Bool
is_file FixKind.file = true
is_file _ = false

abbrev pub holds : ℕ → List ℕ → Bool
holds a [] = false
holds a (x ∷ xs) = x == a || holds a xs

-- `distinct: ["targetUrl"]`: the first of each.
abbrev pub distinct : List ℕ → List ℕ → List ℕ
distinct seen [] = []
distinct seen (u ∷ us) = if holds u seen then distinct seen us else u ∷ distinct (u ∷ seen) us

module _ (T : Tables) where
  open T use {audits as Audits, fixes as Fixes}

  abbrev pub own_audit : Data T → ℕ → ℕ → Option SeoAudit
  own_audit d org_id id = Audits.find_first (λ a. a.id == id && a.org_id == org_id) d.audits

  unfoldable pub update_fix_status :
      Data T → ℕ → ℕ → ℕ → FixRequest → Data T × Result SeoRefusal (Unit {0})
  update_fix_status d now org_id id request =
      elim (Fixes.find_first (λ f. f.id == id && f.org_id == org_id) d.fixes) [
        | none ↦ (d, err fix_not_found)
        | some fix ↦ (
          record d {
            fixes =
                Fixes.update_many (λ f. f.id == id && f.org_id == org_id) (moved request now)
                  (λ f. refl) d.fixes;
          },
          ok tt,
        )
      ]

  abbrev pub chosen : ℕ → List ℕ → SeoFix → Bool
  chosen org_id ids f = holds f.id ids && f.org_id == org_id

  unfoldable pub bulk_update_fix_status : Data T → ℕ → ℕ → List ℕ → FixRequest → Data T × ℕ
  bulk_update_fix_status d now org_id ids request = (
    record d {
      fixes = Fixes.update_many (chosen org_id ids) (moved request now) (λ f. refl) d.fixes;
    },
    Fixes.count (chosen org_id ids) d.fixes,
  )

  abbrev pub checkable_where : ℕ → ℕ → SeoFix → Bool
  checkable_where org_id audit_id f =
      f.audit_id == audit_id && f.org_id == org_id && is_checkable f.status

  -- Only the engine, which crawls the pages again, marks a fix as verified.
  unfoldable pub verify_fixes : Data T → ℕ → ℕ → (enqueued : Option ℕ) → Result SeoRefusal (ℕ × ℕ)
  verify_fixes d org_id audit_id enqueued = elim (own_audit d org_id audit_id) [
    | none ↦ err audit_not_found
    | some audit ↦
        let pending = Fixes.count (checkable_where org_id audit_id) d.fixes in
        if pending == 0
        then err nothing_to_verify
        else elim enqueued [ none ↦ err enqueue_failed | some task_id ↦ ok (task_id, pending) ]
  ]

  abbrev pub verified_where : ℕ → ℕ → SeoFix → Bool
  verified_where org_id audit_id f =
      f.audit_id == audit_id && f.org_id == org_id && is_verified f.status && not (is_file f.kind)

  -- The URLs that are asked for, or else those of the verified fixes.
  unfoldable pub index_now_targets : Data T → ℕ → ℕ → Option (List ℕ) → List ℕ
  index_now_targets d org_id audit_id (some (u ∷ us)) = u ∷ us
  index_now_targets d org_id audit_id _ =
      distinct []
        (map (λ f. f.target_url) (Fixes.find_many (verified_where org_id audit_id) 2000 d.fixes))

  -- What the engine gets to submit.
  unfoldable pub submit_index_now :
      Data T → ℕ → ℕ → Option (List ℕ) → Result SeoRefusal (ℕ × List ℕ)
  submit_index_now d org_id audit_id urls = elim (own_audit d org_id audit_id) [
    | none ↦ err audit_not_found
    | some audit ↦ elim (index_now_targets d org_id audit_id urls) [
      | [] ↦ err nothing_to_submit
      | u ∷ us ↦ ok (audit.url, u ∷ us)
    ]
  ]
