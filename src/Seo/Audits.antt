-- ===== src/Seo/Audits.antt =====
-- apps/api/src/seo/seo.module.ts: runAudit, clearAll, get and getArtifact. `new URL` yields the parts
-- of Requests.Egress.
pub mod Gate
use Prim.Native.String.{len, slice}
use text.Mathlib.Text.{◌==◌ as str_eq, starts_with}
use godeye.Prelude.{
  String, ℕ, ◌-◌, ◌≡◌, refl, Bool, true, false, not, ◌&&◌, ◌||◌, Option, none, some, List, [], ◌∷◌,
  ◌==◌, is_some, if◌then◌else◌, Result, ok, err,
}
use godeye.Requests.Egress.{Url, Address, assert_public_url}
use godeye.Runs.{RunStatus, AgentType, AgentRun, new_run, with_task, with_failure}
use godeye.Seo.{
  SeoAudit, SeoFix, Tables, Data, SeoRefusal, no_url, url_not_allowed, site_not_owned, write_failed,
  enqueue_failed, audit_not_found, no_artifact,
}

-- What the libraries make of a URL and of a name. `host_name` is the hostname as `new URL` has it; the
-- `host` of Requests.Egress is without a last dot.
pub record Net : Type 0 where
  pub parse : ℕ → Option Url
  pub host_name : Url → String
  pub lookup : String → Option (List Address)

pub record AuditInput : Type 0 where
  pub url : Option ℕ
  pub allow_foreign : Bool

-- The ids that the database gives the rows.
pub record AuditIds : Type 0 where
  pub run_id : ℕ
  pub audit_id : ℕ

abbrev pub without_www : String → String
without_www h = if starts_with h "www." then slice h 4 (len h) else h

abbrev pub host_of : Net → Option ℕ → Option String
host_of net none = none
host_of net (some u) = elim (net.parse u) [
  | none ↦ none
  | some url ↦ some (without_www (net.host_name url))
]

-- `!!host`
abbrev pub known : Option String → Bool
known none = false
known (some h) = not (str_eq h "")

abbrev pub same_host : Option String → Option String → Bool
same_host (some g) (some h) = str_eq g h
same_host _ _ = false

abbrev pub chosen_url : AuditInput → Option ℕ → Option ℕ
chosen_url input website = elim input.url [ some u ↦ some u | none ↦ website ]

-- A site of somebody else, or a workspace that has no site.
unfoldable pub needs_consent : Option String → Option String → Bool
needs_consent owned requested =
    known owned && known requested && not (same_host owned requested) || not (known owned)

abbrev pub new_audit : AuditIds → ℕ → ℕ → SeoAudit
new_audit ids org_id url = record {
  id = ids.audit_id;
  org_id = org_id;
  agent_run_id = some ids.run_id;
  url = url;
  status = RunStatus.queued;
  sitemap_xml = none;
  robots_txt = none;
  error = none;
}

abbrev pub audit_failed : ℕ → SeoAudit → SeoAudit
audit_failed error a = record a { status = RunStatus.failed; error = some error }

abbrev pub is_run : Option ℕ → ℕ → Bool
is_run none id = false
is_run (some run_id) id = run_id == id

-- The checks of a request, and the URL that it is about.
unfoldable pub audit_target : Net → AuditInput → (website : Option ℕ) → Result SeoRefusal ℕ
audit_target net input website = elim (chosen_url input website) [
  | none ↦ err no_url
  | some url ↦ elim (assert_public_url net.lookup (net.parse url)) [
    | err e ↦ err url_not_allowed
    | ok parsed ↦
        if needs_consent (host_of net website) (host_of net (some url)) && not input.allow_foreign
        then err site_not_owned
        else ok url
  ]
]

module _ (T : Tables) where
  open T use {runs as Runs, audits as Audits, fixes as Fixes}

  -- The two rows, one after the other.
  unfoldable pub queue_audit : Data T → ℕ → AuditIds → ℕ → Data T × Bool
  queue_audit d org_id ids url =
      elim (Runs.create (new_run ids.run_id org_id AgentType.seo url) d.runs) [
        | none ↦ (d, false)
        | some runs ↦
            let d1 : Data T = record d { runs = runs } in
            elim (Audits.create (new_audit ids org_id url) d.audits) [
              | none ↦ (d1, false)
              | some audits ↦ (record d1 { audits = audits }, true)
            ]
      ]

  abbrev pub set_task : Data T → ℕ → ℕ → Data T
  set_task d run_id task_id = record d {
    runs = Runs.update_many (λ r. r.id == run_id) (with_task task_id) (λ r. refl) d.runs;
  }

  abbrev pub set_failed : Data T → AuditIds → ℕ → Data T
  set_failed d ids error = record d {
    runs = Runs.update_many (λ r. r.id == ids.run_id) (with_failure error) (λ r. refl) d.runs;
    audits =
        Audits.update_many (λ a. a.id == ids.audit_id) (audit_failed error) (λ a. refl) d.audits;
  }

  -- The engine answers a task id, or an error.
  unfoldable pub run_audit :
      Data T
      → Net
      → ℕ
      → AuditInput
      → (website : Option ℕ) → AuditIds
      → (enqueued : Result ℕ ℕ) → Data T × Result SeoRefusal ℕ
  run_audit d net org_id input website ids enqueued = elim (audit_target net input website) [
    | err e ↦ (d, err e)
    | ok url ↦
        let (d1, written) = queue_audit d org_id ids url in
        if not written then (d1, err write_failed) else elim enqueued [
          | ok task_id ↦ (set_task d1 ids.run_id task_id, ok ids.audit_id)
          | err error ↦ (set_failed d1 ids error, err enqueue_failed)
        ]
  ]

  abbrev pub of_org : ℕ → SeoAudit → Bool
  of_org org_id a = a.org_id == org_id

  -- The fixes of an audit go with it (onDelete: Cascade).
  abbrev pub of_org_audit : Audits.Rows → ℕ → SeoFix → Bool
  of_org_audit audits org_id f = elim (Audits.find_unique audits f.audit_id) [
    | none ↦ false
    | some a ↦ a.org_id == org_id
  ]

  -- The runs of the audits that are deleted; here a run is looked for among the audits.
  abbrev pub of_org_run : Audits.Rows → ℕ → AgentRun → Bool
  of_org_run audits org_id r =
      is_some (Audits.find_first (λ a. a.org_id == org_id && is_run a.agent_run_id r.id) audits)
      && r.org_id == org_id

  unfoldable pub clear_all : Data T → ℕ → Data T × ℕ
  clear_all d org_id = (
    record {
      runs = Runs.delete_many (of_org_run d.audits org_id) d.runs;
      audits = Audits.delete_many (of_org org_id) d.audits;
      fixes = Fixes.delete_many (of_org_audit d.audits org_id) d.fixes;
    },
    Audits.count (of_org org_id) d.audits,
  )

  unfoldable pub get_audit : Data T → ℕ → ℕ → Result SeoRefusal SeoAudit
  get_audit d org_id id =
      elim (Audits.find_first (λ a. a.id == id && a.org_id == org_id) d.audits) [
        | none ↦ err audit_not_found
        | some a ↦ ok a
      ]

  unfoldable pub get_artifact : Data T → ℕ → ℕ → (is_sitemap : Bool) → Result SeoRefusal ℕ
  get_artifact d org_id id is_sitemap =
      elim (Audits.find_first (λ a. a.id == id && a.org_id == org_id) d.audits) [
        | none ↦ err audit_not_found
        | some a ↦ elim (if is_sitemap then a.sitemap_xml else a.robots_txt) [
          | none ↦ err no_artifact
          | some content ↦ ok content
        ]
      ]
