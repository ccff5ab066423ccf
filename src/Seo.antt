-- ===== src/Seo.antt =====
-- apps/api/src/seo/seo.module.ts: the audits of a site and the fixes that come of them. The engine,
-- which crawls, is remote: what it answers to a request is an argument. Rows have the columns that
-- this service writes or tests; a URL is a number.
pub mod Audits
pub mod Fixes
pub mod Order
mod Examples
use godeye.Prelude.{ℕ, Bool, true, false, Option, String, ◌==◌}
use godeye.Db.{Table}
use godeye.Runs.{RunStatus, AgentRun, run_key, run_clash}

pub data FixStatus : Type 0 where
  proposed applied verified failed dismissed : FixStatus

pub data FixKind : Type 0 where
  head_tag file attribute manual : FixKind

pub record SeoAudit : Type 0 where
  pub id : ℕ
  pub org_id : ℕ
  pub agent_run_id : Option ℕ
  pub url : ℕ
  pub status : RunStatus
  pub sitemap_xml : Option ℕ
  pub robots_txt : Option ℕ
  pub error : Option ℕ

pub record SeoFix : Type 0 where
  pub id : ℕ
  pub org_id : ℕ
  pub audit_id : ℕ
  pub kind : FixKind
  pub status : FixStatus
  pub severity : String
  pub target_url : ℕ
  pub applied_at : Option ℕ
  pub verified_at : Option ℕ
  pub error : Option ℕ

abbrev pub audit_key : SeoAudit → ℕ
audit_key a = a.id

abbrev pub audit_clash : SeoAudit → SeoAudit → Bool
audit_clash r s = r.id == s.id

abbrev pub fix_key : SeoFix → ℕ
fix_key f = f.id

abbrev pub fix_clash : SeoFix → SeoFix → Bool
fix_clash r s = r.id == s.id

pub record Tables : Type 1 where
  pub runs : Table AgentRun run_key run_clash
  pub audits : Table SeoAudit audit_key audit_clash
  pub fixes : Table SeoFix fix_key fix_clash

pub record Data (T : Tables) : Type 0 where
  pub runs : T.runs.Rows
  pub audits : T.audits.Rows
  pub fixes : T.fixes.Rows

pub data SeoRefusal : Type 0 where
  no_url url_not_allowed site_not_owned write_failed enqueue_failed : SeoRefusal
  audit_not_found fix_not_found nothing_to_verify nothing_to_submit no_artifact : SeoRefusal
