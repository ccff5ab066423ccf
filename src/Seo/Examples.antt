-- ===== src/Seo/Examples.antt =====
-- A concrete site with its audit and fixes, on which the theorems about them are applied.
use godeye.Prelude.{
  ℕ, ◌≡◌, ◌⊎◌, refl, true, false, none, some, List, [], ◌∷◌, arith, Result, ok, err, is_ok,
}
use godeye.Db.ListTable.{list_table}
use godeye.Requests.Egress.{Url, v4_address, no_address, quad}
use godeye.Runs.{RunStatus, AgentRun, run_key, run_clash}
use godeye.Seo.{
  FixStatus, FixKind, SeoAudit, SeoFix, Tables, Data, audit_key, audit_clash, fix_key, fix_clash,
  write_failed, enqueue_failed,
}
use godeye.Seo.Audits.{Net, AuditInput, AuditIds, run_audit, clear_all}
use godeye.Seo.Audits.Gate.{IsAllowed, AreStored, run_audit-IsAllowed}
use godeye.Seo.Fixes.{FixRequest, update_fix_status, bulk_update_fix_status}
use godeye.Seo.Fixes.Verified.{
  FixCall, updates, bulk_updates, clears, step_fix, run_fixes, run_fixes_verified,
}

run-covers : (r s : AgentRun) → run_key r ≡ run_key s → run_clash r s ≡ true
run-covers r s h = ground arith

audit-covers : (r s : SeoAudit) → audit_key r ≡ audit_key s → audit_clash r s ≡ true
audit-covers r s h = ground arith

fix-covers : (r s : SeoFix) → fix_key r ≡ fix_key s → fix_clash r s ≡ true
fix-covers r s h = ground arith

abbrev site_tables : Tables
site_tables = record {
  runs = list_table run_key run_clash run-covers;
  audits = list_table audit_key audit_clash audit-covers;
  fixes = list_table fix_key fix_clash fix-covers;
}

abbrev crawl : SeoAudit
crawl = record {
  id = 1;
  org_id = 8;
  agent_run_id = none;
  url = 70;
  status = RunStatus.succeeded;
  sitemap_xml = none;
  robots_txt = none;
  error = none;
}

abbrev hint : SeoFix
hint = record {
  id = 3;
  org_id = 8;
  audit_id = 1;
  kind = FixKind.attribute;
  status = FixStatus.verified;
  severity = "info";
  target_url = 71;
  applied_at = some 5;
  verified_at = some 6;
  error = none;
}

abbrev broken : SeoFix
broken = record hint { id = 4; status = FixStatus.proposed; severity = "critical" }

abbrev site : Data site_tables
unfolding list_table
site = record {
  runs = ([], tt);
  audits = (crawl ∷ [], (refl, tt));
  fixes = (hint ∷ broken ∷ [], (refl, (refl, tt)));
}

abbrev calls : List FixCall
calls =
    updates 10 8 4 FixRequest.to_applied
    ∷ bulk_updates 11 9 (3 ∷ 4 ∷ []) FixRequest.to_dismissed
    ∷ clears 9
    ∷ []

run_fixes_verified_example : site_tables.fixes.find_unique site.fixes 3 ≡ some hint
unfolding list_table run_fixes step_fix update_fix_status bulk_update_fix_status clear_all
run_fixes_verified_example = run_fixes_verified site_tables calls site 3 hint refl refl

abbrev home : Url
home = record {
  protocol = "https:";
  has_credentials = false;
  port = none;
  host = "www.shop.example";
  literal = no_address;
}

abbrev net : Net
net = record {
  parse = λ u. some home;
  host_name = λ url. "www.shop.example";
  lookup = λ h. some (v4_address (quad 93 184 216 34) ∷ []);
}

abbrev ask : AuditInput
ask = record { url = some 70; allow_foreign = false }

abbrev ids : AuditIds
ids = record { run_id = 21; audit_id = 22 }

run_audit-IsAllowed_example :
    let (d', result) = run_audit site_tables site net 8 ask (some 72) ids (ok 99) in
    ((d' ≡ site) × (is_ok result ≡ false))
    ⊎ ((url : ℕ) × IsAllowed net ask (some 72) url
        × ((result ≡ err write_failed)
            ⊎ (((task_id : ℕ) × (◌≡◌ {A = Result ℕ ℕ} (ok 99) (ok task_id))
                  × (result ≡ ok 22)
                  × AreStored site_tables d' 8 ids url RunStatus.queued (some task_id) none)
                ⊎ ((error : ℕ) × (◌≡◌ {A = Result ℕ ℕ} (ok 99) (err error))
                    × (result ≡ err enqueue_failed)
                    × AreStored site_tables d' 8 ids url RunStatus.failed none (some error)))))
run_audit-IsAllowed_example =
    run_audit-IsAllowed site_tables site net 8 ask (some 72) ids (ok 99) (λ url full plain. refl)
