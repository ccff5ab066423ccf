-- ===== src/Seo/Audits/Gate.antt =====
-- What a request for an audit leaves, on every outcome.
use text.Mathlib.Text.{◌==◌ as str_eq}
use godeye.Prelude.{
  List, [], ◌∷◌, false, String, ℕ, ◌≡◌, ◌⊎◌, refl, sym, ap, ◌∙◌, true, false, Option, none, some,
  arith, ◌==◌, Result, ok, err, is_ok, Option-cases, Bool-cases, Result-cases, inl, inr,
}
use godeye.Requests.Egress.{Url, Address, is_ip, judge_answers, assert_public_url}
use godeye.Runs.{RunStatus, AgentType, new_run, with_task, with_failure}
use godeye.Seo.{Tables, Data, write_failed, enqueue_failed}
use godeye.Seo.Audits.{
  Net, without_www, AuditInput, AuditIds, host_of, known, same_host, chosen_url, needs_consent,
  new_audit, audit_failed, audit_target, queue_audit, set_task, set_failed, run_audit,
}

-- The URL is public, and it is on the site of the workspace unless the caller agreed to another.
abbrev pub IsAllowed : Net → AuditInput → Option ℕ → ℕ → Type 0
IsAllowed net input website url =
    (parsed : Url) × (chosen_url input website ≡ some url)
    × (assert_public_url net.lookup (net.parse url) ≡ ok parsed)
    × ((input.allow_foreign ≡ true)
        ⊎ ((known (host_of net website) ≡ true)
            × ((same_host (host_of net website) (host_of net (some url)) ≡ true)
                ⊎ (str_eq parsed.host "www" ≡ true))))

-- What is relied on of `new URL`: apart from a last dot, its hostname is the host, so it is neither
-- empty nor `www.` where the host is neither empty nor `www`.
abbrev pub NamesHosts : Net → Type 0
NamesHosts net =
    (url : Url)
    → str_eq url.host "" ≡ false
    → str_eq url.host "www" ≡ false
    → known (some (without_www (net.host_name url))) ≡ true

judge_answers-same :
    (asked url : Url) (answers : Option (List Address))
    → judge_answers asked answers ≡ ok url
    → url ≡ asked
unfolding judge_answers
judge_answers-same asked url none e = ground arith
judge_answers-same asked url (some []) e = ground arith
judge_answers-same asked url (some (a ∷ rest)) e = ground arith

public-host :
    (lookup : String → Option (List Address)) (asked : Option Url) (url : Url)
    → assert_public_url lookup asked ≡ ok url
    → (asked ≡ some url) × (str_eq url.host "" ≡ false)
unfolding assert_public_url
public-host lookup none url e = ground arith
public-host lookup (some asked) url e = elim (Bool-cases (is_ip asked.literal)) [
  | inl literal ↦ (ground arith, ground arith)
  | inr name ↦
      let is = judge_answers-same asked url (lookup asked.host) (ground arith) in
      (ap Option.some (sym is), ground arith)
]

needs_consent-known :
    (owned requested : Option String)
    → needs_consent owned requested ≡ false
    → (known owned ≡ true) × ((same_host owned requested ≡ true) ⊎ (known requested ≡ false))
unfolding needs_consent
needs_consent-known owned requested h = elim (Bool-cases (known requested)) [
  | inr unknown ↦ (ground arith, inr unknown)
  | inl here ↦ (ground arith, inl (ground arith))
]

audit_target-IsAllowed :
    (net : Net) (input : AuditInput) (website : Option ℕ) (url : ℕ)
    → NamesHosts net
    → audit_target net input website ≡ ok url
    → IsAllowed net input website url
unfolding audit_target
audit_target-IsAllowed net input website url names e =
    elim (Option-cases (chosen_url input website)) [
      | inl missing ↦ ground arith
      | inr (u, chosen) ↦ elim (Result-cases (assert_public_url net.lookup (net.parse u))) [
        | inl (refused, not_public) ↦ ground arith
        | inr (parsed, public) ↦ elim (Bool-cases input.allow_foreign) [
          | inl agreed ↦ (parsed, ground arith, ground arith, inl agreed)
          | inr not_agreed ↦
              let is : u ≡ url = ground arith in
              let free : needs_consent (host_of net website) (host_of net (some u)) ≡ false =
                ground arith in
              let moved =
                ap (λ v. needs_consent (host_of net website) (host_of net (some v))) (sym is)
                ∙ free in
              let (asked, named) = public-host net.lookup (net.parse u) parsed public in
              let (owned, site) =
                needs_consent-known (host_of net website) (host_of net (some url)) moved in
              (
                parsed,
                ground arith,
                ground arith,
                inr (
                  owned,
                  elim site [
                    | inl own ↦ inl own
                    | inr unknown ↦ elim (Bool-cases (str_eq parsed.host "www")) [
                      | inl odd ↦ inr odd
                      | inr plain ↦
                          let has = names parsed named plain in
                          let there : net.parse url ≡ some parsed = ap net.parse (sym is) ∙ asked in
                          ground arith
                    ]
                  ],
                ),
              )
        ]
      ]
    ]

module _ (T : Tables) where
  open T use {runs as Runs, audits as Audits}

  -- The audit and its run, in the same state and of one workspace.
  abbrev pub AreStored : Data T → ℕ → AuditIds → ℕ → RunStatus → Option ℕ → Option ℕ → Type 0
  AreStored d org_id ids url status task_id error =
      (Audits.find_unique d.audits ids.audit_id
        ≡ some (record (new_audit ids org_id url) { status = status; error = error }))
      × (Runs.find_unique d.runs ids.run_id
          ≡ some (record (new_run ids.run_id org_id AgentType.seo url) {
            status = status;
            task_id = task_id;
            error = error;
          }))

  queue_audit-AreStored :
      (d : Data T) (org_id : ℕ) (ids : AuditIds) (url : ℕ)
      → (queue_audit T d org_id ids url).1 ≡ true
      → AreStored (queue_audit T d org_id ids url).0 org_id ids url RunStatus.queued none none
  unfolding queue_audit
  queue_audit-AreStored d org_id ids url written =
      let run = new_run ids.run_id org_id AgentType.seo url in
      elim (Option-cases (Runs.create run d.runs)) [
        | inl failed ↦ ground arith
        | inr (runs, r) ↦ elim (Option-cases (Audits.create (new_audit ids org_id url) d.audits)) [
          | inl failed ↦ ground arith
          | inr (audits, a) ↦
              let run_at = Runs.find_unique-create run d.runs runs ids.run_id r in
              let audit_at =
                Audits.find_unique-create (new_audit ids org_id url) d.audits audits ids.audit_id
                  a in
              (ground arith, ground arith)
        ]
      ]

  set_task-AreStored :
      (d : Data T) (org_id : ℕ) (ids : AuditIds) (url task_id : ℕ)
      → AreStored d org_id ids url RunStatus.queued none none
      → AreStored
          (set_task T d ids.run_id task_id)
          org_id
          ids
          url
          RunStatus.queued
          (some task_id)
          none
  set_task-AreStored d org_id ids url task_id (audit, run) = (
    audit,
    Runs.find_unique-update_many (λ r. r.id == ids.run_id) (with_task task_id) (λ r. refl) d.runs
          ids.run_id
        ∙ ground (arith, run),
  )

  set_failed-AreStored :
      (d : Data T) (org_id : ℕ) (ids : AuditIds) (url error : ℕ)
      → AreStored d org_id ids url RunStatus.queued none none
      → AreStored (set_failed T d ids error) org_id ids url RunStatus.failed none (some error)
  set_failed-AreStored d org_id ids url error (audit, run) = (
    Audits.find_unique-update_many (λ a. a.id == ids.audit_id) (audit_failed error) (λ a. refl)
          d.audits ids.audit_id
        ∙ ground (arith, audit),
    Runs.find_unique-update_many (λ r. r.id == ids.run_id) (with_failure error) (λ r. refl) d.runs
          ids.run_id
        ∙ ground (arith, run),
  )

  AreStored-moved :
      (d d' : Data T) (org_id : ℕ) (ids : AuditIds) (url : ℕ) (status : RunStatus)
      (task_id error : Option ℕ)
      → d' ≡ d
      → AreStored d org_id ids url status task_id error
      → AreStored d' org_id ids url status task_id error
  AreStored-moved d d' org_id ids url status task_id error same (audit, run) = (
    ap (λ x. Audits.find_unique x.audits ids.audit_id) same ∙ audit,
    ap (λ x. Runs.find_unique x.runs ids.run_id) same ∙ run,
  )

  -- A request for an audit that is refused by a check writes nothing. Any other is of a public URL: on a
  -- site that the caller agreed to, on the site of the workspace, or on the one host `www.`, of which the
  -- code takes nothing for the name. And it ends with the audit and its run queued under the task of the
  -- engine, with both marked as failed where the engine cannot be reached, or with a row that could not
  -- be written. This relies on `new URL` naming the host that it was given.
  pub run_audit-IsAllowed :
      (d : Data T) (net : Net) (org_id : ℕ) (input : AuditInput) (website : Option ℕ)
      (ids : AuditIds) (enqueued : Result ℕ ℕ)
      → NamesHosts net
      → let (d', result) = run_audit T d net org_id input website ids enqueued in
        ((d' ≡ d) × (is_ok result ≡ false))
        ⊎ ((url : ℕ) × IsAllowed net input website url
            × ((result ≡ err write_failed)
                ⊎ (((task_id : ℕ) × (enqueued ≡ ok task_id)
                      × (result ≡ ok ids.audit_id)
                      × AreStored d' org_id ids url RunStatus.queued (some task_id) none)
                    ⊎ ((error : ℕ) × (enqueued ≡ err error)
                        × (result ≡ err enqueue_failed)
                        × AreStored d' org_id ids url RunStatus.failed none (some error)))))
  unfolding run_audit
  run_audit-IsAllowed d net org_id input website ids enqueued names =
      elim (Result-cases (audit_target net input website)) [
        | inl (e, refused) ↦ inl (ground arith, ground arith)
        | inr (url, passed) ↦
            let allowed = audit_target-IsAllowed net input website url names passed in
            elim (Bool-cases (queue_audit T d org_id ids url).1) [
              | inr unwritten ↦ inr (url, allowed, inl (ground arith))
              | inl written ↦
                  let stored = queue_audit-AreStored d org_id ids url written in
                  elim (Result-cases enqueued) [
                    | inr (task_id, sent) ↦
                        let d1 = (queue_audit T d org_id ids url).0 in
                        let d2 = set_task T d1 ids.run_id task_id in
                        let whole : run_audit T d net org_id input website ids enqueued
                            ≡ (d2, ok ids.audit_id) =
                          ground arith in
                        inr (
                          url,
                          allowed,
                          inr (
                              inl (
                                task_id,
                                sent,
                                ap (λ x. x.1) whole,
                                AreStored-moved d2
                                    (run_audit T d net org_id input website ids enqueued).0 org_id
                                    ids url RunStatus.queued (some task_id) none
                                    (ap (λ x. x.0) whole)
                                    (set_task-AreStored d1 org_id ids url task_id stored),
                              )),
                        )
                    | inl (error, lost) ↦
                        let d1 = (queue_audit T d org_id ids url).0 in
                        let d2 = set_failed T d1 ids error in
                        let whole : run_audit T d net org_id input website ids enqueued
                            ≡ (d2, err enqueue_failed) =
                          ground arith in
                        inr (
                          url,
                          allowed,
                          inr (
                              inr (
                                error,
                                lost,
                                ap (λ x. x.1) whole,
                                AreStored-moved d2
                                    (run_audit T d net org_id input website ids enqueued).0 org_id
                                    ids url RunStatus.failed none (some error) (ap (λ x. x.0) whole)
                                    (set_failed-AreStored d1 org_id ids url error stored),
                              )),
                        )
                  ]
            ]
      ]
