-- ===== src/Publishing/Calls/Posts.antt =====
-- Every call moves every post along `PostStep`.
use godeye.Prelude.{
  ℕ, ◌≡◌, ◌≢◌, ◌∙◌, refl, inl, inr, ◌&&◌, ◌||◌, ap, Bool, true, false, Option, none, some, List, [],
  ◌∷◌, String, arith, ◌==◌, Option-cases, Bool-cases, Result-cases,
}
use mathlib.Core.Option
use godeye.Db.{patch}
use godeye.Publishing.Model.{
  ScheduleStatus, ScheduledPost, Tables, Data, is_pending, is_published, is_processing, is_failed,
  is_pending_approval,
}
use godeye.Publishing.Content.{
  cancelled_post, ContentPatch, manual, create_manual, update, submit_for_review, approve, reject,
  awaiting_where, find_content, set_content,
}
use godeye.Publishing.Scheduling.{
  SchedulePostInput, EditInput, requeued, requeue, edit_body, schedule, prepare, create_posts,
  new_posts, cancel, edit_pending, retry, find_post, post_where,
}
use godeye.Publishing.Plans.{
  PlanInput, new_plan, create_plan, update_plan, upcoming_where, plan_where, plan_refused,
  timing_changed, PlanPatch,
}
use godeye.Publishing.Calls.{
  Call, creates_content, updates_content, submits, approves, rejects, schedules, cancels, retries,
  edits, creates_plan, updates_plan, step, run, PostStep, kept, cancelled, requeues,
}

is_pending_sound : (st : ScheduleStatus) → is_pending st ≡ true → st ≡ ScheduleStatus.pending
is_pending_sound ScheduleStatus.pending e = refl
is_pending_sound ScheduleStatus.processing e = ground arith
is_pending_sound ScheduleStatus.published e = ground arith
is_pending_sound ScheduleStatus.failed e = ground arith
is_pending_sound ScheduleStatus.cancelled e = ground arith

not_published : (st : ScheduleStatus) → is_published st ≡ false → st ≢ ScheduleStatus.published
not_published st e same = ground arith

module _ (T : Tables) where
  open T use {contents as Contents, posts as Posts, plans as PlanRows}

  -- The post with the key `k` after a call, and how it came about.
  abbrev Moved : ℕ → Posts.Rows → ℕ → ScheduledPost → Type 0
  Moved a posts k p = (p' : ScheduledPost) × (Posts.find_unique posts k ≡ some p') × PostStep a p p'

  Moved-kept :
      (a : ℕ) (posts : Posts.Rows) (k : ℕ) (p : ScheduledPost)
      → Posts.find_unique posts k ≡ some p
      → Moved a posts k p
  Moved-kept a posts k p e = (p, e, kept refl)

  -- `updateMany` with a `where` that only picks pending posts of the workspace.
  Moved-cancel :
      (a : ℕ) (q : ScheduledPost → Bool) (posts : Posts.Rows) (k : ℕ) (p : ScheduledPost)
      → Posts.find_unique posts k ≡ some p
      → (q p ≡ true → (p.org_id ≡ a) × (p.status ≡ ScheduleStatus.pending))
      → Moved a (Posts.update_many q cancelled_post (λ r. refl) posts) k p
  Moved-cancel a q posts k p e h = elim (Bool-cases (q p)) [
    | inl picked ↦ (
      cancelled_post p,
      ground (arith, Posts.find_unique-update_many q cancelled_post (λ r. refl) posts k),
      cancelled (h picked).0 (h picked).1 refl,
    )
    | inr other ↦ (
      p,
      ground (arith, Posts.find_unique-update_many q cancelled_post (λ r. refl) posts k),
      kept refl,
    )
  ]

  found_same :
      (d : Data T) (a id k : ℕ) (post p : ScheduledPost)
      → find_post T d a id ≡ some post
      → Posts.find_unique d.posts k ≡ some p
      → (p.id == id && p.org_id == a) ≡ true
      → post ≡ p
  unfolding find_post
  found_same d a id k post p f e picked = ground (
    arith,
    Posts.find_first-sound (post_where T a id) d.posts post f,
    Posts.find_unique-key d.posts k p e,
  )

  -- The write of `requeue` after the read of a post that may be requeued.
  Moved-requeue :
      (d : Data T) (a id k : ℕ) (when : Option ℕ) (post p : ScheduledPost)
      → find_post T d a id ≡ some post
      → post.status ≢ ScheduleStatus.published
      → post.status ≢ ScheduleStatus.processing
      → Posts.find_unique d.posts k ≡ some p
      → Moved a (requeue T d a id when).posts k p
  unfolding requeue requeued find_post
  Moved-requeue d a id k when post p f out busy e =
      elim (Bool-cases (p.id == id && p.org_id == a)) [
        | inl picked ↦ (
          requeued when p,
          ground (arith, found),
          requeues when (ground arith) (ground (arith, found_same d a id k post p f e picked))
              (ground (arith, found_same d a id k post p f e picked))
              (refl, refl, refl, refl, refl, refl, refl, refl, refl, refl, refl, refl, refl),
        )
        | inr other ↦ (p, ground (arith, found), kept refl)
      ]
    where
      found :
          Posts.find_unique
            (Posts.update_many (post_where T a id) (requeued when) (λ r. refl) d.posts)
            k
          ≡ Option.map (patch (post_where T a id) (requeued when)) (Posts.find_unique d.posts k)
      found =
          Posts.find_unique-update_many (post_where T a id) (requeued when) (λ r. refl) d.posts k

  pub Moved-create :
      (a : ℕ) (ps : List ScheduledPost) (posts posts' : Posts.Rows) (k : ℕ) (p : ScheduledPost)
      → create_posts T ps posts ≡ some posts'
      → Posts.find_unique posts k ≡ some p
      → Posts.find_unique posts' k ≡ some p
  unfolding create_posts
  Moved-create a [] posts posts' k p c e = ground arith
  Moved-create a (r ∷ rs) posts posts' k p c e = elim (Option-cases (Posts.create r posts)) [
    | inl failed ↦ ground arith
    | inr (t, made) ↦ Moved-create a rs t posts' k p (ground arith) (
        ground (
          arith,
          Posts.find_unique-create r posts t k made,
          Posts.create-clash r posts k p e,
          Posts.find_unique-key posts k p e,
        ))
  ]

  schedule-Moved :
      (d : Data T) (a now : ℕ) (within : ℕ → Bool) (fresh : ℕ → ℕ) (input : SchedulePostInput)
      (k : ℕ) (p : ScheduledPost)
      → Posts.find_unique d.posts k ≡ some p
      → Moved a (schedule T d now a within fresh input).0.posts k p
  unfolding schedule
  schedule-Moved d a now within fresh input k p e =
      elim (Result-cases (prepare T d now a within input)) [
        | inl (r, bad) ↦ (p, ground arith, kept refl)
        | inr ((content, at, targets), good) ↦
            elim (Option-cases
              (create_posts T (new_posts a content input at fresh 0 targets) d.posts)) [
                | inl failed ↦ (p, ground arith, kept refl)
                | inr (posts, made) ↦ (
                  p,
                  ground (
                    arith,
                    Moved-create a (new_posts a content input at fresh 0 targets) d.posts posts k p
                        made e,
                  ),
                  kept refl,
                )
              ]
      ]

  cancel-Moved :
      (d : Data T) (a id k : ℕ) (p : ScheduledPost)
      → Posts.find_unique d.posts k ≡ some p
      → Moved a (cancel T d a id).0.posts k p
  unfolding cancel find_post
  cancel-Moved d a id k p e = elim (Option-cases (find_post T d a id)) [
    | inl missing ↦ (p, ground arith, kept refl)
    | inr (post, found) ↦ elim (Bool-cases (is_pending post.status)) [
      | inl waits ↦
          rw (found, waits, cancel)
            (Moved-cancel a (post_where T a id) d.posts k p e (λ picked. (
              ground arith,
              is_pending_sound p.status (ground (arith, found_same d a id k post p found e picked)),
            )))
      | inr gone ↦ (p, ground arith, kept refl)
    ]
  ]

  posts-edit_body :
      (d : Data T) (post : ScheduledPost) (body : Option String)
      → (edit_body T d post body).posts ≡ d.posts
  unfolding edit_body
  posts-edit_body d post none = refl
  posts-edit_body d post (some body) = refl

  find-edit_body :
      (d : Data T) (a id : ℕ) (post : ScheduledPost) (body : Option String)
      → find_post T (edit_body T d post body) a id ≡ find_post T d a id
  unfolding edit_body find_post
  find-edit_body d a id post none = refl
  find-edit_body d a id post (some body) = refl

  edit_pending-Moved :
      (d : Data T) (a id k : ℕ) (input : EditInput) (p : ScheduledPost)
      → Posts.find_unique d.posts k ≡ some p
      → Moved a (edit_pending T d a id input).0.posts k p
  unfolding edit_pending find_post
  edit_pending-Moved d a id k input p e = elim (Option-cases (find_post T d a id)) [
    | inl missing ↦ (p, ground arith, kept refl)
    | inr (post, found) ↦ elim (Bool-cases (is_published post.status)) [
      | inl out ↦ (p, ground arith, kept refl)
      | inr here ↦ elim (Bool-cases (is_processing post.status)) [
        | inl busy ↦ (p, ground arith, kept refl)
        | inr idle ↦ elim (Option-cases input.scheduled_at) [
          | inl unmoved ↦
              rw (found, here, idle, unmoved, edit_pending)
                (Moved-requeue (edit_body T d post input.body) a id k none post p
                  (find-edit_body d a id post input.body ∙ found) (ground arith) (ground arith)
                  (ground (arith, posts-edit_body d post input.body)))
          | inr (date, dated) ↦ elim (Option-cases date) [
            | inl invalid ↦ (p, ground (arith, posts-edit_body d post input.body), kept refl)
            | inr (when, valid) ↦
                rw (found, here, idle, dated, valid, edit_pending)
                  (Moved-requeue (edit_body T d post input.body) a id k (some when) post p
                    (find-edit_body d a id post input.body ∙ found) (ground arith) (ground arith)
                    (ground (arith, posts-edit_body d post input.body)))
          ]
        ]
      ]
    ]
  ]

  retry-Moved :
      (d : Data T) (a id k : ℕ) (p : ScheduledPost)
      → Posts.find_unique d.posts k ≡ some p
      → Moved a (retry T d a id).0.posts k p
  unfolding retry find_post
  retry-Moved d a id k p e = elim (Option-cases (find_post T d a id)) [
    | inl missing ↦ (p, ground arith, kept refl)
    | inr (post, found) ↦ elim (Bool-cases (is_failed post.status)) [
      | inr other ↦ (p, ground arith, kept refl)
      | inl broken ↦
          rw (found, broken, retry)
            (Moved-requeue d a id k none post p found (ground arith) (ground arith) e)
    ]
  ]

  reject-Moved :
      (d : Data T) (now a user_id id : ℕ) (remark : Option String) (k : ℕ) (p : ScheduledPost)
      → Posts.find_unique d.posts k ≡ some p
      → Moved a (reject T d now a user_id id remark).0.posts k p
  unfolding reject awaiting_where set_content
  reject-Moved d now a user_id id remark k p e = elim (Option-cases (find_content T d a id)) [
    | inl missing ↦ (p, ground arith, kept refl)
    | inr (c, found) ↦ elim (Bool-cases (is_pending_approval c.status)) [
      | inr other ↦ (p, ground arith, kept refl)
      | inl waits ↦
          rw (found, waits, reject)
            (Moved-cancel a (awaiting_where T a id) d.posts k p e
              (λ picked. (ground arith, is_pending_sound p.status (ground arith))))
    ]
  ]

  posts-create_manual :
      (d : Data T) (a id : ℕ) (title : Option String) (body : String)
      (hashtags : Option (List String))
      → (create_manual T d a id title body hashtags).0.posts ≡ d.posts
  unfolding create_manual
  posts-create_manual d a id title body hashtags =
      elim (Option-cases (Contents.create (manual id a title body hashtags) d.contents)) [
        | inl failed ↦ ground arith
        | inr (t, made) ↦ ground arith
      ]

  posts-update :
      (d : Data T) (a id : ℕ) (input : ContentPatch) → (update T d a id input).0.posts ≡ d.posts
  unfolding update set_content
  posts-update d a id input = elim (Option-cases (find_content T d a id)) [
    | inl missing ↦ ground arith
    | inr (c, found) ↦ ground arith
  ]

  posts-submit :
      (d : Data T) (now a user_id id : ℕ)
      → (submit_for_review T d now a user_id id).0.posts ≡ d.posts
  unfolding submit_for_review set_content
  posts-submit d now a user_id id = elim (Option-cases (find_content T d a id)) [
    | inl missing ↦ ground arith
    | inr (c, found) ↦ ground arith
  ]

  posts-approve :
      (d : Data T) (now a user_id id : ℕ) → (approve T d now a user_id id).0.posts ≡ d.posts
  unfolding approve set_content
  posts-approve d now a user_id id = elim (Option-cases (find_content T d a id)) [
    | inl missing ↦ ground arith
    | inr (c, found) ↦ ground arith
  ]

  posts-create_plan :
      (d : Data T) (a id : ℕ) (input : PlanInput) → (create_plan T d a id input).0.posts ≡ d.posts
  unfolding create_plan
  posts-create_plan d a id input =
      elim (Option-cases (PlanRows.create (new_plan id a input) d.plans)) [
        | inl failed ↦ ground arith
        | inr (t, made) ↦ ground arith
      ]

  update_plan-Moved :
      (d : Data T) (now a id : ℕ) (input : PlanPatch) (k : ℕ) (p : ScheduledPost)
      → Posts.find_unique d.posts k ≡ some p
      → Moved a (update_plan T d now a id input).0.posts k p
  unfolding update_plan upcoming_where plan_refused
  update_plan-Moved d now a id input k p e =
      elim (Option-cases (PlanRows.find_first (plan_where T a id) d.plans)) [
        | inl missing ↦ (p, ground arith, kept refl)
        | inr (plan, found) ↦ elim (Bool-cases (plan_refused input plan)) [
          | inl refused ↦ (p, ground arith, kept refl)
          | inr valid ↦ elim (Bool-cases (timing_changed input plan)) [
            | inr same ↦ (p, ground arith, kept refl)
            | inl changed ↦
                rw (found, valid, changed, update_plan)
                  (Moved-cancel a (upcoming_where T now a id) d.posts k p e
                    (λ picked. (ground arith, is_pending_sound p.status (ground arith))))
          ]
        ]
      ]

  -- Whatever call a workspace makes, each post is as it was, or it was a pending post of that
  -- workspace and is cancelled, or it was a post of that workspace, neither published nor being
  -- published, and is pending again with its error, lock and attempts cleared, every other column but
  -- its time being as it was.
  pub step-Moved :
      (d : Data T) (a : ℕ) (call : Call) (k : ℕ) (p : ScheduledPost)
      → Posts.find_unique d.posts k ≡ some p
      → (p' : ScheduledPost) × (Posts.find_unique (step T d a call).posts k ≡ some p')
        × PostStep a p p'
  unfolding step
  step-Moved d a (creates_content id title body hashtags) k p e = (
    p,
    ap (λ t. Posts.find_unique t k) (posts-create_manual d a id title body hashtags) ∙ e,
    kept refl,
  )
  step-Moved d a (updates_content id input) k p e =
      (p, ap (λ t. Posts.find_unique t k) (posts-update d a id input) ∙ e, kept refl)
  step-Moved d a (submits now user_id id) k p e =
      (p, ap (λ t. Posts.find_unique t k) (posts-submit d now a user_id id) ∙ e, kept refl)
  step-Moved d a (approves now user_id id) k p e =
      (p, ap (λ t. Posts.find_unique t k) (posts-approve d now a user_id id) ∙ e, kept refl)
  step-Moved d a (rejects now user_id id remark) k p e =
      reject-Moved d now a user_id id remark k p e
  step-Moved d a (schedules now within fresh input) k p e =
      schedule-Moved d a now within fresh input k p e
  step-Moved d a (cancels id) k p e = cancel-Moved d a id k p e
  step-Moved d a (edits id input) k p e = edit_pending-Moved d a id k input p e
  step-Moved d a (retries id) k p e = retry-Moved d a id k p e
  step-Moved d a (creates_plan id input) k p e =
      (p, ap (λ t. Posts.find_unique t k) (posts-create_plan d a id input) ∙ e, kept refl)
  step-Moved d a (updates_plan now id input) k p e = update_plan-Moved d now a id input k p e

  -- A post that is out or on its way is never touched: whatever calls the workspaces make, in
  -- whatever order, a published or processing post is the same afterwards.
  pub run-published :
      (calls : List (ℕ × Call)) (d : Data T) (k : ℕ) (p : ScheduledPost)
      → Posts.find_unique d.posts k ≡ some p
      → is_published p.status || is_processing p.status ≡ true
      → Posts.find_unique (run T d calls).posts k ≡ some p
  unfolding run
  run-published [] d k p e out = e
  run-published ((a, call) ∷ calls) d k p e out =
      let (p', found, how) = step-Moved d a call k p e in
      run-published calls (step T d a call) k p
        (elim how [
          | kept same ↦ found ∙ ap some same
          | cancelled mine waits gone ↦ ground arith
          | requeues when mine not_out not_busy again ↦ ground arith
        ])
        out
