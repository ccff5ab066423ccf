-- ===== src/Publishing/Calls/Withdrawn.antt =====
-- What the calls that take posts back achieve, and what a refused edit leaves behind.
use godeye.Prelude.{
  Option, ℕ, ◌≡◌, refl, inl, inr, true, false, some, String, arith, Option-cases, Bool-cases, ok,
}
use godeye.Publishing.Model.{
  ContentStatus, ContentItem, ScheduledPost, PostingPlan, Tables, Data, is_pending,
  is_pending_approval,
}
use godeye.Publishing.Content.{
  cancelled_post, reject, reviewed, awaiting_where, find_content, set_content, content_where,
}
use godeye.Publishing.Plans.{
  PlanPatch, update_plan, upcoming_where, plan_where, plan_refused, timing_changed,
}

module _ (T : Tables) where
  open T use {contents as Contents, posts as Posts, plans as PlanRows}

  -- After a rejection that succeeds, the content is a draft again and none of its posts in the
  -- workspace waits to be published.
  pub reject-withdraws :
      (d : Data T) (now a user_id id : ℕ) (remark : Option String)
      → (reject T d now a user_id id remark).1 ≡ ok tt
      → ((c : ContentItem)
          → Contents.find_unique (reject T d now a user_id id remark).0.contents id ≡ some c
          → c.org_id ≡ a
          → c.status ≡ ContentStatus.draft)
        × ((k : ℕ) (p : ScheduledPost)
            → Posts.find_unique (reject T d now a user_id id remark).0.posts k ≡ some p
            → p.content_item_id ≡ id
            → p.org_id ≡ a
            → is_pending p.status ≡ false)
  unfolding reject awaiting_where set_content reviewed
  reject-withdraws d now a user_id id remark done = elim (Option-cases (find_content T d a id)) [
    | inl missing ↦ ground arith
    | inr (content, found) ↦ elim (Bool-cases (is_pending_approval content.status)) [
      | inr other ↦ ground arith
      | inl waits ↦ (
        λ c got mine. elim (Option-cases (Contents.find_unique d.contents id)) [
          | inl gone ↦ ground (
            arith,
            Contents.find_unique-update_many (content_where T a id)
                (reviewed ContentStatus.draft now user_id remark) (λ r. refl) d.contents id,
          )
          | inr (c0, had) ↦ ground (
            arith,
            Contents.find_unique-update_many (content_where T a id)
                (reviewed ContentStatus.draft now user_id remark) (λ r. refl) d.contents id,
            Contents.find_unique-key d.contents id c0 had,
          )
        ],
        λ k p got of mine. elim (Option-cases (Posts.find_unique d.posts k)) [
          | inl gone ↦ ground (
            arith,
            Posts.find_unique-update_many (awaiting_where T a id) cancelled_post (λ r. refl) d.posts
                k,
          )
          | inr (p0, had) ↦ ground (
            arith,
            Posts.find_unique-update_many (awaiting_where T a id) cancelled_post (λ r. refl) d.posts
                k,
          )
        ],
      )
    ]
  ]

  -- A plan that is found and accepted, and whose timing or platforms the patch changes, has
  -- afterwards no waiting post of its own whose time is still to come, and the result is the
  -- number of posts that were cancelled.
  pub update_plan-withdraws :
      (d : Data T) (now a id : ℕ) (input : PlanPatch) (plan : PostingPlan)
      → PlanRows.find_first (plan_where T a id) d.plans ≡ some plan
      → plan_refused input plan ≡ false
      → timing_changed input plan ≡ true
      → ((update_plan T d now a id input).1 ≡ ok (Posts.count (upcoming_where T now a id) d.posts))
        × (Posts.count (upcoming_where T now a id) (update_plan T d now a id input).0.posts ≡ 0)
  unfolding update_plan upcoming_where
  update_plan-withdraws d now a id input plan found valid changed = (
    ground arith,
    Posts.count-eq-zero (upcoming_where T now a id) (update_plan T d now a id input).0.posts
        (λ k p got. elim (Option-cases (Posts.find_unique d.posts k)) [
          | inl gone ↦ ground (
            arith,
            Posts.find_unique-update_many (upcoming_where T now a id) cancelled_post (λ r. refl)
                d.posts k,
          )
          | inr (p0, had) ↦ ground (
            arith,
            Posts.find_unique-update_many (upcoming_where T now a id) cancelled_post (λ r. refl)
                d.posts k,
          )
        ]),
  )
