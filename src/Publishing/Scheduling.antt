-- ===== src/Publishing/Scheduling.antt =====
-- apps/api/src/scheduling/scheduling.service.ts: scheduling, cancelling, editing and retrying
-- posts. `now` is one reading of the clock; a date of the input is `none` where it does not parse.
use godeye.Prelude.{
  ℕ, suc, ◌+◌, ◌%◌, refl, Bool, false, not, ◌&&◌, ◌||◌, Option, none, some, List, [], ◌∷◌, String,
  ◌==◌, ltb, if◌then◌else◌, get_or, is_some, length, Result, ok, err, ◌>>=◌, ◌>>◌, guard,
}
use godeye.Publishing.Model.{
  ContentStatus, ScheduleStatus, Variant, variant_a, variant_b, ContentItem, ScheduledPost,
  SocialConnection, Tables, Data, Refusal, content_not_found, post_not_found, org_not_found,
  needs_approval, invalid_scheduled_at, in_the_past, connections_missing, tiktok_settings_required,
  plan_limit_reached, database_error, cannot_cancel, already_published, publishing_now, only_failed,
  is_approved, is_active, is_pending, is_failed, is_published, is_processing,
}
use godeye.Publishing.Content.{cancelled_post, find_content}

abbrev pub or_fail {ℓ} : {A : Type ℓ} → Option A → Refusal → Result Refusal A
or_fail none e = err e
or_fail (some a) e = ok a

abbrev pub member : List ℕ → ℕ → Bool
member [] k = false
member (x ∷ xs) k = x == k || member xs k

pub record SchedulePostInput : Type 0 where
  pub content_item_id : ℕ
  pub connection_ids : List ℕ
  pub scheduled_at : Option ℕ
  pub timezone : String
  pub slideshow_seconds : Option ℕ
  pub render_as_video : Option Bool
  pub tiktok : Option ℕ

abbrev pub any_tiktok : List SocialConnection → Bool
any_tiktok [] = false
any_tiktok (c ∷ cs) = c.is_tiktok || any_tiktok cs

-- The content is split evenly: "A" at the even indices, "B" at the odd ones.
abbrev pub variant_at : Bool → ℕ → Option Variant
variant_at is_ab index =
    if is_ab then some (if index % 2 == 0 then variant_a else variant_b) else none

unfoldable pub new_post :
    ℕ → ContentItem → SchedulePostInput → ℕ → ℕ → ℕ → SocialConnection → ScheduledPost
new_post org_id content input at id index conn = record {
  id = id;
  org_id = org_id;
  content_item_id = content.id;
  connection_id = conn.id;
  scheduled_at = at;
  timezone = input.timezone;
  status = ScheduleStatus.pending;
  variant_key = variant_at (is_some content.ab_variants) index;
  plan_id = none;
  attempts = 0;
  locked_at = none;
  error = none;
  tiktok_settings = if conn.is_tiktok then input.tiktok else none;
}

-- `fresh index` is the id that the database gives the post of that index.
unfoldable pub new_posts :
    ℕ
    → ContentItem
    → SchedulePostInput
    → ℕ
    → (ℕ → ℕ)
    → ℕ
    → List SocialConnection
    → List ScheduledPost
unfolding new_post
new_posts org_id content input at fresh index [] = []
new_posts org_id content input at fresh index (c ∷ cs) =
    new_post org_id content input at (fresh index) index c
    ∷ new_posts org_id content input at fresh (suc index) cs

unfoldable pub scheduled_content : SchedulePostInput → ContentItem → ContentItem
scheduled_content input c = record c {
  status = ContentStatus.scheduled;
  slideshow_seconds = get_or input.slideshow_seconds c.slideshow_seconds;
  render_as_video = get_or input.render_as_video c.render_as_video;
}

unfoldable pub requeued : Option ℕ → ScheduledPost → ScheduledPost
requeued when p = record p {
  status = ScheduleStatus.pending;
  error = none;
  locked_at = none;
  attempts = 0;
  scheduled_at = get_or when p.scheduled_at;
}

abbrev pub with_body : String → ContentItem → ContentItem
with_body body c = record c { body = body }

-- `scheduled_at` is `none` where it is absent or empty, and `some none` where it does not parse. The
-- schema of the controller lets no such text through, so the branch for it is a second guard.
pub record EditInput : Type 0 where
  pub body : Option String
  pub scheduled_at : Option (Option ℕ)

module _ (T : Tables) where
  open T use {contents as Contents, posts as Posts, connections as Connections, orgs as Orgs}

  unfoldable pub target_where : ℕ → List ℕ → SocialConnection → Bool
  target_where org_id ids c = member ids c.id && c.org_id == org_id && is_active c.status

  -- The reads and the checks of `schedule`, in their order. `within` is what
  -- `billing.assertWithinLimit` answers for a number of posts.
  unfoldable pub prepare :
      Data T
      → ℕ
      → ℕ
      → (ℕ → Bool)
      → SchedulePostInput
      → Result Refusal (ContentItem × ℕ × List SocialConnection)
  unfolding target_where
  prepare d now org_id within input = do
    content ← or_fail (find_content T d org_id input.content_item_id) content_not_found
    org ← or_fail (Orgs.find_unique d.orgs org_id) org_not_found
    guard (not (org.require_approval && not (is_approved content.status))) needs_approval
    at ← or_fail input.scheduled_at invalid_scheduled_at
    guard (not (ltb (at + 60000) now)) in_the_past
    let targets = Connections.find_many (target_where org_id input.connection_ids) 100 d.connections
    guard (length targets == length input.connection_ids) connections_missing
    guard (not (any_tiktok targets && not (is_some input.tiktok))) tiktok_settings_required
    guard (within (length targets)) plan_limit_reached
    ok (content, at, targets)

  unfoldable pub create_posts : List ScheduledPost → Posts.Rows → Option Posts.Rows
  create_posts [] posts = some posts
  create_posts (p ∷ ps) posts = elim (Posts.create p posts) [
    | none ↦ none
    | some posts' ↦ create_posts ps posts'
  ]

  unfoldable pub schedule :
      Data T
      → ℕ
      → ℕ
      → (ℕ → Bool)
      → (ℕ → ℕ)
      → SchedulePostInput
      → Data T × Result Refusal (List ScheduledPost)
  unfolding scheduled_content
  schedule d now org_id within fresh input = elim (prepare d now org_id within input) [
    | err e ↦ (d, err e)
    | ok (content, at, targets) ↦
        let created = new_posts org_id content input at fresh 0 targets in
        elim (create_posts created d.posts) [
          | none ↦ (d, err database_error)
          | some posts ↦ (
            record d {
              posts = posts;
              contents =
                  Contents.update_many (λ c. c.id == content.id) (scheduled_content input)
                    (λ c. refl) d.contents;
            },
            ok created,
          )
        ]
  ]

  -- `where: { id, orgId }`
  abbrev pub post_where : ℕ → ℕ → ScheduledPost → Bool
  post_where org_id id p = p.id == id && p.org_id == org_id

  unfoldable pub find_post : Data T → ℕ → ℕ → Option ScheduledPost
  find_post d org_id id = Posts.find_first (post_where org_id id) d.posts

  unfoldable pub cancel : Data T → ℕ → ℕ → Data T × Result Refusal (Unit {0})
  cancel d org_id id = elim (find_post d org_id id) [
    | none ↦ (d, err post_not_found)
    | some post ↦
        if is_pending post.status
        then (
          record d {
            posts = Posts.update_many (post_where org_id id) cancelled_post (λ p. refl) d.posts;
          },
          ok tt,
        )
        else (d, err cannot_cancel)
  ]

  unfoldable pub requeue : Data T → ℕ → ℕ → Option ℕ → Data T
  unfolding requeued
  requeue d org_id id when = record d {
    posts = Posts.update_many (post_where org_id id) (requeued when) (λ p. refl) d.posts;
  }

  unfoldable pub edit_body : Data T → ScheduledPost → Option String → Data T
  edit_body d post none = d
  edit_body d post (some body) = record d {
    contents =
        Contents.update_many (λ c. c.id == post.content_item_id) (with_body body) (λ c. refl)
          d.contents;
  }

  -- The body is written before the date is looked at.
  unfoldable pub edit_pending : Data T → ℕ → ℕ → EditInput → Data T × Result Refusal (Unit {0})
  unfolding edit_body requeue
  edit_pending d org_id id input = elim (find_post d org_id id) [
    | none ↦ (d, err post_not_found)
    | some post ↦
        if is_published post.status
        then (d, err already_published)
        else if is_processing post.status
        then (d, err publishing_now)
        else let d' = edit_body d post input.body in
          elim input.scheduled_at [
            | none ↦ (requeue d' org_id id none, ok tt)
            | some none ↦ (d', err invalid_scheduled_at)
            | some (some when) ↦ (requeue d' org_id id (some when), ok tt)
          ]
  ]

  unfoldable pub retry : Data T → ℕ → ℕ → Data T × Result Refusal (Unit {0})
  unfolding requeue
  retry d org_id id = elim (find_post d org_id id) [
    | none ↦ (d, err post_not_found)
    | some post ↦
        if is_failed post.status then (requeue d org_id id none, ok tt) else (d, err only_failed)
  ]
