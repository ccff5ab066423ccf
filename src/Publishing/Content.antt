-- ===== src/Publishing/Content.antt =====
-- apps/api/src/content/content.service.ts: writing content, and its review. Each call returns the
-- tables that it leaves and its result; audit rows and the returned views are left out.
use godeye.Prelude.{
  ℕ, ◌≡◌, refl, Bool, true, false, ◌&&◌, Option, none, some, List, [], String, ◌==◌, if◌then◌else◌,
  get_or, Result, ok, err,
}
use godeye.Publishing.Model.{
  ContentStatus, ScheduleStatus, ContentItem, ScheduledPost, Tables, Data, Refusal,
  content_not_found, not_a_draft, not_pending, database_error, is_draft, is_pending_approval,
  is_pending,
}

-- A patch: an absent field is left as it is. `ab_variants` may be absent, null or a value.
pub data AbPatch : Type 0 where
  absent null : AbPatch
  value : ℕ → AbPatch

pub record ContentPatch : Type 0 where
  pub title : Option String
  pub body : Option String
  pub hashtags : Option (List String)
  pub status : Option ContentStatus
  pub variants : Option ℕ
  pub ab_variants : AbPatch
  pub evergreen : Option Bool

abbrev pub or_old {ℓ} : {A : Type ℓ} → Option A → Option A → Option A
or_old none old = old
or_old (some a) old = some a

abbrev pub patch_ab : AbPatch → Option ℕ → Option ℕ
patch_ab absent old = old
patch_ab null old = none
patch_ab (value v) old = some v

unfoldable pub patch_content : ContentPatch → ContentItem → ContentItem
patch_content input c = record c {
  title = or_old input.title c.title;
  body = get_or input.body c.body;
  hashtags = get_or input.hashtags c.hashtags;
  status = get_or input.status c.status;
  variants = or_old input.variants c.variants;
  ab_variants = patch_ab input.ab_variants c.ab_variants;
  evergreen = get_or input.evergreen c.evergreen;
}

unfoldable pub submitted : ℕ → ℕ → ContentItem → ContentItem
submitted now user_id c = record c {
  status = ContentStatus.pending_approval;
  submitted_at = some now;
  submitted_by_id = some user_id;
  reviewed_at = none;
  reviewed_by_id = none;
  review_note = none;
}

unfoldable pub reviewed : ContentStatus → ℕ → ℕ → Option String → ContentItem → ContentItem
reviewed st now user_id note c = record c {
  status = st;
  reviewed_at = some now;
  reviewed_by_id = some user_id;
  review_note = note;
}

unfoldable pub manual : ℕ → ℕ → Option String → String → Option (List String) → ContentItem
manual id org_id title body hashtags = record {
  id = id;
  org_id = org_id;
  status = ContentStatus.draft;
  title = title;
  body = body;
  hashtags = get_or hashtags [];
  variants = none;
  ab_variants = none;
  evergreen = false;
  slideshow_seconds = 30;
  render_as_video = true;
  submitted_at = none;
  submitted_by_id = none;
  reviewed_at = none;
  reviewed_by_id = none;
  review_note = none;
}

abbrev pub cancelled_post : ScheduledPost → ScheduledPost
cancelled_post p = record p { status = ScheduleStatus.cancelled }

module _ (T : Tables) where
  open T use {contents as Contents, posts as Posts}

  -- `where: { id, orgId }`
  abbrev pub content_where : ℕ → ℕ → ContentItem → Bool
  content_where org_id id c = c.id == id && c.org_id == org_id

  unfoldable pub find_content : Data T → ℕ → ℕ → Option ContentItem
  find_content d org_id id = Contents.find_first (content_where org_id id) d.contents

  unfoldable pub set_content :
      Data T
      → ℕ
      → ℕ
      → (f : ContentItem → ContentItem) → ((c : ContentItem) → (f c).id ≡ c.id)
      → Data T
  set_content d org_id id f keeps = record d {
    contents = Contents.update_many (content_where org_id id) f keeps d.contents;
  }

  -- `id` is the one that the database gives the new row.
  unfoldable pub create_manual :
      Data T
      → ℕ
      → ℕ
      → Option String
      → String
      → Option (List String)
      → Data T × Result Refusal (Unit {0})
  unfolding manual
  create_manual d org_id id title body hashtags =
      elim (Contents.create (manual id org_id title body hashtags) d.contents) [
        | none ↦ (d, err database_error)
        | some contents ↦ (record d { contents = contents }, ok tt)
      ]

  unfoldable pub update : Data T → ℕ → ℕ → ContentPatch → Data T × Result Refusal (Unit {0})
  unfolding patch_content set_content
  update d org_id id input = elim (find_content d org_id id) [
    | none ↦ (d, err content_not_found)
    | some existing ↦ (set_content d org_id id (patch_content input) (λ c. refl), ok tt)
  ]

  unfoldable pub submit_for_review : Data T → ℕ → ℕ → ℕ → ℕ → Data T × Result Refusal (Unit {0})
  unfolding submitted set_content
  submit_for_review d now org_id user_id id = elim (find_content d org_id id) [
    | none ↦ (d, err content_not_found)
    | some content ↦
        if is_draft content.status
        then (set_content d org_id id (submitted now user_id) (λ c. refl), ok tt)
        else (d, err not_a_draft)
  ]

  unfoldable pub approve : Data T → ℕ → ℕ → ℕ → ℕ → Data T × Result Refusal (Unit {0})
  unfolding reviewed set_content
  approve d now org_id user_id id = elim (find_content d org_id id) [
    | none ↦ (d, err content_not_found)
    | some content ↦
        if is_pending_approval content.status
        then (
          set_content d org_id id (reviewed ContentStatus.approved now user_id none) (λ c. refl),
          ok tt,
        )
        else (d, err not_pending)
  ]

  -- The still pending posts of the content, which `reject` cancels.
  unfoldable pub awaiting_where : ℕ → ℕ → ScheduledPost → Bool
  awaiting_where org_id id p = p.content_item_id == id && p.org_id == org_id && is_pending p.status

  unfoldable pub reject :
      Data T → ℕ → ℕ → ℕ → ℕ → Option String → Data T × Result Refusal (Unit {0})
  unfolding reviewed set_content awaiting_where
  reject d now org_id user_id id note = elim (find_content d org_id id) [
    | none ↦ (d, err content_not_found)
    | some content ↦
        if is_pending_approval content.status
        then (
          record (set_content d org_id id (reviewed ContentStatus.draft now user_id note)
              (λ c. refl)) {
                posts =
                    Posts.update_many (awaiting_where org_id id) cancelled_post (λ p. refl) d.posts;
              },
          ok tt,
        )
        else (d, err not_pending)
  ]
