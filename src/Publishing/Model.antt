-- ===== src/Publishing/Model.antt =====
-- The rows of packages/db/prisma/schema.prisma that the content and scheduling services read and
-- write, with the columns that they use. Times are milliseconds; ids, cron lines and settings are
-- numbers in place of opaque values.
use godeye.Prelude.{ℕ, Bool, true, false, Option, List, String, ◌==◌}
use godeye.Db.{Table}

pub data ContentStatus : Type 0 where
  draft pending_approval approved scheduled published failed archived : ContentStatus

pub data ScheduleStatus : Type 0 where
  pending processing published failed cancelled : ScheduleStatus

pub data ConnectionStatus : Type 0 where
  active expiring_soon expired revoked error disconnected : ConnectionStatus

pub data CadenceType : Type 0 where
  daily_1 daily_2 daily_3 hourly weekends custom : CadenceType

pub data Variant : Type 0 where
  variant_a variant_b : Variant

pub record ContentItem : Type 0 where
  pub id : ℕ
  pub org_id : ℕ
  pub status : ContentStatus
  pub title : Option String
  pub body : String
  pub hashtags : List String
  pub variants : Option ℕ
  pub ab_variants : Option ℕ
  pub evergreen : Bool
  pub slideshow_seconds : ℕ
  pub render_as_video : Bool
  pub submitted_at : Option ℕ
  pub submitted_by_id : Option ℕ
  pub reviewed_at : Option ℕ
  pub reviewed_by_id : Option ℕ
  pub review_note : Option String

pub record ScheduledPost : Type 0 where
  pub id : ℕ
  pub org_id : ℕ
  pub content_item_id : ℕ
  pub connection_id : ℕ
  pub scheduled_at : ℕ
  pub timezone : String
  pub status : ScheduleStatus
  pub variant_key : Option Variant
  pub plan_id : Option ℕ
  pub attempts : ℕ
  pub locked_at : Option ℕ
  pub error : Option String
  pub tiktok_settings : Option ℕ

pub record SocialConnection : Type 0 where
  pub id : ℕ
  pub org_id : ℕ
  pub is_tiktok : Bool
  pub status : ConnectionStatus

-- `platforms` and `preferred_times` stand for the joined texts that `updatePlan` compares.
pub record PostingPlan : Type 0 where
  pub id : ℕ
  pub org_id : ℕ
  pub cadence : CadenceType
  pub custom_cron : Option ℕ
  pub timezone : ℕ
  pub platforms : ℕ
  pub preferred_times : ℕ
  pub active : Bool
  pub last_planned_at : Option ℕ

pub record OrgSettings : Type 0 where
  pub id : ℕ
  pub require_approval : Bool

abbrev pub content_key : ContentItem → ℕ
content_key c = c.id

abbrev pub content_clash : ContentItem → ContentItem → Bool
content_clash r s = r.id == s.id

abbrev pub post_key : ScheduledPost → ℕ
post_key p = p.id

abbrev pub post_clash : ScheduledPost → ScheduledPost → Bool
post_clash r s = r.id == s.id

abbrev pub connection_key : SocialConnection → ℕ
connection_key c = c.id

abbrev pub connection_clash : SocialConnection → SocialConnection → Bool
connection_clash r s = r.id == s.id

abbrev pub posting_plan_key : PostingPlan → ℕ
posting_plan_key p = p.id

abbrev pub posting_plan_clash : PostingPlan → PostingPlan → Bool
posting_plan_clash r s = r.id == s.id

abbrev pub settings_key : OrgSettings → ℕ
settings_key o = o.id

abbrev pub settings_clash : OrgSettings → OrgSettings → Bool
settings_clash r s = r.id == s.id

pub record Tables : Type 1 where
  pub contents : Table ContentItem content_key content_clash
  pub posts : Table ScheduledPost post_key post_clash
  pub connections : Table SocialConnection connection_key connection_clash
  pub plans : Table PostingPlan posting_plan_key posting_plan_clash
  pub orgs : Table OrgSettings settings_key settings_clash

pub record Data (T : Tables) : Type 0 where
  pub contents : T.contents.Rows
  pub posts : T.posts.Rows
  pub connections : T.connections.Rows
  pub plans : T.plans.Rows
  pub orgs : T.orgs.Rows

-- The exceptions that the two services throw.
pub data Refusal : Type 0 where
  content_not_found post_not_found plan_not_found org_not_found : Refusal
  not_a_draft not_pending needs_approval : Refusal
  invalid_scheduled_at in_the_past connections_missing tiktok_settings_required : Refusal
  plan_limit_reached database_error : Refusal
  cannot_cancel already_published publishing_now only_failed cron_required : Refusal

abbrev pub is_draft : ContentStatus → Bool
is_draft ContentStatus.draft = true
is_draft _ = false

abbrev pub is_pending_approval : ContentStatus → Bool
is_pending_approval ContentStatus.pending_approval = true
is_pending_approval _ = false

abbrev pub is_approved : ContentStatus → Bool
is_approved ContentStatus.approved = true
is_approved _ = false

abbrev pub is_active : ConnectionStatus → Bool
is_active ConnectionStatus.active = true
is_active _ = false

abbrev pub is_pending : ScheduleStatus → Bool
is_pending ScheduleStatus.pending = true
is_pending _ = false

abbrev pub is_failed : ScheduleStatus → Bool
is_failed ScheduleStatus.failed = true
is_failed _ = false

abbrev pub is_published : ScheduleStatus → Bool
is_published ScheduleStatus.published = true
is_published _ = false

abbrev pub is_processing : ScheduleStatus → Bool
is_processing ScheduleStatus.processing = true
is_processing _ = false

abbrev pub is_custom : CadenceType → Bool
is_custom CadenceType.custom = true
is_custom _ = false

pub CadenceType-discrete : Discrete CadenceType
CadenceType-discrete = hlevel
