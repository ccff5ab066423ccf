-- ===== src/Publishing/Examples.antt =====
-- Concrete tables, on which the theorems about content and scheduling are applied.
use godeye.Prelude.{
  ℕ, ◌+◌, ◌≡◌, refl, Bool, true, false, none, some, List, [], ◌∷◌, arith, leb, length,
}
use godeye.Db.{Each, Apart}
use godeye.Db.ListTable.{list_table}
use godeye.Publishing.Model.{
  ContentStatus, ScheduleStatus, ConnectionStatus, CadenceType, ContentItem, ScheduledPost,
  SocialConnection, PostingPlan, OrgSettings, Tables, Data, content_key, content_clash, post_key,
  post_clash, connection_key, connection_clash, posting_plan_key, posting_plan_clash, settings_key,
  settings_clash, is_approved,
}
use godeye.Publishing.Content.{find_content}
use godeye.Publishing.Scheduling.{
  SchedulePostInput, schedule, prepare, create_posts, new_posts, new_post, target_where,
}
use godeye.Publishing.Calls.{cancels, retries, step, run, PostStep}
use godeye.Publishing.Calls.Posts.{step-Moved, run-published}
use godeye.Publishing.Calls.Scheduled.{IsGood, schedule_sound}

content-covers : (r s : ContentItem) → content_key r ≡ content_key s → content_clash r s ≡ true
content-covers r s h = ground arith

post-covers : (r s : ScheduledPost) → post_key r ≡ post_key s → post_clash r s ≡ true
post-covers r s h = ground arith

connection-covers :
    (r s : SocialConnection) → connection_key r ≡ connection_key s → connection_clash r s ≡ true
connection-covers r s h = ground arith

posting_plan-covers :
    (r s : PostingPlan) → posting_plan_key r ≡ posting_plan_key s → posting_plan_clash r s ≡ true
posting_plan-covers r s h = ground arith

settings-covers : (r s : OrgSettings) → settings_key r ≡ settings_key s → settings_clash r s ≡ true
settings-covers r s h = ground arith

abbrev publishing_tables : Tables
publishing_tables = record {
  contents = list_table content_key content_clash content-covers;
  posts = list_table post_key post_clash post-covers;
  connections = list_table connection_key connection_clash connection-covers;
  plans = list_table posting_plan_key posting_plan_clash posting_plan-covers;
  orgs = list_table settings_key settings_clash settings-covers;
}

abbrev article : ContentStatus → ContentItem
article st = record {
  id = 10;
  org_id = 1;
  status = st;
  title = none;
  body = "hello";
  hashtags = [];
  variants = none;
  ab_variants = some 5;
  evergreen = false;
  slideshow_seconds = 30;
  render_as_video = true;
  submitted_at = none;
  submitted_by_id = none;
  reviewed_at = none;
  reviewed_by_id = none;
  review_note = none;
}

abbrev queued : ScheduledPost
queued = record {
  id = 20;
  org_id = 1;
  content_item_id = 10;
  connection_id = 30;
  scheduled_at = 5000;
  timezone = "UTC";
  status = ScheduleStatus.pending;
  variant_key = none;
  plan_id = some 40;
  attempts = 0;
  locked_at = none;
  error = none;
  tiktok_settings = none;
}

abbrev out_already : ScheduledPost
out_already = record queued { id = 21; status = ScheduleStatus.published }

abbrev channel : ℕ → Bool → SocialConnection
channel id tiktok = record {
  id = id;
  org_id = 1;
  is_tiktok = tiktok;
  status = ConnectionStatus.active;
}

abbrev daily : PostingPlan
daily = record {
  id = 40;
  org_id = 1;
  cadence = CadenceType.daily_1;
  custom_cron = none;
  timezone = 0;
  platforms = 0;
  preferred_times = 9;
  active = true;
  last_planned_at = some 4000;
}

-- A workspace that asks for approval, with one content item, a post that waits and one that is out.
abbrev desk : ContentStatus → Data publishing_tables
unfolding list_table
desk st = record {
  contents = (article st ∷ [], (refl, tt));
  posts = (queued ∷ out_already ∷ [], (refl, (refl, tt)));
  connections = (channel 30 false ∷ channel 31 true ∷ [], (refl, (refl, tt)));
  plans = (daily ∷ [], (refl, tt));
  orgs = (record { id = 1; require_approval = true } ∷ [], (refl, tt));
}

abbrev ask : SchedulePostInput
ask = record {
  content_item_id = 10;
  connection_ids = 30 ∷ 31 ∷ [];
  scheduled_at = some 9000;
  timezone = "UTC";
  slideshow_seconds = none;
  render_as_video = none;
  tiktok = some 3;
}

abbrev number : ℕ → ℕ
number i = 100 + i

abbrev made : List ScheduledPost
made =
    new_posts 1 (article ContentStatus.approved) ask 9000 number 0
      (channel 30 false ∷ channel 31 true ∷ [])

step-Moved_example :
    (p : ScheduledPost) × ((publishing_tables.posts.find_unique
        (step publishing_tables (desk ContentStatus.approved) 1 (cancels 20)).posts
        20)
      ≡ some p)
    × PostStep 1 queued p
unfolding list_table
step-Moved_example =
    step-Moved publishing_tables (desk ContentStatus.approved) 1 (cancels 20) 20 queued refl

run-published_example :
    publishing_tables.posts.find_unique
      (run publishing_tables
        (desk ContentStatus.approved)
        ((1, cancels 21) ∷ (2, retries 21) ∷ (1, cancels 20) ∷ [])).posts
      21
    ≡ some out_already
unfolding list_table
run-published_example =
    run-published publishing_tables ((1, cancels 21) ∷ (2, retries 21) ∷ (1, cancels 20) ∷ [])
      (desk ContentStatus.approved) 21 out_already refl refl

schedule_sound_example :
    (length made ≡ 2)
    × (true ≡ true)
    × Each (IsGood publishing_tables (desk ContentStatus.approved) 1 ask) made
    × Apart (λ p. p.connection_id) made
    × Each
        (λ p.
          publishing_tables.posts.find_unique
            (schedule publishing_tables
              (desk ContentStatus.approved)
              8000
              1
              (λ n. leb n 5)
              number
              ask).0.posts
            p.id
          ≡ some p)
        made
    × (content : ContentItem) × (find_content publishing_tables (desk ContentStatus.approved) 1 10
        ≡ some content)
    × ((o : OrgSettings)
        → publishing_tables.orgs.find_unique (desk ContentStatus.approved).orgs 1 ≡ some o
        → o.require_approval ≡ true
        → is_approved content.status ≡ true)
unfolding schedule prepare create_posts find_content list_table new_posts new_post target_where
schedule_sound_example =
    schedule_sound publishing_tables (desk ContentStatus.approved) 8000 1 (λ n. leb n 5) number ask
      made refl
