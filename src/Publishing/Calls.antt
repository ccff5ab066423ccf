-- ===== src/Publishing/Calls.antt =====
-- The calls of the two services, each made by a workspace, and what one call may do to a post.
pub mod Posts
pub mod Scheduled
pub mod Withdrawn
use godeye.Prelude.{get_or, ℕ, ◌≡◌, ◌≢◌, refl, Bool, Option, none, some, List, [], ◌∷◌, String}
use godeye.Publishing.Model.{ScheduleStatus, ScheduledPost, Tables, Data}
use godeye.Publishing.Content.{
  ContentPatch, cancelled_post, create_manual, update, submit_for_review, approve, reject,
}
use godeye.Publishing.Scheduling.{
  SchedulePostInput, EditInput, requeued, schedule, cancel, edit_pending, retry,
}
use godeye.Publishing.Plans.{PlanInput, PlanPatch, create_plan, update_plan}

pub data Call : Type 0 where
  creates_content : (id : ℕ) → Option String → String → Option (List String) → Call
  updates_content : (id : ℕ) → ContentPatch → Call
  submits approves : (now user_id id : ℕ) → Call
  rejects : (now user_id id : ℕ) → Option String → Call
  schedules : (now : ℕ) → (ℕ → Bool) → (ℕ → ℕ) → SchedulePostInput → Call
  cancels retries : (id : ℕ) → Call
  edits : (id : ℕ) → EditInput → Call
  creates_plan : (id : ℕ) → PlanInput → Call
  updates_plan : (now id : ℕ) → PlanPatch → Call

module _ (T : Tables) where
  -- The tables after a call of the workspace `a`, whether it succeeds or is refused.
  pub step : Data T → ℕ → Call → Data T
  step d a (creates_content id title body hashtags) = (create_manual T d a id title body hashtags).0
  step d a (updates_content id input) = (update T d a id input).0
  step d a (submits now user_id id) = (submit_for_review T d now a user_id id).0
  step d a (approves now user_id id) = (approve T d now a user_id id).0
  step d a (rejects now user_id id note) = (reject T d now a user_id id note).0
  step d a (schedules now within fresh input) = (schedule T d now a within fresh input).0
  step d a (cancels id) = (cancel T d a id).0
  step d a (edits id input) = (edit_pending T d a id input).0
  step d a (retries id) = (retry T d a id).0
  step d a (creates_plan id input) = (create_plan T d a id input).0
  step d a (updates_plan now id input) = (update_plan T d now a id input).0

  pub run : Data T → List (ℕ × Call) → Data T
  run d [] = d
  run d ((a, call) ∷ calls) = run (step d a call) calls

-- Only the status becomes CANCELLED.
abbrev pub IsCancelled : ScheduledPost → ScheduledPost → Type 0
IsCancelled p p' = p' ≡ record p { status = ScheduleStatus.cancelled }

-- The post waits again: pending at the time asked for, or else at its own, with no error, no lock and
-- no attempts; every other column is as it was.
abbrev pub IsWaiting : Option ℕ → ScheduledPost → ScheduledPost → Type 0
IsWaiting when p p' =
    (p'.status ≡ ScheduleStatus.pending)
    × (p'.error ≡ none)
    × (p'.locked_at ≡ none)
    × (p'.attempts ≡ 0)
    × (p'.scheduled_at ≡ get_or when p.scheduled_at)
    × (p'.id ≡ p.id)
    × (p'.org_id ≡ p.org_id)
    × (p'.content_item_id ≡ p.content_item_id)
    × (p'.connection_id ≡ p.connection_id)
    × (p'.timezone ≡ p.timezone)
    × (p'.variant_key ≡ p.variant_key)
    × (p'.plan_id ≡ p.plan_id)
    × (p'.tiktok_settings ≡ p.tiktok_settings)

-- What a call of the workspace `a` may do to a post: nothing, cancel it while it is pending, or
-- put it back to pending unless it is out or on its way.
pub data PostStep (a : ℕ) (p p' : ScheduledPost) : Type 0 where
  kept : p' ≡ p → PostStep a p p'
  cancelled : p.org_id ≡ a → p.status ≡ ScheduleStatus.pending → IsCancelled p p' → PostStep a p p'
  requeues :
      (when : Option ℕ)
      → p.org_id ≡ a
      → p.status ≢ ScheduleStatus.published
      → p.status ≢ ScheduleStatus.processing
      → IsWaiting when p p'
      → PostStep a p p'
