-- ===== src/Publishing/Plans.antt =====
-- apps/api/src/scheduling/scheduling.service.ts: posting plans.
use godeye.Prelude.{
  ℕ, refl, Bool, true, false, not, ◌&&◌, ◌||◌, Option, none, some, ◌==◌, ltb, if◌then◌else◌, get_or,
  is_some, Result, ok, err,
}
use mathlib.Core.Bool.{decide}
use godeye.Publishing.Model.{
  CadenceType, CadenceType-discrete, ScheduledPost, PostingPlan, Tables, Data, Refusal,
  plan_not_found, cron_required, database_error, is_custom, is_pending,
}
use godeye.Publishing.Content.{cancelled_post, or_old}

-- The columns of `PostingPlanInput` that decide when and where a plan publishes. The others
-- (name, topics and the generation switches) are stored as they come.
pub record PlanInput : Type 0 where
  pub cadence : CadenceType
  pub custom_cron : Option ℕ
  pub timezone : ℕ
  pub platforms : ℕ
  pub preferred_times : ℕ

pub record PlanPatch : Type 0 where
  pub cadence : Option CadenceType
  pub custom_cron : Option ℕ
  pub timezone : Option ℕ
  pub platforms : Option ℕ
  pub preferred_times : Option ℕ
  pub active : Option Bool

unfoldable pub new_plan : ℕ → ℕ → PlanInput → PostingPlan
new_plan id org_id input = record {
  id = id;
  org_id = org_id;
  cadence = input.cadence;
  custom_cron = input.custom_cron;
  timezone = input.timezone;
  platforms = input.platforms;
  preferred_times = input.preferred_times;
  active = true;
  last_planned_at = none;
}

-- `input.x !== undefined && input.x !== existing.x`
abbrev pub differs : Option ℕ → ℕ → Bool
differs none old = false
differs (some new) old = not (new == old)

abbrev pub differs_option : Option ℕ → Option ℕ → Bool
differs_option none old = false
differs_option (some new) none = true
differs_option (some new) (some old) = not (new == old)

abbrev pub differs_cadence : Option CadenceType → CadenceType → Bool
differs_cadence none old = false
differs_cadence (some new) old = not (decide (CadenceType-discrete new old))

-- Whether the patch changes when or where the plan publishes.
unfoldable pub timing_changed : PlanPatch → PostingPlan → Bool
timing_changed input existing =
    differs_cadence input.cadence existing.cadence
    || differs_option input.custom_cron existing.custom_cron
    || differs input.timezone existing.timezone
    || differs input.preferred_times existing.preferred_times
    || differs input.platforms existing.platforms

-- Clearing the high-water mark makes the planner plan again from now.
unfoldable pub patch_plan : PlanPatch → Bool → PostingPlan → PostingPlan
patch_plan input changed p = record p {
  cadence = get_or input.cadence p.cadence;
  custom_cron = or_old input.custom_cron p.custom_cron;
  timezone = get_or input.timezone p.timezone;
  platforms = get_or input.platforms p.platforms;
  preferred_times = get_or input.preferred_times p.preferred_times;
  active = get_or input.active p.active;
  last_planned_at = if changed then none else p.last_planned_at;
}

-- A custom cadence after the patch, with no cron line after the patch.
unfoldable pub plan_refused : PlanPatch → PostingPlan → Bool
plan_refused input existing =
    is_custom (get_or input.cadence existing.cadence)
    && not (is_some (or_old input.custom_cron existing.custom_cron))

module _ (T : Tables) where
  open T use {posts as Posts, plans as Plans}

  unfoldable pub create_plan : Data T → ℕ → ℕ → PlanInput → Data T × Result Refusal PostingPlan
  unfolding new_plan
  create_plan d org_id id input =
      if is_custom input.cadence && not (is_some input.custom_cron)
      then (d, err cron_required)
      else elim (Plans.create (new_plan id org_id input) d.plans) [
        | none ↦ (d, err database_error)
        | some plans ↦ (record d { plans = plans }, ok (new_plan id org_id input))
      ]

  -- `where: { id, orgId }`
  abbrev pub plan_where : ℕ → ℕ → PostingPlan → Bool
  plan_where org_id id p = p.id == id && p.org_id == org_id

  abbrev pub same_plan : Option ℕ → ℕ → Bool
  same_plan none id = false
  same_plan (some p) id = p == id

  -- The upcoming posts of the plan.
  unfoldable pub upcoming_where : ℕ → ℕ → ℕ → ScheduledPost → Bool
  upcoming_where now org_id id p =
      p.org_id == org_id && same_plan p.plan_id id && is_pending p.status && ltb now p.scheduled_at

  -- The result is the number of upcoming posts that were cancelled.
  unfoldable pub update_plan : Data T → ℕ → ℕ → ℕ → PlanPatch → Data T × Result Refusal ℕ
  unfolding patch_plan upcoming_where plan_refused
  update_plan d now org_id id input = elim (Plans.find_first (plan_where org_id id) d.plans) [
    | none ↦ (d, err plan_not_found)
    | some existing ↦
        if plan_refused input existing
        then (d, err cron_required)
        else let changed = timing_changed input existing in
          let d' : Data T = record d {
            plans =
                Plans.update_many (plan_where org_id id) (patch_plan input changed) (λ p. refl)
                  d.plans;
          } in
          if changed
          then (
            record d' {
              posts =
                  Posts.update_many (upcoming_where now org_id id) cancelled_post (λ p. refl)
                    d.posts;
            },
            ok (Posts.count (upcoming_where now org_id id) d.posts),
          )
          else (d', ok 0)
  ]
