-- ===== src/Runs.antt =====
-- The rows that stand for the work of the engine, AgentRun of packages/db/prisma/schema.prisma. A
-- service writes a run before it hands the work over, and then its task id or its failure. Inputs
-- and error texts are numbers.
use godeye.Prelude.{ℕ, Bool, Option, none, some, ◌==◌}

pub data RunStatus : Type 0 where
  queued running succeeded failed : RunStatus

pub data AgentType : Type 0 where
  content image video seo : AgentType

pub record AgentRun : Type 0 where
  pub id : ℕ
  pub org_id : ℕ
  pub agent : AgentType
  pub status : RunStatus
  pub task_id : Option ℕ
  pub input : ℕ
  pub error : Option ℕ

abbrev pub run_key : AgentRun → ℕ
run_key r = r.id

abbrev pub run_clash : AgentRun → AgentRun → Bool
run_clash r s = r.id == s.id

abbrev pub new_run : ℕ → ℕ → AgentType → ℕ → AgentRun
new_run id org_id agent input = record {
  id = id;
  org_id = org_id;
  agent = agent;
  status = RunStatus.queued;
  task_id = none;
  input = input;
  error = none;
}

abbrev pub with_task : ℕ → AgentRun → AgentRun
with_task task_id r = record r { task_id = some task_id }

abbrev pub with_failure : ℕ → AgentRun → AgentRun
with_failure error r = record r { status = RunStatus.failed; error = some error }
