-- ===== src/Swarm/Planning.antt =====
-- `SwarmController` of crates/moxi-swarm/src/lib.rs: plans and handoffs. `Utc::now()` is an argument.
use essence_agent.Base.{
  ℕ, String, true, List, [], ◌∷◌, if◌then◌else◌, is_empty, contains, find, ◌==◌, string_eq,
}
use essence_agent.Base.Table.{Table, lookup, insert}
use essence_agent.Base.Text.{concat}
use essence_agent.Base.Outcome.Pure.{Result, ok, err, fail_if, ok_or, ◌>>=◌, ◌>>◌}
use essence_agent.Platform.{stable_id}
use essence_agent.Swarm.Data.{
  SubagentManifest, SwarmError, empty_plan, unknown_subagent, invalid_handoff,
  capability_not_allowed, memory_scope_not_allowed, SwarmTask, SwarmPlan, HandoffContract,
  SwarmController, SwarmPlatform,
}

-- the two loops of `ensure_agent_bounds`
abbrev pub all_allowed :
    (String → SwarmError) → List String → List String → Result SwarmError (Unit {0})
all_allowed error allowed [] = ok tt
all_allowed error allowed (name ∷ rest) =
    let remaining = all_allowed error allowed rest in
    if contains allowed name then remaining else err (error name)

unfoldable pub ensure_agent_bounds : SubagentManifest → SwarmTask → Result SwarmError (Unit {0})
ensure_agent_bounds agent task = do
  all_allowed (capability_not_allowed agent.agent_id) agent.allowed_capabilities
      task.required_capabilities
  all_allowed (memory_scope_not_allowed agent.agent_id) agent.memory_scopes task.memory_scopes

-- the collected map: of agents with one id the last
abbrev pub collect : Table SubagentManifest → List SubagentManifest → Table SubagentManifest
collect agents [] = agents
collect agents (agent ∷ rest) = collect (insert agent.agent_id agent agents) rest

unfoldable pub agent_map : List SubagentManifest → Table SubagentManifest
agent_map = collect []

-- the loop of `plan`
unfoldable pub check_tasks : Table SubagentManifest → List SwarmTask → Result SwarmError (Unit {0})
unfolding ensure_agent_bounds
check_tasks agents [] = ok tt
check_tasks agents (task ∷ rest) =
    let remaining = check_tasks agents rest in
    do
      agent ← ok_or (lookup task.assigned_agent_id agents) (unknown_subagent task.assigned_agent_id)
      ensure_agent_bounds agent task
      remaining

module _ (p : SwarmPlatform) (now : ℕ) where
  abbrev pub plan_of : SwarmController → List SwarmTask → SwarmPlan
  plan_of controller tasks = record {
    plan_id = stable_id p.sha256_hex "swarm_plan" (p.plan_json controller.parent_run_ref tasks);
    schema_version = 1;
    parent_run_ref = controller.parent_run_ref;
    topology = controller.topology;
    subagents = controller.subagents;
    tasks = tasks;
    budget = controller.budget;
    created_at = now;
    cannot_authorize = true;
  }

  unfoldable pub plan : SwarmController → List SwarmTask → Result SwarmError SwarmPlan
  unfolding agent_map check_tasks
  plan controller tasks = do
    fail_if (is_empty controller.subagents) empty_plan
    check_tasks (agent_map controller.subagents) tasks
    ok (plan_of controller tasks)

  abbrev pub handoff_of : SwarmPlan → SwarmTask → String → HandoffContract
  handoff_of plan task from_agent_id = record {
    handoff_id =
        stable_id p.sha256_hex "handoff"
          (p.handoff_json plan.plan_id from_agent_id task.assigned_agent_id task.task_id);
    parent_run_ref = plan.parent_run_ref;
    from_agent_id = from_agent_id;
    to_agent_id = task.assigned_agent_id;
    task_id = task.task_id;
    allowed_capabilities = task.required_capabilities;
    memory_scopes = task.memory_scopes;
    evidence_required = "sidechain_summary" ∷ "review_gate" ∷ [];
    risk_level = task.risk_level;
    created_at = now;
  }

  unfoldable pub handoff_for_task : SwarmPlan → String → String → Result SwarmError HandoffContract
  unfolding ensure_agent_bounds
  handoff_for_task plan task_id from_agent_id = do
    task ←
        ok_or (find (λ task. task.task_id == task_id) plan.tasks)
          (invalid_handoff (concat ("unknown task " ∷ task_id ∷ [])))
    agent ←
        ok_or (find (λ agent. agent.agent_id == task.assigned_agent_id) plan.subagents)
          (unknown_subagent task.assigned_agent_id)
    ensure_agent_bounds agent task
    ok (handoff_of plan task from_agent_id)
