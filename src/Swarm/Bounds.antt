-- ===== src/Swarm/Bounds.antt =====
-- What a plan of moxi-swarm promises about its tasks, and what a handoff grants.
use essence_agent.Base.{
  ℕ, String, true, ◌≡◌, ◌↔◌, inl, inr, refl, sym, ap, ◌∙◌, Option, none, some, List, [], ◌∷◌, arith,
  All, contains, find, ◌==◌, ==_iff, string_eq, Bool-cases, Option-cases, subst,
}
use essence_agent.Base.Table.{Table, lookup, insert, lookup-insert}
use essence_agent.Base.Outcome.Pure.{Result-cases, ok}
use essence_agent.Swarm.Data.{
  capability_not_allowed, memory_scope_not_allowed, SubagentManifest, SwarmError, SwarmTask,
  SwarmPlan, HandoffContract, SwarmController, SwarmPlatform,
}
use essence_agent.Swarm.Planning.{
  all_allowed, ensure_agent_bounds, collect, agent_map, check_tasks, plan, plan_of, handoff_of,
  handoff_for_task,
}

-- Every capability and scope of the task is one of the agent's.
pub record IsWithin (agent : SubagentManifest) (task : SwarmTask) : Type 0 where
  pub capabilities :
      All (λ name. contains agent.allowed_capabilities name ≡ true) task.required_capabilities
  pub scopes : All (λ name. contains agent.memory_scopes name ≡ true) task.memory_scopes

allowed_iff :
    (error : String → SwarmError) (allowed names : List String)
    → (all_allowed error allowed names ≡ ok tt) ↔ All (λ name. contains allowed name ≡ true) names
allowed_iff error allowed [] = (λ h. tt, λ h. refl)
allowed_iff error allowed (name ∷ names) = elim (Bool-cases (contains allowed name)) [
  | inl inside ↦ (
    λ h. (inside, (allowed_iff error allowed names).0 (ground (arith, inside, h))),
    λ h. ground (arith, inside, (allowed_iff error allowed names).1 h.1),
  )
  | inr outside ↦
      (λ h. absurd (ground (arith, outside, h)), λ h. absurd (ground (arith, outside, h.0)))
]

module _ (agent : SubagentManifest) (task : SwarmTask) where
  within : ensure_agent_bounds agent task ≡ ok tt → IsWithin agent task
  unfolding ensure_agent_bounds
  within h =
      let capabilities =
        allowed_iff (capability_not_allowed agent.agent_id) agent.allowed_capabilities
          task.required_capabilities in
      let scopes =
        allowed_iff (memory_scope_not_allowed agent.agent_id) agent.memory_scopes
          task.memory_scopes in
      record {
        capabilities = capabilities.0 (ground (arith, h));
        scopes = scopes.0 (ground (arith, h));
      }

-- No two agents have one id.
abbrev pub HasDistinctIds : List SubagentManifest → Type 0
HasDistinctIds [] = Unit
HasDistinctIds (agent ∷ rest) =
    (find (λ other. other.agent_id == agent.agent_id) rest ≡ none) × HasDistinctIds rest

abbrev or_else : Option SubagentManifest → Option SubagentManifest → Option SubagentManifest
or_else none other = other
or_else (some agent) other = some agent

abbrev pub named : String → List SubagentManifest → Option SubagentManifest
named id = find (λ agent. agent.agent_id == id)

collect-find :
    (id : String) (agents : List SubagentManifest) (t : Table SubagentManifest)
    → HasDistinctIds agents
    → lookup id (collect t agents) ≡ or_else (named id agents) (lookup id t)
collect-find id [] t distinct = refl
collect-find id (agent ∷ rest) t (alone, distinct) =
    collect-find id rest (insert agent.agent_id agent t) distinct
    ∙ ap (or_else (named id rest)) (lookup-insert agent.agent_id id agent t)
    ∙ elim (Bool-cases (agent.agent_id == id)) [
      | inl same ↦
          let gone = subst (λ j. named j rest ≡ none) ((==_iff agent.agent_id id).0 same) alone in
          rw same (ap (λ found. or_else found (some agent)) gone)
      | inr other ↦ rw other refl
    ]

is_found :
    (id : String) (agents : List SubagentManifest) (agent : SubagentManifest)
    → or_else (named id agents) none ≡ some agent
    → named id agents ≡ some agent
is_found id agents agent h = elim (Option-cases (named id agents)) [
  | inl missing ↦ absurd (ground (arith, ap (λ found. or_else found none) missing, h))
  | inr (first, found) ↦ found ∙ sym (ap (λ found. or_else found none) found) ∙ h
]

module _ (agents : Table SubagentManifest) where
  -- Each task has an agent in the map, and is within its bounds.
  abbrev AllAssigned : List SwarmTask → Type 0
  AllAssigned = All (λ task.
      (agent : SubagentManifest) × (lookup task.assigned_agent_id agents ≡ some agent)
      × (ensure_agent_bounds agent task ≡ ok tt))

  assigned : (tasks : List SwarmTask) → check_tasks agents tasks ≡ ok tt → AllAssigned tasks
  unfolding check_tasks
  assigned [] h = tt
  assigned (task ∷ rest) h = elim (Option-cases (lookup task.assigned_agent_id agents)) [
    | inl missing ↦ absurd (ground (arith, missing, h))
    | inr (agent, found) ↦
        ((agent, found, ground (arith, found, h)), assigned rest (ground (arith, found, h)))
  ]

  task_assigned :
      (tasks : List SwarmTask) (task_id : String) (task : SwarmTask)
      → AllAssigned tasks
      → find (λ other. other.task_id == task_id) tasks ≡ some task
      → (agent : SubagentManifest) × (lookup task.assigned_agent_id agents ≡ some agent)
        × (ensure_agent_bounds agent task ≡ ok tt)
  task_assigned [] task_id task all h = absurd (ground arith)
  task_assigned (first ∷ rest) task_id task (here, all) h =
      elim (Bool-cases (first.task_id == task_id)) [
        | inl same ↦
            subst
              (λ x.
                (agent : SubagentManifest) × (lookup x.assigned_agent_id agents ≡ some agent)
                × (ensure_agent_bounds agent x ≡ ok tt))
              (ground (arith, same, h)) here
        | inr other ↦ task_assigned rest task_id task all (ground (arith, other, h))
      ]

module _ (p : SwarmPlatform) (now : ℕ) (controller : SwarmController) (tasks : List SwarmTask)
    (made : SwarmPlan) where
  raw_plan :
      plan p now controller tasks ≡ ok made
      → (check_tasks (agent_map controller.subagents) tasks ≡ ok tt)
        × (made ≡ plan_of p now controller tasks)
  unfolding plan
  raw_plan h = elim (Result-cases (check_tasks (agent_map controller.subagents) tasks)) [
    | inl (_, checked) ↦ (checked, ground (arith, checked, h))
    | inr (error, refused) ↦ absurd (ground (arith, refused, h))
  ]

  -- Where no two agents have one id, the first task of each task id of a plan can be handed off. The
  -- handoff goes to the agent that the task is assigned to. It grants just the capabilities and memory
  -- scopes of the task, and they are among those that the agent is allowed.
  pub handoff-plan :
      (task_id from_agent_id : String) (task : SwarmTask)
      → HasDistinctIds controller.subagents
      → plan p now controller tasks ≡ ok made
      → find (λ other. other.task_id == task_id) tasks ≡ some task
      → (contract : HandoffContract) × (agent : SubagentManifest) × (handoff_for_task p now made
            task_id from_agent_id
          ≡ ok contract)
        × (contract.to_agent_id ≡ task.assigned_agent_id)
        × (named task.assigned_agent_id controller.subagents ≡ some agent)
        × (contract.task_id ≡ task.task_id)
        × (contract.allowed_capabilities ≡ task.required_capabilities)
        × (contract.memory_scopes ≡ task.memory_scopes)
        × All
            (λ name. contains agent.allowed_capabilities name ≡ true)
            contract.allowed_capabilities
        × All (λ name. contains agent.memory_scopes name ≡ true) contract.memory_scopes
  unfolding handoff_for_task agent_map
  handoff-plan task_id from_agent_id task distinct h found =
      let (checked, is_plan) = raw_plan h in
      let agents = agent_map controller.subagents in
      let (agent, mapped, bounds) =
        task_assigned agents tasks task_id task (assigned agents tasks checked) found in
      let listed = collect-find task.assigned_agent_id controller.subagents [] distinct in
      let first =
        is_found task.assigned_agent_id controller.subagents agent (sym listed ∙ mapped) in
      let granted = within agent task bounds in
      (
        handoff_of p now made task from_agent_id,
        agent,
        rw is_plan (ground (arith, found, first, bounds)),
        refl,
        first,
        refl,
        refl,
        refl,
        granted.capabilities,
        granted.scopes,
      )

module _ (p : SwarmPlatform) (now : ℕ) (made : SwarmPlan) (task_id from_agent_id : String)
    (contract : HandoffContract) where
  -- Whatever the plan, a handoff grants only what the first agent of its id is allowed.
  pub handoff_for_task_lem :
      handoff_for_task p now made task_id from_agent_id ≡ ok contract
      → (agent : SubagentManifest) × (named contract.to_agent_id made.subagents ≡ some agent)
        × All
            (λ name. contains agent.allowed_capabilities name ≡ true)
            contract.allowed_capabilities
        × All (λ name. contains agent.memory_scopes name ≡ true) contract.memory_scopes
  unfolding handoff_for_task
  handoff_for_task_lem h = elim (Option-cases (find (λ task. task.task_id == task_id) made.tasks)) [
    | inl missing ↦ absurd (ground (arith, missing, h))
    | inr (task, is_task) ↦ elim (Option-cases (named task.assigned_agent_id made.subagents)) [
      | inl missing ↦ absurd (ground (arith, is_task, missing, h))
      | inr (agent, is_agent) ↦
          let made_of : contract ≡ handoff_of p now made task from_agent_id =
            ground (arith, is_task, is_agent, h) in
          let granted = within agent task (ground (arith, is_task, is_agent, h)) in
          subst
            (λ x.
              (first : SubagentManifest) × (named x.to_agent_id made.subagents ≡ some first)
              × All (λ name. contains first.allowed_capabilities name ≡ true) x.allowed_capabilities
              × All (λ name. contains first.memory_scopes name ≡ true) x.memory_scopes)
            (sym made_of) (agent, is_agent, granted.capabilities, granted.scopes)
    ]
  ]
