-- ===== src/Engine/Grounded.antt =====
-- What the engine's outcome satisfies, whatever the agents answer.
use openontology.Prelude.{
  NoneType, ok_inj, >>=-eq-ok, All, Result, ok, eq_string, eq_pair, Text, eq_text, member, ℕ, ◌≤◌,
  ◌<◌, ◌≡◌, refl, sym, ap, ◌∙◌, subst, Bool, true, false, List, [], ◌∷◌, ◌++◌, map, arith,
}
use openontology.Prescription.{
  StrategicActionPlan, IsolationStep, has_irreversible, is_irreversible, is_critical,
}
use openontology.Safety.Invariants.{
  enforce_safety_invariants-target, enforce_safety_invariants-is_irreversible,
  enforce_safety_invariants_unattended,
}
use openontology.Safety.Sequence.{
  OnNodes, enforce_safety_invariants-OnNodes, enforce_safety_invariants-contiguous,
}
use openontology.Graph.Contract.{all-All}
use openontology.Graph.Payload.{EnrichedGraphPayload}
use openontology.Analysis.{InterceptorSettings, TopologyAnalysis}
use openontology.Analysis.Kernel.{analyse_topology}
use openontology.Engine.Agents.{
  TopologyIsolationVerdict, verdict_contract, plan_contract, contiguous_sequence, AgentError,
  validate_verdict, validate_plan,
}
use openontology.Engine.Invoke.{Emission, emitted, invoke}
use openontology.Engine.Turns.{Turns, accepted, exhausted, invoke-Turns, turn-ok}
use openontology.Engine.Loop.{
  AgentClient, VectorStore, guidelines, EngineOutcome, grounds, run_topology_isolator,
  run_action_planner, run_on, run,
}

-- What a returned answer satisfies, with the number of its attempt.
pub invoke-ok :
    {A : Type 0} (contract : A → Bool) (validate : A → Result AgentError NoneType)
    (emit : ℕ → Emission A) (max_ n : ℕ) (parsed : A)
    → invoke contract validate emit max_ ≡ ok (parsed, n)
    → (contract parsed ≡ true)
      × (validate parsed ≡ ok tt)
      × (0 < n)
      × (n ≤ max_)
      × (emit n ≡ emitted parsed)
invoke-ok {A} contract validate emit max_ n parsed h = go (invoke-Turns contract validate emit max_)
  where
    go :
        Turns contract validate emit max_ 1 AgentError.timed_out
          (invoke contract validate emit max_)
        → (contract parsed ≡ true)
          × (validate parsed ≡ ok tt)
          × (0 < n)
          × (n ≤ max_)
          × (emit n ≡ emitted parsed)
    go (accepted answer k done least most usable before) =
        let e : ◌≡◌ {A = A × ℕ} (answer, k) (parsed, n) = ok_inj (sym done ∙ h) in
        let (fits, valid, shown) = turn-ok contract validate emit (emit k) answer usable in
        let same : answer ≡ parsed = ap (λ (x : A × ℕ). x.0) e in
        let at : k ≡ n = ap (λ (x : A × ℕ). x.1) e in
        (
          subst (λ a. contract a ≡ true) same fits,
          subst (λ a. validate a ≡ ok tt) same valid,
          omega arith,
          omega arith,
          sym (ap emit at) ∙ shown ∙ ap emitted same,
        )
    go (exhausted error failed all_ last_) = cc

validate_verdict-ok :
    (analysis : TopologyAnalysis) (verdict : TopologyIsolationVerdict)
    → validate_verdict analysis verdict ≡ ok tt
    → All
        (λ node. member node analysis.known ≡ true)
        (verdict.root_cause_node ∷ (verdict.cascade_path ++ verdict.blast_radius))
unfolding validate_verdict
validate_verdict-ok analysis verdict h =
    (all-All (λ node. member node analysis.known)
        (verdict.root_cause_node ∷ (verdict.cascade_path ++ verdict.blast_radius))).0
      (ground arith)

All-of_map :
    (nodes : List Text) (steps : List IsolationStep)
    → All (λ node. member node nodes ≡ true) (map (λ step. step.target_component) steps)
    → OnNodes nodes steps
All-of_map nodes [] h = tt
All-of_map nodes (step ∷ steps) h = (h.0, All-of_map nodes steps h.1)

validate_plan-ok :
    (analysis : TopologyAnalysis) (plan : StrategicActionPlan)
    → validate_plan analysis plan ≡ ok tt
    → OnNodes analysis.known plan.isolation_steps
unfolding validate_plan
validate_plan-ok analysis plan h =
    All-of_map analysis.known plan.isolation_steps
      ((all-All (λ node. member node analysis.known)
          (plan.target_asset_id ∷ map (λ step. step.target_component) plan.isolation_steps)).0
        (ground arith)).1

plan_contract-contiguous :
    (plan : StrategicActionPlan)
    → plan_contract plan ≡ true
    → contiguous_sequence 1 plan.isolation_steps ≡ true
unfolding plan_contract
plan_contract-contiguous plan h = ground arith

module _ (settings : InterceptorSettings) where
  -- a command that only names nodes of the graph, in steps from 1 on, against the root cause
  pub record IsGrounded (out : EngineOutcome) : Type 0 where
    pub target : out.plan.target_asset_id ≡ out.verdict.root_cause_node
    pub target_known : member out.plan.target_asset_id out.analysis.known ≡ true
    pub steps_known : OnNodes out.analysis.known out.plan.isolation_steps
    pub contiguous : contiguous_sequence 1 out.plan.isolation_steps ≡ true
    pub path_known :
        All
          (λ node. member node out.analysis.known ≡ true)
          (out.verdict.cascade_path ++ out.verdict.blast_radius)
    pub permitted :
        is_irreversible out.plan.action_type ≡ true
        → (out.verdict.irreversible_permitted ≡ true)
          × (settings.min_graph_trust_for_irreversible ≤ out.verdict.crdt_assessment.graph_trust)
          × (is_critical out.plan.execution_priority ≡ true)
          × (out.plan.requires_human_authorization ≡ true)
    pub unattended :
        out.plan.requires_human_authorization ≡ false
        → (is_irreversible out.plan.action_type ≡ false)
          × (has_irreversible out.plan.isolation_steps ≡ false)
          × (is_critical out.plan.execution_priority ≡ false)
          × (settings.min_graph_trust_for_irreversible ≤ out.verdict.crdt_assessment.graph_trust)
    pub isolator_bounded :
        (0 < out.isolator_attempts) × (out.isolator_attempts ≤ settings.agent_max_attempts)
    pub planner_bounded :
        (0 < out.planner_attempts) × (out.planner_attempts ≤ settings.agent_max_attempts)

  module _ (client : AgentClient) (store : VectorStore) where
    run_on-IsGrounded :
        (payload : EnrichedGraphPayload) (analysis : TopologyAnalysis) (out : EngineOutcome)
        → run_on client store settings payload analysis ≡ ok out
        → (out.analysis ≡ analysis) × IsGrounded out
    unfolding run_on run_topology_isolator run_action_planner
    run_on-IsGrounded payload analysis out h =
        let ((verdict, first), isolated, rest) =
          >>=-eq-ok (run_topology_isolator client store settings analysis) _ h in
        let hits = guidelines client store settings payload verdict in
        let ((plan, second), planned, done) =
          >>=-eq-ok (run_action_planner client store settings analysis verdict hits) _ rest in
        let (fits, valid, some_, bounded, shown) =
          invoke-ok verdict_contract (validate_verdict analysis) (client.isolator analysis)
            settings.agent_max_attempts first verdict isolated in
        let (fits', valid', some', bounded', shown') =
          invoke-ok plan_contract (validate_plan analysis) (client.planner analysis verdict hits)
            settings.agent_max_attempts second plan planned in
        let nodes = validate_verdict-ok analysis verdict valid in
        let g = grounds settings analysis verdict in
        subst (λ o. (o.analysis ≡ analysis) × IsGrounded o) (ok_inj done)
          (
            refl,
            record {
              target = enforce_safety_invariants-target g plan;
              target_known =
                  subst (λ n. member n analysis.known ≡ true)
                    (sym (enforce_safety_invariants-target g plan)) nodes.0;
              steps_known =
                  enforce_safety_invariants-OnNodes g analysis.known nodes.0 plan
                    (validate_plan-ok analysis plan valid');
              contiguous =
                  enforce_safety_invariants-contiguous g plan (plan_contract-contiguous plan fits');
              path_known = nodes.1;
              permitted = enforce_safety_invariants-is_irreversible g plan;
              unattended = enforce_safety_invariants_unattended g plan;
              isolator_bounded = (some_, bounded);
              planner_bounded = (some', bounded');
            },
          )

    -- Whatever the agents answer, a command that the engine returns only names nodes of the
    -- localised graph: its target, which is the attributed root cause, each step's component and
    -- the cascade path. Its steps are numbered from 1, and it is irreversible only where the
    -- verdict permits that on a trusted graph, as a critical command that a human authorises.
    pub run-IsGrounded :
        (payload : EnrichedGraphPayload) (out : EngineOutcome)
        → run client store settings payload ≡ ok out
        → IsGrounded out
    unfolding run
    run-IsGrounded payload out h =
        (run_on-IsGrounded payload (analyse_topology payload settings) out h).1
