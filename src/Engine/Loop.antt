-- ===== src/Engine/Loop.antt =====
-- `MultiAgentGraphEngine.run` of services/graphrag-interceptor/graphrag_interceptor.py.
use openontology.Prelude.{Result, ok, ◌>>=◌, eq_string, eq_pair, eq_text, strip, upper, ℕ, List}
use openontology.Prescription.{StrategicActionPlan}
use openontology.Safety.{Grounds, Guardrail, enforce_safety_invariants}
use openontology.Graph.Payload.{EnrichedGraphPayload}
use openontology.Analysis.{InterceptorSettings, TopologyAnalysis}
use openontology.Analysis.Kernel.{analyse_topology}
use openontology.Manual.{ManualChunk}
use openontology.Manual.Store.{Hit, retrieve_for}
use openontology.Engine.Agents.{
  TopologyIsolationVerdict, verdict_contract, plan_contract, AgentError, validate_verdict,
  validate_plan,
}
use openontology.Engine.Invoke.{Emission, invoke}

-- `StructuredLLMClient`: the answers of the two agents, by the number of the attempt
pub record AgentClient : Type 0 where
  pub isolator : TopologyAnalysis → ℕ → Emission TopologyIsolationVerdict
  pub planner :
      TopologyAnalysis → TopologyIsolationVerdict → List Hit → ℕ → Emission StrategicActionPlan

-- `MaintenanceManualVectorStore`: the corpus, and how similar its chunks are to the two queries
pub record VectorStore : Type 0 where
  pub corpus : List ManualChunk
  pub primary_similarity : EnrichedGraphPayload → TopologyIsolationVerdict → ManualChunk → ℕ
  pub secondary_similarity : TopologyIsolationVerdict → ManualChunk → ℕ

-- `EngineOutcome`; of the trace, the attempts of the two agents
pub record EngineOutcome : Type 0 where
  pub analysis : TopologyAnalysis
  pub verdict : TopologyIsolationVerdict
  pub plan : StrategicActionPlan
  pub guidelines : List Hit
  pub guardrails : List Guardrail
  pub isolator_attempts : ℕ
  pub planner_attempts : ℕ

-- what `_enforce_safety_invariants` reads
abbrev pub grounds : InterceptorSettings → TopologyAnalysis → TopologyIsolationVerdict → Grounds
grounds settings analysis verdict = record {
  max_isolation_steps = settings.max_isolation_steps;
  min_graph_trust_for_irreversible = settings.min_graph_trust_for_irreversible;
  root_cause_node = verdict.root_cause_node;
  irreversible_permitted = verdict.irreversible_permitted;
  graph_trust = verdict.crdt_assessment.graph_trust;
  priority = analysis.priority;
}

module _ (client : AgentClient) (store : VectorStore) (settings : InterceptorSettings) where
  -- `_retrieve`
  unfoldable pub guidelines : EnrichedGraphPayload → TopologyIsolationVerdict → List Hit
  unfolding retrieve_for strip upper
  guidelines payload verdict =
      retrieve_for (store.primary_similarity payload verdict) (store.secondary_similarity verdict)
        store.corpus settings.retrieval_top_k payload.asset_metadata.model_number
        verdict.containment_hint verdict.fault_classification

  abbrev pub outcome :
      TopologyAnalysis
      → List Hit
      → TopologyIsolationVerdict × ℕ
      → StrategicActionPlan × ℕ
      → EngineOutcome
  outcome analysis hits (verdict, first) (plan, second) =
      let corrected = enforce_safety_invariants (grounds settings analysis verdict) plan in
      record {
        analysis = analysis;
        verdict = verdict;
        plan = corrected.0;
        guidelines = hits;
        guardrails = corrected.1;
        isolator_attempts = first;
        planner_attempts = second;
      }

  -- `_run_topology_isolator`
  unfoldable pub run_topology_isolator :
      TopologyAnalysis → Result AgentError (TopologyIsolationVerdict × ℕ)
  unfolding invoke verdict_contract validate_verdict
  run_topology_isolator analysis =
      invoke verdict_contract (validate_verdict analysis) (client.isolator analysis)
        settings.agent_max_attempts

  -- `_run_action_planner`
  unfoldable pub run_action_planner :
      TopologyAnalysis
      → TopologyIsolationVerdict
      → List Hit
      → Result AgentError (StrategicActionPlan × ℕ)
  unfolding invoke plan_contract validate_plan
  run_action_planner analysis verdict hits =
      invoke plan_contract (validate_plan analysis) (client.planner analysis verdict hits)
        settings.agent_max_attempts

  -- `run`, after the analysis
  unfoldable pub run_on : EnrichedGraphPayload → TopologyAnalysis → Result AgentError EngineOutcome
  unfolding run_topology_isolator run_action_planner guidelines
  run_on payload analysis = run_topology_isolator analysis >>= λ isolated.
      run_action_planner analysis isolated.0 (guidelines payload isolated.0) >>= λ planned.
      ok (outcome analysis (guidelines payload isolated.0) isolated planned)

  -- `run`
  unfoldable pub run : EnrichedGraphPayload → Result AgentError EngineOutcome
  unfolding run_on analyse_topology
  run payload = run_on payload (analyse_topology payload settings)
