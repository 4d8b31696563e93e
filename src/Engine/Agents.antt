-- ===== src/Engine/Agents.antt =====
-- The answers of the two agents of services/graphrag-interceptor/graphrag_interceptor.py, and what
-- the engine rejects: the contracts of `TopologyIsolationVerdict` and `StrategicActionPlan`, and
-- `_validate_verdict` and `_validate_plan`. The texts of a verdict are left out.
use openontology.Prelude.{
  NoneType, leb, ◌==◌, if◌then◌else◌, length, is_empty, all, Result, ok, raise, eq_string, eq_pair,
  Text, eq_text, ℕ, ◌+◌, Bool, true, not, ◌&&◌, none, some, List, [], ◌∷◌, ◌++◌, map,
}
use openontology.Topology.{Band, CrdtAssessment}
use openontology.Prescription.{ActionType, IsolationStep, StrategicActionPlan}
use openontology.Graph.Payload.{all_within}
use openontology.Analysis.{FaultClassification, is_cascade, TopologyAnalysis}

-- `TopologyIsolationVerdict`
pub record TopologyIsolationVerdict : Type 0 where
  pub fault_classification : FaultClassification
  pub root_cause_node : Text
  pub cascade_path : List Text
  pub localized_components : List Text
  pub blast_radius : List Text
  pub severity_band : Band
  pub crdt_assessment : CrdtAssessment
  pub containment_hint : ActionType
  pub irreversible_permitted : Bool
  pub confidence : ℕ

abbrev pub sized : {A : Type 0} → (least most : ℕ) → List A → Bool
sized least most xs = leb least (length xs) && leb (length xs) most

-- the constraints of the verdict's fields
unfoldable pub verdict_contract : TopologyIsolationVerdict → Bool
verdict_contract verdict =
    sized 1 128 verdict.root_cause_node
    && leb (length verdict.cascade_path) 64
    && leb (length verdict.localized_components) 64
    && leb (length verdict.blast_radius) 128
    && leb verdict.crdt_assessment.graph_trust 1000000
    && leb verdict.confidence 1000000

-- `actual == list(range(first, first + len(steps)))`
unfoldable pub contiguous_sequence : ℕ → List IsolationStep → Bool
contiguous_sequence first [] = true
contiguous_sequence first (step ∷ steps) =
    (step.sequence == first) && contiguous_sequence (first + 1) steps

-- the constraints of a step's fields
unfoldable pub step_contract : IsolationStep → Bool
step_contract step =
    leb 1 step.sequence
    && sized 8 600 step.instruction
    && sized 1 128 step.target_component
    && sized 4 400 step.verification
    && leb step.estimated_seconds 86400
    && elim step.manual_reference [ none ↦ true | some reference ↦ leb (length reference) 160 ]

-- the constraints of the plan's fields, and `_contiguous_sequence`
unfoldable pub plan_contract : StrategicActionPlan → Bool
unfolding step_contract contiguous_sequence
plan_contract plan =
    sized 1 128 plan.target_asset_id
    && sized 1 40 plan.isolation_steps
    && all step_contract plan.isolation_steps
    && leb (length plan.blast_radius_protection) 64
    && sized 1 2000 plan.rationale
    && leb (length plan.manual_references) 32
    && leb plan.confidence 1000000
    && contiguous_sequence 1 plan.isolation_steps

-- an `AgentExecutionError`, without its wording
pub data AgentError : Type 0 where
  outside_graph no_cascade_path timed_out invalid_answer transport_failure : AgentError

-- `_validate_verdict`
unfoldable pub validate_verdict :
    TopologyAnalysis → TopologyIsolationVerdict → Result AgentError NoneType
validate_verdict analysis verdict =
    if not (
      all_within analysis.known
        (verdict.root_cause_node ∷ (verdict.cascade_path ++ verdict.blast_radius)))
    then raise outside_graph
    else if is_cascade verdict.fault_classification && is_empty verdict.cascade_path
    then raise no_cascade_path
    else ok tt

-- `_validate_plan`
unfoldable pub validate_plan : TopologyAnalysis → StrategicActionPlan → Result AgentError NoneType
validate_plan analysis plan =
    if not (
      all_within analysis.known
        (plan.target_asset_id ∷ map (λ step. step.target_component) plan.isolation_steps))
    then raise outside_graph
    else ok tt
