-- ===== src/Tests/Engine.antt =====
-- Runs of the topology kernel and of the engine.
use openontology.Prelude.{
  ◌==◌, if◌then◌else◌, length, All, ok, raise, eq_string, eq_pair, Text, codes, eq_text, ℕ, ◌+◌,
  ◌≤◌, max, ◌≡◌, refl, ap, ◌↔◌, true, List, [], ◌∷◌, ◌++◌, map, arith,
}
use openontology.Topology.{CrdtPresence}
use openontology.Prescription.{
  emergency_shutdown, StrategicActionPlan, IsolationStep, is_irreversible,
}
use openontology.OrderedDict.{Entries}
use openontology.Graph.Nodes.{validate_edges}
use openontology.Graph.Telemetry.{attributed_channels}
use openontology.Graph.Payload.{cross_check_topology}
use openontology.Graph.Contract.{
  IsLocal, AreNodes, validate_edges-AreNodes, cross_check_topology-ok_iff,
}
use openontology.Analysis.{TopologyAnalysis}
use openontology.Analysis.Kernel.{analyse_topology, is_faulting}
use openontology.Analysis.Attribution.{Attributes, analyse_topology-Attributes}
use openontology.Analysis.Decisions.{HardBreach, analyse_topology-shutdown_iff}
use openontology.Safety.{renumber, enforce_safety_invariants}
use openontology.Engine.Agents.{
  TopologyIsolationVerdict, verdict_contract, plan_contract, contiguous_sequence, timed_out,
  invalid_answer, validate_verdict,
}
use openontology.Engine.Invoke.{Emission, emitted, timeout, invoke}
use openontology.Engine.Turns.{Turns, invoke-Turns}
use openontology.Engine.Loop.{AgentClient, EngineOutcome, guidelines, outcome, run}
use openontology.Engine.Grounded.{IsGrounded, run-IsGrounded}
use openontology.Engine.Reasoning.{topology_verdict, action_plan, parts}
use openontology.Engine.Planned.{action_plan-sequence}
use openontology.Engine.Deterministic.{deterministic, run-deterministic, run-shutdown}
use openontology.Engine.Overflow.{run-too_long}
use openontology.Tests.Graph.{
  pump, valve, tank, hot, fed, long, settings, trip, close_out, vector_store, wording, chain, far,
  chain-Distinct,
}

abbrev pub analysis : TopologyAnalysis
analysis = analyse_topology hot settings

abbrev pub client : AgentClient
client = deterministic wording 12

abbrev pub verdict : TopologyIsolationVerdict
verdict = topology_verdict analysis

abbrev pub drafted : StrategicActionPlan
drafted =
    action_plan wording 12 analysis verdict
      (map (λ hit. hit.0) (guidelines client vector_store settings hot verdict))

-- a command that the engine issues for the hot pump
abbrev pub issued : EngineOutcome
issued =
    outcome client vector_store settings analysis
      (guidelines client vector_store settings hot verdict) (verdict, 1) (drafted, 1)

verdict_fits : verdict_contract verdict ≡ true
unfolding verdict_contract analyse_topology
verdict_fits = refl

plan_fits : plan_contract drafted ≡ true
unfolding plan_contract action_plan analyse_topology guidelines
plan_fits = refl

pub returned : run client vector_store settings hot ≡ ok issued
returned =
    run-deterministic wording vector_store settings hot (refl, (refl, tt)) (omega arith)
      verdict_fits plan_fits

run-IsGrounded_example : IsGrounded settings issued
run-IsGrounded_example = run-IsGrounded settings client vector_store hot issued returned

trips : issued.plan.action_type ≡ emergency_shutdown
unfolding action_plan analyse_topology guidelines enforce_safety_invariants
trips = refl

run-shutdown_example :
    HardBreach hot settings
    × (650000 ≤ analysis.crdt.graph_trust)
    × (analysis.crdt.presence ≡ CrdtPresence.live)
run-shutdown_example =
    run-shutdown wording vector_store settings hot issued returned (ap is_irreversible trips)

analyse_topology-shutdown_iff_example : (analysis.recommended_action ≡ emergency_shutdown) ↔ (
    HardBreach hot settings
    × (650000 ≤ analysis.crdt.graph_trust)
    × (analysis.crdt.presence ≡ CrdtPresence.live))
analyse_topology-shutdown_iff_example = analyse_topology-shutdown_iff hot settings

-- The tank in alarm is the origin of what the pump shows.
fed_cascade : (analyse_topology fed settings).attribution.cascade_path ≡ tank ∷ valve ∷ pump ∷ []
unfolding analyse_topology
fed_cascade = refl

analyse_topology-Attributes_example : Attributes fed (analyse_topology fed settings).attribution
analyse_topology-Attributes_example = analyse_topology-Attributes fed settings (refl, (refl, tt))

far_faulting : is_faulting long far ≡ true
unfolding is_faulting
far_faulting = refl

run-too_long_example : run client vector_store settings long ≡ raise invalid_answer
run-too_long_example =
    run-too_long wording vector_store settings long (chain 63) far (chain-Distinct 63) refl
      far_faulting refl (omega arith)

-- an isolator that answers at the second attempt
abbrev slow : ℕ → Emission TopologyIsolationVerdict
slow n = if n == 1 then timeout else emitted verdict

invoke-Turns_example :
    Turns verdict_contract
      (validate_verdict analysis)
      slow
      3
      1
      timed_out
      (invoke verdict_contract (validate_verdict analysis) slow 3)
invoke-Turns_example = invoke-Turns verdict_contract (validate_verdict analysis) slow 3

action_plan-sequence_example :
    let closure = (parts wording 12 analysis verdict (trip ∷ close_out ∷ [])).close.0 in
    let p = action_plan wording 12 analysis verdict (trip ∷ close_out ∷ []) in
    (contiguous_sequence 1 p.isolation_steps ≡ true)
    × All (λ step. step.target_component ≡ verdict.root_cause_node) p.isolation_steps
    × (length p.isolation_steps ≤ max 12 (1 + length closure))
    × ((middle : List IsolationStep) × (p.isolation_steps ≡ renumber 1 (middle ++ closure)))
action_plan-sequence_example =
    action_plan-sequence wording 12 analysis verdict (trip ∷ close_out ∷ [])

abbrev readings : Entries Text ℕ
readings = (codes "torque_nm", 330000000) ∷ (codes "vibration_index", 10000000) ∷ []

cross_check_topology-ok_iff_example : (cross_check_topology fed ≡ ok fed) ↔ IsLocal fed
cross_check_topology-ok_iff_example = cross_check_topology-ok_iff fed

fed_accepted : cross_check_topology fed ≡ ok fed
unfolding cross_check_topology attributed_channels
fed_accepted = refl

edges_valid :
    validate_edges (codes " valve-9 " ∷ codes "tank-2" ∷ codes "valve-9" ∷ [])
    ≡ ok (valve ∷ tank ∷ [])
unfolding validate_edges
edges_valid = refl

validate_edges-AreNodes_example : AreNodes (valve ∷ tank ∷ [])
validate_edges-AreNodes_example =
    validate_edges-AreNodes (codes " valve-9 " ∷ codes "tank-2" ∷ codes "valve-9" ∷ [])
      (valve ∷ tank ∷ []) edges_valid
