-- ===== src/Engine/Deterministic.antt =====
-- The engine with the deterministic agents.
use openontology.Prelude.{
  NoneType, ok_inj, >>=-eq-ok, Result, ok, eq_string, eq_pair, eq_text, ℕ, zero, suc, ◌≤◌, ◌<◌, ◌≡◌,
  refl, sym, ap, ◌∙◌, inl, inr, Bool, true, List, map,
}
use openontology.Topology.{CrdtPresence}
use openontology.Prescription.{ActionType, is_irreversible, emergency_shutdown, StrategicActionPlan}
use openontology.Safety.{enforce_safety_invariants}
use openontology.Safety.Downgrades.{enforce_safety_invariants-action}
use openontology.Graph.Nodes.{Distinct}
use openontology.Graph.Payload.{EnrichedGraphPayload}
use openontology.Manual.{ManualChunk}
use openontology.Analysis.{InterceptorSettings, TopologyAnalysis}
use openontology.Analysis.Kernel.{analyse_topology}
use openontology.Analysis.Decisions.{HardBreach, analyse_topology-shutdown_iff}
use openontology.Engine.Agents.{
  TopologyIsolationVerdict, verdict_contract, plan_contract, AgentError, validate_verdict,
  validate_plan,
}
use openontology.Engine.Invoke.{Emission, emitted, invoke}
use openontology.Engine.Grounded.{invoke-ok}
use openontology.Engine.Cited.{topology_verdict-valid, root_known}
use openontology.Engine.Planned.{action_plan-valid}
use openontology.Engine.Reasoning.{Wording, topology_verdict, action_plan}
use openontology.Engine.Loop.{
  AgentClient, VectorStore, guidelines, EngineOutcome, grounds, outcome, run_topology_isolator,
  run_action_planner, run_on, run,
}

-- `DeterministicReasoningClient.emit`
abbrev pub deterministic : Wording → (max_steps : ℕ) → AgentClient
deterministic wording max_steps = record {
  isolator = λ analysis attempt. emitted (topology_verdict analysis);
  planner = λ analysis verdict hits attempt.
      emitted (action_plan wording max_steps analysis verdict (map (λ hit. hit.0) hits));
}

invoke-constant :
    {A : Type 0} (contract : A → Bool) (validate : A → Result AgentError NoneType) (parsed : A)
    (max_ : ℕ)
    → 0 < max_
    → contract parsed ≡ true
    → validate parsed ≡ ok tt
    → invoke contract validate (λ attempt. emitted parsed) max_ ≡ ok (parsed, 1)
unfolding invoke
invoke-constant contract validate parsed zero h fits valid = elim h [ ]
invoke-constant contract validate parsed (suc left) h fits valid = rw (fits, valid) refl

emitted_inj : {A : Type 0} {a b : A} → ◌≡◌ {A = Emission A} (emitted a) (emitted b) → a ≡ b
emitted_inj h = cc

only_shutdown : (a : ActionType) → is_irreversible a ≡ true → a ≡ emergency_shutdown
only_shutdown emergency_shutdown h = refl
only_shutdown ActionType.isolate_valve h = cc
only_shutdown ActionType.degrade_throttle h = cc

module _ (wording : Wording) (store : VectorStore) (settings : InterceptorSettings)
    (payload : EnrichedGraphPayload) where
  abbrev client : AgentClient
  client = deterministic wording settings.max_isolation_steps

  abbrev analysis : TopologyAnalysis
  analysis = analyse_topology payload settings

  abbrev verdict : TopologyIsolationVerdict
  verdict = topology_verdict analysis

  abbrev chunks : TopologyIsolationVerdict → List ManualChunk
  chunks v = map (λ hit. hit.0) (guidelines client store settings payload v)

  abbrev drafted : StrategicActionPlan
  drafted = action_plan wording settings.max_isolation_steps analysis verdict (chunks verdict)

  pub run-deterministic :
      Distinct payload.ontology_context.upstream_dependencies
      → 0 < settings.agent_max_attempts
      → verdict_contract verdict ≡ true
      → plan_contract drafted ≡ true
      → run client store settings payload
        ≡ ok (
            outcome client store settings analysis
              (guidelines client store settings payload verdict)
              (verdict, 1)
              (drafted, 1))
  unfolding run run_on run_topology_isolator run_action_planner
  run-deterministic d h fits fits' =
      rw
        (invoke-constant verdict_contract (validate_verdict analysis) verdict
          settings.agent_max_attempts h fits (topology_verdict-valid payload settings d))
        (rw
          (invoke-constant plan_contract (validate_plan analysis) drafted
            settings.agent_max_attempts h fits'
            (action_plan-valid wording settings.max_isolation_steps analysis verdict
              (chunks verdict) (root_known payload settings d)))
          refl)

  -- With the deterministic agents, an emergency shutdown only goes out for a local reading at or
  -- above the hard limit of a physical channel, on a vertex that resolves as live and a graph
  -- trusted at least as much as the threshold.
  pub run-shutdown :
      (out : EngineOutcome)
      → run client store settings payload ≡ ok out
      → is_irreversible out.plan.action_type ≡ true
      → HardBreach payload settings
        × (settings.min_graph_trust_for_irreversible ≤ analysis.crdt.graph_trust)
        × (analysis.crdt.presence ≡ CrdtPresence.live)
  unfolding run run_on run_topology_isolator run_action_planner
  run-shutdown out h irreversible =
      let ((v, first), isolated, rest) =
        >>=-eq-ok (run_topology_isolator client store settings analysis) _ h in
      let hits = guidelines client store settings payload v in
      let ((p, second), planned, done) =
        >>=-eq-ok (run_action_planner client store settings analysis v hits) _ rest in
      let shown : emitted verdict ≡ emitted v =
        (invoke-ok verdict_contract (validate_verdict analysis) (client.isolator analysis)
          settings.agent_max_attempts first v isolated).4 in
      let shown' : emitted (action_plan wording settings.max_isolation_steps analysis v (chunks v))
          ≡ emitted p =
        (invoke-ok plan_contract (validate_plan analysis) (client.planner analysis v hits)
          settings.agent_max_attempts second p planned).4 in
      let e : (enforce_safety_invariants (grounds settings analysis v) p).0.action_type
          ≡ out.plan.action_type =
        ap (λ (o : EngineOutcome). o.plan.action_type) (ok_inj done) in
      let hint : p.action_type ≡ analysis.recommended_action =
        unfold action_plan in
        sym (ap (λ (x : StrategicActionPlan). x.action_type) (emitted_inj shown'))
        ∙ sym (ap (λ (x : TopologyIsolationVerdict). x.containment_hint) (emitted_inj shown)) in
      elim (enforce_safety_invariants-action (grounds settings analysis v) p) [
        | inl kept ↦ (analyse_topology-shutdown_iff payload settings).0 (
            only_shutdown analysis.recommended_action
              (ap is_irreversible (sym hint ∙ sym kept ∙ e) ∙ irreversible))
        | inr down ↦ absurd (let f = ap is_irreversible (sym down ∙ e) ∙ irreversible in cc)
      ]
