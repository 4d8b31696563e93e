-- ===== src/Engine/Reasoning.antt =====
-- `DeterministicReasoningClient` of services/graphrag-interceptor/graphrag_interceptor.py: both
-- agents as rules over the kernel's analysis and the retrieved manual chunks. `render` fills a
-- template of the manual with the names of the topology, and the rationale is left out: `wording`
-- gives both.
use openontology.Prelude.{
  decimal, ltb, if◌then◌else◌, length, take, is_empty, any, eq_string, eq_pair, Text, codes,
  eq_text, member, ℕ, ◌-◌, ◌*◌, ◌/◌, min, max, String, Bool, true, false, not, ◌&&◌, ◌||◌, Option,
  none, some, List, [], ◌∷◌, ◌++◌, map,
}
use openontology.Prescription.{
  ActionType, is_irreversible, is_critical, StepActor, IsolationStep, StrategicActionPlan,
  has_irreversible,
}
use openontology.Safety.{renumber, round_to_thousandths}
use openontology.Manual.{ProcedureStep, ManualChunk, same_action}
use openontology.Analysis.{TopologyAnalysis}
use openontology.Engine.Agents.{TopologyIsolationVerdict}

-- `_topology_verdict`
abbrev pub topology_verdict : TopologyAnalysis → TopologyIsolationVerdict
topology_verdict analysis = record {
  fault_classification = analysis.attribution.classification;
  root_cause_node = analysis.attribution.root_cause;
  cascade_path = analysis.attribution.cascade_path;
  localized_components = analysis.localized_components;
  blast_radius = analysis.downstream_impacts;
  severity_band = analysis.severity_band;
  crdt_assessment = analysis.crdt;
  containment_hint = analysis.recommended_action;
  irreversible_permitted = analysis.irreversible_permitted;
  confidence = analysis.confidence;
}

pub record Wording : Type 0 where
  pub render : Text → Text
  pub hold_instruction : Text
  pub rationale : Text

-- `find`
abbrev pub first_of : (ManualChunk → Bool) → List ManualChunk → Option ManualChunk
first_of p [] = none
first_of p (chunk ∷ chunks) = let rest = first_of p chunks in if p chunk then some chunk else rest

abbrev pub is_lead : ActionType → ManualChunk → Bool
is_lead action chunk =
    not chunk.supplementary
    && (is_empty chunk.applicable_actions || any (same_action action) chunk.applicable_actions)

abbrev pub supplement : String → ManualChunk → Bool
supplement tag chunk = chunk.supplementary && member (codes tag) chunk.tags

module _ (wording : Wording) (target : Text) where
  abbrev pub step_from : ManualChunk → ProcedureStep → IsolationStep
  step_from chunk step = record {
    sequence = 0;
    actor = step.actor;
    instruction = wording.render step.instruction;
    target_component = target;
    verification = wording.render step.verification;
    reversible = step.reversible;
    estimated_seconds = step.estimated_seconds;
    manual_reference = some (chunk.source ++ (codes " (" ++ (chunk.doc_id ++ codes ")")));
  }

  -- `steps_from`
  unfoldable pub steps_from : ManualChunk → List IsolationStep
  steps_from chunk = map (step_from chunk) chunk.procedure

  -- the steps and the citation of a chunk, where it was found and is wanted
  abbrev pub cite : Bool → Option ManualChunk → List IsolationStep × List Text
  cite wanted none = ([], [])
  cite true (some chunk) = (steps_from chunk, chunk.doc_id ∷ [])
  cite false (some chunk) = ([], [])

  abbrev pub safe_state : IsolationStep
  safe_state = record {
    sequence = 0;
    actor = StepActor.control_system;
    instruction = wording.hold_instruction;
    target_component = target;
    verification = codes "Setpoint reads safe-state and is latched against recovery.";
    reversible = true;
    estimated_seconds = 120;
    manual_reference = none;
  }

  -- the action itself, or the safe state where no procedure covers it
  abbrev pub lead_steps : Option ManualChunk → List IsolationStep × List Text
  lead_steps none = (safe_state ∷ [], [])
  lead_steps (some chunk) = (steps_from chunk, chunk.doc_id ∷ [])

-- `list(dict.fromkeys(cited))`, from what is kept so far
unfoldable pub unique_from : List Text → List Text → List Text
unique_from kept [] = kept
unique_from kept (x ∷ xs) = unique_from (if member x kept then kept else kept ++ x ∷ []) xs

abbrev pub is_empty_option : {A : Type 0} → Option A → Bool
is_empty_option none = true
is_empty_option (some a) = false

-- `blast_radius_protection`
abbrev pub join_texts : Text → List Text → Text
join_texts separator [] = []
join_texts separator (x ∷ []) = x
join_texts separator (x ∷ y ∷ ys) = x ++ (separator ++ join_texts separator (y ∷ ys))

unfoldable pub protection : (downstream cascade : List Text) → List Text
unfolding decimal
protection downstream cascade =
    map
      (λ node.
        node ++ codes " transferred to standby feed or reduced load before the isolation lands")
      (take 6 downstream)
    ++ ((if ltb 6 (length downstream)
          then (decimal (length downstream - 6)
              ++ codes " further downstream node(s) covered by the same transfer")
            ∷ []
          else [])
        ++ ((if is_empty downstream
              then codes "No downstream consumers are exposed by this action" ∷ []
              else [])
            ++ (if is_empty cascade
                then []
                else (codes "Cascade path "
                    ++ (join_texts (codes " -> ") cascade
                        ++ codes " re-walked after isolation to catch independent faults"))
                  ∷ [])))

-- `verdict.get("blast_radius") or topology["blast_radius"]`
abbrev pub or_topology : List Text → List Text → List Text
or_topology [] ys = ys
or_topology (x ∷ xs) ys = x ∷ xs

-- `assembled[:budget] + closure`, numbered
abbrev pub sequence_of :
    (max_steps : ℕ) (assembled closure : List IsolationStep) → List IsolationStep
sequence_of max_steps assembled closure =
    renumber 1 (take (max 1 (max_steps - length closure)) assembled ++ closure)

abbrev pub plan_confidence : (confidence : ℕ) (has_lead low_trust : Bool) → ℕ
plan_confidence confidence has_lead low_trust =
    let led = if has_lead then confidence else confidence * 7 / 10 in
    let trusted = if low_trust then led * 9 / 10 else led in
    round_to_thousandths (max 50000 (min 1000000 trusted))

-- what the supplementary procedures and the lead one give, in the order of the plan
pub record Parts : Type 0 where
  pub reconcile : List IsolationStep × List Text
  pub protect : List IsolationStep × List Text
  pub act : List IsolationStep × List Text
  pub prove : List IsolationStep × List Text
  pub close : List IsolationStep × List Text

module _ (wording : Wording) (max_steps : ℕ) (analysis : TopologyAnalysis)
    (verdict : TopologyIsolationVerdict) (guidelines : List ManualChunk) where
  abbrev pub low_trust : Bool
  low_trust = ltb verdict.crdt_assessment.graph_trust 750000

  abbrev pub downstream : List Text
  downstream = or_topology verdict.blast_radius analysis.downstream_impacts

  abbrev pub lead : Option ManualChunk
  lead = first_of (is_lead verdict.containment_hint) guidelines

  abbrev pub parts : Parts
  parts = record {
    reconcile =
        cite wording verdict.root_cause_node
          (verdict.crdt_assessment.contested
            || ltb 0 verdict.crdt_assessment.diverging
            || low_trust)
          (first_of (supplement "crdt") guidelines);
    protect =
        cite wording verdict.root_cause_node (not (is_empty downstream))
          (first_of (supplement "downstream") guidelines);
    act = lead_steps wording verdict.root_cause_node lead;
    prove =
        cite wording verdict.root_cause_node
          (not (same_action verdict.containment_hint ActionType.degrade_throttle))
          (first_of (supplement "loto") guidelines);
    close = cite wording verdict.root_cause_node true (first_of (supplement "closure") guidelines);
  }

  abbrev pub assembled : List IsolationStep
  assembled = parts.reconcile.0 ++ (parts.protect.0 ++ (parts.act.0 ++ parts.prove.0))

  abbrev pub cited : List Text
  cited =
      parts.reconcile.1 ++ (parts.protect.1 ++ (parts.act.1 ++ (parts.prove.1 ++ parts.close.1)))

  -- `_action_plan`
  unfoldable pub action_plan : StrategicActionPlan
  unfolding steps_from unique_from protection renumber
  action_plan =
      let steps = sequence_of max_steps assembled parts.close.0 in
      record {
        action_type = verdict.containment_hint;
        target_asset_id = verdict.root_cause_node;
        execution_priority = analysis.priority;
        isolation_steps = steps;
        blast_radius_protection = protection downstream verdict.cascade_path;
        requires_human_authorization =
            is_irreversible verdict.containment_hint
            || is_critical analysis.priority
            || low_trust
            || has_irreversible steps;
        rationale = wording.rationale;
        manual_references = unique_from [] cited;
        confidence = plan_confidence verdict.confidence (not (is_empty_option lead)) low_trust;
      }
