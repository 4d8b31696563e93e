-- ===== src/Safety/Invariants.antt =====
-- What every plan satisfies after `_enforce_safety_invariants`, whatever the planner returned.
use openontology.Prelude.{
  ltb, length, eq_string, eq_pair, eq_text, suc, ◌≤◌, ◌≡◌, sym, ap, ◌∙◌, true, false, not, ◌&&◌,
  arith,
}
use openontology.Prescription.{
  StrategicActionPlan, is_irreversible, is_critical, is_routine, has_irreversible, has_supervisor,
}
use openontology.Safety.{Grounds, corrected, enforce_safety_invariants}
use openontology.Safety.Corrected.{
  updated-Agrees, corrected-IsCorrected, only_trusted, only_urgent, only_authorized, no_reason,
  owned_count,
}

module _ (g : Grounds) where
  -- Every plan goes out against the attributed root cause.
  pub enforce_safety_invariants-target :
      (plan : StrategicActionPlan)
      → (enforce_safety_invariants g plan).0.target_asset_id ≡ g.root_cause_node
  unfolding enforce_safety_invariants
  enforce_safety_invariants-target plan =
      let facts = corrected-IsCorrected g plan in
      (updated-Agrees g plan (corrected g plan) facts.recorded).target ∙ facts.target

  -- A plan that goes out with an irreversible action is one that the verdict permits, on a graph
  -- trusted at least as much as the threshold; it is critical, and a human must authorise it.
  pub enforce_safety_invariants-is_irreversible :
      (plan : StrategicActionPlan)
      → is_irreversible (enforce_safety_invariants g plan).0.action_type ≡ true
      → (g.irreversible_permitted ≡ true)
        × (g.min_graph_trust_for_irreversible ≤ g.graph_trust)
        × (is_critical (enforce_safety_invariants g plan).0.execution_priority ≡ true)
        × ((enforce_safety_invariants g plan).0.requires_human_authorization ≡ true)
  unfolding enforce_safety_invariants
  enforce_safety_invariants-is_irreversible plan irreversible =
      let facts = corrected-IsCorrected g plan in
      let same = updated-Agrees g plan (corrected g plan) facts.recorded in
      let irr = sym (ap is_irreversible same.action) ∙ irreversible in
      let (permitted, trusted) = only_trusted g (corrected g plan) irr facts.trusted in
      (
        permitted,
        trusted,
        ap is_critical same.priority ∙ only_urgent g (corrected g plan) irr facts.urgent,
        same.authorization ∙ only_authorized g (corrected g plan) irr facts.authorized,
      )

  -- A plan that goes out without the need of a human authorisation does nothing irreversible, in
  -- its action or in any of its steps; it is not critical; and the graph is trusted at least as
  -- much as the threshold.
  pub enforce_safety_invariants_unattended :
      (plan : StrategicActionPlan)
      → (enforce_safety_invariants g plan).0.requires_human_authorization ≡ false
      → (is_irreversible (enforce_safety_invariants g plan).0.action_type ≡ false)
        × (has_irreversible (enforce_safety_invariants g plan).0.isolation_steps ≡ false)
        × (is_critical (enforce_safety_invariants g plan).0.execution_priority ≡ false)
        × (g.min_graph_trust_for_irreversible ≤ g.graph_trust)
  unfolding enforce_safety_invariants
  enforce_safety_invariants_unattended plan unattended =
      let facts = corrected-IsCorrected g plan in
      let same = updated-Agrees g plan (corrected g plan) facts.recorded in
      let (action, steps, priority, trusted) =
        no_reason g (corrected g plan) (sym same.authorization ∙ unattended) facts.authorized in
      (
        ap is_irreversible same.action ∙ action,
        same.irreversible ∙ steps,
        ap is_critical same.priority ∙ priority,
        trusted,
      )

  -- The sequence that goes out has at most one step more than the limit, and unless it is empty
  -- one of its steps is a supervisor's; and an event that the kernel scored critical is not
  -- planned as routine.
  pub enforce_safety_invariants-steps :
      (plan : StrategicActionPlan)
      → (length (enforce_safety_invariants g plan).0.isolation_steps ≤ suc g.max_isolation_steps)
        × ((ltb 0 (length (enforce_safety_invariants g plan).0.isolation_steps)
              && not (has_supervisor (enforce_safety_invariants g plan).0.isolation_steps))
            ≡ false)
        × ((is_critical g.priority
              && is_routine (enforce_safety_invariants g plan).0.execution_priority)
            ≡ false)
  unfolding enforce_safety_invariants
  enforce_safety_invariants-steps plan =
      let facts = corrected-IsCorrected g plan in
      let same = updated-Agrees g plan (corrected g plan) facts.recorded in
      (
        omega (arith, same.count, facts.count),
        rw (same.count, same.supervisor) (owned_count g (corrected g plan).steps facts.owned),
        rw same.priority facts.severe,
      )
