-- ===== src/Safety/Downgrades.antt =====
-- What `_enforce_safety_invariants` may do to the action of a plan.
use openontology.Prelude.{
  Bool-cases, eq_string, eq_pair, text_eq, eq_text, ◌≡◌, ◌∙◌, ◌⊎◌, inl, inr, not, ◌&&◌, ◌||◌,
}
use openontology.Prescription.{degrade_throttle, StrategicActionPlan, is_irreversible}
use openontology.Safety.{
  Grounds, Draft, draft_of, untrusted, corrected, redirect, downgrade, raise_irreversible,
  raise_routine, truncate, append_handover, enforce_safety_invariants,
}
use openontology.Safety.Stages.{
  raise_irreversible-priority, raise_routine-priority, truncate-length, append_handover-supervisor,
  force_authorization-authorization,
}
use openontology.Safety.Corrected.{updated-Agrees, corrected-IsCorrected}

module _ (g : Grounds) where
  redirect-action : (d : Draft) → (redirect g d).action ≡ d.action
  unfolding redirect
  redirect-action d = elim (Bool-cases (text_eq d.target g.root_cause_node)) [
    | inl same ↦ rw (same, redirect)
    | inr other ↦ rw (other, redirect)
  ]

  downgrade_only :
      (d : Draft)
      → ((downgrade g d).action ≡ d.action) ⊎ ((downgrade g d).action ≡ degrade_throttle)
  unfolding downgrade
  downgrade_only d =
      elim (Bool-cases
        (is_irreversible d.action && (not g.irreversible_permitted || untrusted g))) [
          | inl unsafe ↦ inr (rw (unsafe, downgrade))
          | inr safe ↦ inl (rw (safe, downgrade))
        ]

  corrected-action :
      (plan : StrategicActionPlan)
      → (corrected g plan).action ≡ (downgrade g (redirect g (draft_of plan))).action
  corrected-action plan =
      let b = downgrade g (redirect g (draft_of plan)) in
      let c = raise_irreversible g b in
      let e = raise_routine g c in
      let f = truncate g e in
      let h = append_handover g f in
      (force_authorization-authorization g h).1
      ∙ (append_handover-supervisor g f).1
      ∙ (truncate-length g e).1
      ∙ (raise_routine-priority g c).1
      ∙ (raise_irreversible-priority g b).1

  -- The corrections leave the planner's action, or downgrade it.
  pub enforce_safety_invariants-action :
      (plan : StrategicActionPlan)
      → ((enforce_safety_invariants g plan).0.action_type ≡ plan.action_type)
        ⊎ ((enforce_safety_invariants g plan).0.action_type ≡ degrade_throttle)
  unfolding enforce_safety_invariants
  enforce_safety_invariants-action plan =
      let facts = corrected-IsCorrected g plan in
      let e =
        (updated-Agrees g plan (corrected g plan) facts.recorded).action ∙ corrected-action plan in
      elim (downgrade_only (redirect g (draft_of plan))) [
        | inl kept ↦ inl (e ∙ kept ∙ redirect-action (draft_of plan))
        | inr down ↦ inr (e ∙ down)
      ]
