-- ===== src/Safety/Sequence.antt =====
-- What the corrections of `_enforce_safety_invariants` keep of the steps of a plan.
use openontology.Prelude.{
  ltb, Bool-cases, length, is_empty, keep, All, All-append, All-take, eq_string, eq_pair, Text,
  text_eq, text_eq_sound, eq_text, member, ℕ, ◌+◌, ◌≡◌, refl, sym, subst, inl, inr, Bool, true, not,
  ◌&&◌, ◌||◌, List, [], ◌∷◌, arith,
}
use openontology.Prescription.{
  StrategicActionPlan, IsolationStep, is_irreversible, is_critical, is_routine, has_supervisor,
}
use openontology.Engine.Agents.{contiguous_sequence}
use openontology.Safety.{
  Grounds, Draft, draft_of, untrusted, has_reason, or_hold, handover, renumber, corrected, redirect,
  downgrade, raise_irreversible, raise_routine, truncate, append_handover, force_authorization,
  enforce_safety_invariants,
}

pub renumber-contiguous :
    (first : ℕ) (steps : List IsolationStep)
    → contiguous_sequence first (renumber first steps) ≡ true
unfolding renumber contiguous_sequence
renumber-contiguous first [] = refl
renumber-contiguous first (step ∷ steps) = ground (arith, renumber-contiguous (first + 1) steps)

-- The steps that go out are numbered from 1 without a gap, if those of the planner are.
pub enforce_safety_invariants-contiguous :
    (g : Grounds) (plan : StrategicActionPlan)
    → contiguous_sequence 1 plan.isolation_steps ≡ true
    → contiguous_sequence 1 (enforce_safety_invariants g plan).0.isolation_steps ≡ true
unfolding enforce_safety_invariants
enforce_safety_invariants-contiguous g plan h =
    elim (Bool-cases (is_empty (corrected g plan).applied)) [
      | inl none_ ↦ rw none_ h
      | inr some_ ↦ rw some_ (renumber-contiguous 1 (corrected g plan).steps)
    ]

abbrev pub OnNodes : List Text → List IsolationStep → Type 0
OnNodes nodes = All (λ step. member step.target_component nodes ≡ true)

module _ (g : Grounds) (nodes : List Text)
    (root_known : member g.root_cause_node nodes ≡ true) where
  All-keep :
      (p : IsolationStep → Bool) (steps : List IsolationStep)
      → OnNodes nodes steps
      → OnNodes nodes (keep p steps)
  All-keep p [] h = tt
  All-keep p (step ∷ steps) h = elim (Bool-cases (p step)) [
    | inl hit ↦ rw (hit, keep) (h.0, All-keep p steps h.1)
    | inr miss ↦ rw (miss, keep) (All-keep p steps h.1)
  ]

  or_hold-OnNodes :
      (steps : List IsolationStep)
      → OnNodes nodes steps
      → OnNodes nodes (or_hold g.root_cause_node steps)
  or_hold-OnNodes [] h = (root_known, tt)
  or_hold-OnNodes (step ∷ steps) h = h

  renumber-OnNodes :
      (first : ℕ) (steps : List IsolationStep)
      → OnNodes nodes steps
      → OnNodes nodes (renumber first steps)
  unfolding renumber
  renumber-OnNodes first [] h = tt
  renumber-OnNodes first (step ∷ steps) h = (h.0, renumber-OnNodes (first + 1) steps h.1)

  -- a draft whose target is the root cause, and whose steps stay on the nodes
  abbrev Stays : Draft → Type 0
  Stays d = (d.target ≡ g.root_cause_node) × OnNodes nodes d.steps

  redirect-Stays : (d : Draft) → OnNodes nodes d.steps → Stays (redirect g d)
  unfolding redirect
  redirect-Stays d h = elim (Bool-cases (text_eq d.target g.root_cause_node)) [
    | inl same ↦ rw same (text_eq_sound _ _ same, h)
    | inr other ↦ rw other (refl, h)
  ]

  downgrade-Stays : (d : Draft) → Stays d → Stays (downgrade g d)
  unfolding downgrade
  downgrade-Stays d h =
      elim (Bool-cases
        (is_irreversible d.action && (not g.irreversible_permitted || untrusted g))) [
          | inl down ↦ rw down (h.0, or_hold-OnNodes _ (All-keep _ d.steps h.1))
          | inr kept ↦ rw kept h
        ]

  raise_irreversible-Stays : (d : Draft) → Stays d → Stays (raise_irreversible g d)
  unfolding raise_irreversible
  raise_irreversible-Stays d h =
      elim (Bool-cases (is_irreversible d.action && not (is_critical d.priority))) [
        | inl raised ↦ rw raised h
        | inr kept ↦ rw kept h
      ]

  raise_routine-Stays : (d : Draft) → Stays d → Stays (raise_routine g d)
  unfolding raise_routine
  raise_routine-Stays d h = elim (Bool-cases (is_critical g.priority && is_routine d.priority)) [
    | inl raised ↦ rw raised h
    | inr kept ↦ rw kept h
  ]

  truncate-Stays : (d : Draft) → Stays d → Stays (truncate g d)
  unfolding truncate
  truncate-Stays d h = elim (Bool-cases (ltb g.max_isolation_steps (length d.steps))) [
    | inl long ↦ rw long (h.0, All-take _ g.max_isolation_steps d.steps h.1)
    | inr short ↦ rw short h
  ]

  append_handover-Stays : (d : Draft) → Stays d → Stays (append_handover g d)
  unfolding append_handover
  append_handover-Stays d h =
      elim (Bool-cases (not (is_empty d.steps) && not (has_supervisor d.steps))) [
        | inl appended ↦ rw appended (
          h.0,
          All-append (λ step. member step.target_component nodes ≡ true) d.steps
              (handover (length d.steps + 1) d.target ∷ []) h.1
              (subst (λ t. member t nodes ≡ true) (sym h.0) root_known, tt),
        )
        | inr owned ↦ rw owned h
      ]

  force_authorization-Stays : (d : Draft) → Stays d → Stays (force_authorization g d)
  unfolding force_authorization
  force_authorization-Stays d h = elim (Bool-cases (not d.authorization && has_reason g d)) [
    | inl forced ↦ rw forced h
    | inr free ↦ rw free h
  ]

  -- Every step that goes out is on a node of the graph, if the root cause and the planner's steps
  -- are.
  pub enforce_safety_invariants-OnNodes :
      (plan : StrategicActionPlan)
      → OnNodes nodes plan.isolation_steps
      → OnNodes nodes (enforce_safety_invariants g plan).0.isolation_steps
  unfolding enforce_safety_invariants
  enforce_safety_invariants-OnNodes plan h =
      let stays = force_authorization-Stays _ (
        append_handover-Stays _ (
          truncate-Stays _ (
            raise_routine-Stays _ (
              raise_irreversible-Stays _
                (downgrade-Stays _ (redirect-Stays (draft_of plan) h)))))) in
      elim (Bool-cases (is_empty (corrected g plan).applied)) [
        | inl none_ ↦ rw none_ h
        | inr some_ ↦ rw some_ (renumber-OnNodes 1 (corrected g plan).steps stays.1)
      ]
