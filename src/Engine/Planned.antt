-- ===== src/Engine/Planned.antt =====
-- The plan of the deterministic planner.
use openontology.Prelude.{
  length, take, all, length-append, length-take, All, All-append, All-take, ok, eq_string, eq_pair,
  Text, eq_text, member, ℕ, suc, ◌+◌, ◌-◌, ◌≤◌, max, ◌≡◌, refl, sym, ap, subst, Bool, true, false,
  Option, none, some, List, [], ◌∷◌, ◌++◌, map, arith,
}
use openontology.Prescription.{IsolationStep, StrategicActionPlan}
use openontology.Safety.{renumber}
use openontology.Safety.Sequence.{renumber-contiguous}
use openontology.Graph.Contract.{all-All}
use openontology.Manual.{ProcedureStep, ManualChunk}
use openontology.Analysis.{TopologyAnalysis}
use openontology.Engine.Agents.{TopologyIsolationVerdict, contiguous_sequence, validate_plan}
use openontology.Engine.Reasoning.{
  Wording, step_from, steps_from, cite, lead_steps, parts, assembled, action_plan, first_of,
  supplement,
}

-- steps that work on one component
abbrev On : Text → List IsolationStep → Type 0
On target = All (λ step. step.target_component ≡ target)

module _ (wording : Wording) (target : Text) where
  map-On :
      (chunk : ManualChunk) (procedure : List ProcedureStep)
      → On target (map (step_from wording target chunk) procedure)
  map-On chunk [] = tt
  map-On chunk (step ∷ procedure) = (refl, map-On chunk procedure)

  steps_from-On : (chunk : ManualChunk) → On target (steps_from wording target chunk)
  unfolding steps_from
  steps_from-On chunk = map-On chunk chunk.procedure

  cite-On : (wanted : Bool) (o : Option ManualChunk) → On target (cite wording target wanted o).0
  cite-On wanted none = tt
  cite-On true (some chunk) = steps_from-On chunk
  cite-On false (some chunk) = tt

  lead_steps-On : (o : Option ManualChunk) → On target (lead_steps wording target o).0
  lead_steps-On none = (refl, tt)
  lead_steps-On (some chunk) = steps_from-On chunk

renumber-On :
    (target : Text) (first : ℕ) (steps : List IsolationStep)
    → On target steps
    → On target (renumber first steps)
unfolding renumber
renumber-On target first [] h = tt
renumber-On target first (step ∷ steps) h = (h.0, renumber-On target (first + 1) steps h.1)

On-known :
    (target : Text) (nodes : List Text) (steps : List IsolationStep)
    → member target nodes ≡ true
    → On target steps
    → All (λ node. member node nodes ≡ true) (map (λ step. step.target_component) steps)
On-known target nodes [] h on = tt
On-known target nodes (step ∷ steps) h on =
    (subst (λ n. member n nodes ≡ true) (sym on.0) h, On-known target nodes steps h on.1)

length-renumber :
    (first : ℕ) (steps : List IsolationStep) → length (renumber first steps) ≡ length steps
unfolding renumber
length-renumber first [] = refl
length-renumber first (step ∷ steps) = ap suc (length-renumber (first + 1) steps)

module _ (wording : Wording) (max_steps : ℕ) (analysis : TopologyAnalysis)
    (verdict : TopologyIsolationVerdict) (guidelines : List ManualChunk) where
  abbrev drafted : StrategicActionPlan
  drafted = action_plan wording max_steps analysis verdict guidelines

  abbrev closure : List IsolationStep
  closure = (parts wording max_steps analysis verdict guidelines).close.0

  plan-On : On verdict.root_cause_node drafted.isolation_steps
  unfolding action_plan
  plan-On =
      let root = verdict.root_cause_node in
      let p = parts wording max_steps analysis verdict guidelines in
      let on = All-append (λ step. step.target_component ≡ root) in
      renumber-On root 1 _ (
        on _ closure
          (All-take (λ step. step.target_component ≡ root) _ _
            (on p.reconcile.0 _ (cite-On wording root _ _) (
              on p.protect.0 _ (cite-On wording root _ _)
                (on p.act.0 p.prove.0 (lead_steps-On wording root _) (cite-On wording root _ _)))))
          (cite-On wording root true (first_of (supplement "closure") guidelines)))

  -- The deterministic planner stays on the graph, if the verdict does.
  pub action_plan-valid :
      member verdict.root_cause_node analysis.known ≡ true → validate_plan analysis drafted ≡ ok tt
  unfolding validate_plan action_plan
  action_plan-valid known =
      let root = verdict.root_cause_node in
      let nodes = map (λ (step : IsolationStep). step.target_component) drafted.isolation_steps in
      let inside : all (λ node. member node analysis.known) (root ∷ nodes) ≡ true =
        (all-All (λ node. member node analysis.known) (root ∷ nodes)).1
          (known, On-known root analysis.known drafted.isolation_steps known plan-On) in
      rw inside refl

  -- A plan of the deterministic planner is numbered from 1, works on the root cause only, has at
  -- most max_steps steps unless the closure takes them all, and ends in the whole closure.
  pub action_plan-sequence :
      (contiguous_sequence 1 drafted.isolation_steps ≡ true)
      × On verdict.root_cause_node drafted.isolation_steps
      × (length drafted.isolation_steps ≤ max max_steps (1 + length closure))
      × ((middle : List IsolationStep) × (drafted.isolation_steps ≡ renumber 1 (middle ++ closure)))
  unfolding action_plan
  action_plan-sequence =
      let body = assembled wording max_steps analysis verdict guidelines in
      let budget = max 1 (max_steps - length closure) in
      (
        renumber-contiguous 1 (take budget body ++ closure),
        plan-On,
        omega (
          arith,
          length-renumber 1 (take budget body ++ closure),
          length-append (take budget body) closure,
          length-take budget body,
        ),
        (take budget body, refl),
      )
