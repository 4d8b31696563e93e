-- ===== src/Safety.antt =====
-- `_enforce_safety_invariants` of services/graphrag-interceptor/graphrag_interceptor.py: the
-- corrections that every plan of an agent gets before it is sent. A confidence and a graph trust
-- are numbers of millionths.
pub mod Stages
pub mod Corrected
pub mod Invariants
pub mod Sequence
pub mod Downgrades
use openontology.Prelude.{
  string_ne, All-map, Extends, Extends-refl, Extends-trans, Logged, Logged-Extends, Logged-append,
  replicate, replicate-snoc, NoneType, ok_inj, >>=-eq-ok, decimal, decimal_inj, IsDigit,
  decimal-IsDigit, ltb, leb, ◌==◌, if◌then◌else◌, ltb→lt, lt→ltb, leb→le, le→leb, ==_iff,
  Bool-cases, Option-cases, some_inj, length, take, is_empty, any, all, keep, length-append,
  length-take, length-keep-le, All, All-append, All-take, Result, ok, raise, ◌>>=◌, Result-cases,
  Eq, eq_string, eq_pair, string_beq_iff, pair_beq_iff, pair_beq, Text, codes, text_eq,
  text_eq_sound, text_eq_complete, text_eq_refl, text_eq_iff, eq_text, is_space, lstrip,
  rstrip_onto, rstrip, upper_char, find, member, find-All, lower_char, has_prefix, onto_first,
  split_on, strip, upper, lower, replace_char, rstrip_char, ℕ, zero, suc, ◌+◌, ◌-◌, ◌*◌, ◌/◌, ◌%◌,
  ◌^◌, ◌≤◌, ◌<◌, min, max, String, ◌≡◌, refl, sym, ap, ◌∙◌, subst, ◌≢◌, ◌↔◌, ◌⊎◌, inl, inr, Bool,
  true, false, not, ◌&&◌, ◌||◌, Option, none, some, List, [], ◌∷◌, ◌++◌, map, arith, string_eq,
}
use openontology.Prescription.{
  ActionType, isolate_valve, emergency_shutdown, degrade_throttle, is_irreversible,
  ExecutionPriority, critical, high, routine, is_critical, is_routine, StepActor, human_technician,
  human_supervisor, robotic_actuator, control_system, is_supervisor, IsolationStep,
  StrategicActionPlan, has_irreversible, has_supervisor,
}

-- What the corrections read of the settings, of the isolation verdict and of the analysis.
pub record Grounds : Type 0 where
  pub max_isolation_steps : ℕ
  pub min_graph_trust_for_irreversible : ℕ
  pub root_cause_node : Text
  pub irreversible_permitted : Bool
  pub graph_trust : ℕ
  pub priority : ExecutionPriority

-- an entry of `applied`, without its wording
pub data Guardrail : Type 0 where
  redirected downgraded steps_removed raised_to_critical raised_to_high truncated : Guardrail
  handover_appended authorization_forced : Guardrail

-- the local variables `action`, `priority`, `steps` and `applied`, and the entries of `updates`
pub record Draft : Type 0 where
  pub target : Text
  pub action : ActionType
  pub priority : ExecutionPriority
  pub steps : List IsolationStep
  pub authorization : Bool
  pub applied : List Guardrail

abbrev pub draft_of : StrategicActionPlan → Draft
draft_of plan = record {
  target = plan.target_asset_id;
  action = plan.action_type;
  priority = plan.execution_priority;
  steps = plan.isolation_steps;
  authorization = plan.requires_human_authorization;
  applied = [];
}

abbrev pub hold : Text → IsolationStep
hold root = record {
  sequence = 1;
  actor = control_system;
  instruction =
      codes "Hold "
      ++ root
      ++ codes
          " at its documented safe-state setpoint and inhibit automatic recovery until the asset graph reconciles.";
  target_component = root;
  verification = codes "Setpoint reads safe-state and the recovery inhibit is latched.";
  reversible = true;
  estimated_seconds = 120;
  manual_reference = none;
}

abbrev pub handover : ℕ → Text → IsolationStep
handover sequence target = record {
  sequence = sequence;
  actor = human_supervisor;
  instruction =
      codes "Hand "
      ++ target
      ++ codes
          " to the accountable operator with the recorded evidence and the agreed next action.";
  target_component = target;
  verification = codes "Handover acknowledged by the accountable operator.";
  reversible = true;
  estimated_seconds = 180;
  manual_reference = none;
}

-- `retained or [IsolationStep(...)]`
abbrev pub or_hold : Text → List IsolationStep → List IsolationStep
or_hold root [] = hold root ∷ []
or_hold root (step ∷ steps) = step ∷ steps

-- `[step.model_copy(update={"sequence": index}) for index, step in enumerate(steps, start=1)]`
unfoldable pub renumber : ℕ → List IsolationStep → List IsolationStep
renumber index [] = []
renumber index (step ∷ steps) = record step { sequence = index } ∷ renumber (index + 1) steps

-- `round(x, 3)`, which rounds a tie to the even neighbour
abbrev pub round_to_thousandths : ℕ → ℕ
round_to_thousandths x =
    let down = x / 1000 in
    let rest = x % 1000 in
    if ltb rest 500 || ((rest == 500) && (down % 2 == 0)) then down * 1000 else (down + 1) * 1000

module _ (g : Grounds) where
  abbrev pub untrusted : Bool
  untrusted = ltb g.graph_trust g.min_graph_trust_for_irreversible

  -- 1. the attributed root cause
  unfoldable pub redirect : Draft → Draft
  redirect d =
      if text_eq d.target g.root_cause_node
      then d
      else record d { target = g.root_cause_node; applied = d.applied ++ redirected ∷ [] }

  -- 2. no irreversible action on a graph that cannot be trusted
  unfoldable pub downgrade : Draft → Draft
  downgrade d =
      let retained = keep (λ step. step.reversible) d.steps in
      let removed = if ltb (length retained) (length d.steps) then steps_removed ∷ [] else [] in
      if is_irreversible d.action && (not g.irreversible_permitted || untrusted)
      then record d {
        action = degrade_throttle;
        steps = or_hold g.root_cause_node retained;
        applied = d.applied ++ downgraded ∷ removed;
      }
      else d

  -- 3. an irreversible command is critical
  unfoldable pub raise_irreversible : Draft → Draft
  raise_irreversible d =
      if is_irreversible d.action && not (is_critical d.priority)
      then record d { priority = critical; applied = d.applied ++ raised_to_critical ∷ [] }
      else d

  -- 4. a critical severity is not planned as routine
  unfoldable pub raise_routine : Draft → Draft
  raise_routine d =
      if is_critical g.priority && is_routine d.priority
      then record d { priority = high; applied = d.applied ++ raised_to_high ∷ [] }
      else d

  -- 5. the length of the sequence
  unfoldable pub truncate : Draft → Draft
  truncate d =
      if ltb g.max_isolation_steps (length d.steps)
      then record d {
        steps = take g.max_isolation_steps d.steps;
        applied = d.applied ++ truncated ∷ [];
      }
      else d

  -- 6. the handover to a supervisor
  unfoldable pub append_handover : Draft → Draft
  append_handover d =
      if not (is_empty d.steps) && not (has_supervisor d.steps)
      then record d {
        steps = d.steps ++ handover (length d.steps + 1) d.target ∷ [];
        applied = d.applied ++ handover_appended ∷ [];
      }
      else d

  -- whether there is a `reason`
  abbrev pub has_reason : Draft → Bool
  has_reason d =
      is_irreversible d.action || has_irreversible d.steps || is_critical d.priority || untrusted

  -- 7. the human authorisation
  unfoldable pub force_authorization : Draft → Draft
  force_authorization d =
      if not d.authorization && has_reason d
      then record d { authorization = true; applied = d.applied ++ authorization_forced ∷ [] }
      else d

  abbrev pub corrected : StrategicActionPlan → Draft
  corrected plan = force_authorization (
      append_handover
        (truncate (raise_routine (raise_irreversible (downgrade (redirect (draft_of plan)))))))

  -- `if applied:`
  abbrev pub updated : StrategicActionPlan → Draft → StrategicActionPlan
  updated plan d = if is_empty d.applied then plan else record plan {
    action_type = d.action;
    target_asset_id = d.target;
    execution_priority = d.priority;
    isolation_steps = renumber 1 d.steps;
    requires_human_authorization = d.authorization;
    confidence = round_to_thousandths (max 50000 (plan.confidence * 9 / 10));
  }

  -- `_enforce_safety_invariants`
  unfoldable pub enforce_safety_invariants :
      StrategicActionPlan → StrategicActionPlan × List Guardrail
  unfolding redirect downgrade raise_irreversible raise_routine truncate append_handover
      force_authorization renumber
  enforce_safety_invariants plan = (updated plan (corrected plan), (corrected plan).applied)
