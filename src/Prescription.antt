-- ===== src/Prescription.antt =====
-- What the planning agent of services/graphrag-interceptor/graphrag_interceptor.py returns:
-- `StrategicActionPlan` and its isolation steps.
use openontology.Prelude.{
  any, eq_string, eq_pair, Text, eq_text, ℕ, Bool, true, false, not, Option, List,
}

pub data ActionType : Type 0 where
  isolate_valve emergency_shutdown degrade_throttle : ActionType

abbrev pub is_irreversible : ActionType → Bool
is_irreversible emergency_shutdown = true
is_irreversible _ = false

pub data ExecutionPriority : Type 0 where
  critical high routine : ExecutionPriority

abbrev pub is_critical : ExecutionPriority → Bool
is_critical critical = true
is_critical _ = false

abbrev pub is_routine : ExecutionPriority → Bool
is_routine routine = true
is_routine _ = false

pub data StepActor : Type 0 where
  human_technician human_supervisor robotic_actuator control_system : StepActor

abbrev pub is_supervisor : StepActor → Bool
is_supervisor human_supervisor = true
is_supervisor _ = false

pub record IsolationStep : Type 0 where
  pub sequence : ℕ
  pub actor : StepActor
  pub instruction : Text
  pub target_component : Text
  pub verification : Text
  pub reversible : Bool
  pub estimated_seconds : ℕ
  pub manual_reference : Option Text

pub record StrategicActionPlan : Type 0 where
  pub action_type : ActionType
  pub target_asset_id : Text
  pub execution_priority : ExecutionPriority
  pub isolation_steps : List IsolationStep
  pub blast_radius_protection : List Text
  pub requires_human_authorization : Bool
  pub rationale : Text
  pub manual_references : List Text
  pub confidence : ℕ

abbrev pub has_irreversible : List IsolationStep → Bool
has_irreversible = any (λ step. not step.reversible)

abbrev pub has_supervisor : List IsolationStep → Bool
has_supervisor = any (λ step. is_supervisor step.actor)
