-- ===== src/Command/Plan.antt =====
-- `PlannedAction`, `Escalation` and `ActionPlan` of services/command-worker/command_worker.py.
-- `confidence` is in millionths.
use openontology.Prelude.{eq_string, eq_pair, Text, eq_text, ℕ, Bool, Option, List}
use openontology.Json.{Fields}

pub record PlannedAction : Type 0 where
  pub sequence : ℕ
  pub target_component : Text
  pub action : Text
  pub priority : Text
  pub assigned_to : Text
  pub assigned_operator_id : Option Text
  pub parameters : Fields
  pub expected_effect : Text
  pub rollback : Option Text
  pub deadline_seconds : ℕ

pub record Escalation : Type 0 where
  pub required : Bool
  pub notify : List Text
  pub reason : Text
  pub sla_seconds : ℕ

pub record ActionPlan : Type 0 where
  pub plan_id : Text
  pub event_id : Text
  pub asset_id : Text
  pub tenant : Text
  pub model : Text
  pub confidence : ℕ
  pub reasoning_summary : Text
  pub commands : List PlannedAction
  pub escalation : Escalation
  pub evidence : List Text
  pub latency_ms : ℕ
