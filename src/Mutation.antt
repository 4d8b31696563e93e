-- ===== src/Mutation.antt =====
-- `MutationEnvelope` of services/command-worker/command_worker.py with its parts: the fields that
-- the closure loop and the stub interceptor read.
use openontology.Json.{Json}
use openontology.Prelude.Sort.{sort_by}
use openontology.Prelude.{
  ltb, leb, if◌then◌else◌, any, eq_string, eq_pair, Text, codes, eq_text, has_prefix, ℕ, Bool,
  Option, none, some, List, [], ◌∷◌,
}

pub data Severity : Type 0 where
  info high critical : Severity

pub data TransitionKind : Type 0 where
  raised escalated sustained cleared : TransitionKind

-- `Operator`; an `escalation_order` below 0 is not modelled.
pub record Operator : Type 0 where
  pub operator_id : Text
  pub name : Text
  pub escalation_order : ℕ

-- `SystemNode`; a `depth` below 0 is not modelled.
pub record SystemNode : Type 0 where
  pub node_id : Text
  pub name : Text
  pub depth : ℕ

pub record OntologyContext : Type 0 where
  pub asset_name : Text
  pub criticality : Text
  pub parent_systems : List SystemNode
  pub components : List Text
  pub assigned_operators : List Operator
  pub maintenance_window : Option Text

-- `min(xs, key=...)`, the first of the smallest; `none` for no item
abbrev pub smallest : {A : Type 0} → (A → ℕ) → List A → Option A
smallest key [] = none
smallest key (x ∷ xs) = elim (smallest key xs) [
  | none ↦ some x
  | some y ↦ if leb (key x) (key y) then some x else some y
]

-- `OntologyContext.primary_operator`
unfoldable pub primary_operator : OntologyContext → Option Operator
primary_operator c = smallest (λ op. op.escalation_order) c.assigned_operators

-- `OntologyContext.escalation_chain`
unfoldable pub escalation_chain : OntologyContext → List Operator
unfolding sort_by
escalation_chain c = sort_by (λ a b. ltb a.escalation_order b.escalation_order) c.assigned_operators

-- `OntologyContext.immediate_parent`
unfoldable pub immediate_parent : OntologyContext → Option SystemNode
immediate_parent c = smallest (λ node. node.depth) c.parent_systems

-- `threshold` and `observed_value` are floats, kept as the JSON numbers that they are dumped as.
pub record RuleTrigger : Type 0 where
  pub rule_id : Text
  pub sensor_id : Text
  pub threshold : Json
  pub unit : Option Text
  pub observed_value : Json

pub record MutationEnvelope : Type 0 where
  pub event_id : Text
  pub schema_version : Text
  pub asset_id : Text
  pub transition : TransitionKind
  pub severity : Severity
  pub rule : RuleTrigger
  pub degraded : Bool
  pub breach_count : ℕ
  -- `telemetry_snapshot.complete`
  pub snapshot_complete : Bool
  pub ontology_context : OntologyContext

abbrev pub supported_mutation_schemas : List Text
supported_mutation_schemas =
    codes "openontology.mutation.v1" ∷ codes "openontology.mutation.v2" ∷ []

-- `MutationEnvelope._known_schema`, as a test
unfoldable pub known_schema : Text → Bool
known_schema value = any (has_prefix value) supported_mutation_schemas
