-- ===== src/Manual.antt =====
-- The maintenance manual of services/graphrag-interceptor/graphrag_interceptor.py as the planner and
-- the retrieval read it.
pub mod Store
use openontology.Prelude.{
  string_ne, All-map, Extends, Extends-refl, Extends-trans, Logged, Logged-Extends, Logged-append,
  replicate, replicate-snoc, NoneType, ok_inj, >>=-eq-ok, decimal, decimal_inj, IsDigit,
  decimal-IsDigit, ltb, leb, ◌==◌, if◌then◌else◌, ltb→lt, lt→ltb, leb→le, le→leb, ==_iff,
  Bool-cases, Option-cases, some_inj, length, take, is_empty, any, all, keep, length-append,
  length-take, length-keep-le, All, All-append, All-take, Result, ok, raise, ◌>>=◌, Result-cases,
  Eq, eq_string, eq_pair, string_beq_iff, pair_beq_iff, pair_beq, Text, codes, text_eq,
  text_eq_sound, text_eq_complete, text_eq_refl, text_eq_iff, eq_text, is_space, lstrip,
  rstrip_onto, rstrip, upper_char, find, member, find-All, lower_char, has_prefix, onto_first,
  split_on, strip, upper, lower, replace_char, rstrip_char, ℕ, zero, suc, ◌+◌, ◌-◌, ◌*◌, ◌/◌, ◌%◌,
  ◌^◌, ◌≤◌, ◌<◌, min, max, String, ◌≡◌, refl, sym, ap, ◌∙◌, subst, ◌≢◌, ◌↔◌, ◌⊎◌, inl, inr, Bool,
  true, false, not, ◌&&◌, ◌||◌, Option, none, some, List, [], ◌∷◌, ◌++◌, map, arith, string_eq,
}
use openontology.Prescription.{ActionType, StepActor}
use openontology.Analysis.{FaultClassification}

pub record ProcedureStep : Type 0 where
  pub actor : StepActor
  pub instruction : Text
  pub verification : Text
  pub reversible : Bool
  pub estimated_seconds : ℕ

pub record ManualChunk : Type 0 where
  pub doc_id : Text
  pub source : Text
  pub procedure : List ProcedureStep
  pub model_families : List Text
  pub applicable_actions : List ActionType
  pub classifications : List FaultClassification
  pub tags : List Text
  pub supplementary : Bool

abbrev pub same_action : ActionType → ActionType → Bool
same_action ActionType.isolate_valve ActionType.isolate_valve = true
same_action ActionType.emergency_shutdown ActionType.emergency_shutdown = true
same_action ActionType.degrade_throttle ActionType.degrade_throttle = true
same_action _ _ = false

abbrev pub same_classification : FaultClassification → FaultClassification → Bool
same_classification FaultClassification.localized_component
      FaultClassification.localized_component =
    true
same_classification FaultClassification.inherited_cascade FaultClassification.inherited_cascade =
    true
same_classification FaultClassification.indeterminate FaultClassification.indeterminate = true
same_classification FaultClassification.no_fault_detected FaultClassification.no_fault_detected =
    true
same_classification _ _ = false
