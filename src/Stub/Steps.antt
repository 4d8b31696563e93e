-- ===== src/Stub/Steps.antt =====
-- What every step of a plan of `StubInterceptor` in services/command-worker/command_worker.py is.
use openontology.Prelude.{
  if◌then◌else◌, Bool-cases, keep, All, All-take, eq_string, eq_pair, Text, codes, eq_text, member,
  strip, upper, ℕ, ◌+◌, ◌≤◌, ◌≡◌, refl, inl, inr, Bool, true, false, not, Option, some, List, [],
  ◌∷◌, arith,
}
use openontology.Settings.{Settings}
use openontology.Json.{Json, Fields}
use openontology.Mutation.{Severity, TransitionKind, MutationEnvelope}
use openontology.Command.Vocabulary.{
  ActionType, ExecutionPriority, is_irreversible, parse_action, parse_priority,
}
use openontology.Command.Payload.{max_deadline}
use openontology.Command.Plan.{PlannedAction}
use openontology.Stub.Actions.{
  step, acknowledgement, notification, shutdown_step, isolate_step, maintenance_step, derating,
  inspection, by_severity, rules,
}
use openontology.Stub.Planner.{is_forceful, renumber, or_inspection, cautious, planned_actions}

-- The step is in the vocabulary of `translate_plan`, its deadline is one that the contract allows,
-- and it is forceful exactly if its action is irreversible.
pub record IsSound (a : PlannedAction) : Type 0 where
  pub action : ActionType
  pub priority : ExecutionPriority
  pub known_action : parse_action a.action ≡ some action
  pub known_priority : parse_priority a.priority ≡ some priority
  pub deadline : a.deadline_seconds ≤ max_deadline
  pub force : is_irreversible action ≡ is_forceful a

All-keep : {A : Type 0} (P : A → Type 0) (p : A → Bool) (xs : List A) → All P xs → All P (keep p xs)
All-keep P p [] h = tt
All-keep P p (x ∷ xs) (here, there) = elim (Bool-cases (p x)) [
  | inl kept ↦ rw (kept, All) (here, All-keep P p xs there)
  | inr dropped ↦ rw (dropped, All) (All-keep P p xs there)
]

renumber-AllSound :
    (index : ℕ) (xs : List PlannedAction) → All IsSound xs → All IsSound (renumber index xs)
unfolding renumber
renumber-AllSound index [] h = tt
renumber-AllSound index (x ∷ xs) (here, there) = (
  record {
    action = here.action;
    priority = here.priority;
    known_action = here.known_action;
    known_priority = here.known_priority;
    deadline = here.deadline;
    force = here.force;
  },
  renumber-AllSound (index + 1) xs there,
)

module _ (format_g : Json → Text) (settings : Settings) (mutation : MutationEnvelope)
    (short : settings.default_deadline_seconds ≤ max_deadline) where
  step-IsSound :
      (sequence : ℕ) (name level : Text) (parameters : Fields) (effect : Text)
      (rollback : Option Text) (deadline : ℕ) (action : ActionType) (priority : ExecutionPriority)
      → parse_action name ≡ some action
      → parse_priority level ≡ some priority
      → deadline ≤ max_deadline
      → is_irreversible action ≡ member name (codes "SHUTDOWN" ∷ codes "ISOLATE" ∷ [])
      → IsSound
          (step format_g settings mutation sequence name level parameters effect rollback deadline)
  step-IsSound sequence name level parameters effect rollback deadline action priority a p d f =
      record {
        action = action;
        priority = priority;
        known_action = a;
        known_priority = p;
        deadline = d;
        force = f;
      }

  inspection-AllSound : All IsSound (inspection format_g settings mutation)
  unfolding parse_action parse_priority strip upper
  inspection-AllSound = (
    step-IsSound 1 _ _ _ _ _ _ ActionType.inspect ExecutionPriority.high refl refl (omega arith)
        refl,
    tt,
  )

  notification-AllSound : All IsSound (notification format_g settings mutation)
  unfolding parse_action parse_priority strip upper
  notification-AllSound =
      (step-IsSound 1 _ _ _ _ _ _ ActionType.notify ExecutionPriority.low refl refl short refl, tt)

  acknowledgement-AllSound : All IsSound (acknowledgement format_g settings mutation)
  unfolding parse_action parse_priority strip upper
  acknowledgement-AllSound = (
    step-IsSound 1 _ _ _ _ _ _ ActionType.acknowledge ExecutionPriority.low refl refl short refl,
    tt,
  )

  derating-AllSound : All IsSound (derating format_g settings mutation)
  unfolding parse_action parse_priority strip upper
  derating-AllSound = (
    step-IsSound 1 _ _ _ _ _ _ ActionType.shift_speed ExecutionPriority.high refl refl (omega arith)
        refl,
    (
      step-IsSound 2 _ _ _ _ _ _ ActionType.inspect ExecutionPriority.high refl refl (omega arith)
          refl,
      tt,
    ),
  )

  first-IsSound :
      (hot : Bool)
      → IsSound (
          if hot
          then shutdown_step format_g settings mutation
          else isolate_step format_g settings mutation)
  unfolding parse_action parse_priority strip upper
  first-IsSound true =
      step-IsSound 1 _ _ _ _ _ _ ActionType.shutdown ExecutionPriority.critical refl refl
        (omega arith) refl
  first-IsSound false =
      step-IsSound 1 _ _ _ _ _ _ ActionType.isolate ExecutionPriority.critical refl refl
        (omega arith) refl

  maintenance_step-IsSound : IsSound (maintenance_step format_g settings mutation)
  unfolding parse_action parse_priority strip upper
  maintenance_step-IsSound =
      step-IsSound 2 _ _ _ _ _ _ ActionType.schedule_maintenance ExecutionPriority.high refl refl
        (omega arith) refl

  by_severity-AllSound :
      (severity : Severity) → All IsSound (by_severity format_g settings mutation severity)
  by_severity-AllSound Severity.critical = (first-IsSound _, (maintenance_step-IsSound, tt))
  by_severity-AllSound Severity.high = derating-AllSound
  by_severity-AllSound Severity.info = notification-AllSound

  rules-AllSound :
      (transition : TransitionKind) (severity : Severity)
      → All IsSound (rules format_g settings mutation transition severity)
  unfolding rules
  rules-AllSound TransitionKind.cleared severity = acknowledgement-AllSound
  rules-AllSound TransitionKind.raised severity = by_severity-AllSound severity
  rules-AllSound TransitionKind.escalated severity = by_severity-AllSound severity
  rules-AllSound TransitionKind.sustained severity = by_severity-AllSound severity

  or_inspection-AllSound :
      (xs : List PlannedAction)
      → All IsSound xs
      → All IsSound (or_inspection format_g settings mutation xs)
  or_inspection-AllSound [] h = inspection-AllSound
  or_inspection-AllSound (x ∷ xs) h = h

  cautious-AllSound :
      (xs : List PlannedAction)
      → All IsSound xs
      → All IsSound (cautious format_g settings mutation xs)
  unfolding cautious
  cautious-AllSound xs h = elim (Bool-cases mutation.degraded) [
    | inl degraded ↦
        simp degraded (or_inspection-AllSound _ (All-keep IsSound (λ a. not (is_forceful a)) xs h))
    | inr whole ↦ simp whole h
  ]

  pub planned_actions-AllSound : All IsSound (planned_actions format_g settings mutation)
  unfolding planned_actions
  planned_actions-AllSound = renumber-AllSound 1 _ (
      All-take IsSound settings.max_commands _
        (cautious-AllSound _ (rules-AllSound mutation.transition mutation.severity)))
