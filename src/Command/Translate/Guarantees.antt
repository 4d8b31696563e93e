-- ===== src/Command/Translate/Guarantees.antt =====
-- What every command of a translated plan satisfies.
use openontology.Prelude.{
  ok_inj, >>=-eq-ok, Bool-cases, take, any, ok, raise, ◌>>=◌, Result-cases, eq_string, eq_pair,
  Text, eq_text, strip, ℕ, ◌+◌, ◌*◌, ◌≡◌, refl, subst, ◌≢◌, ◌↔◌, inl, inr, Bool, true, false,
  Option, none, some, List, [], ◌∷◌, arith,
}
use openontology.Clock.{second}
use openontology.Settings.{Settings}
use openontology.Mutation.{MutationEnvelope}
use openontology.License.Subscriptions.{Subscription, autonomous_execution_allowed}
use openontology.Command.Vocabulary.{
  ActionType, ExecutionPriority, is_irreversible, parse_action, parse_priority,
}
use openontology.Command.Plan.{PlannedAction, ActionPlan}
use openontology.Command.Payload.{CommandPayload, construct, stripped, satisfies_contract}
use openontology.Command.Identity.{command_name}
use openontology.Command.Translate.{
  PermanentReason, or_empty, draft, step_of, translate_step, translate_from, translate_plan,
  deadline_or_default,
}

module _ {Uuid : Type 0} (uuid5 : Text → Uuid) (mutation : MutationEnvelope) (plan : ActionPlan)
    (subscription : Subscription) (settings : Settings) (correlation_id : Text)
    (issued_at : ℕ) where
  abbrev draft_of : ℕ → PlannedAction → ActionType → ExecutionPriority → CommandPayload Uuid
  draft_of = draft uuid5 mutation plan subscription settings correlation_id issued_at

  -- The command that the step `planned` at the position `index` may turn into.
  pub record IsIssued (index : ℕ) (planned : PlannedAction) (command : CommandPayload Uuid)
      : Type 0 where
    pub known_action : parse_action planned.action ≡ some command.action_type
    pub known_priority : parse_priority planned.priority ≡ some command.execution_priority
    pub identity :
        command.command_id ≡ uuid5 (command_name mutation.event_id index command.action_type)
    pub position : command.sequence ≡ index
    pub target : command.target_asset_id ≡ strip mutation.asset_id
    pub deadline :
        command.deadline_seconds
        ≡ deadline_or_default planned.deadline_seconds settings.default_deadline_seconds
    pub expiry : command.expires_at ≡ command.issued_at + command.deadline_seconds * second
    pub approval : (command.requires_human_approval ≡ false) ↔ (
        (autonomous_execution_allowed subscription ≡ true)
        × (is_irreversible command.action_type ≡ false))
    pub contract : satisfies_contract command ≡ true

  draft-IsIssued :
      (index : ℕ) (planned : PlannedAction) (action : ActionType) (priority : ExecutionPriority)
      → parse_action planned.action ≡ some action
      → parse_priority planned.priority ≡ some priority
      → satisfies_contract (stripped (draft_of index planned action priority)) ≡ true
      → IsIssued index planned (stripped (draft_of index planned action priority))
  unfolding construct
  draft-IsIssued index planned action priority ha hp hc = record {
    known_action = ha;
    known_priority = hp;
    identity = refl;
    position = refl;
    target = refl;
    deadline = refl;
    expiry = refl;
    approval = (λ h. ground arith, λ h. ground arith);
    contract = hc;
  }

  step_of-IsIssued :
      (index : ℕ) (planned : PlannedAction) (action : Option ActionType)
      (priority : Option ExecutionPriority) (command : CommandPayload Uuid)
      → parse_action planned.action ≡ action
      → parse_priority planned.priority ≡ priority
      → step_of uuid5 mutation plan subscription settings correlation_id issued_at index planned
          action priority
        ≡ ok command
      → IsIssued index planned command
  unfolding step_of construct
  step_of-IsIssued index planned none priority command ha hp h = cc
  step_of-IsIssued index planned (some action) none command ha hp h = cc
  step_of-IsIssued index planned (some action) (some priority) command ha hp h =
      elim (Bool-cases (satisfies_contract (stripped (draft_of index planned action priority)))) [
        | inl good ↦
            subst (IsIssued index planned) (ok_inj (rw good at h))
              (draft-IsIssued index planned action priority ha hp good)
        | inr bad ↦ cc (rw bad at h)
      ]

  translate_step-IsIssued :
      (index : ℕ) (planned : PlannedAction) (command : CommandPayload Uuid)
      → translate_step uuid5 mutation plan subscription settings correlation_id issued_at index
          planned
        ≡ ok command
      → IsIssued index planned command
  unfolding translate_step
  translate_step-IsIssued index planned command h =
      step_of-IsIssued index planned (parse_action planned.action) (parse_priority planned.priority)
        command refl refl h

  -- One command for each step, in order, at positions from `index` on.
  abbrev pub AreIssued : ℕ → List PlannedAction → List (CommandPayload Uuid) → Type 0
  AreIssued index [] [] = Unit
  AreIssued index [] (command ∷ commands) = ⊥
  AreIssued index (planned ∷ rest) [] = ⊥
  AreIssued index (planned ∷ rest) (command ∷ commands) =
      IsIssued index planned command × AreIssued (index + 1) rest commands

  translate_from-AreIssued :
      (index : ℕ) (planned : List PlannedAction) (commands : List (CommandPayload Uuid))
      → translate_from uuid5 mutation plan subscription settings correlation_id issued_at index
          planned
        ≡ ok commands
      → AreIssued index planned commands
  unfolding translate_from
  translate_from-AreIssued index [] [] h = tt
  translate_from-AreIssued index [] (command ∷ commands) h = cc
  translate_from-AreIssued index (planned ∷ rest) commands h =
      let step =
        translate_step uuid5 mutation plan subscription settings correlation_id issued_at index
          planned in
      let after =
        translate_from uuid5 mutation plan subscription settings correlation_id issued_at
          (index + 1) rest in
      let (command, stepped, h') = >>=-eq-ok step (λ c. after >>= λ cs. ok (c ∷ cs)) h in
      let (later, returned, same) = >>=-eq-ok after (λ cs. ok (command ∷ cs)) h' in
      subst (AreIssued index (planned ∷ rest)) (ok_inj same) (
        translate_step-IsIssued index planned command stepped,
        translate_from-AreIssued (index + 1) rest later returned,
      )

  -- A plan that is translated yields at least one command, and exactly one command for each of
  -- its first `max_commands` steps, in order: with the step's own action and priority, the
  -- identity of the event and the position, the deadline of the step or the default one, an expiry
  -- that many seconds after the issue, within the field constraints of the contract, and free of
  -- human approval if and only if the subscription is autonomous and the action is reversible.
  pub translate_plan-AreIssued :
      (commands : List (CommandPayload Uuid))
      → translate_plan uuid5 mutation plan subscription settings correlation_id issued_at
        ≡ ok commands
      → AreIssued 1 (take settings.max_commands plan.commands) commands × (commands ≢ [])
  unfolding translate_plan
  translate_plan-AreIssued commands h =
      let (found, returned, kept) =
        >>=-eq-ok
          (translate_from uuid5 mutation plan subscription settings correlation_id issued_at 1
            (take settings.max_commands plan.commands))
          or_empty h in
      go found returned kept
    where
      go :
          (found : List (CommandPayload Uuid))
          → translate_from uuid5 mutation plan subscription settings correlation_id issued_at 1
              (take settings.max_commands plan.commands)
            ≡ ok found
          → or_empty found ≡ ok commands
          → AreIssued 1 (take settings.max_commands plan.commands) commands × (commands ≢ [])
      go [] returned kept = cc
      go (c ∷ cs) returned kept =
          let same : ◌≡◌ {A = List (CommandPayload Uuid)} (c ∷ cs) commands = ok_inj kept in
          (
            subst (AreIssued 1 (take settings.max_commands plan.commands)) same (
                translate_from-AreIssued 1 (take settings.max_commands plan.commands) (c ∷ cs)
                  returned),
            λ none_left. cc,
          )

  -- An action that the contract does not know is never issued.
  abbrev pub is_unknown : PlannedAction → Bool
  is_unknown planned = elim (parse_action planned.action) [ none ↦ true | some action ↦ false ]

  AreIssued-known :
      (index : ℕ) (planned : List PlannedAction) (commands : List (CommandPayload Uuid))
      → AreIssued index planned commands
      → any is_unknown planned ≡ false
  AreIssued-known index [] [] h = refl
  AreIssued-known index [] (command ∷ commands) h = absurd h
  AreIssued-known index (planned ∷ rest) [] h = absurd h
  AreIssued-known index (planned ∷ rest) (command ∷ commands) (h, hs) =
      rw (h.known_action, is_unknown) (AreIssued-known (index + 1) rest commands hs)

  -- One step with an unknown action among the first `max_commands` sinks the whole plan: nothing
  -- is issued, not even for the steps before it.
  pub translate_plan_unknown :
      any is_unknown (take settings.max_commands plan.commands) ≡ true
      → (reason : PermanentReason) × (translate_plan uuid5 mutation plan subscription settings
            correlation_id issued_at
          ≡ raise reason)
  translate_plan_unknown unknown =
      elim (Result-cases
        (translate_plan uuid5 mutation plan subscription settings correlation_id issued_at)) [
          | inr (reason, h) ↦ (reason, h)
          | inl (commands, h) ↦
              let (issued, _) = translate_plan-AreIssued commands h in
              let known =
                AreIssued-known 1 (take settings.max_commands plan.commands) commands issued in
              cc
        ]
