-- ===== src/Stub/Translated.antt =====
-- What `translate_plan` makes of a plan of `StubInterceptor`, both of
-- services/command-worker/command_worker.py.
use openontology.Prelude.{
  ok_inj, >>=-eq-ok, leb, some_inj, length, take, is_empty, All, All-take, ok, ◌>>=◌, eq_string,
  eq_pair, Text, eq_text, rstrip_onto, rstrip, strip, ℕ, zero, suc, ◌+◌, ◌≤◌, ◌<◌, ◌≡◌, refl, sym,
  ◌∙◌, subst, ◌≢◌, ◌⊎◌, true, false, List, [], ◌∷◌, arith,
}
use openontology.Settings.{Settings}
use openontology.Json.{Json}
use openontology.RateGate.{million}
use openontology.License.Subscriptions.{Subscription}
use openontology.Mutation.{MutationEnvelope}
use openontology.Command.Vocabulary.{ActionType, ExecutionPriority, is_irreversible}
use openontology.Command.Payload.{
  CommandPayload, construct, stripped, satisfies_contract, identifier_shape, max_deadline,
}
use openontology.Command.Plan.{PlannedAction, ActionPlan}
use openontology.Command.Translate.{
  draft, step_of, translate_step, translate_from, translate_plan, or_empty, deadline_or_default,
}
use openontology.Command.Translate.Guarantees.{AreIssued, translate_plan-AreIssued}
use openontology.Stub.Planner.{is_forceful, stub_plan}
use openontology.Stub.Steps.{IsSound, planned_actions-AllSound}
use openontology.Stub.Force.{IsMild, is_grave, planned_actions-AllMild, planned_actions-Starts}

starts_with_p : (t : Text) → is_empty (strip (b'p' ∷ t)) ≡ false
unfolding strip
starts_with_p t = onto (rstrip t)
  where
    onto : (u : Text) → is_empty (rstrip_onto b'p' u) ≡ false
    onto [] = refl
    onto (c ∷ u) = refl

module _ {Uuid : Type 0} (uuid5 : Text → Uuid) (format_g : Json → Text) (settings : Settings)
    (mutation : MutationEnvelope) (subscription : Subscription) (correlation_id : Text)
    (issued_at : ℕ) (fresh_id : Text) (elapsed : ℕ) where
  abbrev pub plan_of : ActionPlan
  plan_of = stub_plan format_g settings mutation fresh_id elapsed subscription

  -- What the contract of a command asks of the mutation, the subscription and the settings.
  pub record IsReady : Type 0 where
    pub target : identifier_shape (strip mutation.asset_id) ≡ true
    pub target_length : length (strip mutation.asset_id) ≤ 128
    pub tenant : is_empty (strip subscription.tenant) ≡ false
    pub license_key : is_empty (strip subscription.key_id) ≡ false
    pub event : is_empty (strip mutation.event_id) ≡ false
    pub correlation : is_empty (strip correlation_id) ≡ false
    pub deadline : settings.default_deadline_seconds ≤ max_deadline

  plan_id_lem : is_empty (strip plan_of.plan_id) ≡ false
  unfolding stub_plan
  plan_id_lem = starts_with_p _

  confidence-le : plan_of.confidence ≤ million
  unfolding stub_plan
  confidence-le = ground arith

  draft-satisfies_contract :
      (index : ℕ) (a : PlannedAction) (action : ActionType) (priority : ExecutionPriority)
      → IsReady
      → 1 ≤ index
      → a.deadline_seconds ≤ max_deadline
      → satisfies_contract (
          stripped (
            draft uuid5 mutation plan_of subscription settings correlation_id issued_at index a
              action priority))
        ≡ true
  unfolding satisfies_contract stripped
  draft-satisfies_contract index a action priority ready one short =
      let room : leb (length (strip mutation.asset_id)) 128 ≡ true =
        ground (arith, ready.target_length) in
      let later : leb 1 index ≡ true = ground arith in
      let in_time : leb (deadline_or_default a.deadline_seconds settings.default_deadline_seconds)
            max_deadline
          ≡ true =
        ground (arith, ready.deadline) in
      let sure : leb plan_of.confidence million ≡ true = ground (arith, confidence-le) in
      rw
        (
          ready.target, room, ready.tenant, ready.license_key, ready.event, plan_id_lem,
          ready.correlation, later, in_time, sure,
        )
        refl

  translate_step-ok :
      (index : ℕ) (a : PlannedAction)
      → IsReady
      → 1 ≤ index
      → IsSound a
      → (command : CommandPayload Uuid) × (translate_step uuid5 mutation plan_of subscription
            settings correlation_id issued_at index a
          ≡ ok command)
  unfolding translate_step step_of construct
  translate_step-ok index a ready one sound =
      let good =
        draft-satisfies_contract index a sound.action sound.priority ready one sound.deadline in
      rw (sound.known_action, sound.known_priority, good) (_, refl)

  translate_from-ok :
      (index : ℕ) (xs : List PlannedAction)
      → IsReady
      → 1 ≤ index
      → All IsSound xs
      → (commands : List (CommandPayload Uuid)) × (translate_from uuid5 mutation plan_of
            subscription settings correlation_id issued_at index xs
          ≡ ok commands)
  unfolding translate_from
  translate_from-ok index [] ready one h = ([], refl)
  translate_from-ok index (x ∷ xs) ready one (here, there) =
      let (command, e) = translate_step-ok index x ready one here in
      let (commands, e') = translate_from-ok (index + 1) xs ready (omega arith) there in
      rw (e, e') (command ∷ commands, refl)

  abbrev pub IsGentle : CommandPayload Uuid → Type 0
  IsGentle command = is_irreversible command.action_type ≡ false

  AreIssued-AllGentle :
      (index : ℕ) (xs : List PlannedAction) (commands : List (CommandPayload Uuid))
      → All IsSound xs
      → All IsMild xs
      → AreIssued uuid5 mutation plan_of subscription settings correlation_id issued_at index xs
          commands
      → All IsGentle commands
  AreIssued-AllGentle index [] [] sound mild issued = tt
  AreIssued-AllGentle index [] (c ∷ commands) sound mild issued = absurd issued
  AreIssued-AllGentle index (x ∷ xs) [] sound mild issued = tt
  AreIssued-AllGentle index (x ∷ xs) (c ∷ commands) (here, sound) (gentle, mild) (issued, later) =
      let same : here.action ≡ c.action_type =
        some_inj (sym here.known_action ∙ issued.known_action) in
      let force : is_irreversible here.action ≡ is_forceful x = here.force in
      (
        (let e : is_irreversible c.action_type ≡ is_forceful x = rw (sym same) force in e ∙ gentle),
        AreIssued-AllGentle (index + 1) xs commands sound mild later,
      )

  or_empty-ok :
      (commands : List (CommandPayload Uuid)) → commands ≢ [] → or_empty commands ≡ ok commands
  or_empty-ok [] h = absurd (h refl)
  or_empty-ok (c ∷ commands) h = refl

  translate_from-Starts :
      (index : ℕ) (x : PlannedAction) (xs : List PlannedAction)
      (commands : List (CommandPayload Uuid))
      → translate_from uuid5 mutation plan_of subscription settings correlation_id issued_at index
          (x ∷ xs)
        ≡ ok commands
      → commands ≢ []
  unfolding translate_from
  translate_from-Starts index x xs commands h =
      let step =
        translate_step uuid5 mutation plan_of subscription settings correlation_id issued_at index
          x in
      let after =
        translate_from uuid5 mutation plan_of subscription settings correlation_id issued_at
          (index + 1) xs in
      let (command, stepped, h') = >>=-eq-ok step (λ c. after >>= λ cs. ok (c ∷ cs)) h in
      let (later, returned, same) = >>=-eq-ok after (λ cs. ok (command ∷ cs)) h' in
      λ none_. let e = ok_inj same ∙ none_ in cc

  take-Starts :
      (n : ℕ) (xs : List PlannedAction)
      → 0 < n
      → (x : PlannedAction) × (rest : List PlannedAction) × (xs ≡ x ∷ rest)
      → (x : PlannedAction) × (rest : List PlannedAction) × (take n xs ≡ x ∷ rest)
  take-Starts zero xs room h = absurd (omega arith)
  take-Starts (suc n) xs room (x, rest, e) = rw e (x, take n rest, refl)

  -- A plan of the stub always turns into commands, at least one, if the mutation's, the
  -- subscription's and the settings' texts satisfy the contract and the settings allow a command;
  -- none of them is irreversible if the context is degraded, the mutation is cleared or its
  -- severity is not critical.
  pub translate_plan-stub :
      IsReady
      → 0 < settings.max_commands
      → (commands : List (CommandPayload Uuid)) × (translate_plan uuid5 mutation plan_of
            subscription settings correlation_id issued_at
          ≡ ok commands)
        × (commands ≢ [])
        × ((mutation.degraded ≡ true) ⊎ (is_grave mutation.transition mutation.severity ≡ false)
            → All IsGentle commands)
  unfolding translate_plan stub_plan
  translate_plan-stub ready room =
      let sound : All IsSound (take settings.max_commands plan_of.commands) =
        All-take IsSound settings.max_commands _
          (planned_actions-AllSound format_g settings mutation ready.deadline) in
      let (commands, e) =
        translate_from-ok 1 (take settings.max_commands plan_of.commands) ready (omega arith)
          sound in
      let (x, rest, start) =
        take-Starts settings.max_commands _ room
          (planned_actions-Starts format_g settings mutation room) in
      let filled : commands ≢ [] = translate_from-Starts 1 x rest commands (
        subst
          (λ xs.
            translate_from uuid5 mutation plan_of subscription settings correlation_id issued_at 1
              xs
            ≡ ok commands)
          start e) in
      let returned : translate_plan uuid5 mutation plan_of subscription settings correlation_id
            issued_at
          ≡ ok commands =
        rw e (or_empty-ok commands filled) in
      (
        commands,
        returned,
        filled,
        (λ light.
            AreIssued-AllGentle 1 (take settings.max_commands plan_of.commands) commands sound
              (All-take IsMild settings.max_commands _
                (planned_actions-AllMild format_g settings mutation light))
              (translate_plan-AreIssued uuid5 mutation plan_of subscription settings correlation_id
                issued_at commands returned).0),
      )
