-- ===== src/Tests/Planning.antt =====
-- Runs of `StubInterceptor` of services/command-worker/command_worker.py.
use openontology.Prelude.{
  any, All, ok, eq_string, eq_pair, Text, codes, eq_text, strip, ◌≡◌, refl, ◌≢◌, ◌↔◌, ◌⊎◌, true,
  false, List, [], arith,
}
use openontology.Json.{Json}
use openontology.Mutation.{MutationEnvelope}
use openontology.Command.Payload.{CommandPayload, identifier_shape}
use openontology.Command.Translate.{translate_plan}
use openontology.Stub.Planner.{is_forceful, planned_actions, stub_plan}
use openontology.Stub.Force.{is_grave, planned_actions-forceful_iff}
use openontology.Stub.Translated.{IsReady, IsGentle, translate_plan-stub}
use openontology.Tests.Data.{settings, subscription, mutation}

abbrev format_g : Json → Text
format_g j = codes "96.5"

abbrev degraded_mutation : MutationEnvelope
degraded_mutation = record mutation { degraded = true }

planned_actions-forceful_iff_example :
    (any is_forceful (planned_actions format_g settings mutation) ≡ true)
    ↔ ((mutation.degraded ≡ false) × (is_grave mutation.transition mutation.severity ≡ true))
planned_actions-forceful_iff_example =
    planned_actions-forceful_iff format_g settings mutation (omega arith)

abbrev identity : Text → Text
identity t = t

ready :
    IsReady identity format_g settings degraded_mutation subscription
      (codes "id")
      1000
      (codes "0123456789abcdef")
      15
unfolding identifier_shape strip
ready = record {
  target = refl;
  target_length = omega arith;
  tenant = refl;
  license_key = refl;
  event = refl;
  correlation = refl;
  deadline = omega arith;
}

translate_plan-stub_example :
    (commands : List (CommandPayload Text)) × (translate_plan identity degraded_mutation
        (stub_plan format_g settings degraded_mutation (codes "0123456789abcdef") 15 subscription)
        subscription
        settings
        (codes "id")
        1000
      ≡ ok commands)
    × (commands ≢ [])
    × ((degraded_mutation.degraded ≡ true)
          ⊎ (is_grave degraded_mutation.transition degraded_mutation.severity ≡ false)
        → All
            (IsGentle identity format_g settings degraded_mutation subscription
              (codes "id")
              1000
              (codes "0123456789abcdef")
              15)
            commands)
translate_plan-stub_example =
    translate_plan-stub identity format_g settings degraded_mutation subscription (codes "id") 1000
      (codes "0123456789abcdef") 15 ready (omega arith)
