-- ===== src/Tests/Commands.antt =====
-- Runs of the translation of plans into commands.
use openontology.Prelude.{
  take, eq_string, eq_pair, Text, codes, eq_text, strip, upper, refl, ◌≢◌, [], ◌∷◌,
}
use openontology.Command.Vocabulary.{notify, acknowledge}
use openontology.Command.Plan.{ActionPlan}
use openontology.Command.Payload.{CommandPayload}
use openontology.Command.Translate.{PermanentReason, draft, translate_plan}
use openontology.Command.Payload.{stripped}
use openontology.Command.Vocabulary.{isolate, high}
use openontology.Command.Translate.Guarantees.{AreIssued, translate_plan-AreIssued}
use openontology.Tests.Data.{settings, mutation, isolation_plan, subscription, isolation}

abbrev name_of : Text → Text
name_of name = name

-- the one command of the plan
abbrev issued : CommandPayload Text
issued = stripped (
    draft name_of mutation isolation_plan subscription settings (codes "id") 1000 1 isolation
      isolate high)

translate_plan-AreIssued_example :
    AreIssued name_of mutation isolation_plan subscription settings
      (codes "id")
      1000
      1
      (take 25 (isolation ∷ []))
      (issued ∷ [])
    × (issued ∷ [] ≢ [])
unfolding translate_plan openontology.Command.Translate.translate_from
    openontology.Command.Translate.translate_step openontology.Command.Vocabulary.parse_action upper
    strip openontology.Command.Vocabulary.parse_priority openontology.Command.Payload.construct
    openontology.Command.Payload.identifier_shape
translate_plan-AreIssued_example =
    translate_plan-AreIssued name_of mutation isolation_plan subscription settings (codes "id") 1000
      (issued ∷ []) refl

abbrev odd_plan : ActionPlan
odd_plan = record isolation_plan { commands = record isolation { action = codes "EXPLODE" } ∷ [] }
