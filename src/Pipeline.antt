-- ===== src/Pipeline.antt =====
-- `ClosurePipeline` of services/command-worker/command_worker.py, over the http mode of the router.
pub mod Billing
pub mod Keeps
pub mod Published
use openontology.Prelude.{
  replicate, replicate-snoc, NoneType, ok_inj, >>=-eq-ok, decimal, decimal_inj, IsDigit,
  decimal-IsDigit, ltb, leb, ◌==◌, if◌then◌else◌, ltb→lt, lt→ltb, leb→le, le→leb, ==_iff,
  Bool-cases, Option-cases, some_inj, length, take, is_empty, any, all, keep, length-append,
  length-take, length-keep-le, All, All-append, All-take, Result, ok, raise, ◌>>=◌, Result-cases,
  Eq, eq_string, eq_pair, string_beq_iff, pair_beq_iff, pair_beq, Text, codes, text_eq,
  text_eq_sound, text_eq_complete, text_eq_refl, text_eq_iff, eq_text, is_space, lstrip,
  rstrip_onto, rstrip, upper_char, find, member, find-All, lower_char, has_prefix, onto_first,
  split_on, strip, upper, lower, replace_char, rstrip_char, ℕ, zero, suc, ◌+◌, ◌-◌, ◌*◌, ◌/◌, ◌%◌,
  ◌^◌, ◌≤◌, ◌<◌, min, max, String, ◌≡◌, refl, sym, ap, ◌∙◌, subst, ◌≢◌, ◌↔◌, ◌⊎◌, inl, inr, Bool,
  true, false, not, ◌&&◌, ◌||◌, Option, none, some, List, [], ◌∷◌, ◌++◌, map, arith, string_eq,
}
use openontology.Json.{Json, Fields, dict}
use openontology.Settings.{Settings}
use openontology.License.Subscriptions.{Subscription}
use openontology.License.Gatekeeper.{LicenseRejected, authorize}
use openontology.Mutation.{MutationEnvelope}
use openontology.Command.Plan.{ActionPlan}
use openontology.Command.Payload.{CommandPayload}
use openontology.Command.Translate.{
  PermanentReason, mutation_invalid, interceptor_rejected, translate_plan,
}
use openontology.Interceptor.Failure.{InterceptorError}
use openontology.Interceptor.Client.{route}
use openontology.Retry.{Retried, done, failed, exhausted}
use openontology.World.{World, Environment, count}
use openontology.Publisher.{Interrupt, transient, runtime_error, interceptor_unavailable, publish}
use openontology.Metrics.{
  count_authorised, count_plans_requested, count_plans_failed, count_commands_issued,
  count_batches_published,
}

pub data PipelineError : Type 0 where
  license : LicenseRejected → PipelineError
  permanent : PermanentReason → PipelineError
  interrupted : Interrupt → PipelineError

pub record CommandBatch (Uuid : Type 0) : Type 0 where
  pub plan_id : Text
  pub event_id : Text
  pub asset_id : Text
  pub tenant : Text
  pub topic : Text
  pub issued : ℕ
  pub commands : List (CommandPayload Uuid)

module _ {Uuid : Type 0} (env : Environment Uuid) (settings : Settings) where
  abbrev pub published_then :
      (World Uuid → Result Interrupt NoneType × World Uuid)
      → Result Interrupt NoneType × World Uuid
      → Result Interrupt NoneType × World Uuid
  published_then rest (ok x, w) = rest (count count_commands_issued w)
  published_then rest (raise e, w) = (raise e, w)

  -- the publication loop
  unfoldable pub publish_all :
      List (CommandPayload Uuid) → World Uuid → Result Interrupt NoneType × World Uuid
  publish_all [] w = (ok tt, w)
  publish_all (command ∷ commands) w =
      published_then (publish_all commands) (publish env settings command w)

  abbrev pub batch :
      MutationEnvelope → ActionPlan → Subscription → List (CommandPayload Uuid) → CommandBatch Uuid
  batch mutation plan subscription commands = record {
    plan_id = plan.plan_id;
    event_id = mutation.event_id;
    asset_id = mutation.asset_id;
    tenant = subscription.tenant;
    topic = settings.commands_topic;
    issued = length commands;
    commands = commands;
  }

  abbrev pub after_publication :
      MutationEnvelope
      → Subscription
      → ActionPlan
      → List (CommandPayload Uuid)
      → Result Interrupt NoneType × World Uuid
      → Result PipelineError (CommandBatch Uuid) × World Uuid
  after_publication mutation subscription plan commands (ok x, w) =
      (ok (batch mutation plan subscription commands), count count_batches_published w)
  after_publication mutation subscription plan commands (raise reason, w) =
      (raise (interrupted reason), w)

  -- 5. publication
  unfoldable pub after_translation :
      MutationEnvelope
      → Subscription
      → ActionPlan
      → Result PermanentReason (List (CommandPayload Uuid))
      → World Uuid
      → Result PipelineError (CommandBatch Uuid) × World Uuid
  after_translation mutation subscription plan (raise reason) w = (raise (permanent reason), w)
  after_translation mutation subscription plan (ok commands) w =
      after_publication mutation subscription plan commands (publish_all commands w)

  module _ (correlation_id : Text) where
    -- the `except InterceptorError`, and 4. command modelling
    unfoldable pub after_route :
        MutationEnvelope
        → Subscription
        → Retried InterceptorError ActionPlan × World Uuid
        → Result PipelineError (CommandBatch Uuid) × World Uuid
    after_route mutation subscription (done plan, w) =
        after_translation mutation subscription plan
          (translate_plan env.uuid5 mutation plan subscription settings correlation_id
            (env.wall w.now))
          w
    after_route mutation subscription (failed e, w) = (
      raise (
          if e.permanent
          then permanent interceptor_rejected
          else interrupted (transient interceptor_unavailable)),
      count count_plans_failed w,
    )
    after_route mutation subscription (exhausted, w) = (raise (interrupted runtime_error), w)

    -- 2. contract validation, and 3. routing
    unfoldable pub after_authorize :
        Fields
        → Result LicenseRejected Subscription
        → World Uuid
        → Result PipelineError (CommandBatch Uuid) × World Uuid
    after_authorize payload (raise code) w = (raise (license code), w)
    after_authorize payload (ok subscription) w =
        let authorised = count count_authorised w in
        elim (env.validate_mutation (dict payload)) [
          | none ↦ (raise (permanent mutation_invalid), authorised)
          | some mutation ↦ after_route mutation subscription (
              route env settings mutation subscription (some payload)
                (count count_plans_requested authorised))
        ]

    -- `ClosurePipeline.close_loop`
    unfoldable pub close_loop :
        Fields → World Uuid → Result PipelineError (CommandBatch Uuid) × World Uuid
    unfolding after_authorize after_route after_translation
    close_loop payload w =
        let (r, cache) =
          authorize env.sha256 (env.registry w.now) settings w.now (env.wall w.now) true
            (dict payload) w.cache in
        after_authorize payload r (record w { cache = cache })
