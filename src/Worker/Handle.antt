-- ===== src/Worker/Handle.antt =====
-- `CommandWorker._handle`, but for its log lines.
use openontology.Prelude.{
  NoneType, Result, ok, raise, eq_string, eq_pair, Text, codes, eq_text, ℕ, Option, none, some,
  ◌++◌,
}
use openontology.Json.{Fields}
use openontology.Settings.{Settings}
use openontology.License.Gatekeeper.{
  LicenseRejected, payload_not_an_object, license_key_missing, license_key_invalid,
  license_suspended, license_expired, plan_not_entitled,
}
use openontology.Command.Translate.{
  PermanentReason, unknown_action_type, unknown_execution_priority, command_contract_violation,
  empty_action_plan, mutation_invalid, interceptor_rejected,
}
use openontology.Publisher.{Interrupt, dead_letter}
use openontology.Pipeline.{PipelineError, license, permanent, interrupted, CommandBatch, close_loop}
use openontology.Metrics.{count_consumed, count_license_rejected}
use openontology.World.{World, Environment, count}
use openontology.Worker.Message.{Message, decode, inject_license_key, correlation_id}

-- `exc.code`
abbrev pub code : LicenseRejected → Text
code payload_not_an_object = codes "payload_not_an_object"
code license_key_missing = codes "license_key_missing"
code license_key_invalid = codes "license_key_invalid"
code license_suspended = codes "license_suspended"
code license_expired = codes "license_expired"
code plan_not_entitled = codes "plan_not_entitled"

-- `exc.reason`
abbrev pub reason : PermanentReason → Text
reason unknown_action_type = codes "unknown_action_type"
reason unknown_execution_priority = codes "unknown_execution_priority"
reason command_contract_violation = codes "command_contract_violation"
reason empty_action_plan = codes "empty_action_plan"
reason mutation_invalid = codes "mutation_invalid"
reason interceptor_rejected = codes "interceptor_rejected"

module _ {Uuid : Type 0} (env : Environment Uuid) (settings : Settings) (message : Message)
    (offset : ℕ) where
  -- the `except` clauses around `close_loop`
  unfoldable pub after_pipeline :
      Result PipelineError (CommandBatch Uuid) × World Uuid → Result Interrupt NoneType × World Uuid
  after_pipeline (ok batch, w) = (ok tt, w)
  after_pipeline (raise (license rejected), w) = (
    ok tt,
    dead_letter env settings message.value message.key (codes "license_" ++ code rejected) offset
        (count count_license_rejected w),
  )
  after_pipeline (raise (permanent e), w) =
      (ok tt, dead_letter env settings message.value message.key (reason e) offset w)
  after_pipeline (raise (interrupted e), w) = (raise e, w)

  -- The rest of `_handle`, on what `_decode` made of the record.
  unfoldable pub handle_decoded :
      (correlation : Text) → Option Fields → World Uuid → Result Interrupt NoneType × World Uuid
  unfolding after_pipeline
  handle_decoded correlation none w = (
    ok tt,
    dead_letter env settings message.value message.key (codes "payload_not_json") offset w,
  )
  handle_decoded correlation (some payload) w = after_pipeline (
      close_loop env settings correlation (inject_license_key env settings message.headers payload)
        w)

  -- `_handle`: what it raises leaves the record uncommitted.
  unfoldable pub handle : World Uuid → Result Interrupt NoneType × World Uuid
  unfolding handle_decoded
  handle w =
      handle_decoded
        (correlation_id env settings (env.fresh_id w.circuit.metrics.consumed) message.headers)
        (decode env settings message.value) (count count_consumed w)
