-- ===== src/Publisher.antt =====
-- `CommandPublisher` of services/command-worker/command_worker.py, from `start` on. A send without
-- an acknowledgement raises, and may have reached the log all the same.
use openontology.Prelude.{
  NoneType, if◌then◌else◌, Result, ok, raise, eq_string, eq_pair, Text, eq_text, ℕ, ◌+◌, Bool, true,
  false, not, ◌||◌, Option, none, some, [], ◌∷◌, ◌++◌,
}
use openontology.Settings.{Settings}
use openontology.Retry.{Hints, Backoff, Retried, done, failed, exhausted, retry_async}
use openontology.Command.Payload.{CommandPayload}
use openontology.World.{World, Environment, Bytes, DeadLetter, effects, count}
use openontology.Metrics.{count_publish_failures, count_dead_lettered, count_dlq_failures}

-- `TransientFailure.reason`
pub data TransientReason : Type 0 where
  producer_unavailable command_publish_failed interceptor_unavailable : TransientReason

-- What may leave a record uncommitted: a `TransientFailure`, or the `RuntimeError` of `retry_async`.
pub data Interrupt : Type 0 where
  transient : TransientReason → Interrupt
  runtime_error : Interrupt

-- exceptions without `should_retry` and `retry_after`
abbrev pub plain_hints : Hints NoneType
plain_hints = record { caught = λ e. true; should_retry = λ e. true; retry_after = λ e. none }

module _ {Uuid : Type 0} (env : Environment Uuid) (settings : Settings) where
  abbrev pub arrives : ℕ → Bool
  arrives n = env.acknowledged n || env.persisted n

  -- `send`: the error stands for a `KafkaError` or an `OSError`
  unfoldable pub send : CommandPayload Uuid → World Uuid → Result NoneType NoneType × World Uuid
  send command w = (
    if env.acknowledged w.sends then ok tt else raise tt,
    record w {
      sends = w.sends + 1;
      commands = if arrives w.sends then w.commands ++ command ∷ [] else w.commands;
    },
  )

  abbrev pub publish_backoff : Backoff
  publish_backoff = record {
    attempts = settings.max_attempts;
    base_seconds = settings.retry_base_seconds;
    max_seconds = settings.retry_max_seconds;
    retry_after_cap = none;
  }

  abbrev pub settle_publish :
      Retried NoneType NoneType × World Uuid → Result Interrupt NoneType × World Uuid
  settle_publish (done x, w) = (ok tt, w)
  settle_publish (failed e, w) =
      (raise (transient command_publish_failed), count count_publish_failures w)
  settle_publish (exhausted, w) = (raise runtime_error, w)

  -- `_require` and the retried send
  unfoldable pub publish_if :
      (started : Bool) → CommandPayload Uuid → World Uuid → Result Interrupt NoneType × World Uuid
  publish_if false command w = (raise (transient producer_unavailable), w)
  publish_if true command w =
      settle_publish (retry_async (effects env) plain_hints publish_backoff (send command) w)

  -- `publish`
  unfoldable pub publish : CommandPayload Uuid → World Uuid → Result Interrupt NoneType × World Uuid
  unfolding publish_if
  publish command w = publish_if w.started command w

  abbrev pub value_or_empty : Option Bytes → Bytes
  value_or_empty none = []
  value_or_empty (some value) = value

  -- `dead_letter`
  unfoldable pub dead_letter :
      (raw_value key : Option Bytes) → (reason : Text) → (offset : ℕ) → World Uuid → World Uuid
  dead_letter raw_value key reason offset w =
      let letter : DeadLetter = record {
        value = value_or_empty raw_value;
        key = key;
        dlq_reason = reason;
        source_offset = offset;
      } in
      let sent = record w {
        sends = w.sends + 1;
        dead_letters = if arrives w.sends then w.dead_letters ++ letter ∷ [] else w.dead_letters;
      } in
      if not w.started
      then count count_dlq_failures w
      else if env.acknowledged w.sends
      then count count_dead_lettered sent
      else count count_dlq_failures sent
