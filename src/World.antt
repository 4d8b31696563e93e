-- ===== src/World.antt =====
-- What one consumer of services/command-worker/command_worker.py can change, and what it meets:
-- the answers of the interceptor and of the broker, the clocks, the random draws and the functions
-- of other packages. The n-th call of each kind gets the n-th answer.
use openontology.Prelude.{eq_string, eq_pair, Text, eq_text, ℕ, ◌+◌, String, Bool, Option, List}
use openontology.Json.{Json}
use openontology.License.Cache.{LicenseCache}
use openontology.License.Cache.Staleness.{History}
use openontology.Interceptor.RetryAfter.{Seconds}
use openontology.Interceptor.Failure.{Circuit}
use openontology.Command.Plan.{ActionPlan}
use openontology.Command.Payload.{CommandPayload}
use openontology.Mutation.{MutationEnvelope}
use openontology.Retry.{Effects}
use openontology.Metrics.{Metrics}

abbrev pub Bytes : Type 0
Bytes = List ℕ

-- What `client.post` comes back with. A body is `none` where it is not JSON.
pub data Answer : Type 0 where
  timed_out transport_error : Answer
  response :
      (status_code : ℕ) → (retry_after rate_limit : Option Text) → (body : Option Json) → Answer

-- What the worker sends to the interceptor.
pub record Request : Type 0 where
  pub endpoint : Text
  pub presented : Text
  pub body : Json

-- A record on the dead-letter topic.
pub record DeadLetter : Type 0 where
  pub value : Bytes
  pub key : Option Bytes
  pub dlq_reason : Text
  pub source_offset : ℕ

pub record World (Uuid : Type 0) : Type 0 where
  -- `time.monotonic()`, in microseconds
  pub now : ℕ
  -- how many draws, calls and sends there were
  pub draws : ℕ
  pub calls : ℕ
  pub sends : ℕ
  pub cache : LicenseCache
  pub circuit : Circuit
  -- whether the producer runs
  pub started : Bool
  pub requests : List Request
  -- `ontology.commands` and its dead-letter topic, oldest record first
  pub commands : List (CommandPayload Uuid)
  pub dead_letters : List DeadLetter

pub record Environment (Uuid : Type 0) : Type 0 where
  -- the world outside
  pub random : ℕ → ℕ
  pub answer : ℕ → Answer
  -- how long the n-th call takes
  pub took : ℕ → ℕ
  -- whether the broker acknowledges the n-th send; if not, it is a `KafkaError` or an `OSError`
  pub acknowledged : ℕ → Bool
  -- whether a send without an acknowledgement reached the log all the same
  pub persisted : ℕ → Bool
  -- `uuid.uuid4().hex` for the n-th record
  pub fresh_id : ℕ → Text
  -- the wall clock at a time of the monotonic clock
  pub wall : ℕ → ℕ
  pub registry : History
  -- `hashlib`, `uuid`, `json`, `email.utils` and the built-in conversions
  pub sha256 : Text → String
  pub uuid5 : Text → Uuid
  pub decode_utf8 : Bytes → Option Text
  pub loads : Text → Option Json
  pub parse_float : Text → Option Seconds
  pub parse_date : Text → Option ℕ
  -- `int(...)`; a negative number is given as 0
  pub parse_int : Text → Option ℕ
  -- pydantic: `model_validate`, where `none` is a `ValidationError`, and whether that exception is
  -- a subclass of `ValueError`
  pub validate_mutation : Json → Option MutationEnvelope
  pub validate_plan : Json → Option ActionPlan
  pub validation_error_is_value_error : Bool
  -- `MutationEnvelope.model_dump`
  pub dump_mutation : MutationEnvelope → Json

module _ {Uuid : Type 0} (env : Environment Uuid) where
  abbrev pub sleep : ℕ → World Uuid → World Uuid
  sleep delay w = record w { now = w.now + delay }

  abbrev pub draw : World Uuid → ℕ × World Uuid
  draw w = (env.random w.draws, record w { draws = w.draws + 1 })

  -- `random.random` and `asyncio.sleep`
  abbrev pub effects : Effects (World Uuid)
  effects = record { random = draw; sleep = sleep }

-- A counter of the shared metrics goes up.
abbrev pub count : {Uuid : Type 0} → (Metrics → Metrics) → World Uuid → World Uuid
count f w = record w { circuit = record w.circuit { metrics = f w.circuit.metrics } }
