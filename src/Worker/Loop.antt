-- ===== src/Worker/Loop.antt =====
-- The consumption loop of `CommandWorker.run`, `_rewind` and `_backoff`, for one partition. Its
-- record `n` is `log n`. What the broker does is in the events.
use openontology.Prelude.{
  NoneType, if◌then◌else◌, Result, ok, raise, eq_string, eq_pair, eq_text, ℕ, ◌+◌, ◌-◌, ◌*◌, ◌/◌,
  ◌^◌, min, Bool, List, [], ◌∷◌,
}
use openontology.Clock.{scale_random}
use openontology.Settings.{Settings}
use openontology.Publisher.{Interrupt, transient, runtime_error}
use openontology.World.{World, Environment, count, draw, sleep}
use openontology.Metrics.{count_transient_failures, count_messages_rewound, count_consumer_restarts}
use openontology.Worker.Message.{Message}
use openontology.Worker.Handle.{handle}

-- Whether the loop runs; `crashed` is a worker whose task an exception ended.
pub data RunState : Type 0 where
  consuming crashed : RunState

pub record Worker (Uuid : Type 0) : Type 0 where
  pub world : World Uuid
  pub running : RunState
  -- `self._streaks[worker_id]`
  pub streak : ℕ
  -- the offset of the next record that the consumer yields
  pub position : ℕ
  -- the offset that the group has committed
  pub committed : ℕ

-- `deliver`: the consumer yields the next record, and whether the commit or the seek that follows
-- succeeds. `fail`: the consumer raises a `KafkaError` or an `OSError`, and the rebuilt one starts
-- from the committed offset.
pub data Event : Type 0 where
  deliver : (commits seeks : Bool) → Event
  fail : Event

-- `ceiling` and `delay` of `_rewind`
unfoldable pub rewind_ceiling : Settings → ℕ → ℕ
rewind_ceiling settings streak =
    min settings.transient_backoff_max_seconds
      (settings.retry_base_seconds * 2 ^ min (streak - 1) 10)

unfoldable pub rewind_delay : Settings → (streak draw : ℕ) → ℕ
rewind_delay settings streak draw =
    let half = rewind_ceiling settings streak / 2 in half + scale_random draw half

module _ {Uuid : Type 0} (env : Environment Uuid) (settings : Settings) (log : ℕ → Message) where
  -- `_backoff`
  abbrev backoff : World Uuid → World Uuid
  backoff w =
      let (drawn, w') = draw env w in
      let half = settings.consumer_restart_backoff_seconds / 2 in
      sleep env (half + scale_random drawn half) w'

  -- the `except (KafkaError, OSError)` of the loop, and the start of the next consumer
  unfoldable pub restart : Worker Uuid → Worker Uuid
  restart s = record s {
    world = backoff (count count_consumer_restarts s.world);
    running = consuming;
    position = s.committed;
  }

  -- `_rewind`, with the streak that it stores
  unfoldable pub rewind : (seeks : Bool) → Worker Uuid → Worker Uuid
  rewind seeks s =
      let streak = s.streak + 1 in
      let (drawn, w) =
        draw env (count count_messages_rewound (count count_transient_failures s.world)) in
      if seeks
      then record s {
        world = sleep env (rewind_delay settings streak drawn) w;
        running = consuming;
        streak = streak;
      }
      else record s { world = w; streak = streak; position = s.committed }

  -- what follows `_handle`
  unfoldable pub settle :
      (commits seeks : Bool) → Worker Uuid → Result Interrupt NoneType × World Uuid → Worker Uuid
  unfolding restart rewind
  settle commits seeks s (ok x, w) =
      if commits
      then record s { world = w; streak = 0; position = s.position + 1; committed = s.position + 1 }
      else restart (record s { world = w; streak = 0 })
  settle commits seeks s (raise (transient reason), w) = rewind seeks (record s { world = w })
  settle commits seeks s (raise runtime_error, w) = record s { world = w; running = crashed }

  unfoldable pub step : Event → Worker Uuid → Worker Uuid
  unfolding settle
  step (deliver commits seeks) s =
      settle commits seeks s (handle env settings (log s.position) s.position s.world)
  step fail s = restart s

  -- A crashed task runs no more.
  abbrev pub advance : RunState → Event → Worker Uuid → Worker Uuid
  advance crashed e s = s
  advance _ e s = step e s

  abbrev pub run : List Event → Worker Uuid → Worker Uuid
  run [] s = s
  run (e ∷ es) s = run es (advance s.running e s)
