-- ===== src/Preflight/Loop.antt =====
-- `run` and `run_preflight_until_ready` of services/command-worker/command_worker.py.
use openontology.Prelude.{
  NoneType, ltb, if◌then◌else◌, Result, ok, raise, eq_string, eq_pair, Text, eq_text, ℕ, zero, suc,
  ◌+◌, ◌*◌, min, Bool, true, false, ◌&&◌, Option, none, some,
}
use openontology.Clock.{scale_random}
use openontology.Json.{Json, Fields}
use openontology.Settings.{Settings}
use openontology.License.Subscriptions.{Subscription}
use openontology.World.{Environment}
use openontology.Preflight.Local.{TypeError, Boot, resolve_local, introspect}
use openontology.Preflight.Compare.{compare_with}

module _ {Uuid : Type 0} (env : Environment Uuid) (to_str : Json → Text) (settings : Settings) where
  -- what follows `_introspect` in `run`
  abbrev pub introspected :
      Subscription → Option Fields × Boot Uuid → Result TypeError Bool × Boot Uuid
  introspected s (none, b) = (ok false, b)
  introspected s (some d, b) = compare_with env to_str settings s d b

  -- what follows `_resolve_local` in `run`
  abbrev pub resolved : Option Subscription × Boot Uuid → Result TypeError Bool × Boot Uuid
  resolved (none, b) = (ok false, b)
  resolved (some s, b) = introspected s (introspect env to_str settings b)

  -- `InterceptorPreflight.run`
  unfoldable pub run : Boot Uuid → Result TypeError Bool × Boot Uuid
  unfolding resolve_local introspect compare_with
  run b = resolved (
      resolve_local env to_str settings
        (record b { status = record b.status { attempts = b.status.attempts + 1 } }))

  -- `await asyncio.sleep(delay + random.random() * delay)`
  unfoldable pub pause : ℕ → Boot Uuid → Boot Uuid
  pause delay b = record b {
    world = record b.world {
      now = b.world.now + (delay + scale_random (env.random b.world.draws) delay);
      draws = b.world.draws + 1;
    };
  }

  -- what follows the loop
  unfoldable pub give_up : Boot Uuid → Boot Uuid
  give_up b = if settings.interceptor_preflight_strict then b else record b { proceed = true }

  -- one round of the loop of `run_preflight_until_ready` after its attempt: `more` is whether
  -- attempts are left, and `again` the rest of the loop
  unfoldable pub next :
      (more : Bool) (again : Boot Uuid → Result TypeError NoneType × Boot Uuid)
      → Result TypeError Bool × Boot Uuid
      → Result TypeError NoneType × Boot Uuid
  unfolding give_up
  next more again (raise e, b) = (raise e, b)
  next more again (ok true, b) = (ok tt, record b { proceed = true })
  next more again (ok false, b) = elim (b.status.retryable && more) [
    | false ↦ (ok tt, give_up b)
    | true ↦ again b
  ]

  -- the loop, with `left` attempts left, and what follows it
  unfoldable pub attempt_from : (left delay : ℕ) → Boot Uuid → Result TypeError NoneType × Boot Uuid
  unfolding run pause next give_up
  attempt_from zero delay b = (ok tt, give_up b)
  attempt_from (suc left) delay b =
      next (ltb 0 left)
        (λ b'.
          attempt_from left (min (delay * 2) settings.transient_backoff_max_seconds)
            (pause delay b'))
        (run b)

  -- `run_preflight_until_ready`
  unfoldable pub run_preflight_until_ready : Boot Uuid → Result TypeError NoneType × Boot Uuid
  unfolding attempt_from
  run_preflight_until_ready b =
      attempt_from settings.interceptor_preflight_attempts settings.retry_base_seconds b
