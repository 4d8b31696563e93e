-- ===== src/Tests/Worker.antt =====
-- Runs of the consumer, of the closure pipeline and of the publisher.
use openontology.Prelude.{
  All-map, Extends, Extends-refl, Extends-trans, Logged, Logged-Extends, Logged-append, replicate,
  replicate-snoc, NoneType, ok_inj, >>=-eq-ok, decimal, decimal_inj, IsDigit, decimal-IsDigit, ltb,
  leb, ◌==◌, if◌then◌else◌, ltb→lt, lt→ltb, leb→le, le→leb, ==_iff, Bool-cases, Option-cases,
  some_inj, length, take, is_empty, any, all, keep, length-append, length-take, length-keep-le, All,
  All-append, All-take, Result, ok, raise, ◌>>=◌, Result-cases, Eq, eq_string, eq_pair,
  string_beq_iff, pair_beq_iff, pair_beq, Text, codes, text_eq, text_eq_sound, text_eq_complete,
  text_eq_refl, text_eq_iff, eq_text, is_space, lstrip, rstrip_onto, rstrip, upper_char, find,
  member, find-All, lower_char, has_prefix, onto_first, split_on, strip, upper, lower, replace_char,
  rstrip_char, ℕ, zero, suc, ◌+◌, ◌-◌, ◌*◌, ◌/◌, ◌%◌, ◌^◌, ◌≤◌, ◌<◌, min, max, String, ◌≡◌, refl,
  sym, ap, ◌∙◌, subst, ◌≢◌, ◌↔◌, ◌⊎◌, inl, inr, Bool, true, false, not, ◌&&◌, ◌||◌, Option, none,
  some, List, [], ◌∷◌, ◌++◌, map, arith, string_eq,
}
use openontology.Json.{dict}
use openontology.License.Subscriptions.{Subscription}
use openontology.License.Gatekeeper.{extract_key, key_digest}
use openontology.License.Gatekeeper.Decisions.{IsEntitled}
use openontology.License.Cache.{resolve}
use openontology.Mutation.{MutationEnvelope}
use openontology.Command.Payload.{CommandPayload}
use openontology.Interceptor.Client.{route}
use openontology.Pipeline.{close_loop}
use openontology.Pipeline.Billing.{Closes, close_loop-Closes, close_loop-asks}
use openontology.Pipeline.{publish_all}
use openontology.Worker.Message.{inject_license_key, correlation_id}
use openontology.Worker.Handle.{handle}
use openontology.Worker.Settled.{Handles, handle-Handles}
use openontology.Worker.Loop.{Worker, Event, deliver, fail, run, rewind_ceiling, rewind_delay}
use openontology.Worker.Delivery.{AllSettled, joined, run-AllSettled}
use openontology.Worker.Headers.{extract_key-inject_license_key}
use openontology.Tests.Data.{settings, env, world, message, payload}

abbrev events : List Event
events = deliver true true ∷ deliver false true ∷ fail ∷ []

run-AllSettled_example :
    AllSettled env settings
      (λ n. message)
      4
      (run env settings (λ n. message) events (joined env settings (λ n. message) world 4)).world
      (run env settings
        (λ n. message)
        events
        (joined env settings (λ n. message) world 4)).committed
    × ((run env settings
          (λ n. message)
          events
          (joined env settings (λ n. message) world 4)).committed
        ≤ (run env settings
            (λ n. message)
            events
            (joined env settings (λ n. message) world 4)).position)
run-AllSettled_example = run-AllSettled env settings (λ n. message) events world 4

handle-Handles_example : Handles env settings message 4 world (handle env settings message 4 world)
handle-Handles_example = handle-Handles env settings message 4 world

close_loop-Closes_example :
    Closes env settings world (close_loop env settings (codes "id") payload world)
close_loop-Closes_example = close_loop-Closes env settings (codes "id") payload world

close_loop-asks_example :
    (((close_loop env settings (codes "id") payload world).1.requests ≡ world.requests)
      × ((close_loop env settings (codes "id") payload world).1.calls ≡ world.calls)
      × ((close_loop env settings (codes "id") payload world).1.sends ≡ world.sends))
    ⊎ ((s : Subscription) × (m : MutationEnvelope) × (key : Text) × (env.validate_mutation
            (dict payload)
          ≡ some m)
        × (extract_key settings true payload ≡ some key)
        × ((resolve (env.registry world.now) world.now (key_digest env.sha256 key) world.cache).0.0
            ≡ some s)
        × IsEntitled settings (env.wall world.now) s)
close_loop-asks_example = close_loop-asks env settings (codes "id") payload world

extract_key-inject_license_key_example :
    extract_key settings true
      (inject_license_key env settings ((codes "License_Key", some (111 ∷ [])) ∷ []) payload)
    ≡ some (strip (codes "own"))
unfolding openontology.Json.get lower strip
extract_key-inject_license_key_example =
    extract_key-inject_license_key env settings (codes "License_Key") (some (111 ∷ []))
      (codes "own") [] payload true refl refl refl refl

abbrev after_one : Worker Text
after_one =
    run env settings (λ n. message) (deliver true true ∷ [])
      (joined env settings (λ n. message) world 4)

-- The first delivery of a record meets a lost send, sends the command again, and commits.
committed_once :
    (after_one.committed ≡ 5)
    × (after_one.world.sends ≡ 2)
    × (map (λ c. c.command_id) after_one.world.commands ≡ codes "e1|1|ISOLATE" ∷ [])
unfolding openontology.Worker.Loop.step handle openontology.Worker.Message.decode close_loop
    openontology.License.Gatekeeper.authorize extract_key openontology.License.Gatekeeper.first_key
    openontology.License.Gatekeeper.candidates openontology.Json.get inject_license_key strip
    resolve openontology.OrderedDict.get openontology.License.Subscriptions.is_expired
    openontology.License.Plans.normalise_plan replace_char upper
    openontology.Command.Translate.translate_from openontology.Command.Translate.translate_plan
    openontology.Command.Translate.translate_step openontology.Command.Vocabulary.parse_action
    openontology.Command.Vocabulary.parse_priority openontology.Interceptor.Client.body
    openontology.Interceptor.Client.destination openontology.Interceptor.Client.learn_quota
    openontology.Interceptor.Client.plan openontology.Interceptor.Client.post
    openontology.Interceptor.Client.read_answer openontology.Interceptor.Client.read_plan
    openontology.Interceptor.Client.read_response route openontology.Interceptor.Client.without
    openontology.Interceptor.Failure.failure openontology.Interceptor.RetryAfter.parse_retry_after
    openontology.Json.assign openontology.License.Plans.fold_plan
    openontology.Pipeline.after_authorize openontology.Pipeline.after_route
    openontology.Pipeline.after_translation publish_all lower rstrip_char
    openontology.Publisher.dead_letter openontology.Publisher.publish
    openontology.Publisher.publish_if openontology.Publisher.send
    openontology.RateGate.apply_cooldown openontology.RateGate.pace openontology.RateGate.retune
    openontology.Retry.attempt_from openontology.Retry.delay openontology.Retry.retry_async
    openontology.Settings.routes_to_enterprise openontology.Worker.Handle.after_pipeline
    openontology.Worker.Handle.handle_decoded openontology.Worker.Loop.restart
    openontology.Worker.Loop.rewind rewind_ceiling rewind_delay openontology.Worker.Loop.settle
    correlation_id openontology.Worker.Message.lift_header openontology.OrderedDict.put_last
    openontology.OrderedDict.pop openontology.OrderedDict.move_to_end openontology.OrderedDict.evict
    openontology.OrderedDict.evictions openontology.Command.Payload.construct
    openontology.Command.Payload.satisfies_contract openontology.Command.Payload.identifier_shape
    openontology.Command.Identity.command_name openontology.Prelude.decimal
    openontology.License.Subscriptions.autonomous_execution_allowed
    openontology.License.Gatekeeper.validate
committed_once = (refl, refl, refl)
