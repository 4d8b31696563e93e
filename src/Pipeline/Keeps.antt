-- ===== src/Pipeline/Keeps.antt =====
-- A property of the world that one send keeps, and that says nothing of the counters and of the
-- pauses, is kept by the whole publication.
use openontology.Prelude.{
  NoneType, Result, ok, raise, eq_string, eq_pair, eq_text, ℕ, Bool, true, false, List, [], ◌∷◌,
}
use openontology.Settings.{Settings}
use openontology.Command.Payload.{CommandPayload}
use openontology.Metrics.{count_commands_issued, count_publish_failures}
use openontology.Retry.{Retried, done, failed, exhausted}
use openontology.Retry.Rule.{Brings, Leaves, retry_async-Leaves}
use openontology.World.{World, Environment, count, effects}
use openontology.Publisher.{
  Interrupt, plain_hints, send, settle_publish, publish_backoff, publish_if, publish,
}
use openontology.Pipeline.{published_then, publish_all}

module _ {κ} {Uuid : Type 0} (env : Environment Uuid) (settings : Settings)
    (P : World Uuid → Type κ) (issued : (w : World Uuid) → P w → P (count count_commands_issued w))
    (unpublished : (w : World Uuid) → P w → P (count count_publish_failures w))
    (paused : (now draws : ℕ) (w : World Uuid) → P w → P (record w { now = now; draws = draws }))
    (sent : (command : CommandPayload Uuid) (w : World Uuid)
      → P w
      → P (send env settings command w).1) where
  brings : (r : Result NoneType NoneType × World Uuid) → P r.1 → Brings P (λ x. P) r
  brings (ok x, w) h = h
  brings (raise e, w) h = h

  settle_publish-keeps :
      (r : Retried NoneType NoneType × World Uuid)
      → Leaves P (λ x. P) r
      → P (settle_publish env settings r).1
  settle_publish-keeps (done x, w) h = h
  settle_publish-keeps (failed e, w) h = unpublished w h
  settle_publish-keeps (exhausted, w) h = h

  publish_if-keeps :
      (started : Bool) (command : CommandPayload Uuid) (w : World Uuid)
      → P w
      → P (publish_if env settings started command w).1
  unfolding publish_if
  publish_if-keeps false command w h = h
  publish_if-keeps true command w h = settle_publish-keeps _ (
      retry_async-Leaves (effects env) plain_hints (publish_backoff env settings)
        (send env settings command) P (λ x. P)
        (λ s q. brings (send env settings command s) (sent command s q))
        (λ x attempt s q. paused _ _ s q) w h)

  then-keeps :
      (rest : World Uuid → Result Interrupt NoneType × World Uuid)
      → ((w : World Uuid) → P w → P (rest w).1)
      → (r : Result Interrupt NoneType × World Uuid) → P r.1
      → P (published_then env settings rest r).1
  then-keeps rest ih (ok x, w) h = ih (count count_commands_issued w) (issued w h)
  then-keeps rest ih (raise e, w) h = h

  pub publish_all-keeps :
      (commands : List (CommandPayload Uuid)) (w : World Uuid)
      → P w
      → P (publish_all env settings commands w).1
  unfolding publish_all publish
  publish_all-keeps [] w h = h
  publish_all-keeps (c ∷ cs) w h =
      then-keeps (publish_all env settings cs) (publish_all-keeps cs) _
        (publish_if-keeps w.started c w h)
