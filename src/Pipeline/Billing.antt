-- ===== src/Pipeline/Billing.antt =====
-- What `ClosurePipeline.close_loop` has done when it returns or raises.
use openontology.Prelude.{
  Extends, Extends-refl, Extends-trans, NoneType, if◌then◌else◌, Bool-cases, Option-cases, length,
  Result, ok, raise, eq_string, eq_pair, Text, eq_text, ℕ, ◌≡◌, refl, sym, ap, ◌∙◌, ◌⊎◌, inl, inr,
  Bool, true, false, some, List, [], ◌∷◌, ◌++◌,
}
use openontology.Json.{Fields, dict}
use openontology.Settings.{Settings}
use openontology.License.Subscriptions.{Subscription}
use openontology.License.Gatekeeper.{LicenseRejected, authorize, extract_key, key_digest}
use openontology.License.Cache.{resolve}
use openontology.License.Gatekeeper.Decisions.{IsEntitled, authorize_iff}
use openontology.Mutation.{MutationEnvelope}
use openontology.Command.Plan.{ActionPlan}
use openontology.Command.Payload.{CommandPayload}
use openontology.Command.Translate.{PermanentReason}
use openontology.Interceptor.Failure.{InterceptorError}
use openontology.Interceptor.Client.Quiet.{IsQuiet, moved, IsQuiet-trans, route-IsQuiet}
use openontology.Retry.{Retried, done, failed, exhausted}
use openontology.World.{World, Environment, count}
use openontology.Metrics.{count_authorised, count_plans_requested}
use openontology.Publisher.{Interrupt, arrives, send}
use openontology.Pipeline.{
  PipelineError, license, permanent, interrupted, CommandBatch, publish_all, after_publication,
  after_translation, after_route, after_authorize, close_loop,
}
use openontology.Pipeline.Keeps.{publish_all-keeps}
use mathlib.Core.List.{append-nil}
use openontology.Pipeline.Published.{repeat_each, publish_all-repeat_each}

module _ {Uuid : Type 0} (env : Environment Uuid) (settings : Settings) where
  -- The dead-letter topic and the count of its failures are as before.
  abbrev pub Undisturbed : World Uuid → World Uuid → Type 0
  Undisturbed w w' =
      (w'.dead_letters ≡ w.dead_letters)
      × (w'.circuit.metrics.dlq_failures ≡ w.circuit.metrics.dlq_failures)

  -- A publication leaves the dead-letter topic alone, and takes nothing out of the command log.
  abbrev Publishes : World Uuid → World Uuid → Type 0
  Publishes w w' = (Undisturbed w w') × Extends w.commands w'.commands

  send-Publishes :
      (w : World Uuid) (command : CommandPayload Uuid) (w' : World Uuid)
      → Publishes w w'
      → Publishes w (send env settings command w').1
  unfolding send
  send-Publishes w command w' (letters, grown) = elim (Bool-cases (arrives env settings w'.sends)) [
    | inl yes_ ↦ rw (yes_, send) (letters, Extends-trans _ _ _ grown (command ∷ [], refl))
    | inr no_ ↦ rw (no_, send) (letters, grown)
  ]

  publish_all-Publishes :
      (commands : List (CommandPayload Uuid)) (w : World Uuid)
      → Publishes w (publish_all env settings commands w).1
  publish_all-Publishes commands w =
      publish_all-keeps env settings (Publishes w) (λ w' h. h) (λ w' h. h) (λ now draws w' h. h)
        (send-Publishes w) commands w ((refl, refl), Extends-refl w.commands)

  -- What the end of `close_loop` says of the topics, from the world `w` on.
  abbrev pub Closes : World Uuid → Result PipelineError (CommandBatch Uuid) × World Uuid → Type 0
  Closes w (ok b, w') =
      (Undisturbed w w')
      × (ks : List ℕ) × (length ks ≡ length b.commands)
      × (w'.commands ≡ w.commands ++ repeat_each ks b.commands)
  Closes w (raise (interrupted reason), w') = (Undisturbed w w') × Extends w.commands w'.commands
  Closes w (raise (license code), w') = (Undisturbed w w') × (w'.commands ≡ w.commands)
  Closes w (raise (permanent reason), w') = (Undisturbed w w') × (w'.commands ≡ w.commands)

  after_publication-Closes :
      (mutation : MutationEnvelope) (subscription : Subscription) (p : ActionPlan)
      (commands : List (CommandPayload Uuid)) (w : World Uuid)
      (r : Result Interrupt NoneType × World Uuid)
      → Publishes w r.1
      → (r.0 ≡ ok tt
          → (ks : List ℕ) × (length ks ≡ length commands)
            × (r.1.commands ≡ w.commands ++ repeat_each ks commands))
      → Closes w (after_publication env settings mutation subscription p commands r)
  after_publication-Closes mutation subscription p commands w (ok x, w') held repeats =
      let (ks, len, log) = repeats refl in (held.0, ks, len, log)
  after_publication-Closes mutation subscription p commands w (raise e, w') held repeats = held

  after_translation-Closes :
      (mutation : MutationEnvelope) (subscription : Subscription) (p : ActionPlan)
      (r : Result PermanentReason (List (CommandPayload Uuid))) (w : World Uuid)
      → Closes w (after_translation env settings mutation subscription p r w)
  unfolding after_translation
  after_translation-Closes mutation subscription p (raise reason) w = ((refl, refl), refl)
  after_translation-Closes mutation subscription p (ok commands) w =
      after_publication-Closes mutation subscription p commands w _
        (publish_all-Publishes commands w) (publish_all-repeat_each env settings commands w)

  Undisturbed-trans : (w v u : World Uuid) → Undisturbed w v → Undisturbed v u → Undisturbed w u
  Undisturbed-trans w v u (d, f) (d', f') = (d' ∙ d, f' ∙ f)

  -- From a world with the same topics it is the same claim.
  Closes-moved :
      (w v : World Uuid) (r : Result PipelineError (CommandBatch Uuid) × World Uuid)
      → Undisturbed w v
      → v.commands ≡ w.commands
      → Closes v r
      → Closes w r
  Closes-moved w v (ok b, w') d c (held, ks, len, log) =
      (Undisturbed-trans w v w' d held, ks, len, log ∙ ap (λ l. l ++ repeat_each ks b.commands) c)
  Closes-moved w v (raise (interrupted reason), w') d c (held, (more, log)) =
      (Undisturbed-trans w v w' d held, (more, log ∙ ap (λ l. l ++ more) c))
  Closes-moved w v (raise (license code), w') d c (held, log) =
      (Undisturbed-trans w v w' d held, log ∙ c)
  Closes-moved w v (raise (permanent reason), w') d c (held, log) =
      (Undisturbed-trans w v w' d held, log ∙ c)

  module _ (correlation_id : Text) where
    failed-Closes :
        (w w' : World Uuid) (is_permanent : Bool)
        → Undisturbed w w'
        → w'.commands ≡ w.commands
        → (a : PermanentReason) (b : Interrupt)
        → Closes w (raise (if is_permanent then permanent a else interrupted b), w')
    failed-Closes w w' true d c a b = (d, c)
    failed-Closes w w' false d c a b = (d, ([], c ∙ sym (append-nil _)))

    after_route-Closes :
        (mutation : MutationEnvelope) (subscription : Subscription) (w : World Uuid)
        (r : Retried InterceptorError ActionPlan × World Uuid)
        → IsQuiet w r.1
        → Closes w (after_route env settings correlation_id mutation subscription r)
    unfolding after_route
    after_route-Closes mutation subscription w (done p, w') q =
        Closes-moved w w' _ (q.dead_letters, q.dlq_failures) q.commands
          (after_translation-Closes mutation subscription p _ w')
    after_route-Closes mutation subscription w (failed e, w') q =
        failed-Closes w _ e.permanent (q.dead_letters, q.dlq_failures) q.commands _ _
    after_route-Closes mutation subscription w (exhausted, w') q =
        ((q.dead_letters, q.dlq_failures), ([], q.commands ∙ sym (append-nil _)))

    after_authorize-Closes :
        (payload : Fields) (r : Result LicenseRejected Subscription) (w : World Uuid)
        → Closes w (after_authorize env settings correlation_id payload r w)
    unfolding after_authorize
    after_authorize-Closes payload (raise code) w = ((refl, refl), refl)
    after_authorize-Closes payload (ok subscription) w =
        elim (Option-cases (env.validate_mutation (dict payload))) [
          | inl none_ ↦ rw (none_, after_authorize) ((refl, refl), refl)
          | inr (mutation, some_) ↦
              rw (some_, after_authorize)
                (after_route-Closes mutation subscription w _ (
                  IsQuiet-trans (moved w _ _ _ _ _ refl) (
                    route-IsQuiet env settings mutation subscription (some payload)
                      (count count_plans_requested (count count_authorised w)))))
        ]

    -- Whatever the interceptor, the broker and the caches do: `close_loop` never writes to the
    -- dead-letter topic nor counts a failure of it; a batch that it returns stands in the command
    -- log, in order, each command one or more times in a row; a record that it rejects for good
    -- (its licence, its shape, its plan) has added no command at all; and where it is interrupted
    -- the command log has only grown.
    pub close_loop-Closes :
        (payload : Fields) (w : World Uuid)
        → Closes w (close_loop env settings correlation_id payload w)
    unfolding close_loop
    close_loop-Closes payload w =
        let (r, cache) =
          authorize env.sha256 (env.registry w.now) settings w.now (env.wall w.now) true
            (dict payload) w.cache in
        Closes-moved w (record w { cache = cache }) _ (refl, refl) refl
          (after_authorize-Closes payload r (record w { cache = cache }))

    after_authorize-asks :
        (payload : Fields) (r : Result LicenseRejected Subscription) (w : World Uuid)
        → (((after_authorize env settings correlation_id payload r w).1.requests ≡ w.requests)
            × ((after_authorize env settings correlation_id payload r w).1.calls ≡ w.calls)
            × ((after_authorize env settings correlation_id payload r w).1.sends ≡ w.sends))
          ⊎ ((s : Subscription) × (m : MutationEnvelope) × (r ≡ ok s)
              × (env.validate_mutation (dict payload) ≡ some m))
    unfolding after_authorize
    after_authorize-asks payload (raise code) w = inl (refl, refl, refl)
    after_authorize-asks payload (ok s) w =
        elim (Option-cases (env.validate_mutation (dict payload))) [
          | inl none_ ↦ inl (rw (none_, after_authorize) (refl, refl, refl))
          | inr (m, some_) ↦ inr (s, m, refl, some_)
        ]

    -- Over any payload: either no request went to the interceptor and nothing was sent to the
    -- broker, or the payload meets the mutation contract and it presents a key that the cache
    -- resolves to an active subscription, unexpired and on an entitled plan.
    pub close_loop-asks :
        (payload : Fields) (w : World Uuid)
        → (((close_loop env settings correlation_id payload w).1.requests ≡ w.requests)
            × ((close_loop env settings correlation_id payload w).1.calls ≡ w.calls)
            × ((close_loop env settings correlation_id payload w).1.sends ≡ w.sends))
          ⊎ ((s : Subscription) × (m : MutationEnvelope) × (key : Text) × (env.validate_mutation
                  (dict payload)
                ≡ some m)
              × (extract_key settings true payload ≡ some key)
              × ((resolve (env.registry w.now) w.now (key_digest env.sha256 key) w.cache).0.0
                  ≡ some s)
              × IsEntitled settings (env.wall w.now) s)
    unfolding close_loop
    close_loop-asks payload w =
        let (r, cache) =
          authorize env.sha256 (env.registry w.now) settings w.now (env.wall w.now) true
            (dict payload) w.cache in
        elim (after_authorize-asks payload r (record w { cache = cache })) [
          | inl free ↦ inl free
          | inr (s, m, authorised, valid) ↦
              let (key, presented, found, entitled) =
                (authorize_iff env.sha256 (env.registry w.now) settings w.now (env.wall w.now) true
                    payload w.cache s).0
                  authorised in
              inr (s, m, key, valid, presented, found, entitled)
        ]
