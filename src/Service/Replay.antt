-- ===== src/Service/Replay.antt =====
-- One command for one event.
use openontology.Prelude.{
  ok_inj, ◌==◌, Bool-cases, some_inj, Result, ok, raise, eq_string, eq_pair, Text, eq_text, ◌<◌,
  ◌≡◌, refl, sym, ap, ◌∙◌, subst, inl, inr, false, Option, none, some, arith,
}
use openontology.OrderedDict.Laws.{get-evict-put_last, get-put_last}
use openontology.OrderedDict.{get, evict, put_last, move_to_end}
use openontology.Graph.Payload.{EnrichedGraphPayload}
use openontology.Engine.Agents.{AgentError}
use openontology.Engine.Loop.{EngineOutcome, run}
use openontology.Service.Gate.{
  EnterpriseSubscription, SlidingWindowQuota, SubscriptionError, LicensedRequest,
  verify_enterprise_subscription,
}
use openontology.Service.Commands.{
  CommandActionResponse, build_command_response, CommandCache, CommandKey, eq_command_key, touched,
  cached, store,
}
use openontology.Service.Intercept.{
  Application, Backend, Response, answered, replayed_or, intercept_for, intercept,
}

touched-fst :
    (key : CommandKey) (o : Option CommandActionResponse) (c : CommandCache)
    → (touched key o c).0 ≡ o
touched-fst key none c = refl
touched-fst key (some value) c = refl

-- A command that was just stored is found.
cached-store :
    (key : CommandKey) (value : CommandActionResponse) (c : CommandCache)
    → 0 < c.max_entries
    → (cached key (store key value c)).0 ≡ some value
unfolding cached store
cached-store key value c h =
    let bounded : (c.max_entries == 0) ≡ false = ground arith in
    let kept : store key value c
        ≡ record c { entries = evict c.max_entries (put_last key value c.entries) } =
      rw bounded refl in
    rw kept
      (rw bounded (touched-fst key _ _ ∙ get-evict-put_last key value c.max_entries c.entries h))

cached-max_entries :
    (key : CommandKey) (c : CommandCache) → (cached key c).1.max_entries ≡ c.max_entries
unfolding cached
cached-max_entries key c = elim (Bool-cases (c.max_entries == 0)) [
  | inl off ↦ rw off refl
  | inr on ↦ rw on (same (get key c.entries))
]
  where
    same : (o : Option CommandActionResponse) → (touched key o c).1.max_entries ≡ c.max_entries
    same none = refl
    same (some value) = refl

-- A command that was found is found again.
cached_twice :
    (key : CommandKey) (value : CommandActionResponse) (c : CommandCache)
    → (cached key c).0 ≡ some value
    → (cached key (cached key c).1).0 ≡ some value
unfolding cached
cached_twice key value c h = elim (Bool-cases (c.max_entries == 0)) [
  | inl off ↦ absurd (let e : (cached key c).0 ≡ none = rw off refl in let f = sym e ∙ h in cc)
  | inr on ↦
      let e : cached key c ≡ touched key (get key c.entries) c = rw on refl in
      let hit : get key c.entries ≡ some value =
        sym (touched-fst key (get key c.entries) c) ∙ sym (ap (λ x. x.0) e) ∙ h in
      let moved : move_to_end key c.entries ≡ put_last key value c.entries =
        unfold move_to_end put_last in rw (hit, move_to_end) refl in
      rw e (
        rw hit
          (rw on (touched-fst key _ _ ∙ ap (get key) moved ∙ get-put_last key value c.entries)))
]

Same : (key : CommandKey) → CommandActionResponse → Response → Type 0
Same key command answer = answer.0 ≡ ok command → (cached key answer.1.cache).0 ≡ some command

module _ (command_id : Text) (payload : EnrichedGraphPayload) (tenant : Text)
    (r : Result AgentError EngineOutcome) where
  abbrev key : CommandKey
  key = (tenant, payload.event_id)

  answered-Same :
      (app : Application) (command : CommandActionResponse)
      → 0 < app.cache.max_entries
      → Same key command (answered command_id payload tenant r app)
  unfolding Same
  answered-Same app command bounded h = go r h
    where
      go :
          (q : Result AgentError EngineOutcome)
          → (answered command_id payload tenant q app).0 ≡ ok command
          → (cached key (answered command_id payload tenant q app).1.cache).0 ≡ some command
      go (ok outcome) h =
          cached-store key (build_command_response command_id payload outcome tenant) app.cache
            bounded
          ∙ ap some (ok_inj h)
      go (raise error) h = cc

  replayed-Same :
      (found : Option CommandActionResponse × CommandCache) (app : Application)
      (command : CommandActionResponse)
      → cached key app.cache ≡ found
      → 0 < app.cache.max_entries
      → Same key command (replayed_or found app (answered command_id payload tenant r))
  unfolding Same
  replayed-Same (some value, cache) app command e bounded h =
      subst (λ c. (cached key c).0 ≡ some command) (ap (λ x. x.1) e)
        (cached_twice key command app.cache (ap (λ x. x.0) e ∙ ap some (ok_inj h)))
  replayed-Same (none, cache) app command e bounded h =
      let same : cache.max_entries ≡ app.cache.max_entries =
        sym (ap (λ (x : Option CommandActionResponse × CommandCache). x.1.max_entries) e)
        ∙ cached-max_entries key app.cache in
      answered-Same (record app { cache = cache }) command (omega arith) h

intercept_for-Same :
    (backend : Backend) (command_id : Text) (payload : EnrichedGraphPayload)
    (verified : Result SubscriptionError EnterpriseSubscription × SlidingWindowQuota)
    (app : Application) (command : CommandActionResponse) (s : EnterpriseSubscription)
    → 0 < app.cache.max_entries
    → verified.0 ≡ ok s
    → Same
        (s.tenant, payload.event_id)
        command
        (intercept_for backend command_id payload verified app)
intercept_for-Same backend command_id payload (raise error, quota) app command s bounded e = cc
intercept_for-Same backend command_id payload (ok t, quota) app command s bounded e =
    subst
      (λ (x : EnterpriseSubscription).
        Same (x.tenant, payload.event_id) command
          (intercept_for backend command_id payload (ok t, quota) app))
      (ok_inj e)
      (replayed-Same command_id payload t.tenant
        (run backend.client backend.vector_store backend.settings payload)
        (cached (t.tenant, payload.event_id) app.cache) (record app { quota = quota }) command refl
        bounded)

-- a cached command is the answer
replay :
    (found : Option CommandActionResponse × CommandCache) (app : Application)
    (otherwise : Application → Response) (command : CommandActionResponse)
    → found.0 ≡ some command
    → (replayed_or found app otherwise).0 ≡ ok command
replay (none, cache) app otherwise command h = cc
replay (some found, cache) app otherwise command h = ap ok (some_inj h)

intercept_for-replay :
    (backend : Backend) (command_id : Text) (payload : EnrichedGraphPayload)
    (verified : Result SubscriptionError EnterpriseSubscription × SlidingWindowQuota)
    (app : Application) (command : CommandActionResponse) (s : EnterpriseSubscription)
    → verified.0 ≡ ok s
    → (cached (s.tenant, payload.event_id) app.cache).0 ≡ some command
    → (intercept_for backend command_id payload verified app).0 ≡ ok command
intercept_for-replay backend command_id payload (raise error, quota) app command s e h = cc
intercept_for-replay backend command_id payload (ok t, quota) app command s e h =
    replay (cached (t.tenant, payload.event_id) app.cache) (record app { quota = quota })
      (answered command_id payload t.tenant
        (run backend.client backend.vector_store backend.settings payload))
      command
      (ap (λ (x : EnterpriseSubscription). (cached (x.tenant, payload.event_id) app.cache).0)
          (ok_inj e)
        ∙ h)

module _ (backend : Backend) (request : LicensedRequest) (command_id : Text)
    (payload : EnrichedGraphPayload) (app : Application) where
  -- A command that was the answer for an event is the answer to the tenant's next request for this
  -- event, whatever its payload says and however the agents would answer it, if commands are
  -- cached and no other command came between.
  pub intercept-replays :
      (command : CommandActionResponse) (later : Backend) (again : LicensedRequest)
      (id_again : Text) (payload_again : EnrichedGraphPayload) (quota : SlidingWindowQuota)
      (s t : EnterpriseSubscription)
      → 0 < app.cache.max_entries
      → (verify_enterprise_subscription backend.digest request app.quota).0 ≡ ok s
      → (intercept backend request command_id payload app).0 ≡ ok command
      → (verify_enterprise_subscription later.digest again quota).0 ≡ ok t
      → t.tenant ≡ s.tenant
      → payload_again.event_id ≡ payload.event_id
      → (intercept later again id_again payload_again
          (record (intercept backend request command_id payload app).1 { quota = quota })).0
        ≡ ok command
  unfolding intercept Same
  intercept-replays command later again id_again payload_again quota s t bounded first issued second
        tenant event =
      intercept_for-replay later id_again payload_again _ _ command t second (
        rw (tenant, event)
          (intercept_for-Same backend command_id payload _ app command s bounded first issued))
