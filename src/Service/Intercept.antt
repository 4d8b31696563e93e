-- ===== src/Service/Intercept.antt =====
-- `intercept` of services/graphrag-interceptor/graphrag_interceptor.py. One request is one step: two
-- requests for one event at the same moment are not modelled. What is cached is the command itself,
-- since a response reads back as it was written.
use openontology.Prelude.{Result, ok, raise, eq_string, eq_pair, Text, eq_text, Option, none, some}
use openontology.Graph.Payload.{EnrichedGraphPayload}
use openontology.Analysis.{InterceptorSettings}
use openontology.Engine.Agents.{AgentError}
use openontology.Engine.Loop.{AgentClient, VectorStore, EngineOutcome, run}
use openontology.Service.Gate.{
  EnterpriseSubscription, SlidingWindowQuota, SubscriptionError, LicensedRequest,
  verify_enterprise_subscription,
}
use openontology.Service.Commands.{
  CommandActionResponse, build_command_response, CommandCache, cached, store,
}

pub data InterceptError : Type 0 where
  rejected : SubscriptionError → InterceptError
  agent_failed : AgentError → InterceptError

-- the state of the application
pub record Application : Type 0 where
  pub quota : SlidingWindowQuota
  pub cache : CommandCache

-- what the service calls and reads
pub record Backend : Type 0 where
  pub digest : Text → Text
  pub client : AgentClient
  pub vector_store : VectorStore
  pub settings : InterceptorSettings

abbrev pub Response : Type 0
Response = Result InterceptError CommandActionResponse × Application

abbrev pub answered :
    (command_id : Text)
    → EnrichedGraphPayload
    → (tenant : Text) → Result AgentError EngineOutcome
    → Application
    → Response
answered command_id payload tenant (ok outcome) app =
    let command = build_command_response command_id payload outcome tenant in
    (ok command, record app { cache = store (tenant, payload.event_id) command app.cache })
answered command_id payload tenant (raise error) app = (raise (agent_failed error), app)

-- what follows `cache.get`
abbrev pub replayed_or :
    Option CommandActionResponse × CommandCache → Application → (Application → Response) → Response
replayed_or (some command, cache) app otherwise = (ok command, record app { cache = cache })
replayed_or (none, cache) app otherwise = otherwise (record app { cache = cache })

-- the body of the route
abbrev pub intercept_for :
    Backend
    → (command_id : Text) → EnrichedGraphPayload
    → Result SubscriptionError EnterpriseSubscription × SlidingWindowQuota
    → Application
    → Response
intercept_for backend command_id payload (raise error, quota) app =
    (raise (rejected error), record app { quota = quota })
intercept_for backend command_id payload (ok subscription, quota) app =
    replayed_or (cached (subscription.tenant, payload.event_id) app.cache)
      (record app { quota = quota })
      (answered command_id payload subscription.tenant
        (run backend.client backend.vector_store backend.settings payload))

-- `intercept`
unfoldable pub intercept :
    Backend → LicensedRequest → (command_id : Text) → EnrichedGraphPayload → Application → Response
unfolding verify_enterprise_subscription cached store build_command_response run
intercept backend request command_id payload app =
    intercept_for backend command_id payload
      (verify_enterprise_subscription backend.digest request app.quota) app
