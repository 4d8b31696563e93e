-- ===== src/Graph/Payload.antt =====
-- `EnrichedGraphPayload` of services/graphrag-interceptor/graphrag_interceptor.py with the parts
-- that the topology kernel reads, and the checks across them.
use openontology.Prelude.{
  if◌then◌else◌, any, all, Result, ok, raise, eq_string, eq_pair, Text, eq_text, member, Bool, true,
  false, not, ◌||◌, List, ◌∷◌, ◌++◌, map,
}
use openontology.Graph.Nodes.{
  ContractError, self_loop, both_ways, unknown_health, unknown_attribution,
}
use openontology.Graph.Telemetry.{TelemetrySnapshot, attributed_channels}
use openontology.OrderedDict.{Entries}
use openontology.Topology.{ReplicaObservation}

pub data AssetStatus : Type 0 where
  operational degraded alarm offline maintenance unknown : AssetStatus

-- `AssetStatus.is_faulted`
abbrev pub is_faulted : AssetStatus → Bool
is_faulted degraded = true
is_faulted alarm = true
is_faulted offline = true
is_faulted _ = false

abbrev pub is_offline : AssetStatus → Bool
is_offline offline = true
is_offline _ = false

pub record AssetMetadata : Type 0 where
  pub uuid : Text
  pub name : Text
  pub model_number : Text
  pub current_status : AssetStatus

pub record OntologyContext : Type 0 where
  pub parent_system : Text
  pub upstream_dependencies : List Text
  pub downstream_impacts : List Text
  pub dependency_health : Entries Text AssetStatus
  pub replica_observations : List ReplicaObservation

pub record EnrichedGraphPayload : Type 0 where
  pub event_id : Text
  pub asset_metadata : AssetMetadata
  pub ontology_context : OntologyContext
  pub telemetry_snapshot : TelemetrySnapshot
  pub is_degraded : Bool

-- `known_nodes`, a set
abbrev pub known_nodes : EnrichedGraphPayload → List Text
known_nodes payload =
    let context = payload.ontology_context in
    payload.asset_metadata.uuid
    ∷ context.parent_system
    ∷ (context.upstream_dependencies ++ context.downstream_impacts)

abbrev pub keys : {V : Type 0} → Entries Text V → List Text
keys = map (λ entry. entry.0)

abbrev pub all_within : List Text → List Text → Bool
all_within known nodes = all (λ node. member node known) nodes

-- `_cross_check_topology`
unfoldable pub cross_check_topology :
    EnrichedGraphPayload → Result ContractError EnrichedGraphPayload
cross_check_topology payload =
    let context = payload.ontology_context in
    let asset_id = payload.asset_metadata.uuid in
    if member asset_id context.upstream_dependencies || member asset_id context.downstream_impacts
    then raise self_loop
    else if any (λ node. member node context.downstream_impacts) context.upstream_dependencies
    then raise both_ways
    else if not (all_within (known_nodes payload) (keys context.dependency_health))
    then raise unknown_health
    else if not
        (all_within (known_nodes payload) (keys (attributed_channels payload.telemetry_snapshot)))
    then raise unknown_attribution
    else ok payload
