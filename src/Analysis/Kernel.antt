-- ===== src/Analysis/Kernel.antt =====
-- `analyse_topology` of services/graphrag-interceptor/graphrag_interceptor.py as a whole.
use openontology.Prelude.{
  ltb, leb, length, is_empty, keep, eq_string, eq_pair, Text, codes, eq_text, Bool, not, List, map,
}
use openontology.OrderedDict.{get}
use openontology.Topology.{worst_band, resolve_crdt_presence}
use openontology.Graph.Payload.{EnrichedGraphPayload, known_nodes}
use openontology.Graph.Telemetry.{local_channels, attributed_channels, channels}
use openontology.Graph.Channels.{is_physical, rank, evaluate_channels}
use openontology.Analysis.{
  InterceptorSettings, node_is_faulted, attribute_fault, origin_at, at_least, is_alarming,
  prioritise, permits_irreversible, recommend, confidence_of, TopologyAnalysis, bands, is_live,
  or_zero,
}

unfoldable pub is_faulting : EnrichedGraphPayload → Text → Bool
unfolding node_is_faulted attributed_channels
is_faulting payload node =
    (node_is_faulted payload.ontology_context.dependency_health
      (attributed_channels payload.telemetry_snapshot) node).0

-- the nodes of the upstream chain that are faulting, nearest first
unfoldable pub faulted_nodes : EnrichedGraphPayload → List Text
unfolding is_faulting
faulted_nodes payload = keep (is_faulting payload) payload.ontology_context.upstream_dependencies

-- `analyse_topology`
unfoldable pub analyse_topology : EnrichedGraphPayload → InterceptorSettings → TopologyAnalysis
unfolding local_channels channels get evaluate_channels worst_band resolve_crdt_presence
    faulted_nodes origin_at prioritise permits_irreversible recommend confidence_of
analyse_topology payload settings =
    let asset = payload.asset_metadata in
    let context = payload.ontology_context in
    let telemetry = payload.telemetry_snapshot in
    let readings = local_channels telemetry in
    let scored = evaluate_channels readings asset.uuid in
    let physical = keep is_physical scored in
    let integrity = keep (λ item. not (is_physical item)) scored in
    let severity_band = worst_band (bands physical) in
    let integrity_band = worst_band (bands integrity) in
    let live_downstream = keep (is_live context.dependency_health) context.downstream_impacts in
    let telemetry_is_live = not (is_empty readings) in
    let crdt =
      resolve_crdt_presence context.replica_observations (not (is_empty live_downstream))
        (or_zero (get (codes "crdt_collision_rate") (channels telemetry))) telemetry_is_live in
    let graph_untrusted = ltb crdt.graph_trust settings.min_graph_trust_for_irreversible in
    let faulted_upstream = faulted_nodes payload in
    let attribution =
      attribute_fault asset.uuid context.upstream_dependencies faulted_upstream
        (at_least 1 severity_band) (at_least 1 integrity_band) graph_untrusted in
    let priority =
      prioritise severity_band (leb 3 (length context.downstream_impacts))
        (is_alarming asset.current_status) attribution.classification in
    let irreversible_permitted =
      permits_irreversible graph_untrusted crdt.presence telemetry_is_live in
    record {
      asset_id = asset.uuid;
      known = known_nodes payload;
      upstream_chain = context.upstream_dependencies;
      downstream_impacts = context.downstream_impacts;
      faulted_upstream = faulted_upstream;
      attribution = attribution;
      localized_components = map (λ item. item.channel) (keep (λ item. leb 1 (rank item)) physical);
      physical_exceedances = physical;
      integrity_exceedances = integrity;
      severity_band = severity_band;
      crdt = crdt;
      priority = priority;
      recommended_action =
          recommend attribution.classification irreversible_permitted severity_band priority;
      irreversible_permitted = irreversible_permitted;
      confidence =
          confidence_of attribution.classification payload.is_degraded
            (is_empty context.replica_observations) (is_empty context.dependency_health)
            crdt.graph_trust;
    }
