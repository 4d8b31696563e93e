-- ===== src/Tests/Graph.antt =====
-- Runs of the topology kernel and of the engine on one pump.
use openontology.Prelude.{
  eq_string, eq_pair, Text, codes, eq_text, member, ℕ, zero, suc, ◌+◌, ◌≤◌, ◌≡◌, refl, true, false,
  none, some, List, [], ◌∷◌, ◌++◌, arith,
}
use openontology.Topology.{ReplicaObservation}
use openontology.Prescription.{emergency_shutdown, StepActor}
use openontology.OrderedDict.{Entries}
use openontology.Graph.Telemetry.{TelemetrySnapshot}
use openontology.Graph.Payload.{AssetStatus, EnrichedGraphPayload}
use openontology.Graph.Nodes.{Distinct}
use openontology.Analysis.{InterceptorSettings}
use openontology.Engine.Loop.{VectorStore}
use openontology.Engine.Reasoning.{Wording}
use openontology.Manual.{ManualChunk}

abbrev pub pump : Text
pump = codes "pump-114"

abbrev pub valve : Text
valve = codes "valve-9"

abbrev pub tank : Text
tank = codes "tank-2"

abbrev pub plant : Text
plant = codes "plant-a"

abbrev pub seen_live : ReplicaObservation
seen_live = record { replica_id = codes "site-1"; add_stamp = 4; remove_stamp = 2 }

abbrev pub telemetry : ℕ → Entries Text ℕ → TelemetrySnapshot
telemetry vibration extras = record {
  vibration_index = some vibration;
  temperature_celsius = none;
  crdt_collision_rate = none;
  extras = extras;
}

-- the pump between two upstream nodes and a consumer
abbrev pub payload_of :
    List Text → Entries Text AssetStatus → TelemetrySnapshot → EnrichedGraphPayload
payload_of upstream health snapshot = record {
  event_id = codes "evt-1";
  asset_metadata = record {
    uuid = pump;
    name = codes "Feed pump";
    model_number = codes "CP-200/b";
    current_status = AssetStatus.alarm;
  };
  ontology_context = record {
    parent_system = plant;
    upstream_dependencies = upstream;
    downstream_impacts = codes "boiler-1" ∷ [];
    dependency_health = health;
    replica_observations = seen_live ∷ [];
  };
  telemetry_snapshot = snapshot;
  is_degraded = false;
}

-- a vibration beyond the hard limit, with healthy neighbours
abbrev pub hot : EnrichedGraphPayload
hot = payload_of (valve ∷ tank ∷ []) [] (telemetry 10000000 [])

-- a quiet pump behind a tank in alarm
abbrev pub fed : EnrichedGraphPayload
fed = payload_of (valve ∷ tank ∷ []) ((tank, AssetStatus.alarm) ∷ []) (telemetry 1000000 [])

abbrev pub settings : InterceptorSettings
settings = record {
  min_graph_trust_for_irreversible = 650000;
  max_isolation_steps = 12;
  agent_max_attempts = 3;
  retrieval_top_k = 4;
}

abbrev pub trip : ManualChunk
trip = record {
  doc_id = codes "oem-7";
  source = codes "OEM manual";
  procedure =
      record {
        actor = StepActor.control_system;
        instruction = codes "Trip the unit.";
        verification = codes "Speed is zero.";
        reversible = false;
        estimated_seconds = 30;
      }
      ∷ [];
  model_families = [];
  applicable_actions = emergency_shutdown ∷ [];
  classifications = [];
  tags = [];
  supplementary = false;
}

abbrev pub close_out : ManualChunk
close_out = record {
  doc_id = codes "gen-3";
  source = codes "Site manual";
  procedure =
      record {
        actor = StepActor.human_supervisor;
        instruction = codes "Write the state back to the graph.";
        verification = codes "Graph shows it.";
        reversible = true;
        estimated_seconds = 60;
      }
      ∷ [];
  model_families = [];
  applicable_actions = [];
  classifications = [];
  tags = codes "closure" ∷ [];
  supplementary = true;
}

abbrev pub vector_store : VectorStore
vector_store = record {
  corpus = close_out ∷ trip ∷ [];
  primary_similarity = λ payload verdict chunk. 100000;
  secondary_similarity = λ verdict chunk. 200000;
}

abbrev pub wording : Wording
wording = record {
  render = λ template. template;
  hold_instruction = codes "Hold the asset at its safe state.";
  rationale = codes "The fault is contained.";
}

-- `n` nodes with different names, the first one named last in the alphabet
abbrev pub chain : ℕ → List Text
chain zero = []
chain (suc n) = ((97 + n) ∷ []) ∷ chain n

abbrev pub far : Text
far = 40 ∷ []

-- 64 upstream nodes, of which the furthest is in alarm
abbrev pub long : EnrichedGraphPayload
long = payload_of (chain 63 ++ far ∷ []) ((far, AssetStatus.alarm) ∷ []) (telemetry 1000000 [])

not_in_chain : (m n : ℕ) → n ≤ m → member ((97 + m) ∷ []) (chain n ++ far ∷ []) ≡ false
not_in_chain m zero h = ground arith
not_in_chain m (suc n) h = ground (arith, not_in_chain m n)

pub chain-Distinct : (n : ℕ) → Distinct (chain n ++ far ∷ [])
chain-Distinct zero = (refl, tt)
chain-Distinct (suc n) = (not_in_chain n n (omega arith), chain-Distinct n)
