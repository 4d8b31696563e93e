-- ===== src/Analysis.antt =====
-- `analyse_topology` of services/graphrag-interceptor/graphrag_interceptor.py: the verdict that is
-- derived before any agent is asked. Its texts (`evidence`) are left out. A trust and a confidence
-- are numbers of millionths.
pub mod Kernel
pub mod Attribution
pub mod Decisions
use openontology.Prelude.{
  string_ne, All-map, Extends, Extends-refl, Extends-trans, Logged, Logged-Extends, Logged-append,
  replicate, replicate-snoc, NoneType, ok_inj, >>=-eq-ok, decimal, decimal_inj, IsDigit,
  decimal-IsDigit, ltb, leb, ◌==◌, if◌then◌else◌, ltb→lt, lt→ltb, leb→le, le→leb, ==_iff,
  Bool-cases, Option-cases, some_inj, length, take, is_empty, any, all, keep, length-append,
  length-take, length-keep-le, All, All-append, All-take, Result, ok, raise, ◌>>=◌, Result-cases,
  Eq, eq_string, eq_pair, string_beq_iff, pair_beq_iff, pair_beq, Text, codes, text_eq,
  text_eq_sound, text_eq_complete, text_eq_refl, text_eq_iff, eq_text, is_space, lstrip,
  rstrip_onto, rstrip, upper_char, find, member, find-All, lower_char, has_prefix, onto_first,
  split_on, strip, upper, lower, replace_char, rstrip_char, ℕ, zero, suc, ◌+◌, ◌-◌, ◌*◌, ◌/◌, ◌%◌,
  ◌^◌, ◌≤◌, ◌<◌, min, max, String, ◌≡◌, refl, sym, ap, ◌∙◌, subst, ◌≢◌, ◌↔◌, ◌⊎◌, inl, inr, Bool,
  true, false, not, ◌&&◌, ◌||◌, Option, none, some, List, [], ◌∷◌, ◌++◌, map, arith, string_eq,
}
use mathlib.Core.List.{reverse}
use openontology.OrderedDict.{Entries, get}
use openontology.Topology.{
  Band, band_rank, worst_band, CrdtPresence, same_presence, CrdtAssessment, resolve_crdt_presence,
}
use openontology.Safety.{round_to_thousandths}
use openontology.Prescription.{
  ActionType, isolate_valve, emergency_shutdown, degrade_throttle, ExecutionPriority, is_critical,
}
use openontology.Graph.Payload.{
  AssetStatus, is_faulted, is_offline, OntologyContext, EnrichedGraphPayload, known_nodes,
}
use openontology.Graph.Telemetry.{local_channels, attributed_channels, channels}
use openontology.Graph.Channels.{Exceedance, is_physical, rank, evaluate_channels}

pub data FaultClassification : Type 0 where
  localized_component inherited_cascade indeterminate no_fault_detected : FaultClassification

-- `InterceptorSettings`, as far as the kernel and the engine read it
pub record InterceptorSettings : Type 0 where
  pub min_graph_trust_for_irreversible : ℕ
  pub max_isolation_steps : ℕ
  pub agent_max_attempts : ℕ
  pub retrieval_top_k : ℕ

-- an entry of `reasons`, without its wording
pub data Reason : Type 0 where
  reports_status : Text → AssetStatus → Reason
  exceeds : Exceedance → Reason

abbrev pub status_reasons : Text → Option AssetStatus → List Reason
status_reasons node none = []
status_reasons node (some status) =
    if is_faulted status then reports_status node status ∷ [] else []

abbrev pub is_breach : Exceedance → Bool
is_breach item = is_physical item && leb 2 (rank item)

abbrev pub channel_reasons : Text → Option (Entries Text ℕ) → List Reason
channel_reasons node none = []
channel_reasons node (some readings) =
    map exceeds (keep is_breach (evaluate_channels readings node))

-- `_node_is_faulted`
unfoldable pub node_is_faulted :
    (health : Entries Text AssetStatus) (attributed : Entries Text (Entries Text ℕ)) (node : Text)
    → Bool × List Reason
unfolding get evaluate_channels
node_is_faulted health attributed node =
    let reasons =
      status_reasons node (get node health) ++ channel_reasons node (get node attributed) in
    (not (is_empty reasons), reasons)

-- `xs[-1]`, where there is one
abbrev pub last : List Text → Option Text
last [] = none
last (x ∷ []) = some x
last (x ∷ y ∷ ys) = last (y ∷ ys)

-- `xs.index(x)`, where it is there
abbrev pub index : Text → List Text → ℕ
index x [] = 0
index x (y ∷ ys) = let rest = suc (index x ys) in if text_eq x y then 0 else rest

-- the classification, the cascade path and the root cause
pub record Origin : Type 0 where
  pub classification : FaultClassification
  pub cascade_path : List Text
  pub root_cause : Text

-- the origin, from the furthest faulting node
unfoldable pub origin_at :
    (asset_id : Text) (upstream : List Text)
    → Option Text
    → (local_physical_fault integrity_warn graph_untrusted : Bool) → Origin
origin_at asset_id upstream (some origin) local_physical_fault integrity_warn untrusted = record {
  classification = inherited_cascade;
  cascade_path = reverse (take (index origin upstream + 1) upstream) ++ asset_id ∷ [];
  root_cause = origin;
}
origin_at asset_id upstream none local_physical_fault integrity_warn untrusted = record {
  classification =
      if local_physical_fault
      then localized_component
      else if integrity_warn || untrusted
      then indeterminate
      else no_fault_detected;
  cascade_path = [];
  root_cause = asset_id;
}

abbrev pub attribute_fault :
    (asset_id : Text) (upstream faulted_upstream : List Text)
    (local_physical_fault integrity_warn graph_untrusted : Bool)
    → Origin
attribute_fault asset_id upstream faulted_upstream =
    origin_at asset_id upstream (last faulted_upstream)

abbrev pub is_cascade : FaultClassification → Bool
is_cascade inherited_cascade = true
is_cascade _ = false

abbrev pub is_indeterminate : FaultClassification → Bool
is_indeterminate indeterminate = true
is_indeterminate _ = false

abbrev pub is_attributed : FaultClassification → Bool
is_attributed localized_component = true
is_attributed inherited_cascade = true
is_attributed _ = false

abbrev pub is_urgent : ExecutionPriority → Bool
is_urgent ExecutionPriority.critical = true
is_urgent ExecutionPriority.high = true
is_urgent ExecutionPriority.routine = false

abbrev pub at_least : ℕ → Band → Bool
at_least n b = leb n (band_rank b)

-- `asset.current_status in {ALARM, OFFLINE}`
abbrev pub is_alarming : AssetStatus → Bool
is_alarming AssetStatus.alarm = true
is_alarming AssetStatus.offline = true
is_alarming _ = false

-- `priority`
unfoldable pub prioritise :
    (severity_band : Band) (wide_blast asset_alarming : Bool)
    → FaultClassification
    → ExecutionPriority
prioritise severity_band wide_blast asset_alarming classification =
    if at_least 3 severity_band || (at_least 2 severity_band && (wide_blast || asset_alarming))
    then ExecutionPriority.critical
    else if at_least 2 severity_band || (is_cascade classification && at_least 1 severity_band)
    then ExecutionPriority.high
    else if at_least 1 severity_band || is_indeterminate classification
    then (if wide_blast then ExecutionPriority.high else ExecutionPriority.routine)
    else ExecutionPriority.routine

-- `irreversible_permitted`
unfoldable pub permits_irreversible :
    (graph_untrusted : Bool) → CrdtPresence → (telemetry_is_live : Bool) → Bool
permits_irreversible graph_untrusted presence telemetry_is_live =
    not graph_untrusted
    && not (same_presence presence CrdtPresence.unobserved)
    && not (same_presence presence CrdtPresence.tombstoned && telemetry_is_live)

-- `recommended`
unfoldable pub recommend :
    FaultClassification → (irreversible_permitted : Bool) → Band → ExecutionPriority → ActionType
recommend classification irreversible_permitted severity_band priority =
    if is_indeterminate classification || not irreversible_permitted
    then degrade_throttle
    else if at_least 3 severity_band && is_critical priority
    then emergency_shutdown
    else if is_attributed classification && is_urgent priority
    then isolate_valve
    else degrade_throttle

-- `confidence`, before and after it is weighed by the trust
abbrev pub doubts : FaultClassification → (is_degraded unobserved no_health : Bool) → ℕ
doubts classification is_degraded unobserved no_health =
    (if is_indeterminate classification then 350000 else 0)
    + (if is_degraded then 150000 else 0)
    + (if unobserved then 100000 else 0)
    + (if is_cascade classification && no_health then 100000 else 0)

unfoldable pub confidence_of :
    FaultClassification → (is_degraded unobserved no_health : Bool) → (graph_trust : ℕ) → ℕ
confidence_of classification is_degraded unobserved no_health graph_trust =
    let confidence = 900000 - doubts classification is_degraded unobserved no_health in
    round_to_thousandths
      (max 50000 (min 1000000 (confidence * (6000000 + 4 * graph_trust) / 10000000)))

-- `TopologyAnalysis`, without its texts
pub record TopologyAnalysis : Type 0 where
  pub asset_id : Text
  pub known : List Text
  pub upstream_chain : List Text
  pub downstream_impacts : List Text
  pub faulted_upstream : List Text
  pub attribution : Origin
  pub localized_components : List Text
  pub physical_exceedances : List Exceedance
  pub integrity_exceedances : List Exceedance
  pub severity_band : Band
  pub crdt : CrdtAssessment
  pub priority : ExecutionPriority
  pub recommended_action : ActionType
  pub irreversible_permitted : Bool
  pub confidence : ℕ

abbrev pub bands : List Exceedance → List Band
bands = map (λ item. item.in_band)

-- `context.dependency_health.get(node, UNKNOWN) is not OFFLINE`
abbrev pub is_live : Entries Text AssetStatus → Text → Bool
is_live health node = elim (get node health) [ none ↦ true | some status ↦ not (is_offline status) ]

-- `telemetry.get("crdt_collision_rate", 0.0) or 0.0`
abbrev pub or_zero : Option ℕ → ℕ
or_zero none = 0
or_zero (some value) = value
