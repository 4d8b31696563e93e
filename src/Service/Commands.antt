-- ===== src/Service/Commands.antt =====
-- `build_command_response` and `CommandCache` of
-- services/graphrag-interceptor/graphrag_interceptor.py. Of a response, the texts of the verdict and
-- the excerpts of the manual are left out.
use openontology.Prelude.{
  ◌==◌, if◌then◌else◌, take, all, Eq, eq_string, eq_pair, Text, text_eq, text_eq_sound,
  text_eq_complete, eq_text, ℕ, ◌≡◌, refl, ◌↔◌, Bool, true, not, ◌&&◌, Option, none, some, List, [],
  ◌∷◌, arith,
}
use openontology.OrderedDict.{Entries, get, put_last, move_to_end, evict}
use openontology.Topology.{CrdtAssessment}
use openontology.Prescription.{ActionType, is_irreversible, ExecutionPriority, IsolationStep}
use openontology.Safety.{Guardrail}
use openontology.Graph.Payload.{EnrichedGraphPayload}
use openontology.Graph.Telemetry.{set_item}
use openontology.Analysis.{FaultClassification}
use openontology.Manual.Store.{Hit}
use openontology.Engine.Loop.{EngineOutcome}

pub record CommandActionResponse : Type 0 where
  pub command_id : Text
  pub target_asset_id : Text
  pub action_type : ActionType
  pub isolation_steps : List IsolationStep
  pub execution_priority : ExecutionPriority
  pub event_id : Text
  pub source_asset_id : Text
  pub tenant : Text
  pub fault_classification : FaultClassification
  pub cascade_path : List Text
  pub blast_radius : List Text
  pub blast_radius_protection : List Text
  pub crdt_assessment : CrdtAssessment
  pub requires_human_authorization : Bool
  pub reversible : Bool
  pub confidence : ℕ
  pub manual_references : List Hit
  pub guardrails_applied : List Guardrail

-- `{chunk.doc_id: (chunk, score) ...}`
unfoldable pub by_id : Entries Text Hit → List Hit → Entries Text Hit
unfolding set_item
by_id d [] = d
by_id d (hit ∷ hits) = by_id (set_item hit.0.doc_id hit d) hits

abbrev pub and_more : Option Hit → List Hit → List Hit
and_more none hits = hits
and_more (some hit) hits = hit ∷ hits

-- the cited chunks, in the order of the plan's references
unfoldable pub cited_hits : Entries Text Hit → List Text → List Hit
unfolding get
cited_hits d [] = []
cited_hits d (doc_id ∷ references) = and_more (get doc_id d) (cited_hits d references)

abbrev pub or_first_three : List Hit → List Hit → List Hit
or_first_three [] guidelines = take 3 guidelines
or_first_three (hit ∷ cited) guidelines = hit ∷ cited

-- `build_command_response`
unfoldable pub build_command_response :
    (command_id : Text)
    → EnrichedGraphPayload
    → EngineOutcome
    → (tenant : Text) → CommandActionResponse
unfolding by_id cited_hits
build_command_response command_id payload outcome tenant =
    let plan = outcome.plan in
    let verdict = outcome.verdict in
    record {
      command_id = command_id;
      target_asset_id = plan.target_asset_id;
      action_type = plan.action_type;
      isolation_steps = plan.isolation_steps;
      execution_priority = plan.execution_priority;
      event_id = payload.event_id;
      source_asset_id = payload.asset_metadata.uuid;
      tenant = tenant;
      fault_classification = verdict.fault_classification;
      cascade_path = verdict.cascade_path;
      blast_radius = verdict.blast_radius;
      blast_radius_protection = plan.blast_radius_protection;
      crdt_assessment = verdict.crdt_assessment;
      requires_human_authorization = plan.requires_human_authorization;
      reversible =
          not (is_irreversible plan.action_type)
          && all (λ step. step.reversible) plan.isolation_steps;
      confidence = plan.confidence;
      manual_references =
          or_first_three (cited_hits (by_id [] outcome.guidelines) plan.manual_references)
            outcome.guidelines;
      guardrails_applied = outcome.guardrails;
    }

-- the tenant and the event id
abbrev pub CommandKey : Type 0
CommandKey = Text × Text

abbrev pub key_beq : CommandKey → CommandKey → Bool
key_beq (a, b) (c, d) = text_eq a c && text_eq b d

pub key_beq_iff : (p q : CommandKey) → (key_beq p q ≡ true) ↔ (p ≡ q)
key_beq_iff (a, b) (c, d) = (
  (λ h.
      let first : a ≡ c = text_eq_sound a c (ground arith) in
      let second : b ≡ d = text_eq_sound b d (ground arith) in λ i. (first i, second i)),
  (λ h.
      let first : text_eq a c ≡ true = text_eq_complete a c (λ i. (h i).0) in
      let second : text_eq b d ≡ true = text_eq_complete b d (λ i. (h i).1) in
      rw (first, second) refl),
)

instance abbrev pub eq_command_key : Eq CommandKey
eq_command_key = record { beq = key_beq; beq_iff = key_beq_iff }

pub record CommandCache : Type 0 where
  pub max_entries : ℕ
  pub entries : Entries CommandKey CommandActionResponse

abbrev pub touched :
    CommandKey
    → Option CommandActionResponse
    → CommandCache
    → Option CommandActionResponse × CommandCache
touched key none c = (none, c)
touched key (some value) c = (some value, record c { entries = move_to_end key c.entries })

-- `CommandCache.get`
unfoldable pub cached : CommandKey → CommandCache → Option CommandActionResponse × CommandCache
unfolding get move_to_end
cached key c = if c.max_entries == 0 then (none, c) else touched key (get key c.entries) c

-- `CommandCache.put`
unfoldable pub store : CommandKey → CommandActionResponse → CommandCache → CommandCache
unfolding evict put_last
store key value c =
    if c.max_entries == 0
    then c
    else record c { entries = evict c.max_entries (put_last key value c.entries) }
