-- ===== src/Graph/Contract.antt =====
-- What an accepted payload guarantees.
use openontology.Prelude.{
  ok_inj, >>=-eq-ok, if◌then◌else◌, Bool-cases, any, all, All, All-append, ok, eq_string, eq_pair,
  Text, text_eq_iff, eq_text, member, strip, ◌≡◌, refl, subst, ◌↔◌, inl, inr, Bool, true, false,
  ◌||◌, List, [], ◌∷◌, ◌++◌, arith,
}
use openontology.Graph.Nodes.{is_node_id, validate_node_id, edges_from, validate_edges, Distinct}
use openontology.Graph.Payload.{EnrichedGraphPayload, known_nodes, keys, cross_check_topology}
use openontology.Graph.Telemetry.{attributed_channels}

validate_node_id-ok : (raw node : Text) → validate_node_id raw ≡ ok node → is_node_id node ≡ true
unfolding validate_node_id
validate_node_id-ok raw node h = elim (Bool-cases (is_node_id (strip raw))) [
  | inl fit ↦
      let same : strip raw ≡ node = ground arith in subst (λ n. is_node_id n ≡ true) same fit
  | inr misfit ↦ absurd (ground arith)
]

pub member-append :
    (k : Text) (xs ys : List Text) → member k (xs ++ ys) ≡ (member k xs || member k ys)
member-append k [] ys = refl
member-append k (x ∷ xs) ys = ground (arith, member-append k xs ys)

Distinct-snoc :
    (nodes : List Text) (node : Text)
    → member node nodes ≡ false
    → Distinct nodes
    → Distinct (nodes ++ node ∷ [])
Distinct-snoc [] node h d = (refl, tt)
Distinct-snoc (x ∷ nodes) node h d = (
  ground (arith, member-append x nodes (node ∷ []), text_eq_iff x node, text_eq_iff node x, d.0),
  Distinct-snoc nodes node (ground arith) d.1,
)

abbrev pub AreNodes : List Text → Type 0
AreNodes nodes = Distinct nodes × All (λ node. is_node_id node ≡ true) nodes

keep_new :
    (ordered : List Text) (node : Text)
    → is_node_id node ≡ true
    → AreNodes ordered
    → AreNodes (if member node ordered then ordered else ordered ++ node ∷ [])
keep_new ordered node fit h = elim (Bool-cases (member node ordered)) [
  | inl old ↦ rw old h
  | inr new ↦ rw new (
    Distinct-snoc ordered node new h.0,
    All-append (λ n. is_node_id n ≡ true) ordered (node ∷ []) h.1 (fit, tt),
  )
]

edges_from-AreNodes :
    (ordered values nodes : List Text)
    → AreNodes ordered
    → edges_from ordered values ≡ ok nodes
    → AreNodes nodes
unfolding edges_from
edges_from-AreNodes ordered [] nodes h e = subst AreNodes (ok_inj e) h
edges_from-AreNodes ordered (raw ∷ values) nodes h e =
    let (node, valid, rest) = >>=-eq-ok (validate_node_id raw) _ e in
    edges_from-AreNodes (if member node ordered then ordered else ordered ++ node ∷ []) values nodes
      (keep_new ordered node (validate_node_id-ok raw node valid) h) rest

-- The validated edges are node identifiers, and no node stands among them twice.
pub validate_edges-AreNodes :
    (values nodes : List Text) → validate_edges values ≡ ok nodes → AreNodes nodes
unfolding validate_edges
validate_edges-AreNodes values nodes h = edges_from-AreNodes [] values nodes (tt, tt) h

-- The localised topology: the asset is not its own neighbour, no node is on both sides of it, and
-- health and telemetry are about nodes of the payload.
pub record IsLocal (payload : EnrichedGraphPayload) : Type 0 where
  pub not_upstream :
      member payload.asset_metadata.uuid payload.ontology_context.upstream_dependencies ≡ false
  pub not_downstream :
      member payload.asset_metadata.uuid payload.ontology_context.downstream_impacts ≡ false
  pub one_side :
      All
        (λ node. member node payload.ontology_context.downstream_impacts ≡ false)
        payload.ontology_context.upstream_dependencies
  pub health_known :
      All
        (λ node. member node (known_nodes payload) ≡ true)
        (keys payload.ontology_context.dependency_health)
  pub attribution_known :
      All
        (λ node. member node (known_nodes payload) ≡ true)
        (keys (attributed_channels payload.telemetry_snapshot))

pub all-All : (p : Text → Bool) (xs : List Text) → (all p xs ≡ true) ↔ All (λ x. p x ≡ true) xs
all-All p [] = (λ h. tt, λ h. refl)
all-All p (x ∷ xs) = (
  λ h. (ground arith, (all-All p xs).0 (ground arith)),
  λ h. ground (arith, h.0, (all-All p xs).1 h.1),
)

any-All : (p : Text → Bool) (xs : List Text) → (any p xs ≡ false) ↔ All (λ x. p x ≡ false) xs
any-All p [] = (λ h. tt, λ h. refl)
any-All p (x ∷ xs) = (
  λ h. (ground arith, (any-All p xs).0 (ground arith)),
  λ h. ground (arith, h.0, (any-All p xs).1 h.1),
)

-- A payload is accepted, unchanged, if and only if its topology is local.
pub cross_check_topology-ok_iff :
    (payload : EnrichedGraphPayload) → (cross_check_topology payload ≡ ok payload) ↔ IsLocal payload
unfolding cross_check_topology
cross_check_topology-ok_iff payload = (
  λ h. record {
    not_upstream = ground arith;
    not_downstream = ground arith;
    one_side = (any-All _ _).0 (ground arith);
    health_known = (all-All _ _).0 (ground arith);
    attribution_known = (all-All _ _).0 (ground arith);
  },
  λ h. ground (
    arith,
    h.not_upstream,
    h.not_downstream,
    (any-All _ _).1 h.one_side,
    (all-All _ _).1 h.health_known,
    (all-All _ _).1 h.attribution_known,
  ),
)
