-- ===== src/Engine/Cited.antt =====
-- The verdict of the deterministic isolator, against the graph that it was given.
use openontology.Prelude.{
  All-map, is_empty, All, All-append, ok, eq_string, eq_pair, Text, text_eq_refl, eq_text, member,
  ◌≡◌, refl, sym, subst, true, false, ◌&&◌, List, [], ◌∷◌, ◌++◌, arith,
}
use mathlib.Core.List.{reverse, reverse-cons}
use openontology.Graph.Contract.{all-All}
use openontology.Graph.Nodes.{Distinct}
use openontology.Graph.Payload.{EnrichedGraphPayload, known_nodes}
use openontology.Analysis.{InterceptorSettings, Origin, is_cascade}
use openontology.Analysis.Kernel.{analyse_topology}
use openontology.Analysis.Attribution.{Attributes, inherited, own, analyse_topology-Attributes}
use openontology.Engine.Agents.{validate_verdict}
use openontology.Engine.Reasoning.{topology_verdict}

All-self : (xs : List Text) → All (λ x. member x xs ≡ true) xs
All-self [] = tt
All-self (x ∷ xs) = (rw (text_eq_refl x) refl, All-map _ _ (λ y h. ground arith) xs (All-self xs))

module _ (P : Text → Type 0) where
  All-left : (xs ys : List Text) → All P (xs ++ ys) → All P xs
  All-left [] ys h = tt
  All-left (x ∷ xs) ys h = (h.0, All-left xs ys h.1)

  All-right : (xs ys : List Text) → All P (xs ++ ys) → All P ys
  All-right [] ys h = h
  All-right (x ∷ xs) ys h = All-right xs ys h.1

  All-reverse : (xs : List Text) → All P xs → All P (reverse xs)
  All-reverse [] h = tt
  All-reverse (x ∷ xs) h =
      rw reverse-cons (All-append P (reverse xs) (x ∷ []) (All-reverse xs h.1) (h.0, tt))

module _ (payload : EnrichedGraphPayload) where
  abbrev IsKnown : Text → Type 0
  IsKnown node = member node (known_nodes payload) ≡ true

  abbrev upstream : List Text
  upstream = payload.ontology_context.upstream_dependencies

  abbrev consumers : List Text
  consumers = payload.ontology_context.downstream_impacts

  every_node : All IsKnown (known_nodes payload)
  every_node = All-self (known_nodes payload)

  -- The root cause and the cascade path are nodes of the payload, and a cascade has a path.
  cited_nodes :
      (a : Origin)
      → Attributes payload a
      → All IsKnown (a.root_cause ∷ (a.cascade_path ++ consumers))
        × ((is_cascade a.classification && is_empty a.cascade_path) ≡ false)
  cited_nodes a (inherited nearer further c e test rest path) =
      let neighbours = every_node.1.1 in
      let up = subst (All IsKnown) e (All-left IsKnown upstream consumers neighbours) in
      let back = All-reverse IsKnown nearer (All-left IsKnown nearer _ up) in
      let root = (All-right IsKnown nearer _ up).0 in
      let path_known : All IsKnown
          (a.root_cause ∷ (reverse nearer ++ payload.asset_metadata.uuid ∷ [])) =
        (root, All-append IsKnown (reverse nearer) _ back (every_node.0, tt)) in
      (
        (
          root,
          All-append IsKnown a.cascade_path consumers (subst (All IsKnown) (sym path) path_known)
              (All-right IsKnown upstream consumers neighbours),
        ),
        rw (c, path) refl,
      )
  cited_nodes a (own c rest root path) = (
    (
      subst IsKnown (sym root) every_node.0,
      subst (λ p. All IsKnown (p ++ consumers)) (sym path)
          (All-right IsKnown upstream consumers every_node.1.1),
    ),
    rw c refl,
  )

  -- The deterministic isolator never leaves the graph that it was given.
  pub topology_verdict-valid :
      (settings : InterceptorSettings)
      → Distinct upstream
      → validate_verdict
          (analyse_topology payload settings)
          (topology_verdict (analyse_topology payload settings))
        ≡ ok tt
  unfolding validate_verdict analyse_topology
  topology_verdict-valid settings d =
      let a = (analyse_topology payload settings).attribution in
      let (known, path) = cited_nodes a (analyse_topology-Attributes payload settings d) in
      let inside =
        (all-All (λ node. member node (known_nodes payload))
            (a.root_cause ∷ (a.cascade_path ++ consumers))).1
          known in
      rw (inside, path) refl

  pub root_known :
      (settings : InterceptorSettings)
      → Distinct upstream
      → let a = analyse_topology payload settings in member a.attribution.root_cause a.known ≡ true
  unfolding analyse_topology
  root_known settings d =
      (cited_nodes (analyse_topology payload settings).attribution
        (analyse_topology-Attributes payload settings d)).0.0
