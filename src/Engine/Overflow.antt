-- ===== src/Engine/Overflow.antt =====
-- A cascade that the contract of a verdict has no room for.
use openontology.Prelude.{
  NoneType, Bool-cases, some_inj, length, take, keep, length-append, Result, raise, eq_string,
  eq_pair, Text, eq_text, ℕ, zero, suc, ◌+◌, ◌<◌, ◌≡◌, refl, ap, ◌∙◌, inl, inr, Bool, true, false,
  Option, none, some, List, [], ◌∷◌, ◌++◌, arith,
}
use mathlib.Core.List.{reverse, reverse-cons}
use openontology.Graph.Nodes.{Distinct}
use openontology.Graph.Payload.{EnrichedGraphPayload}
use openontology.Analysis.{InterceptorSettings, last, index, origin_at}
use openontology.Analysis.Kernel.{is_faulting, faulted_nodes, analyse_topology}
use openontology.Analysis.Attribution.{path_back, keep-cons, keep-skip, last-cons-some}
use openontology.Engine.Agents.{
  TopologyIsolationVerdict, verdict_contract, AgentError, invalid_answer, validate_verdict,
}
use openontology.Engine.Invoke.{emitted, attempts, invoke}
use openontology.Engine.Reasoning.{Wording, topology_verdict}
use openontology.Engine.Deterministic.{deterministic}
use openontology.Engine.Loop.{VectorStore, run_topology_isolator, run_on, run}

last-keep-snoc :
    (p : Text → Bool) (xs : List Text) (x : Text)
    → p x ≡ true
    → last (keep p (xs ++ x ∷ [])) ≡ some x
last-keep-snoc p [] x h = rw h refl
last-keep-snoc p (y ∷ xs) x h = elim (Bool-cases (p y)) [
  | inl hit ↦
      ap last (keep-cons p y (xs ++ x ∷ []) hit)
      ∙ last-cons-some y x (keep p (xs ++ x ∷ [])) (last-keep-snoc p xs x h)
  | inr miss ↦ ap last (keep-skip p y (xs ++ x ∷ []) miss) ∙ last-keep-snoc p xs x h
]

length-reverse : (xs : List Text) → length (reverse xs) ≡ length xs
length-reverse [] = refl
length-reverse (x ∷ xs) =
    rw reverse-cons (omega (arith, length-append (reverse xs) (x ∷ []), length-reverse xs))

attempts-rejected :
    {A : Type 0} (contract : A → Bool) (validate : A → Result AgentError NoneType) (parsed : A)
    (left attempt : ℕ)
    → contract parsed ≡ false
    → attempts contract validate (λ n. emitted parsed) left attempt invalid_answer
      ≡ raise invalid_answer
unfolding attempts
attempts-rejected contract validate parsed zero attempt h = refl
attempts-rejected contract validate parsed (suc left) attempt h =
    rw h (attempts-rejected contract validate parsed left (attempt + 1) h)

invoke-rejected :
    {A : Type 0} (contract : A → Bool) (validate : A → Result AgentError NoneType) (parsed : A)
    (max_ : ℕ)
    → 0 < max_
    → contract parsed ≡ false
    → invoke contract validate (λ n. emitted parsed) max_ ≡ raise invalid_answer
unfolding invoke attempts
invoke-rejected contract validate parsed zero h bad = elim h [ ]
invoke-rejected contract validate parsed (suc left) h bad =
    rw bad (attempts-rejected contract validate parsed left 2 bad)

too_long :
    (verdict : TopologyIsolationVerdict)
    → 64 < length verdict.cascade_path
    → verdict_contract verdict ≡ false
unfolding verdict_contract
too_long verdict h = ground arith

origin_path :
    (asset_id : Text) (upstream : List Text) (o : Option Text) (x : Text)
    (local_physical_fault integrity_warn untrusted : Bool)
    → o ≡ some x
    → (origin_at asset_id upstream o local_physical_fault integrity_warn untrusted).cascade_path
      ≡ reverse (take (index x upstream + 1) upstream) ++ asset_id ∷ []
unfolding origin_at
origin_path asset_id upstream none x l i u e = cc
origin_path asset_id upstream (some y) x l i u e =
    ap (λ z. reverse (take (index z upstream + 1) upstream) ++ asset_id ∷ []) (some_inj e)

module _ (wording : Wording) (store : VectorStore) (settings : InterceptorSettings)
    (payload : EnrichedGraphPayload) (nearer : List Text) (root : Text)
    (distinct : Distinct payload.ontology_context.upstream_dependencies)
    (chain : payload.ontology_context.upstream_dependencies ≡ nearer ++ root ∷ [])
    (faulting : is_faulting payload root ≡ true) where
  origin : last (faulted_nodes payload) ≡ some root
  unfolding faulted_nodes
  origin =
      ap (λ xs. last (keep (is_faulting payload) xs)) chain
      ∙ last-keep-snoc (is_faulting payload) nearer root faulting

  path :
      (analyse_topology payload settings).attribution.cascade_path
      ≡ root ∷ (reverse nearer ++ payload.asset_metadata.uuid ∷ [])
  unfolding analyse_topology
  path =
      origin_path payload.asset_metadata.uuid payload.ontology_context.upstream_dependencies
        (last (faulted_nodes payload)) root _ _ _ origin
      ∙ path_back payload.asset_metadata.uuid root nearer []
          payload.ontology_context.upstream_dependencies distinct chain

  -- A chain of 64 upstream nodes, which the inbound contract allows, whose furthest node is
  -- faulting never gets a command: its cascade path of 65 nodes breaks the contract of the
  -- verdict, and the deterministic isolator gives the same answer at every attempt.
  pub run-too_long :
      length nearer ≡ 63
      → 0 < settings.agent_max_attempts
      → run (deterministic wording settings.max_isolation_steps) store settings payload
        ≡ raise invalid_answer
  unfolding run run_on run_topology_isolator
  run-too_long long h =
      let analysis = analyse_topology payload settings in
      let count : 64 < length analysis.attribution.cascade_path = rw path (
        omega (
          arith,
          long,
          length-reverse nearer,
          length-append (reverse nearer) (payload.asset_metadata.uuid ∷ []),
        )) in
      rw
        (invoke-rejected verdict_contract (validate_verdict analysis) (topology_verdict analysis)
          settings.agent_max_attempts h (too_long (topology_verdict analysis) count))
        refl
