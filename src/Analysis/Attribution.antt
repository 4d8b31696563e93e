-- ===== src/Analysis/Attribution.antt =====
-- Where the kernel puts the root cause.
use openontology.Prelude.{
  Bool-cases, Option-cases, length, take, keep, All, eq_string, eq_pair, Text, text_eq_refl,
  text_eq_iff, eq_text, ◌+◌, ◌≡◌, refl, sym, ap, ◌∙◌, subst, inl, inr, Bool, true, false, Option,
  none, some, List, [], ◌∷◌, ◌++◌, arith,
}
use native.Mathlib.Numerals.{add-one}
use mathlib.Core.List.{reverse, reverse-append}
use openontology.Graph.Nodes.{Distinct}
use openontology.Graph.Contract.{member-append}
use openontology.Graph.Payload.{EnrichedGraphPayload}
use openontology.Analysis.Kernel.{is_faulting, faulted_nodes, analyse_topology}
use openontology.Analysis.{
  inherited_cascade, InterceptorSettings, Origin, origin_at, last, index, is_cascade,
}

last-some : (x : Text) (xs : List Text) → (y : Text) × (last (x ∷ xs) ≡ some y)
last-some x [] = (x, refl)
last-some x (y ∷ ys) = last-some y ys

-- The elements behind the last one that passes a test fail it.
Behind : (Text → Bool) → List Text → Option Text → Type 0
Behind p xs none = All (λ n. p n ≡ false) xs
Behind p xs (some x) =
    (nearer further : List Text) × (xs ≡ nearer ++ x ∷ further)
    × (p x ≡ true)
    × All (λ n. p n ≡ false) further

last-cons-none : (x : Text) (xs : List Text) → last xs ≡ none → last (x ∷ xs) ≡ some x
last-cons-none x [] h = refl
last-cons-none x (y ∷ ys) h = let (z, e) = last-some y ys in absurd (ground (arith, e))

pub last-cons-some : (x y : Text) (xs : List Text) → last xs ≡ some y → last (x ∷ xs) ≡ some y
last-cons-some x y [] h = absurd (ground arith)
last-cons-some x y (z ∷ zs) h = h

pub keep-cons :
    (p : Text → Bool) (x : Text) (xs : List Text) → p x ≡ true → keep p (x ∷ xs) ≡ x ∷ keep p xs
keep-cons p x xs h = ground arith

pub keep-skip :
    (p : Text → Bool) (x : Text) (xs : List Text) → p x ≡ false → keep p (x ∷ xs) ≡ keep p xs
keep-skip p x xs h = ground arith

last-keep : (p : Text → Bool) (xs : List Text) → Behind p xs (last (keep p xs))
unfolding Behind
last-keep p [] = tt
last-keep p (x ∷ xs) = elim (Bool-cases (p x)) [
  | inl hit ↦ elim (Option-cases (last (keep p xs))) [
    | inl missing ↦
        subst (Behind p (x ∷ xs)) (sym (kept hit ∙ last-cons-none x (keep p xs) missing))
          ([], xs, refl, hit, subst (Behind p xs) missing (last-keep p xs))
    | inr (y, found) ↦
        let (nearer, further, e, test, rest) = subst (Behind p xs) found (last-keep p xs) in
        subst (Behind p (x ∷ xs)) (sym (kept hit ∙ last-cons-some x y (keep p xs) found))
          (x ∷ nearer, further, ap (◌∷◌ x) e, test, rest)
  ]
  | inr miss ↦
      let skipped : last (keep p (x ∷ xs)) ≡ last (keep p xs) = ap last (keep-skip p x xs miss) in
      subst (Behind p (x ∷ xs)) (sym skipped) (one_more miss (last (keep p xs)) (last-keep p xs))
]
  where
    kept : p x ≡ true → last (keep p (x ∷ xs)) ≡ last (x ∷ keep p xs)
    kept hit = ap last (keep-cons p x xs hit)

    one_more : p x ≡ false → (o : Option Text) → Behind p xs o → Behind p (x ∷ xs) o
    one_more miss none h = (miss, h)
    one_more miss (some y) (nearer, further, e, test, rest) =
        (x ∷ nearer, further, ap (◌∷◌ x) e, test, rest)

index-append :
    (x : Text) (nearer further : List Text)
    → Distinct (nearer ++ x ∷ further)
    → index x (nearer ++ x ∷ further) ≡ length nearer
index-append x [] further d = rw (text_eq_refl x)
index-append x (y ∷ nearer) further d = ground (
  arith,
  d.0,
  member-append y nearer (x ∷ further),
  text_eq_iff x y,
  text_eq_iff y x,
  index-append x nearer further d.1,
)

take-append :
    (nearer further : List Text) (x : Text)
    → take (length nearer + 1) (nearer ++ x ∷ further) ≡ nearer ++ x ∷ []
take-append [] further x = refl
take-append (y ∷ nearer) further x =
    rw add-one (ap (◌∷◌ y) (sym (rw add-one) ∙ take-append nearer further x))

-- What the kernel answers to where the fault comes from.
pub data Attributes (payload : EnrichedGraphPayload) (a : Origin) : Type 0 where
  -- the furthest faulting node of the upstream chain, with the path from it to the asset
  inherited :
      (nearer further : List Text)
      → a.classification ≡ inherited_cascade
      → payload.ontology_context.upstream_dependencies ≡ nearer ++ a.root_cause ∷ further
      → is_faulting payload a.root_cause ≡ true
      → All (λ node. is_faulting payload node ≡ false) further
      → a.cascade_path ≡ a.root_cause ∷ (reverse nearer ++ payload.asset_metadata.uuid ∷ [])
      → Attributes payload a
  -- the asset itself, where no upstream node is faulting
  own :
      is_cascade a.classification ≡ false
      → All
          (λ node. is_faulting payload node ≡ false)
          payload.ontology_context.upstream_dependencies
      → a.root_cause ≡ payload.asset_metadata.uuid
      → a.cascade_path ≡ []
      → Attributes payload a

pub path_back :
    (asset_id x : Text) (nearer further upstream : List Text)
    → Distinct upstream
    → upstream ≡ nearer ++ x ∷ further
    → reverse (take (index x upstream + 1) upstream) ++ asset_id ∷ []
      ≡ x ∷ (reverse nearer ++ asset_id ∷ [])
path_back asset_id x nearer further upstream d e =
    let at : index x upstream ≡ length nearer =
      rw e (index-append x nearer further (subst Distinct e d)) in
    rw (at, e) (rw take-append (rw reverse-append refl))

origin_at-Attributes :
    (payload : EnrichedGraphPayload) (o : Option Text)
    (local_physical_fault integrity_warn untrusted : Bool)
    → Distinct payload.ontology_context.upstream_dependencies
    → Behind (is_faulting payload) payload.ontology_context.upstream_dependencies o
    → Attributes payload (
        origin_at payload.asset_metadata.uuid payload.ontology_context.upstream_dependencies o
          local_physical_fault integrity_warn untrusted)
unfolding origin_at Behind
origin_at-Attributes payload none l i u d h = own (ground arith) h refl refl
origin_at-Attributes payload (some x) l i u d (nearer, further, e, test, rest) =
    inherited nearer further refl e test rest (
      path_back payload.asset_metadata.uuid x nearer further
        payload.ontology_context.upstream_dependencies d e)

-- An inherited cascade is attributed to the furthest faulting node of the upstream chain, with the
-- path from it to the asset. Where no upstream node is faulting, the asset is the root cause.
pub analyse_topology-Attributes :
    (payload : EnrichedGraphPayload) (settings : InterceptorSettings)
    → Distinct payload.ontology_context.upstream_dependencies
    → Attributes payload (analyse_topology payload settings).attribution
unfolding analyse_topology faulted_nodes
analyse_topology-Attributes payload settings d =
    origin_at-Attributes payload _ _ _ _ d
      (last-keep (is_faulting payload) payload.ontology_context.upstream_dependencies)
