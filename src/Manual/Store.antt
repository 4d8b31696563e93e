-- ===== src/Manual/Store.antt =====
-- `MaintenanceManualVectorStore.search` and `MultiAgentGraphEngine._retrieve` of
-- services/graphrag-interceptor/graphrag_interceptor.py. A score is a number of millionths; what
-- the hashed embedding and the lexical overlap give a chunk is a parameter.
use openontology.Prelude.{
  ltb, ◌==◌, if◌then◌else◌, take, is_empty, any, keep, eq_string, eq_pair, Text, eq_text, is_space,
  member, strip, upper, ℕ, ◌+◌, ◌-◌, Bool, true, false, not, ◌&&◌, ◌||◌, Option, none, some, List,
  [], ◌∷◌, ◌++◌, map,
}
use openontology.Prelude.Sort.{sort_by}
use openontology.Prelude.TextOrder.{text_lt}
use openontology.OrderedDict.{Entries, get}
use openontology.Graph.Telemetry.{set_item}
use openontology.Prescription.{ActionType}
use openontology.Analysis.{FaultClassification}
use openontology.Manual.{ManualChunk, same_action, same_classification}

-- what the metadata of a query asks for
pub record Filters : Type 0 where
  pub model_family : Text
  pub action : Option ActionType
  pub classification : Option FaultClassification
  pub include_supplementary : Bool

abbrev pub Hit : Type 0
Hit = ManualChunk × ℕ

abbrev pub wants : {A : Type 0} → Option A → List A → Bool
wants none xs = false
wants (some x) xs = not (is_empty xs)

abbrev pub listed : {A : Type 0} → (A → A → Bool) → Option A → List A → Bool
listed same none xs = false
listed same (some x) xs = any (same x) xs

-- what is added to the score, and what is taken off it
abbrev pub bonus : Filters → ManualChunk → ℕ
bonus f chunk =
    (if not (is_empty f.model_family) && member f.model_family chunk.model_families
      then 250000
      else 0)
    + (if listed same_action f.action chunk.applicable_actions then 300000 else 0)
    + (if listed same_classification f.classification chunk.classifications then 200000 else 0)

abbrev pub malus : Filters → ManualChunk → ℕ
malus f chunk =
    (if not (is_empty f.model_family)
        && not (is_empty chunk.model_families)
        && not (member f.model_family chunk.model_families)
      then 200000
      else 0)
    + (if wants f.action chunk.applicable_actions
          && not (listed same_action f.action chunk.applicable_actions)
        then 350000
        else 0)
    + (if wants f.classification chunk.classifications
          && not (listed same_classification f.classification chunk.classifications)
        then 150000
        else 0)

-- `_score`, where it is positive; other scores are dropped, and are 0 here
unfoldable pub score_of : (ManualChunk → ℕ) → Filters → ManualChunk → ℕ
score_of similarity f chunk = (similarity chunk + bonus f chunk) - malus f chunk

abbrev pub admissible : Filters → ManualChunk → Bool
admissible f chunk = not (chunk.supplementary && not f.include_supplementary)

-- the sort key `(-score, doc_id)`
abbrev pub scores_before : Hit → Hit → Bool
scores_before (c, s) (d, t) = ltb t s || ((s == t) && text_lt c.doc_id d.doc_id)

-- `search`
unfoldable pub search_ : (ManualChunk → ℕ) → List ManualChunk → Filters → (top_k : ℕ) → List Hit
unfolding score_of sort_by
search_ similarity corpus f top_k = take top_k (
    sort_by scores_before (
      keep (λ (hit : Hit). ltb 0 hit.1)
        (map (λ chunk. (chunk, score_of similarity f chunk)) (keep (admissible f) corpus))))

-- whether a hit replaces what is merged for its document
abbrev pub improves : ℕ → Option Hit → Bool
improves score none = true
improves score (some existing) = ltb existing.1 score

unfoldable pub merge : Entries Text Hit → List Hit → Entries Text Hit
unfolding set_item get
merge merged [] = merged
merge merged (hit ∷ hits) =
    merge
      (if improves hit.1 (get hit.0.doc_id merged)
        then set_item hit.0.doc_id hit merged
        else merged)
      hits

-- the sort key `(supplementary, -score, doc_id)`
abbrev pub leads : Hit → Hit → Bool
leads x y =
    (not x.0.supplementary && y.0.supplementary)
    || (not (x.0.supplementary && not y.0.supplementary)
        && not (not x.0.supplementary && y.0.supplementary)
        && scores_before x y)

-- `ranked` of `_retrieve`, from what its two queries found
unfoldable pub retrieve : (primary secondary : List Hit) → List Hit
unfolding merge sort_by
retrieve primary secondary =
    sort_by leads (map (λ entry. entry.1) (merge [] (primary ++ secondary)))

-- `AssetMetadata.model_family`: the leading token of the model number
abbrev pub until_separator : Text → Text
until_separator [] = []
until_separator (c ∷ s) =
    let rest = c ∷ until_separator s in
    if (c == b'-') || (c == b'_') || (c == b'/') || is_space c then [] else rest

unfoldable pub model_family : Text → Text
model_family model_number = upper (until_separator (strip model_number))

abbrev pub secondary_filters : Filters
secondary_filters = record {
  model_family = [];
  action = none;
  classification = none;
  include_supplementary = true;
}

-- `_retrieve`: two queries over the corpus, merged
unfoldable pub retrieve_for :
    (primary_similarity secondary_similarity : ManualChunk → ℕ)
    → (corpus : List ManualChunk) (retrieval_top_k : ℕ) (model_number : Text) → ActionType
    → FaultClassification
    → List Hit
unfolding search_ retrieve model_family
retrieve_for primary_similarity secondary_similarity corpus top_k model_number hint classification =
    retrieve
      (search_ primary_similarity corpus
        (record {
          model_family = model_family model_number;
          action = some hint;
          classification = some classification;
          include_supplementary = false;
        })
        top_k)
      (search_ secondary_similarity corpus secondary_filters top_k)
