-- ===== src/Graph/Nodes.antt =====
-- Node identifiers of services/graphrag-interceptor/graphrag_interceptor.py: `_validate_node_id`,
-- `AssetMetadata._canonical_identifier` and `OntologyContext._validate_edges`.
use openontology.Prelude.{
  replicate, leb, ◌==◌, if◌then◌else◌, length, all, Result, ok, raise, ◌>>=◌, eq_string, eq_pair,
  Text, eq_text, member, strip, lower, ℕ, ◌≡◌, Bool, true, false, ◌&&◌, ◌||◌, List, [], ◌∷◌, ◌++◌,
}

-- a `ValueError` of a validator, without its wording
pub data ContractError : Type 0 where
  invalid_node_id not_a_number no_channel self_loop both_ways : ContractError
  unknown_health unknown_attribution : ContractError

abbrev pub is_alphanumeric : ℕ → Bool
is_alphanumeric c =
    (leb b'a' c && leb c b'z') || (leb b'A' c && leb c b'Z') || (leb b'0' c && leb c b'9')

abbrev pub is_node_char : ℕ → Bool
is_node_char c = is_alphanumeric c || (c == b'.') || (c == b'_') || (c == b':') || (c == b'-')

-- `_NODE_ID_RE`
abbrev pub is_node_id : Text → Bool
is_node_id [] = false
is_node_id (c ∷ s) =
    is_alphanumeric c && all is_node_char s && leb 1 (length s) && leb (length s) 127

-- `_validate_node_id`
unfoldable pub validate_node_id : Text → Result ContractError Text
unfolding strip
validate_node_id value =
    if is_node_id (strip value) then ok (strip value) else raise invalid_node_id

abbrev pub is_hex : ℕ → Bool
is_hex c = (leb b'a' c && leb c b'f') || (leb b'A' c && leb c b'F') || (leb b'0' c && leb c b'9')

-- a text of hexadecimal digits, with a hyphen where the shape has `false`
abbrev pub fits : List Bool → Text → Bool
fits [] [] = true
fits [] (c ∷ s) = false
fits (b ∷ shape) [] = false
fits (b ∷ shape) (c ∷ s) = (if b then is_hex c else c == b'-') && fits shape s

-- `_UUID_RE`
abbrev pub uuid_shape : List Bool
uuid_shape =
    replicate 8 true
    ++ (false ∷ replicate 4 true)
    ++ (false ∷ replicate 4 true)
    ++ (false ∷ replicate 4 true)
    ++ (false ∷ replicate 12 true)

-- `AssetMetadata._canonical_identifier`
unfoldable pub canonical_identifier : Text → Result ContractError Text
unfolding validate_node_id strip lower
canonical_identifier value =
    if fits uuid_shape (strip value)
    then ok (lower (strip value))
    else validate_node_id (strip value)

-- `OntologyContext._validate_edges`, from the nodes kept so far
unfoldable pub edges_from : List Text → List Text → Result ContractError (List Text)
unfolding validate_node_id
edges_from ordered [] = ok ordered
edges_from ordered (raw ∷ values) = validate_node_id raw >>= λ node.
    edges_from (if member node ordered then ordered else ordered ++ node ∷ []) values

unfoldable pub validate_edges : List Text → Result ContractError (List Text)
unfolding edges_from
validate_edges = edges_from []

-- No node stands in the list twice.
abbrev pub Distinct : List Text → Type 0
Distinct [] = Unit
Distinct (node ∷ nodes) = (member node nodes ≡ false) × Distinct nodes
