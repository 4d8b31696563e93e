-- ===== src/Graph/Telemetry.antt =====
-- `TelemetrySnapshot` of services/graphrag-interceptor/graphrag_interceptor.py. A reading is a
-- number of millionths of its channel's unit, and not negative.
use openontology.Prelude.{
  ◌==◌, if◌then◌else◌, is_empty, keep, Result, ok, raise, ◌>>=◌, eq_string, eq_pair, Text, codes,
  text_eq, eq_text, strip, ℕ, String, Bool, true, false, ◌&&◌, ◌||◌, Option, none, some, List, [],
  ◌∷◌, ◌++◌,
}
use openontology.Graph.Nodes.{ContractError, not_a_number, no_channel}
use openontology.OrderedDict.{Entries, get}

-- `d[k] = v` on a dict: a key that is there keeps its place
unfoldable pub set_item : {V : Type 0} → Text → V → Entries Text V → Entries Text V
set_item k v [] = (k, v) ∷ []
set_item k v ((j, w) ∷ d) =
    let rest = set_item k v d in if text_eq j k then (j, v) ∷ d else (j, w) ∷ rest

-- `d.update(e)`
unfoldable pub update : {V : Type 0} → Entries Text V → Entries Text V → Entries Text V
unfolding set_item
update d [] = d
update d ((k, v) ∷ e) = update (set_item k v d) e

pub record TelemetrySnapshot : Type 0 where
  pub vibration_index : Option ℕ
  pub temperature_celsius : Option ℕ
  pub crdt_collision_rate : Option ℕ
  pub extras : Entries Text ℕ

abbrev pub declared : String → Option ℕ → Entries Text ℕ
declared name none = []
declared name (some value) = (codes name, value) ∷ []

-- `channels`
unfoldable pub channels : TelemetrySnapshot → Entries Text ℕ
unfolding update
channels t =
    update
      (declared "vibration_index" t.vibration_index
        ++ (declared "temperature_celsius" t.temperature_celsius
            ++ declared "crdt_collision_rate" t.crdt_collision_rate))
      t.extras

-- the coercion of the extra channels; `none` is a value that is not a finite number
unfoldable pub coerce :
    Entries Text ℕ → List (Text × Option ℕ) → Result ContractError (Entries Text ℕ)
unfolding set_item
coerce coerced [] = ok coerced
coerce coerced ((key, none) ∷ raw) = raise not_a_number
coerce coerced ((key, some number) ∷ raw) = coerce (set_item (strip key) number coerced) raw

abbrev pub require_channels : TelemetrySnapshot → Result ContractError TelemetrySnapshot
require_channels t = if is_empty (channels t) then raise no_channel else ok t

-- `_coerce_and_require_channels`
unfoldable pub coerce_and_require_channels :
    TelemetrySnapshot → List (Text × Option ℕ) → Result ContractError TelemetrySnapshot
unfolding coerce channels
coerce_and_require_channels t raw =
    coerce [] raw >>= λ coerced. require_channels (record t { extras = coerced })

-- `key.partition("::")`: what stands before and after the first separator, if there is one
abbrev pub behind : ℕ → Option (Text × Text) → Option (Text × Text)
behind c none = none
behind c (some (head, tail)) = some (c ∷ head, tail)

unfoldable pub partition : Text → Option (Text × Text)
partition [] = none
partition (c ∷ []) = none
partition (c ∷ d ∷ s) =
    let rest = behind c (partition (d ∷ s)) in if c == b':' && d == b':' then some ([], s) else rest

abbrev pub is_none : {A : Type 0} → Option A → Bool
is_none none = true
is_none (some a) = false

-- `local_channels`
unfoldable pub local_channels : TelemetrySnapshot → Entries Text ℕ
unfolding channels partition
local_channels t = keep (λ entry. is_none (partition entry.0)) (channels t)

abbrev pub or_no_channels : {V : Type 0} → Option (Entries Text V) → Entries Text V
or_no_channels none = []
or_no_channels (some d) = d

abbrev pub attribute :
    Option (Text × Text) → ℕ → Entries Text (Entries Text ℕ) → Entries Text (Entries Text ℕ)
attribute none value attributed = attributed
attribute (some (node, channel)) value attributed =
    if is_empty (strip node) || is_empty (strip channel)
    then attributed
    else set_item (strip node)
        (set_item (strip channel) value (or_no_channels (get (strip node) attributed))) attributed

unfoldable pub attribute_from :
    Entries Text (Entries Text ℕ) → Entries Text ℕ → Entries Text (Entries Text ℕ)
unfolding set_item get partition
attribute_from attributed [] = attributed
attribute_from attributed ((key, value) ∷ rest) =
    attribute_from (attribute (partition key) value attributed) rest

-- `attributed_channels`
unfoldable pub attributed_channels : TelemetrySnapshot → Entries Text (Entries Text ℕ)
unfolding attribute_from channels
attributed_channels t = attribute_from [] (channels t)
