-- ===== src/Worker/Message.antt =====
-- `_decode`, `_inject_license_key` and `_correlation_id` of `CommandWorker`.
use openontology.Prelude.{
  if◌then◌else◌, is_empty, eq_string, eq_pair, Text, codes, eq_text, member, strip, lower, Bool,
  false, Option, none, some, List, [], ◌∷◌,
}
use openontology.Json.{Json, Fields, str, dict, get, truthy, assign}
use openontology.Settings.{Settings}
use openontology.World.{Environment, Bytes}

-- A record of `ontology.mutations`, as aiokafka hands it over; `headers` is empty for `None`.
pub record Message : Type 0 where
  pub value : Option Bytes
  pub key : Option Bytes
  pub headers : List (Text × Option Bytes)

module _ {Uuid : Type 0} (env : Environment Uuid) (settings : Settings) where
  -- `value.decode("utf-8")`; `none` is a `UnicodeDecodeError`, or the `AttributeError` on `None`
  abbrev pub decode_value : Option Bytes → Option Text
  decode_value none = none
  decode_value (some value) = env.decode_utf8 value

  abbrev parsed : Option Text → Option Json
  parsed none = none
  parsed (some s) = env.loads s

  abbrev object : Option Json → Option Fields
  object (some (dict d)) = some d
  object _ = none

  -- `_decode`
  unfoldable pub decode : Option Bytes → Option Fields
  decode none = none
  decode (some []) = none
  decode (some (b ∷ value)) = object (parsed (env.decode_utf8 (b ∷ value)))

  abbrev pub license_names : List Text
  license_names = codes "license_key" ∷ codes "licence_key" ∷ lower settings.license_header ∷ []

  abbrev pub stamp : Option Text → Fields → Fields
  stamp none payload = payload
  stamp (some key) payload = assign (codes "license_key") (str key) payload

  -- the loop over the headers
  unfoldable pub lift_header : List (Text × Option Bytes) → Fields → Fields
  lift_header [] payload = payload
  lift_header ((name, value) ∷ headers) payload =
      let rest = lift_header headers payload in
      if member (lower name) license_names then stamp (decode_value value) payload else rest

  abbrev pub present : Option Json → Bool
  present none = false
  present (some j) = truthy j

  -- `_inject_license_key`
  unfoldable pub inject_license_key : List (Text × Option Bytes) → Fields → Fields
  unfolding lift_header
  inject_license_key headers payload =
      if present (get (codes "license_key") payload) then payload else lift_header headers payload

  abbrev pub correlation_names : List Text
  correlation_names = codes "x-request-id" ∷ codes "correlation_id" ∷ codes "event_id" ∷ []

  -- a decoded header that is not blank
  abbrev pub usable : Option Text → Option Text
  usable none = none
  usable (some s) = if is_empty (strip s) then none else some (strip s)

  abbrev pub or_else : Option Text → Text → Text
  or_else none rest = rest
  or_else (some s) rest = s

  -- `_correlation_id`; `fresh` is `uuid.uuid4().hex`
  unfoldable pub correlation_id : Text → List (Text × Option Bytes) → Text
  correlation_id fresh [] = fresh
  correlation_id fresh ((name, value) ∷ headers) =
      let rest = correlation_id fresh headers in
      if member (lower name) correlation_names
      then or_else (usable (decode_value value)) rest
      else rest
