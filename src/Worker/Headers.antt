-- ===== src/Worker/Headers.antt =====
-- What the headers of a record decide: the key that it runs under and its correlation id.
use openontology.Prelude.{
  Bool-cases, is_empty, eq_string, eq_pair, Text, codes, text_eq, text_eq_refl, eq_text, member,
  strip, lower, ◌≡◌, refl, inl, inr, Bool, true, false, Option, none, some, List, [], ◌∷◌,
}
use openontology.Prelude.Strings.Strip.{strip_idem}
use openontology.Json.{Json, Fields, no_field, field, str, get, assign}
use openontology.Settings.{Settings}
use openontology.License.Gatekeeper.{candidates, first_key, extract_key}
use openontology.License.Gatekeeper.Decisions.{IsKey}
use openontology.World.{Environment, Bytes}
use openontology.Worker.Message.{
  decode_value, license_names, lift_header, present, inject_license_key, correlation_names, usable,
  or_else, correlation_id,
}

-- What was assigned is what is read.
get-assign : (key : Text) (v : Json) (d : Fields) → get key (assign key v d) ≡ some v
unfolding get assign
get-assign key v no_field = rw (text_eq_refl key) refl
get-assign key v (field k x d) = elim (Bool-cases (text_eq k key)) [
  | inl same ↦ rw (same, assign) (rw same refl)
  | inr other ↦ rw (other, assign) (rw other (get-assign key v d))
]

first_key-chosen :
    (settings : Settings) (allow_fallback : Bool) (payload : Fields) (key : Text)
    → get (codes "license_key") payload ≡ some (str key)
    → is_empty (strip key) ≡ false
    → extract_key settings allow_fallback payload ≡ some (strip key)
unfolding extract_key candidates first_key
first_key-chosen settings allow_fallback payload key e solid = rw e (rw solid refl)

module _ {Uuid : Type 0} (env : Environment Uuid) (settings : Settings) where
  lift_header-license_key :
      (name : Text) (value : Option Bytes) (key : Text) (headers : List (Text × Option Bytes))
      (payload : Fields)
      → member (lower name) (license_names env settings) ≡ true
      → decode_value env settings value ≡ some key
      → get (codes "license_key") (lift_header env settings ((name, value) ∷ headers) payload)
        ≡ some (str key)
  unfolding lift_header
  lift_header-license_key name value key headers payload named decoded =
      rw (named, lift_header) (rw decoded (get-assign (codes "license_key") (str key) payload))

  or_else-IsKey :
      (found : Option Text) (rest : Text)
      → IsKey rest
      → IsKey (or_else env settings (usable env settings found) rest)
  or_else-IsKey none rest h = h
  or_else-IsKey (some s) rest h = elim (Bool-cases (is_empty (strip s))) [
    | inl blank ↦ rw blank h
    | inr solid ↦ rw solid (strip_idem s, solid)
  ]

  -- A record whose payload has no key of its own runs under the key of its first header, if that
  -- is a licence header with a text that is not blank: the gatekeeper takes that key, stripped,
  -- before any other place in the payload and before the worker's own.
  pub extract_key-inject_license_key :
      (name : Text) (value : Option Bytes) (key : Text) (headers : List (Text × Option Bytes))
      (payload : Fields) (allow_fallback : Bool)
      → present env settings (get (codes "license_key") payload) ≡ false
      → member (lower name) (license_names env settings) ≡ true
      → decode_value env settings value ≡ some key
      → is_empty (strip key) ≡ false
      → extract_key settings allow_fallback
          (inject_license_key env settings ((name, value) ∷ headers) payload)
        ≡ some (strip key)
  unfolding inject_license_key
  extract_key-inject_license_key name value key headers payload allow_fallback missing named decoded
        solid =
      let e : get (codes "license_key")
            (inject_license_key env settings ((name, value) ∷ headers) payload)
          ≡ some (str key) =
        rw (missing, inject_license_key)
          (lift_header-license_key name value key headers payload named decoded) in
      first_key-chosen settings allow_fallback
        (inject_license_key env settings ((name, value) ∷ headers) payload) key e solid

  -- The correlation id of a record is never blank and has no blanks around it, if that is so of
  -- the fresh id.
  correlation_id-IsKey :
      (fresh : Text) (headers : List (Text × Option Bytes))
      → strip fresh ≡ fresh
      → is_empty fresh ≡ false
      → IsKey (correlation_id env settings fresh headers)
  unfolding correlation_id
  correlation_id-IsKey fresh [] bare solid = (bare, solid)
  correlation_id-IsKey fresh ((name, value) ∷ headers) bare solid =
      elim (Bool-cases (member (lower name) (correlation_names env settings))) [
        | inl named ↦
            rw (named, correlation_id)
              (or_else-IsKey (decode_value env settings value)
                (correlation_id env settings fresh headers)
                (correlation_id-IsKey fresh headers bare solid))
        | inr other ↦ rw (other, correlation_id) (correlation_id-IsKey fresh headers bare solid)
      ]
