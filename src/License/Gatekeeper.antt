-- ===== src/License/Gatekeeper.antt =====
-- `LicenseGatekeeper` of services/command-worker/command_worker.py, and `LicenseRejected` by its
-- codes. `sha256` stands for the hex digest of a text's UTF-8 bytes.
pub mod Decisions
use openontology.Prelude.{
  ℕ, Bool, true, false, not, ◌&&◌, Option, none, some, String, List, [], ◌∷◌, ◌++◌, Text, codes,
  is_empty, member, strip, lower, Result, ok, raise, if◌then◌else◌,
}
use openontology.Json.{Json, Fields, null, boolean, number, str, list, dict, get}
use openontology.Settings.{Settings, entitled_plans}
use openontology.License.Subscriptions.{Subscription, is_expired}
use openontology.License.Cache.{LicenseCache, resolve}

-- `LicenseRejected.code`
pub data LicenseRejected : Type 0 where
  payload_not_an_object license_key_missing license_key_invalid : LicenseRejected
  license_suspended license_expired plan_not_entitled : LicenseRejected

-- the candidates of one nested container, in the order of the inner loop
abbrev pub container_candidates : Text → Fields → List (Option Json)
container_candidates header d =
    get (codes "license_key") d
    ∷ get (lower (codes "license_key")) d
    ∷ get (codes "licence_key") d
    ∷ get (lower (codes "licence_key")) d
    ∷ get (codes "key") d
    ∷ get (lower (codes "key")) d
    ∷ get header d
    ∷ get (lower header) d
    ∷ []

abbrev pub nested_candidates : Text → Option Json → List (Option Json)
nested_candidates header (some (dict d)) = container_candidates header d
nested_candidates header _ = []

-- `candidates`
unfoldable pub candidates : Text → Fields → List (Option Json)
candidates header payload =
    get (codes "license_key") payload
      ∷ get (codes "licence_key") payload
      ∷ nested_candidates header (get (codes "license") payload)
    ++ nested_candidates header (get (codes "licence") payload)
    ++ nested_candidates header (get (codes "headers") payload)
    ++ nested_candidates header (get (codes "meta") payload)

-- the first candidate that is a text and not blank
unfoldable pub first_key : List (Option Json) → Option Text
first_key [] = none
first_key (some (str s) ∷ rest) =
    let later = first_key rest in if is_empty (strip s) then later else some (strip s)
first_key (_ ∷ rest) = first_key rest

-- `self._default_key`, if it is not blank
abbrev pub default_key : Option Text → Option Text
default_key none = none
default_key (some key) = if is_empty (strip key) then none else some (strip key)

abbrev pub choose_key : Option Text → Bool → Option Text → Option Text
choose_key (some key) allow_fallback configured = some key
choose_key none allow_fallback configured = if allow_fallback then default_key configured else none

-- `LicenseGatekeeper.extract_key`
unfoldable pub extract_key : Settings → Bool → Fields → Option Text
extract_key settings allow_fallback payload =
    choose_key (first_key (candidates settings.license_header payload)) allow_fallback
      settings.license_key

-- The checks of `authorize` on the subscription that the cache returned, at the time `now`.
unfoldable pub validate : Settings → ℕ → Option Subscription → Result LicenseRejected Subscription
validate settings now none = raise license_key_invalid
validate settings now (some subscription) =
    if not subscription.active
    then raise license_suspended
    else if is_expired subscription now
    then raise license_expired
    else if not (member subscription.plan (entitled_plans settings))
    then raise plan_not_entitled
    else ok subscription

module _ (sha256 : Text → String) where
  -- `key_digest`
  abbrev pub key_digest : Text → String
  key_digest plaintext = sha256 (strip plaintext)

  -- The rest of `authorize`, on the key that the payload presents.
  pub authorize_key :
      (String → Option Subscription)
      → Settings
      → (monotonic now : ℕ) → Option Text
      → LicenseCache
      → Result LicenseRejected Subscription × LicenseCache
  unfolding validate
  authorize_key registry_lookup settings monotonic now none c = (raise license_key_missing, c)
  authorize_key registry_lookup settings monotonic now (some presented) c =
      let ((subscription, cached), c') =
        resolve registry_lookup monotonic (key_digest presented) c in
      (validate settings now subscription, c')

  -- `LicenseGatekeeper.authorize`
  unfoldable pub authorize :
      (String → Option Subscription)
      → Settings
      → (monotonic now : ℕ) → (allow_fallback : Bool) → Json
      → LicenseCache
      → Result LicenseRejected Subscription × LicenseCache
  unfolding authorize_key
  authorize registry_lookup settings monotonic now allow_fallback (dict payload) c =
      authorize_key registry_lookup settings monotonic now
        (extract_key settings allow_fallback payload) c
  authorize registry_lookup settings monotonic now allow_fallback _ c =
      (raise payload_not_an_object, c)
