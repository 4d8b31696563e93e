-- ===== src/License/Gatekeeper/Decisions.antt =====
-- Whom the gatekeeper lets through.
use openontology.Prelude.{
  Bool-cases, some_inj, is_empty, ok, raise, eq_string, eq_pair, Text, eq_text, member, strip, ℕ,
  ◌≤◌, ◌<◌, String, ◌≡◌, refl, ◌∙◌, subst, ◌↔◌, inl, inr, Bool, true, false, Option, none, some,
  List, [], ◌∷◌, arith,
}
use openontology.Json.{Json, Fields, str, dict}
use openontology.Settings.{Settings, entitled_plans}
use openontology.License.Subscriptions.{Subscription, is_expired}
use openontology.License.Cache.{LicenseCache, resolve}
use openontology.License.Cache.Staleness.{History, Reach, IsRecent, resolve-IsRecent}
use openontology.Prelude.Strings.Strip.{strip_idem}
use openontology.License.Gatekeeper.{
  license_key_missing, validate, extract_key, key_digest, default_key, choose_key, authorize,
  authorize_key, first_key, candidates,
}

-- A subscription that entitles its holder to the closure loop at `now`.
pub record IsEntitled (settings : Settings) (now : ℕ) (s : Subscription) : Type 0 where
  pub active : s.active ≡ true
  pub unexpired : now < s.expires_at
  pub planned : member s.plan (entitled_plans settings) ≡ true

-- A subscription passes the checks if and only if it is active, unexpired and on an entitled plan.
pub validate_iff :
    (settings : Settings) (now : ℕ) (found : Option Subscription) (s : Subscription)
    → (validate settings now found ≡ ok s) ↔ ((found ≡ some s) × IsEntitled settings now s)
unfolding validate is_expired
validate_iff settings now none s = (λ h. cc, λ h. cc)
validate_iff settings now (some x) s = (λ h. ground arith, λ h. ground arith)

-- A key that `first_key` finds is stripped and not blank.
abbrev pub IsKey : Text → Type 0
IsKey key = (strip key ≡ key) × (is_empty key ≡ false)

IsKey-strip :
    (s key : Text)
    → is_empty (strip s) ≡ false
    → ◌≡◌ {A = Option Text} (some (strip s)) (some key)
    → IsKey key
IsKey-strip s key solid h = subst IsKey (some_inj h) (strip_idem s, solid)

default_key-IsKey :
    (configured : Option Text) (key : Text) → default_key configured ≡ some key → IsKey key
default_key-IsKey none key h = cc
default_key-IsKey (some s) key h = elim (Bool-cases (is_empty (strip s))) [
  | inl blank ↦ cc (rw blank at h)
  | inr solid ↦ IsKey-strip s key solid (rw solid at h)
]

first_key-IsKey : (l : List (Option Json)) (key : Text) → first_key l ≡ some key → IsKey key
unfolding first_key
first_key-IsKey [] key h = cc
first_key-IsKey (some (str s) ∷ l) key h = elim (Bool-cases (is_empty (strip s))) [
  | inl blank ↦ first_key-IsKey l key (rw blank at h)
  | inr solid ↦ IsKey-strip s key solid (rw solid at h)
]
first_key-IsKey (some (dict d) ∷ l) key h = first_key-IsKey l key h
first_key-IsKey (x ∷ l) key h = first_key-IsKey l key h

module _ (sha256 : Text → String) where
  -- Over a JSON object, the gatekeeper lets a caller through as the subscription `s` if and only
  -- if a key is presented, the cache resolves the digest of that key to `s`, and `s` is active,
  -- unexpired and on an entitled plan. Every other outcome is a rejection.
  pub authorize_iff :
      (registry_lookup : String → Option Subscription) (settings : Settings) (monotonic now : ℕ)
      (allow_fallback : Bool) (payload : Fields) (c : LicenseCache) (s : Subscription)
      → ((authorize sha256 registry_lookup settings monotonic now allow_fallback (dict payload) c).0
          ≡ ok s)
        ↔ ((key : Text) × (extract_key settings allow_fallback payload ≡ some key)
            × ((resolve registry_lookup monotonic (key_digest sha256 key) c).0.0 ≡ some s)
            × IsEntitled settings now s)
  unfolding authorize
  authorize_iff registry_lookup settings monotonic now allow_fallback payload c s =
      go (extract_key settings allow_fallback payload)
    where
      go :
          (found : Option Text)
          → ((authorize_key sha256 registry_lookup settings monotonic now found c).0 ≡ ok s) ↔ (
              (key : Text) × (found ≡ some key)
              × ((resolve registry_lookup monotonic (key_digest sha256 key) c).0.0 ≡ some s)
              × IsEntitled settings now s)
      go none = (λ h. cc, λ h. cc)
      go (some key) =
          let decide =
            validate_iff settings now
              (resolve registry_lookup monotonic (key_digest sha256 key) c).0.0 s in
          (
            (λ h. let (found, entitled) = decide.0 h in (key, refl, found, entitled)),
            (λ (k, same, found, entitled). decide.1 (rw (some_inj same) found, entitled)),
          )

  -- However the caches were used before, and however the registry changed: a caller that is let
  -- through runs under a subscription that the registry held for its key no more than `ttl` ago,
  -- and which is active, unexpired now and on an entitled plan.
  pub authorize-IsRecent :
      (history : History) (ttl max_entries before : ℕ) (settings : Settings) (monotonic now : ℕ)
      (allow_fallback : Bool) (payload : Fields) (c : LicenseCache) (s : Subscription)
      → 0 < ttl
      → Reach history ttl max_entries before c
      → before ≤ monotonic
      → (authorize sha256
          (history monotonic)
          settings
          monotonic
          now
          allow_fallback
          (dict payload)
          c).0
        ≡ ok s
      → (key : Text) × (extract_key settings allow_fallback payload ≡ some key)
        × IsRecent history ttl monotonic (key_digest sha256 key) (some s)
        × IsEntitled settings now s
  authorize-IsRecent history ttl max_entries before settings monotonic now allow_fallback payload c
        s pos r le h =
      let (key, presented, found, entitled) =
        (authorize_iff (history monotonic) settings monotonic now allow_fallback payload c s).0 h in
      (
        key,
        presented,
        subst (IsRecent history ttl monotonic (key_digest sha256 key)) found (
            resolve-IsRecent history ttl max_entries before c monotonic (key_digest sha256 key) pos
              r le),
        entitled,
      )

  -- A caller over HTTP (no fallback) that presents no key of its own is rejected as
  -- `license_key_missing`, whatever key the worker itself is configured with, and nothing is
  -- looked up for it.
  authorize_anonymous :
      (registry_lookup : String → Option Subscription) (settings : Settings) (monotonic now : ℕ)
      (payload : Fields) (c : LicenseCache)
      → first_key (candidates settings.license_header payload) ≡ none
      → authorize sha256 registry_lookup settings monotonic now false (dict payload) c
        ≡ (raise license_key_missing, c)
  unfolding authorize
  authorize_anonymous registry_lookup settings monotonic now payload c h =
      let e : extract_key settings false payload ≡ none =
        unfold extract_key in rw (h, extract_key) in
      rw e

-- What `extract_key` returns is never blank and has no blanks around it, from the payload or from
-- the configuration.
extract_key-IsKey :
    (settings : Settings) (allow_fallback : Bool) (payload : Fields) (key : Text)
    → extract_key settings allow_fallback payload ≡ some key
    → IsKey key
unfolding extract_key
extract_key-IsKey settings allow_fallback payload key h =
    go (first_key (candidates settings.license_header payload)) allow_fallback refl h
  where
    go :
        (found : Option Text) (allowed : Bool)
        → first_key (candidates settings.license_header payload) ≡ found
        → choose_key found allowed settings.license_key ≡ some key
        → IsKey key
    go (some k) allowed e chosen = first_key-IsKey _ key (e ∙ chosen)
    go none true e chosen = default_key-IsKey settings.license_key key chosen
    go none false e chosen = cc
