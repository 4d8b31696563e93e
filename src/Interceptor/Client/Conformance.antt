-- ===== src/Interceptor/Client/Conformance.antt =====
-- What leaves the worker, and what becomes of a plan that does not conform.
use openontology.Prelude.{
  if◌then◌else◌, Bool-cases, is_empty, ok, eq_string, eq_pair, Text, text_eq, text_eq_sound,
  text_eq_refl, eq_text, member, strip, ◌≡◌, sym, subst, ◌⊎◌, inl, inr, true, false, none, some,
  List, arith,
}
use openontology.Json
use openontology.Json.{Json, Fields, no_field, field}
use openontology.Settings.{
  Settings, interceptor_endpoint, enterprise_endpoint, routes_to_enterprise,
}
use openontology.License.Subscriptions.{Subscription}
use openontology.Interceptor.Client.{
  credential_keys, without, without_credentials, standard_destination, destination, plan,
}
use openontology.World.{World}

get-without :
    (names : List Text) (k : Text) (raw : Fields)
    → Json.get k (without names raw) ≡ (if member k names then none else Json.get k raw)
unfolding Json.get without
get-without names k no_field = ground arith
get-without names k (field j v raw) = elim (Bool-cases (text_eq j k)) [
  | inl same ↦
      let at : j ≡ k = text_eq_sound j k same in
      subst
        (λ x.
          Json.get k (without names (field x v raw))
          ≡ (if member k names then none else Json.get k (field x v raw)))
        (sym at) (ground (arith, text_eq_refl k, get-without names k raw))
  | inr other ↦ ground (arith, get-without names k raw)
]

-- The forwarded body has none of the credential keys, and under every other key exactly what the
-- engine published.
pub get-without_credentials :
    (k : Text) (raw : Fields)
    → Json.get k (without_credentials raw)
      ≡ (if member k credential_keys then none else Json.get k raw)
get-without_credentials = get-without credential_keys

-- A credential goes only to the endpoint that it was bought for: the enterprise key to the
-- enterprise endpoint, for a tier that is routed there; the worker's own key to the standard one.
pub destination-presents :
    (settings : Settings) (subscription : Subscription) (endpoint presented : Text)
    → destination settings subscription ≡ ok (endpoint, presented)
    → ((endpoint ≡ interceptor_endpoint settings) × (settings.license_key ≡ some presented))
      ⊎ ((endpoint ≡ enterprise_endpoint settings)
          × (presented ≡ strip settings.enterprise_license_key)
          × (is_empty presented ≡ false)
          × (routes_to_enterprise settings subscription.plan ≡ true))
unfolding destination
destination-presents settings subscription endpoint presented h =
    elim (Bool-cases (routes_to_enterprise settings subscription.plan)) [
      | inr no_route ↦ inl (standard settings endpoint presented (rw no_route at h))
      | inl routed ↦ elim (Bool-cases (is_empty (strip settings.enterprise_license_key))) [
        | inl no_key ↦ inl (standard settings endpoint presented (rw (routed, no_key) at h))
        | inr key ↦ inr (ground (arith, rw (routed, key) at h))
      ]
    ]
  where
    standard :
        (settings : Settings) (endpoint presented : Text)
        → standard_destination settings ≡ ok (endpoint, presented)
        → (endpoint ≡ interceptor_endpoint settings) × (settings.license_key ≡ some presented)
    standard settings endpoint presented h = ground arith
