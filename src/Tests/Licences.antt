-- ===== src/Tests/Licences.antt =====
-- Runs of the gatekeeper and of its cache.
use openontology.Prelude.{
  if◌then◌else◌, ok, eq_string, eq_pair, Text, eq_text, strip, upper, replace_char, suc, ◌+◌, ◌≡◌,
  refl, ◌↔◌, true, some, arith,
}
use openontology.Json.{Json, Fields, no_field, field, str, dict}
use openontology.License.Subscriptions.{Subscription}
use openontology.License.Plans.{normalise_plan}
use openontology.License.Cache.{LicenseCache, init, resolve}
use openontology.License.Cache.Bounds.{IsBounded, resolve-IsBounded}
use openontology.License.Cache.Staleness.{IsRecent, Reach, started, resolved}
use openontology.License.Gatekeeper.{authorize, extract_key, key_digest, license_key_missing}
use openontology.License.Gatekeeper.Decisions.{IsEntitled, authorize_iff, authorize-IsRecent}
use openontology.Tests.Data.{settings, digest_of, find_subscription, subscription, payload}

-- A cache that was asked for the digest "d1" at time 1000.
abbrev asked : LicenseCache
asked = (resolve find_subscription 1000 "d1" (init 300 2)).1

asked-Reach : Reach (λ now. find_subscription) 300 2 1000 asked
asked-Reach = resolved 1000 "d1" (started 0) (omega arith)

resolve-IsBounded_example :
    let ((answer, cached), c') = resolve find_subscription 1000 "d1" (init 300 2) in
    IsBounded c'
    × (c'.hits + c'.misses ≡ suc ((init 300 2).hits + (init 300 2).misses))
    × (c'.hits ≡ (if cached then suc (init 300 2).hits else (init 300 2).hits))
resolve-IsBounded_example =
    resolve-IsBounded find_subscription 1000 "d1" (init 300 2) (record { within = omega arith })

authorize_iff_example :
    ((authorize digest_of find_subscription settings 1000 1000 true (dict payload) (init 300 2)).0
      ≡ ok subscription)
    ↔ ((key : Text) × (extract_key settings true payload ≡ some key)
        × ((resolve find_subscription 1000 (key_digest digest_of key) (init 300 2)).0.0
            ≡ some subscription)
        × IsEntitled settings 1000 subscription)
authorize_iff_example =
    authorize_iff digest_of find_subscription settings 1000 1000 true payload (init 300 2)
      subscription

authorize-IsRecent_example :
    (key : Text) × (extract_key settings true payload ≡ some key)
    × IsRecent (λ now. find_subscription) 300 1200 (key_digest digest_of key) (some subscription)
    × IsEntitled settings 1200 subscription
unfolding authorize extract_key openontology.License.Gatekeeper.first_key
    openontology.License.Gatekeeper.candidates openontology.Json.get strip resolve
    openontology.OrderedDict.get openontology.OrderedDict.evict openontology.OrderedDict.put_last
    openontology.License.Subscriptions.is_expired normalise_plan replace_char upper
authorize-IsRecent_example =
    authorize-IsRecent digest_of (λ now. find_subscription) 300 2 1000 settings 1200 1200 true
      payload asked subscription (omega arith) asked-Reach (omega arith) refl
