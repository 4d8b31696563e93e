-- ===== src/License/Cache/Bounds.antt =====
-- The size and the counters of the subscription cache.
use openontology.Prelude.{
  if◌then◌else◌, length, eq_string, eq_pair, eq_text, ℕ, suc, ◌+◌, ◌≤◌, String, ◌≡◌, Option, arith,
}
use openontology.OrderedDict.{put_last}
use openontology.OrderedDict.Laws.{length-evict, length-move_to_end-le}
use openontology.License.Subscriptions.{Subscription}
use openontology.License.Cache.{LicenseCache, resolve}

pub record IsBounded (c : LicenseCache) : Type 0 where
  pub within : length c.entries ≤ c.max_entries

module _ (registry_lookup : String → Option Subscription) (now : ℕ) (digest : String) where
  -- Whatever the registry answers, a bounded cache stays within `max_entries` across a call of
  -- `resolve`, and the call counts as exactly one hit or one miss: a hit if and only if the answer
  -- was served from the cache.
  pub resolve-IsBounded :
      (c : LicenseCache)
      → IsBounded c
      → let ((answer, cached), c') = resolve registry_lookup now digest c in
        IsBounded c'
        × (c'.hits + c'.misses ≡ suc (c.hits + c.misses))
        × (c'.hits ≡ (if cached then suc c.hits else c.hits))
  unfolding resolve
  resolve-IsBounded c h = ground (
    arith,
    length-move_to_end-le digest c.entries,
    length-evict c.max_entries (
        put_last digest (record { subscription = registry_lookup digest; expires_at = now + c.ttl })
          c.entries),
  )
