-- ===== src/License/Cache.antt =====
-- `LicenseCache` of services/command-worker/command_worker.py. The lock makes `resolve` one step,
-- so a run of the threads is a sequence of calls. `now` is the reading of `time.monotonic()` that
-- the call takes first, in ticks.
pub mod Bounds
pub mod Staleness
use openontology.Prelude.{
  ℕ, ◌+◌, Bool, true, false, Option, none, some, [], String, ltb, if◌then◌else◌, eq_string,
}
use openontology.OrderedDict.{Entries, get, pop, put_last, move_to_end, evict, evictions}
use openontology.License.Subscriptions.{Subscription}

pub record CacheEntry : Type 0 where
  pub subscription : Option Subscription
  pub expires_at : ℕ

pub record LicenseCache : Type 0 where
  pub ttl : ℕ
  pub max_entries : ℕ
  pub entries : Entries String CacheEntry
  pub hits : ℕ
  pub misses : ℕ
  pub evicted : ℕ

-- `LicenseCache.__init__`
abbrev pub init : (ttl_seconds max_entries : ℕ) → LicenseCache
init ttl_seconds max_entries = record {
  ttl = ttl_seconds;
  max_entries = max_entries;
  entries = [];
  hits = 0;
  misses = 0;
  evicted = 0;
}

-- The entry that may still be served at `now`.
abbrev pub live : ℕ → Option CacheEntry → Option CacheEntry
live now none = none
live now (some e) = if ltb now e.expires_at then some e else none

pub serve : String → CacheEntry → LicenseCache → LicenseCache
serve digest e c = record c { entries = move_to_end digest c.entries; hits = c.hits + 1 }

pub load : (String → Option Subscription) → ℕ → String → LicenseCache → LicenseCache
load registry_lookup now digest c =
    let fresh : CacheEntry = record {
      subscription = registry_lookup digest;
      expires_at = now + c.ttl;
    } in
    let stored = put_last digest fresh c.entries in
    record c {
      entries = evict c.max_entries stored;
      misses = c.misses + 1;
      evicted = c.evicted + evictions c.max_entries stored;
    }

-- The two branches of `resolve`, on the entry that may be served.
pub after :
    (String → Option Subscription)
    → ℕ
    → String
    → LicenseCache
    → Option CacheEntry
    → (Option Subscription × Bool) × LicenseCache
unfolding serve load
after registry_lookup now digest c (some e) = ((e.subscription, true), serve digest e c)
after registry_lookup now digest c none =
    ((registry_lookup digest, false), load registry_lookup now digest c)

-- `LicenseCache.resolve`: the subscription, whether it came from the cache, and the new cache.
unfoldable pub resolve :
    (String → Option Subscription)
    → ℕ
    → String
    → LicenseCache
    → (Option Subscription × Bool) × LicenseCache
unfolding after
resolve registry_lookup now digest c =
    after registry_lookup now digest c (live now (get digest c.entries))

-- `LicenseCache.invalidate`
unfoldable pub invalidate : String → LicenseCache → LicenseCache
invalidate digest c = record c { entries = pop digest c.entries }
