-- ===== src/License/Cache/Staleness.antt =====
-- How old an answer of the subscription cache can be, over any sequence of calls.
use openontology.Prelude.{
  ℕ, [], ◌∷◌, ◌+◌, ◌≤◌, ◌<◌, ◌≡◌, refl, Option, none, some, String, arith, All, eq_string,
}
use openontology.OrderedDict.{Entries, get}
use openontology.OrderedDict.Laws.{All-get, All-pop, All-put_last, All-move_to_end, All-evict}
use openontology.License.Subscriptions.{Subscription}
use openontology.License.Cache.{CacheEntry, LicenseCache, init, live, after, resolve, invalidate}

-- The registry as it stands at each moment: the billing system may change it at any time.
abbrev pub History : Type 0
History = ℕ → String → Option Subscription

live-eq-some :
    (now : ℕ) (found : Option CacheEntry) (x : CacheEntry)
    → live now found ≡ some x
    → found ≡ some x
live-eq-some now none x h = h
live-eq-some now (some e) x h = ground arith

live-lt :
    (now : ℕ) (found : Option CacheEntry) (x : CacheEntry)
    → live now found ≡ some x
    → now < x.expires_at
live-lt now none x h = absurd (ground arith)
live-lt now (some e) x h = ground arith

module _ (history : History) where
  -- An answer that the registry gave at some moment at most `ttl` before `now`.
  abbrev pub IsRecent : ℕ → ℕ → String → Option Subscription → Type 0
  IsRecent ttl now digest answer =
      (t : ℕ) × (t ≤ now) × (now < t + ttl) × (answer ≡ history t digest)

  -- An entry that was loaded at some moment up to `now`.
  abbrev WasLoaded : ℕ → ℕ → String × CacheEntry → Type 0
  WasLoaded ttl now (digest, e) =
      (t : ℕ) × (t ≤ now) × (e.expires_at ≡ t + ttl) × (e.subscription ≡ history t digest)

  -- The caches that `init` and calls of `resolve` and `invalidate` lead to, at times that do not
  -- go back.
  pub data Reach (ttl max_entries : ℕ) : ℕ → LicenseCache → Type 0 where
    started : (now : ℕ) → Reach ttl max_entries now (init ttl max_entries)
    resolved :
        {now : ℕ} {c : LicenseCache} (now' : ℕ) (digest : String)
        → Reach ttl max_entries now c
        → now ≤ now'
        → Reach ttl max_entries now' (resolve (history now') now' digest c).1
    invalidated :
        {now : ℕ} {c : LicenseCache} (digest : String)
        → Reach ttl max_entries now c
        → Reach ttl max_entries now (invalidate digest c)

  module _ (ttl : ℕ) where
    abbrev AreLoaded : ℕ → LicenseCache → Type 0
    AreLoaded now c = (c.ttl ≡ ttl) × All (WasLoaded ttl now) c.entries

    WasLoaded-mono :
        (now now' : ℕ)
        → now ≤ now'
        → (d : Entries String CacheEntry) → All (WasLoaded ttl now) d
        → All (WasLoaded ttl now') d
    WasLoaded-mono now now' le [] h = tt
    WasLoaded-mono now now' le ((digest, e) ∷ d) ((t, before, expiry, answer), h) =
        ((t, omega arith, expiry, answer), WasLoaded-mono now now' le d h)

    resolve-AreLoaded :
        (now : ℕ) (digest : String) (c : LicenseCache)
        → AreLoaded now c
        → AreLoaded now (resolve (history now) now digest c).1
    unfolding resolve
    resolve-AreLoaded now digest c h = go (live now (get digest c.entries))
      where
        go : (found : Option CacheEntry) → AreLoaded now (after (history now) now digest c found).1
        go (some e) = (h.0, All-move_to_end (WasLoaded ttl now) digest c.entries h.1)
        go none = (
          h.0,
          All-evict (WasLoaded ttl now) c.max_entries _ (
              All-put_last (WasLoaded ttl now) digest _ c.entries (now, omega arith, rw h.0, refl)
                h.1),
        )

    Reach-AreLoaded :
        {max_entries now : ℕ} {c : LicenseCache} → Reach ttl max_entries now c → AreLoaded now c
    unfolding invalidate
    Reach-AreLoaded (started now) = (refl, tt)
    Reach-AreLoaded (resolved {now} {c} now' digest r le) =
        let (ttl_kept, loaded) = Reach-AreLoaded r in
        resolve-AreLoaded now' digest c (ttl_kept, WasLoaded-mono now now' le c.entries loaded)
    Reach-AreLoaded (invalidated {now} {c} digest r) =
        let (ttl_kept, loaded) = Reach-AreLoaded r in
        (ttl_kept, All-pop (WasLoaded ttl now) digest c.entries loaded)

    answer-IsRecent :
        (now : ℕ) (digest : String) (c : LicenseCache)
        → 0 < ttl
        → AreLoaded now c
        → IsRecent ttl now digest (resolve (history now) now digest c).0.0
    unfolding resolve
    answer-IsRecent now digest c pos h = go (live now (get digest c.entries)) refl
      where
        go :
            (found : Option CacheEntry)
            → live now (get digest c.entries) ≡ found
            → IsRecent ttl now digest (after (history now) now digest c found).0.0
        go none e = (now, omega arith, omega arith, refl)
        go (some x) e =
            let stored : get digest c.entries ≡ some x =
              live-eq-some now (get digest c.entries) x e in
            let (t, before, expiry, answer) =
              All-get (WasLoaded ttl now) digest x c.entries h.1 stored in
            (t, before, omega (arith, live-lt now (get digest c.entries) x e), answer)

  -- Whatever calls of `resolve` and `invalidate` came before, at times that do not go back, and
  -- however the registry changed between them: the answer of the next call is one that the
  -- registry gave for that key no more than `ttl` ago.
  pub resolve-IsRecent :
      (ttl max_entries now : ℕ) (c : LicenseCache) (now' : ℕ) (digest : String)
      → 0 < ttl
      → Reach ttl max_entries now c
      → now ≤ now'
      → IsRecent ttl now' digest (resolve (history now') now' digest c).0.0
  resolve-IsRecent ttl max_entries now c now' digest pos r le =
      let (ttl_kept, loaded) = Reach-AreLoaded ttl r in
      answer-IsRecent ttl now' digest c pos
        (ttl_kept, WasLoaded-mono ttl now now' le c.entries loaded)
