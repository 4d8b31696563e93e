-- ===== src/Quota/Window.antt =====
-- No window of time sees more allowed calls than the quota.
use openontology.Prelude.{
  All-map, ltb, leb, if◌then◌else◌, leb→le, Bool-cases, length, All, All-append, Result, ok, raise,
  eq_string, eq_pair, eq_text, ℕ, suc, ◌+◌, ◌≤◌, ◌<◌, String, ◌≡◌, refl, sym, ap, ◌∙◌, subst, ◌≢◌,
  inl, inr, ◌&&◌, List, [], ◌∷◌, ◌++◌, arith,
}
use openontology.OrderedDict.{Entries, get}
use openontology.OrderedDict.Laws.{get-put_last, get-put_last_ne}
use mathlib.Core.List.{append_assoc}
use openontology.Quota.{
  Verdict, CheckError, drop_expired, refuse, check_live, check_bucket, or_new, check,
}

-- How many of the instants lie in the window that ends at `end`: after `end - window`, up to `end`.
unfoldable pub in_window : (window end : ℕ) → List ℕ → ℕ
in_window window end [] = 0
in_window window end (t ∷ ts) =
    let rest = in_window window end ts in
    if leb t end && ltb end (t + window) then suc rest else rest

in_window-append :
    (window end : ℕ) (ts us : List ℕ)
    → in_window window end (ts ++ us) ≡ in_window window end ts + in_window window end us
unfolding in_window
in_window-append window end [] us = omega arith
in_window-append window end (t ∷ ts) us = ground (arith, in_window-append window end ts us)

in_window-le : (window end : ℕ) (ts : List ℕ) → in_window window end ts ≤ length ts
unfolding in_window
in_window-le window end [] = omega arith
in_window-le window end (t ∷ ts) = ground (arith, in_window-le window end ts)

abbrev IsExpired : (window now : ℕ) → ℕ → Type 0
IsExpired window now t = t + window ≤ now

in_window_expired :
    (window now end : ℕ) (ts : List ℕ)
    → now ≤ end
    → All (IsExpired window now) ts
    → in_window window end ts ≡ 0
unfolding in_window
in_window_expired window now end [] le h = refl
in_window_expired window now end (t ∷ ts) le (gone, h) =
    ground (arith, in_window_expired window now end ts le h)

-- What `drop_expired` takes away is expired.
drop_expired-split :
    (window now : ℕ) (bucket : List ℕ)
    → (gone : List ℕ) × (bucket ≡ gone ++ drop_expired window now bucket)
      × All (IsExpired window now) gone
unfolding drop_expired
drop_expired-split window now [] = ([], refl, tt)
drop_expired-split window now (t ∷ bucket) = elim (Bool-cases (leb (t + window) now)) [
  | inl old ↦
      let (gone, e, h) = drop_expired-split window now bucket in
      rw (old, drop_expired) (t ∷ gone, ap (◌∷◌ t) e, (leb→le (t + window) now old, h))
  | inr fresh ↦ rw (fresh, drop_expired) ([], refl, tt)
]

module _ (window limit : ℕ) where
  -- What holds of one deque and of the instants of its key's allowed calls up to `now`.
  pub record IsCounting (now : ℕ) (admitted bucket : List ℕ) : Type 0 where
    pub gone : List ℕ
    pub split : admitted ≡ gone ++ bucket
    pub expired : All (IsExpired window now) gone
    pub within : (end : ℕ) → in_window window end admitted ≤ limit

  counts_more :
      (now : ℕ) (admitted gone bucket : List ℕ)
      → admitted ≡ gone ++ bucket
      → All (IsExpired window now) gone
      → ((end : ℕ) → in_window window end admitted ≤ limit)
      → length bucket < limit
      → (end : ℕ) → in_window window end (admitted ++ now ∷ []) ≤ limit
  counts_more now admitted gone bucket e h within room end = elim (Bool-cases (leb now end)) [
    | inl late ↦
        let le = leb→le now end late in
        let split = ap (in_window window end) e ∙ in_window-append window end gone bucket in
        omega (
          arith,
          split,
          room,
          in_window_expired window now end gone le h,
          in_window-le window end bucket,
          in_window-append window end admitted (now ∷ []),
          in_window-le window end (now ∷ []),
        )
    | inr early ↦
        let none_ : in_window window end (now ∷ []) ≡ 0 = unfold in_window in rw early refl in
        omega (arith, none_, within end, in_window-append window end admitted (now ∷ []))
  ]

  -- the instants of the allowed calls, with one more call
  abbrev pub record_hit : Result CheckError Verdict → ℕ → List ℕ → List ℕ
  record_hit (ok verdict) now admitted = if verdict.allowed then admitted ++ now ∷ [] else admitted
  record_hit (raise e) now admitted = admitted

  refuse-record_hit :
      (now : ℕ) (bucket admitted : List ℕ)
      → record_hit (refuse window now bucket) now admitted ≡ admitted
  refuse-record_hit now [] admitted = refl
  refuse-record_hit now (t ∷ bucket) admitted = refl

  check_live-IsCounting :
      (now : ℕ) (admitted bucket : List ℕ)
      → IsCounting now admitted bucket
      → IsCounting now
          (record_hit (check_live window now limit bucket).0 now admitted)
          (check_live window now limit bucket).1
  unfolding check_live
  check_live-IsCounting now admitted bucket h = elim (Bool-cases (leb limit (length bucket))) [
    | inl full ↦
        rw (full, check_live)
          (subst (λ a. IsCounting now a bucket) (sym (refuse-record_hit now bucket admitted)) h)
    | inr room ↦
        rw (room, check_live)
          (record {
            gone = h.gone;
            split = ap (λ a. a ++ now ∷ []) h.split ∙ append_assoc h.gone bucket (now ∷ []);
            expired = h.expired;
            within =
                counts_more now admitted h.gone bucket h.split h.expired h.within (ground arith);
          })
  ]

  IsCounting-later :
      (now now' : ℕ) (admitted bucket : List ℕ)
      → now ≤ now'
      → IsCounting now admitted bucket
      → IsCounting now' admitted bucket
  IsCounting-later now now' admitted bucket le h = record {
    gone = h.gone;
    split = h.split;
    expired = All-map _ _ (λ t old. omega (arith, old, le)) h.gone h.expired;
    within = h.within;
  }

  drop_expired-IsCounting :
      (now : ℕ) (admitted bucket : List ℕ)
      → IsCounting now admitted bucket
      → IsCounting now admitted (drop_expired window now bucket)
  drop_expired-IsCounting now admitted bucket h =
      let (gone, e, old) = drop_expired-split window now bucket in
      record {
        gone = h.gone ++ gone;
        split =
            h.split
            ∙ ap (◌++◌ h.gone) e
            ∙ sym (append_assoc h.gone gone (drop_expired window now bucket));
        expired = All-append _ h.gone gone h.expired old;
        within = h.within;
      }

  -- One call of `check` on the deque of its key keeps the count.
  pub check_bucket-IsCounting :
      (now now' : ℕ) (admitted bucket : List ℕ)
      → now ≤ now'
      → IsCounting now admitted bucket
      → IsCounting now'
          (record_hit (check_bucket window now' limit bucket).0 now' admitted)
          (check_bucket window now' limit bucket).1
  unfolding check_bucket
  check_bucket-IsCounting now now' admitted bucket le h =
      check_live-IsCounting now' admitted (drop_expired window now' bucket) (
        drop_expired-IsCounting now' admitted bucket
          (IsCounting-later now now' admitted bucket le h))

module _ (window limit : ℕ) (key : String) where
  -- The states of the limiter that calls at times that do not go back lead to, with the instants
  -- of the allowed calls of `key`. Its quota is `limit`; the quotas of other keys are arbitrary.
  pub data Reach : ℕ → Entries String (List ℕ) → List ℕ → Type 0 where
    empty : (now : ℕ) → Reach now [] []
    own :
        {now : ℕ} {hits : Entries String (List ℕ)} {admitted : List ℕ} (now' : ℕ)
        → Reach now hits admitted
        → now ≤ now'
        → Reach now'
            (check window now' key limit hits).1
            (record_hit window limit (check window now' key limit hits).0 now' admitted)
    foreign :
        {now : ℕ} {hits : Entries String (List ℕ)} {admitted : List ℕ} (now' : ℕ) (other : String)
        (quota : ℕ)
        → Reach now hits admitted
        → now ≤ now'
        → other ≢ key
        → Reach now' (check window now' other quota hits).1 admitted

  Reach-IsCounting :
      {now : ℕ} {hits : Entries String (List ℕ)} {admitted : List ℕ}
      → Reach now hits admitted
      → IsCounting window limit now admitted (or_new (get key hits))
  unfolding check get in_window
  Reach-IsCounting (empty now) = record {
    gone = [];
    split = refl;
    expired = tt;
    within = λ end. omega arith;
  }
  Reach-IsCounting (own {now = before} {hits = hits'} {admitted = admitted'} now r le) =
      rw get-put_last (
        check_bucket-IsCounting window limit before now admitted' (or_new (get key hits')) le
          (Reach-IsCounting r))
  Reach-IsCounting
        (foreign {now = before} {hits = hits'} {admitted = admitted} now other quota r le apart) =
      rw (get-put_last_ne other key _ hits' apart) (
        IsCounting-later window limit before now admitted (or_new (get key hits')) le
          (Reach-IsCounting r))

  -- However the limiter was used: in no window of its length, wherever it ends, were more calls of
  -- a key allowed than its quota.
  pub check-in_window :
      (now : ℕ) (hits : Entries String (List ℕ)) (admitted : List ℕ) (end : ℕ)
      → Reach now hits admitted
      → in_window window end admitted ≤ limit
  check-in_window now hits admitted end r = (Reach-IsCounting r).within end
