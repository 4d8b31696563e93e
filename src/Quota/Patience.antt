-- ===== src/Quota/Patience.antt =====
-- What a refusal promises, and when `check` raises.
use openontology.Prelude.{
  ok_inj, leb, Bool-cases, length, ok, raise, eq_string, eq_pair, eq_text, ℕ, ◌+◌, ◌-◌, ◌≤◌, ◌<◌,
  String, ◌≡◌, refl, ap, ◌↔◌, inl, inr, true, false, List, [], ◌∷◌, arith,
}
use openontology.OrderedDict.{Entries, get}
use openontology.OrderedDict.Laws.{get-put_last}
use openontology.Quota.{Verdict, index_error, drop_expired, check_live, check_bucket, or_new, check}

check_live-raise_iff :
    (window now limit : ℕ) (live : List ℕ)
    → ((check_live window now limit live).0 ≡ raise index_error) ↔ ((limit ≡ 0) × (live ≡ []))
unfolding check_live
check_live-raise_iff window now limit [] = (λ h. (ground arith, refl), λ h. ground arith)
check_live-raise_iff window now limit (t ∷ live) = (λ h. absurd (ground arith), λ h. cc)

-- `check` raises `IndexError` if and only if the quota is 0 and no hit of the key is in the window.
pub check_bucket-raise_iff :
    (window now limit : ℕ) (bucket : List ℕ)
    → ((check_bucket window now limit bucket).0 ≡ raise index_error)
      ↔ ((limit ≡ 0) × (drop_expired window now bucket ≡ []))
unfolding check_bucket
check_bucket-raise_iff window now limit bucket =
    check_live-raise_iff window now limit (drop_expired window now bucket)

length-drop_expired-le :
    (window now : ℕ) (bucket : List ℕ) → length (drop_expired window now bucket) ≤ length bucket
unfolding drop_expired
length-drop_expired-le window now [] = omega arith
length-drop_expired-le window now (t ∷ bucket) =
    ground (arith, length-drop_expired-le window now bucket)

module _ (window now limit : ℕ) where
  abbrev Allows : ℕ → List ℕ → Type 0
  Allows later live =
      (again : Verdict) × ((check_bucket window later limit live).0 ≡ ok again)
      × (again.allowed ≡ true)

  check_bucket-Allows :
      (later : ℕ) (live : List ℕ)
      → length (drop_expired window later live) < limit
      → Allows later live
  unfolding check_bucket check_live
  check_bucket-Allows later live room =
      let open_ : leb limit (length (drop_expired window later live)) ≡ false = ground arith in
      rw open_ (_, refl, refl)

  length-drop_expired_head :
      (later t : ℕ) (rest : List ℕ)
      → t + window ≤ later
      → length (drop_expired window later (t ∷ rest)) ≤ length rest
  unfolding drop_expired
  length-drop_expired_head later t rest old =
      ground (arith, length-drop_expired-le window later rest)

  check_live-Allows :
      (live : List ℕ) (verdict : Verdict) (later : ℕ)
      → (check_live window now limit live).0 ≡ ok verdict
      → verdict.allowed ≡ false
      → length live ≤ limit
      → now + verdict.retry_after ≤ later
      → Allows later (check_live window now limit live).1
  unfolding check_live
  check_live-Allows [] verdict later h refused few le = absurd (ground arith)
  check_live-Allows (t ∷ rest) verdict later h refused few le =
      elim (Bool-cases (leb limit (length (t ∷ rest)))) [
        | inl full ↦
            let same = ok_inj (rw full at h) in
            let wait : t + window - now ≡ verdict.retry_after = ap (λ v. v.retry_after) same in
            rw (full, check_live)
              (check_bucket-Allows later (t ∷ rest) (
                omega
                  (arith, few, length-drop_expired_head later t rest (omega (arith, wait, le)))))
        | inr room ↦ absurd (ground arith)
      ]

  check_bucket-later :
      (bucket : List ℕ) (verdict : Verdict) (later : ℕ)
      → (check_bucket window now limit bucket).0 ≡ ok verdict
      → verdict.allowed ≡ false
      → length bucket ≤ limit
      → now + verdict.retry_after ≤ later
      → Allows later (check_bucket window now limit bucket).1
  unfolding check_bucket
  check_bucket-later bucket verdict later h refused few le =
      check_live-Allows (drop_expired window now bucket) verdict later h refused
        (omega (arith, few, length-drop_expired-le window now bucket)) le

  -- The same of `check`, whatever the other keys' deques.
  pub check-later :
      (key : String) (hits : Entries String (List ℕ)) (verdict : Verdict) (later : ℕ)
      → (check window now key limit hits).0 ≡ ok verdict
      → verdict.allowed ≡ false
      → length (or_new (get key hits)) ≤ limit
      → now + verdict.retry_after ≤ later
      → (again : Verdict) × ((check window later key limit (check window now key limit hits).1).0
          ≡ ok again)
        × (again.allowed ≡ true)
  unfolding check
  check-later key hits verdict later h refused few le =
      rw get-put_last (check_bucket-later (or_new (get key hits)) verdict later h refused few le)

  -- A refused caller that waits for `retry_after` and calls again, with nobody in between, is
  -- allowed, unless the deque held more than the quota.
  pub check_bucket-retry_after :
      (bucket : List ℕ) (verdict : Verdict)
      → (check_bucket window now limit bucket).0 ≡ ok verdict
      → verdict.allowed ≡ false
      → length bucket ≤ limit
      → (again : Verdict) × ((check_bucket window
            (now + verdict.retry_after)
            limit
            (check_bucket window now limit bucket).1).0
          ≡ ok again)
        × (again.allowed ≡ true)
  unfolding check_bucket
  check_bucket-retry_after bucket verdict h refused few =
      check_bucket-later bucket verdict (now + verdict.retry_after) h refused few (omega arith)
