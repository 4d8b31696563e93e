-- ===== src/PlanCache/Retention.antt =====
-- A stored plan is replayed while fewer than `max` operations on other keys came after it.
use openontology.Prelude.{
  ◌==◌, Bool-cases, length, All, eq_string, eq_pair, eq_text, ℕ, suc, ◌+◌, ◌≤◌, ◌<◌, ◌≡◌, refl,
  subst, ◌≢◌, inl, inr, false, Option, none, some, List, [], ◌∷◌, arith,
}
use openontology.OrderedDict.{get, put_last}
use openontology.OrderedDict.Laws.{length-evict, length-move_to_end-le}
use openontology.PlanCache.{Key, PlanCache, found, lookup, put}
use openontology.OrderedDict.Position.{
  Holds, Holds-get, Holds-weaken, put_last-Holds, put_last-Holds_own, move_to_end-Holds,
  evict-Holds,
}

-- A use of the cache.
pub data Operation (V : Type 0) : Type 0 where
  looked_up : Key → Operation V
  stored : Key → V → Operation V

module _ {V : Type 0} where
  abbrev pub apply : Operation V → PlanCache V → PlanCache V
  apply (looked_up key) c = (lookup key c).1
  apply (stored key value) c = put key value c

  abbrev pub apply_all : List (Operation V) → PlanCache V → PlanCache V
  apply_all [] c = c
  apply_all (o ∷ os) c = apply_all os (apply o c)

  -- The operation is on another key.
  abbrev pub IsOther : Key → Operation V → Type 0
  IsOther key (looked_up other) = other ≢ key
  IsOther key (stored other value) = other ≢ key

  module _ (key : Key) (value : V) where
    -- What a cache of size `limit` keeps, after `n` operations on other keys.
    abbrev Keeps : ℕ → ℕ → PlanCache V → Type 0
    Keeps limit n c = (c.max ≡ limit) × Holds key value n c.data_

    apply-Keeps :
        (limit n : ℕ) (o : Operation V) (c : PlanCache V)
        → suc n < limit
        → IsOther key o
        → Keeps limit n c
        → Keeps limit (suc n) (apply o c)
    unfolding lookup put
    apply-Keeps limit n (looked_up other) c room apart (size, h) =
        let on : (c.max == 0) ≡ false = ground arith in
        rw (on, apply) (found-Keeps (get other c.data_))
      where
        found-Keeps : (hit : Option V) → Keeps limit (suc n) (found other hit c).1
        found-Keeps none = (size, Holds-weaken key value n c.data_ h)
        found-Keeps (some w) = (size, move_to_end-Holds other key value n c.data_ apart h)
    apply-Keeps limit n (stored other w) c room apart (size, h) =
        let on : (c.max == 0) ≡ false = ground arith in
        rw (on, apply)
          (
            size,
            evict-Holds c.max key value (suc n) (put_last other w c.data_)
                (omega (arith, room, size)) (put_last-Holds other key w value n c.data_ apart h),
          )

    apply_all-Keeps :
        (limit n : ℕ) (os : List (Operation V)) (c : PlanCache V)
        → n + length os < limit
        → All (IsOther key) os
        → Keeps limit n c
        → Keeps limit (n + length os) (apply_all os c)
    apply_all-Keeps limit n [] c room others h = subst (λ m. Keeps limit m c) (omega arith) h
    apply_all-Keeps limit n (o ∷ os) c room (apart, others) h =
        subst (λ m. Keeps limit m (apply_all os (apply o c))) (omega arith)
          (apply_all-Keeps limit (suc n) os (apply o c) (omega (arith, room)) others
            (apply-Keeps limit n o c (omega (arith, room)) apart h))

    put-Keeps : (c : PlanCache V) → 0 < c.max → Keeps c.max 0 (put key value c)
    unfolding put
    put-Keeps c room =
        let on : (c.max == 0) ≡ false = ground arith in
        rw (on, put)
          (
            refl,
            evict-Holds c.max key value 0 (put_last key value c.data_) room
                (put_last-Holds_own key value c.data_),
          )

    -- A plan that was stored is what a redelivery of its event is answered with, as long as fewer
    -- than `max_entries` lookups and stores of other events came after it, whatever they were.
    pub put-lookup :
        (c : PlanCache V) (os : List (Operation V))
        → length os < c.max
        → All (IsOther key) os
        → (lookup key (apply_all os (put key value c))).0 ≡ some value
    unfolding lookup
    put-lookup c os room others =
        let (size, h) =
          apply_all-Keeps c.max 0 os (put key value c) (omega (arith, room)) others
            (put-Keeps c (omega (arith, room))) in
        let on : ((apply_all os (put key value c)).max == 0) ≡ false = ground arith in
        rw (on, lookup)
          (rw (Holds-get key value (0 + length os) (apply_all os (put key value c)).data_ h) refl)

-- The cache never holds more than `max_entries` plans.
apply-length :
    {V : Type 0} (c : PlanCache V) (o : Operation V)
    → length c.data_ ≤ c.max
    → (length (apply o c).data_ ≤ (apply o c).max) × ((apply o c).max ≡ c.max)
unfolding lookup put
apply-length {V} c (looked_up key) h = elim (Bool-cases (c.max == 0)) [
  | inl off ↦ rw (off, apply) (h, refl)
  | inr on ↦ rw (on, apply) (found-length (get key c.data_))
]
  where
    found-length :
        (hit : Option V)
        → (length (found key hit c).1.data_ ≤ (found key hit c).1.max)
          × ((found key hit c).1.max ≡ c.max)
    found-length none = (h, refl)
    found-length (some v) = (omega (arith, h, length-move_to_end-le key c.data_), refl)
apply-length {V} c (stored key value) h = elim (Bool-cases (c.max == 0)) [
  | inl off ↦ rw (off, apply) (h, refl)
  | inr on ↦ rw (on, apply) (omega (arith, length-evict c.max (put_last key value c.data_)), refl)
]
