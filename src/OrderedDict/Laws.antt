-- ===== src/OrderedDict/Laws.antt =====
-- Lookups and lengths after the operations of an ordered dictionary.
use openontology.Prelude.{
  ltb, Bool-cases, Option-cases, length, all, length-append, All, All-append, Eq, eq_string,
  eq_pair, eq_text, ℕ, suc, ◌-◌, ◌≤◌, ◌<◌, min, ◌≡◌, refl, subst, ◌≢◌, inl, inr, Option, none, some,
  [], ◌∷◌, ◌++◌, arith,
}
use openontology.OrderedDict.{Entries, get, pop, put_last, move_to_end, evict, evictions}

module _ {ℓ} {K V : Type ℓ} ⦃e : Eq K⦄ where
  pub get-append :
      (k : K) (c d : Entries K V)
      → get k (c ++ d) ≡ elim (get k c) [ none ↦ get k d | some v ↦ some v ]
  unfolding get
  get-append k [] d = refl
  get-append k ((j, v) ∷ c) d = ground (arith, get-append k c d)

  pub get-pop_self : (k : K) (d : Entries K V) → get k (pop k d) ≡ none
  unfolding get pop
  get-pop_self k [] = refl
  get-pop_self k ((j, v) ∷ d) = ground (arith, get-pop_self k d)

  pub get-pop_ne : (k q : K) (d : Entries K V) → k ≢ q → get q (pop k d) ≡ get q d
  unfolding get pop
  get-pop_ne k q [] h = refl
  get-pop_ne k q ((j, v) ∷ d) h = ground (arith, e.beq_iff j k, e.beq_iff j q, get-pop_ne k q d h)

  pub length-pop-le : (k : K) (d : Entries K V) → length (pop k d) ≤ length d
  unfolding pop
  length-pop-le k [] = omega arith
  length-pop-le k ((j, v) ∷ d) = ground (arith, length-pop-le k d)

  pub length-pop_hit :
      (k : K) (d : Entries K V) (v : V) → get k d ≡ some v → suc (length (pop k d)) ≤ length d
  unfolding get pop
  length-pop_hit k [] v h = absurd (ground arith)
  length-pop_hit k ((j, w) ∷ d) v h = ground (arith, length-pop-le k d, length-pop_hit k d v)

  pub length-move_to_end-le : (k : K) (d : Entries K V) → length (move_to_end k d) ≤ length d
  unfolding move_to_end
  length-move_to_end-le k d = elim (Option-cases (get k d)) [
    | inl missing ↦ ground arith
    | inr (v, hit) ↦ ground (arith, length-append (pop k d) ((k, v) ∷ []), length-pop_hit k d v)
  ]

  -- What was absent stays absent.
  pub get-evict-none :
      (k : K) (limit : ℕ) (d : Entries K V) → get k d ≡ none → get k (evict limit d) ≡ none
  unfolding get evict
  get-evict-none k limit [] h = refl
  get-evict-none k limit ((j, v) ∷ d) h = ground (arith, get-evict-none k limit d)

module _ {ℓ κ} {K V : Type ℓ} ⦃e : Eq K⦄ (P : K × V → Type κ) where
  -- A predicate on the entries survives every operation that drops or moves entries.
  pub All-pop : (k : K) (d : Entries K V) → All P d → All P (pop k d)
  unfolding pop
  All-pop k [] h = tt
  All-pop k ((j, v) ∷ d) h = elim (Bool-cases (e.beq j k)) [
    | inl same ↦ rw same (All-pop k d h.1)
    | inr other ↦ rw other (h.0, All-pop k d h.1)
  ]

  pub All-put_last : (k : K) (v : V) (d : Entries K V) → P (k, v) → All P d → All P (put_last k v d)
  unfolding put_last
  All-put_last k v d h all = All-append P (pop k d) ((k, v) ∷ []) (All-pop k d all) (h, tt)

  pub All-get : (k : K) (v : V) (d : Entries K V) → All P d → get k d ≡ some v → P (k, v)
  unfolding get
  All-get k v [] all h = absurd (ground arith)
  All-get k v ((j, w) ∷ d) all h = elim (Bool-cases (e.beq j k)) [
    | inl same ↦
        let at : w ≡ v = ground arith in
        let key : j ≡ k = (e.beq_iff j k).0 same in
        subst (λ x. P (x, v)) key (subst (λ x. P (j, x)) at all.0)
    | inr other ↦ All-get k v d all.1 (ground arith)
  ]

  pub All-move_to_end : (k : K) (d : Entries K V) → All P d → All P (move_to_end k d)
  unfolding move_to_end put_last
  All-move_to_end k d all = elim (Option-cases (get k d)) [
    | inl missing ↦ rw (missing, move_to_end) all
    | inr (v, hit) ↦ rw (hit, move_to_end) (All-put_last k v d (All-get k v d all hit) all)
  ]

  pub All-evict : (limit : ℕ) (d : Entries K V) → All P d → All P (evict limit d)
  unfolding evict
  All-evict limit [] all = tt
  All-evict limit (x ∷ d) all = elim (Bool-cases (ltb limit (suc (length d)))) [
    | inl over ↦ rw over (All-evict limit d all.1)
    | inr fits ↦ rw fits all
  ]

module _ {ℓ} {K V : Type ℓ} where
  pub length-evict : (limit : ℕ) (d : Entries K V) → length (evict limit d) ≡ min limit (length d)
  unfolding evict
  length-evict limit [] = omega arith
  length-evict limit (x ∷ d) = ground (arith, length-evict limit d)

  pub evictions-eq-sub : (limit : ℕ) (d : Entries K V) → evictions limit d ≡ length d - limit
  unfolding evictions
  evictions-eq-sub limit [] = omega arith
  evictions-eq-sub limit (x ∷ d) = ground (arith, evictions-eq-sub limit d)

  -- The newest entry is never evicted while one entry may stay.
  pub evict-append_last :
      (limit : ℕ) (d : Entries K V) (x : K × V)
      → 0 < limit
      → evict limit (d ++ x ∷ []) ≡ evict (limit - 1) d ++ x ∷ []
  unfolding evict
  evict-append_last limit [] x h = ground arith
  evict-append_last limit (y ∷ d) x h =
      ground (arith, length-append d (x ∷ []), evict-append_last limit d x)

module _ {ℓ} {K V : Type ℓ} ⦃e : Eq K⦄ where
  -- A key that has just been stored is found again, whatever was evicted for it.
  pub get-evict-put_last :
      (k : K) (v : V) (limit : ℕ) (d : Entries K V)
      → 0 < limit
      → get k (evict limit (put_last k v d)) ≡ some v
  unfolding put_last
  get-evict-put_last k v limit d h =
      rw (evict-append_last limit (pop k d) (k, v) h, get-append)
        (rw (get-evict-none k (limit - 1) (pop k d) (get-pop_self k d))
          (unfold get in ground (arith, e.beq_iff k k)))

  pub get-put_last : (k : K) (v : V) (d : Entries K V) → get k (put_last k v d) ≡ some v
  unfolding put_last
  get-put_last k v d =
      rw get-append (rw (get-pop_self k d) (unfold get in ground (arith, e.beq_iff k k)))

  pub get-put_last_ne :
      (k q : K) (v : V) (d : Entries K V) → k ≢ q → get q (put_last k v d) ≡ get q d
  unfolding put_last
  get-put_last_ne k q v d h = rw get-append (rw (get-pop_ne k q d h) (ends (get q d)))
    where
      ends :
          (found : Option V) → elim found [ none ↦ get q ((k, v) ∷ []) | some w ↦ some w ] ≡ found
      ends none = unfold get in ground (arith, e.beq_iff k q)
      ends (some w) = refl
