-- ===== src/OrderedDict/Position.antt =====
-- Where an entry stands: how many entries are behind it, and what that spares it.
use openontology.Prelude.{
  ltb, Bool-cases, Option-cases, length, length-append, Eq, eq_string, eq_pair, eq_text, ℕ, suc,
  ◌≤◌, ◌<◌, ◌≡◌, refl, ap, ◌∙◌, ◌≢◌, inl, inr, none, some, [], ◌∷◌, ◌++◌, arith,
}
use openontology.OrderedDict.{Entries, get, pop, put_last, move_to_end, evict}
use openontology.OrderedDict.Laws.{get-append, get-pop_self, get-pop_ne, length-pop-le}
use mathlib.Core.List.{append_assoc}

module _ {K V : Type 0} ⦃e : Eq K⦄ where
  pop-append : (k : K) (c d : Entries K V) → pop k (c ++ d) ≡ pop k c ++ pop k d
  unfolding pop
  pop-append k [] d = refl
  pop-append k ((j, v) ∷ c) d = ground (arith, pop-append k c d)

  pop-cons_ne : (j k : K) (v : V) (d : Entries K V) → j ≢ k → pop j ((k, v) ∷ d) ≡ (k, v) ∷ pop j d
  unfolding pop
  pop-cons_ne j k v d h = ground (arith, e.beq_iff k j)

  evict_all : (limit : ℕ) (d : Entries K V) → length d ≤ limit → evict limit d ≡ d
  unfolding evict
  evict_all limit [] h = refl
  evict_all limit (x ∷ d) h = ground (arith, evict_all limit d)

  get-tail : (k j : K) (v : V) (c : Entries K V) → get k ((j, v) ∷ c) ≡ none → get k c ≡ none
  unfolding get
  get-tail k j v c h = ground arith

  evict-append :
      (limit : ℕ) (c d : Entries K V)
      → length d ≤ limit
      → (kept : Entries K V) × (evict limit (c ++ d) ≡ kept ++ d)
        × ((k : K) → get k c ≡ none → get k kept ≡ none)
  unfolding evict
  evict-append limit [] d h = ([], evict_all limit d h, λ k none_. none_)
  evict-append limit ((j, v) ∷ c) d h = elim (Bool-cases (ltb limit (suc (length (c ++ d))))) [
    | inl over ↦
        let (kept, same, absent) = evict-append limit c d h in
        rw (over, evict) (kept, same, λ k missing. absent k (get-tail k j v c missing))
    | inr fits ↦ rw (fits, evict) ((j, v) ∷ c, refl, λ k missing. missing)
  ]

  -- The entry of `k` is `v`, with at most `n` entries behind it.
  pub record Holds (k : K) (v : V) (n : ℕ) (d : Entries K V) : Type 0 where
    pub front : Entries K V
    pub back : Entries K V
    pub split : d ≡ front ++ (k, v) ∷ back
    pub first : get k front ≡ none
    pub few : length back ≤ n

  pub Holds-get : (k : K) (v : V) (n : ℕ) (d : Entries K V) → Holds k v n d → get k d ≡ some v
  Holds-get k v n d h =
      ap (get k) h.split ∙ rw get-append (rw h.first (unfold get in ground (arith, e.beq_iff k k)))

  pub put_last-Holds_own : (k : K) (v : V) (d : Entries K V) → Holds k v 0 (put_last k v d)
  unfolding put_last
  put_last-Holds_own k v d = record {
    front = pop k d;
    back = [];
    split = refl;
    first = get-pop_self k d;
    few = omega arith;
  }

  pub put_last-Holds :
      (j k : K) (w v : V) (n : ℕ) (d : Entries K V)
      → j ≢ k
      → Holds k v n d
      → Holds k v (suc n) (put_last j w d)
  unfolding put_last
  put_last-Holds j k w v n d apart h = record {
    front = pop j h.front;
    back = pop j h.back ++ (j, w) ∷ [];
    split =
        ap (λ l. pop j l ++ (j, w) ∷ []) h.split
        ∙ ap (λ l. l ++ (j, w) ∷ [])
            (pop-append j h.front ((k, v) ∷ h.back)
              ∙ ap (◌++◌ (pop j h.front)) (pop-cons_ne j k v h.back apart))
        ∙ append_assoc (pop j h.front) ((k, v) ∷ pop j h.back) ((j, w) ∷ []);
    first = get-pop_ne j k h.front apart ∙ h.first;
    few = omega (arith, h.few, length-pop-le j h.back, length-append (pop j h.back) ((j, w) ∷ []));
  }

  pub Holds-weaken : (k : K) (v : V) (n : ℕ) (d : Entries K V) → Holds k v n d → Holds k v (suc n) d
  Holds-weaken k v n d h = record {
    front = h.front;
    back = h.back;
    split = h.split;
    first = h.first;
    few = omega (arith, h.few);
  }

  pub move_to_end-Holds :
      (j k : K) (v : V) (n : ℕ) (d : Entries K V)
      → j ≢ k
      → Holds k v n d
      → Holds k v (suc n) (move_to_end j d)
  unfolding move_to_end
  move_to_end-Holds j k v n d apart h = elim (Option-cases (get j d)) [
    | inl missing ↦ rw (missing, move_to_end) (Holds-weaken k v n d h)
    | inr (w, hit) ↦ rw (hit, move_to_end) (unfold put_last in put_last-Holds j k w v n d apart h)
  ]

  pub evict-Holds :
      (limit : ℕ) (k : K) (v : V) (n : ℕ) (d : Entries K V)
      → n < limit
      → Holds k v n d
      → Holds k v n (evict limit d)
  evict-Holds limit k v n d room h =
      let (kept, same, absent) =
        evict-append limit h.front ((k, v) ∷ h.back) (omega (arith, h.few, room)) in
      record {
        front = kept;
        back = h.back;
        split = ap (evict limit) h.split ∙ same;
        first = absent k h.first;
        few = h.few;
      }
