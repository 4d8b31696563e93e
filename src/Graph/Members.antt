-- ===== src/Graph/Members.antt =====
-- What is among the scores of a payload's channels.
use openontology.Prelude.{
  Logged, Bool-cases, keep, All, eq_string, eq_pair, Text, eq_text, ℕ, ◌≤◌, ◌≡◌, refl, sym, ap, ◌∙◌,
  subst, ◌↔◌, ◌⊎◌, inl, inr, Bool, true, false, List, [], ◌∷◌, ◌++◌, map, arith,
}
use mathlib.Core.List.{Permᴰ}
use mathlib.Core.List.Permᴰ.{nil, cons, swap, trans}
use openontology.OrderedDict.{Entries}
use openontology.Topology.{Band, band_rank, worst_band}
use openontology.Topology.Bands.{worst_band-All}
use openontology.Prelude.Sort.{sort_by-perm}
use openontology.Graph.Channels.{Exceedance, precedes, score, evaluate_channels}

module _ {A : Type 0} where
  abbrev pub Among : A → List A → Type 0
  Among x [] = ⊥
  Among x (y ∷ ys) = (x ≡ y) ⊎ Among x ys

  one_more :
      (p : A → Bool) (x y : A) (xs ys : List A)
      → (Among x xs ↔ (Among x ys × (p x ≡ true)))
      → p y ≡ true
      → Among x (y ∷ xs) ↔ (Among x (y ∷ ys) × (p x ≡ true))
  one_more p x y xs ys ih hit = (
    λ h. elim h [ inl e ↦ (inl e, ap p e ∙ hit) | inr m ↦ (inr (ih.0 m).0, (ih.0 m).1) ],
    λ h. elim h.0 [ inl e ↦ inl e | inr m ↦ inr (ih.1 (m, h.1)) ],
  )

  none_more :
      (p : A → Bool) (x y : A) (xs ys : List A)
      → (Among x xs ↔ (Among x ys × (p x ≡ true)))
      → p y ≡ false
      → Among x xs ↔ (Among x (y ∷ ys) × (p x ≡ true))
  none_more p x y xs ys ih miss = (
    λ h. (inr (ih.0 h).0, (ih.0 h).1),
    λ h. elim h.0 [
      | inl e ↦ absurd (let no_hit = sym miss ∙ ap p (sym e) ∙ h.1 in cc)
      | inr m ↦ ih.1 (m, h.1)
    ],
  )

  pub Among-keep :
      (p : A → Bool) (x : A) (xs : List A) → Among x (keep p xs) ↔ (Among x xs × (p x ≡ true))
  Among-keep p x [] = (λ h. absurd h, λ h. h.0)
  Among-keep p x (y ∷ ys) = elim (Bool-cases (p y)) [
    | inl hit ↦
        let kept : keep p (y ∷ ys) ≡ y ∷ keep p ys = ground arith in
        rw kept (one_more p x y (keep p ys) ys (Among-keep p x ys) hit)
    | inr miss ↦
        let skipped : keep p (y ∷ ys) ≡ keep p ys = ground arith in
        rw skipped (none_more p x y (keep p ys) ys (Among-keep p x ys) miss)
  ]

  pub Among-All : (P : A → Type 0) (x : A) (xs : List A) → All P xs → Among x xs → P x
  Among-All P x [] h m = absurd m
  Among-All P x (y ∷ ys) h (inl e) = subst P (sym e) h.0
  Among-All P x (y ∷ ys) h (inr m) = Among-All P x ys h.1 m

  after_cons :
      (x : A) {y z : A} (ys zs : List A)
      → y ≡ z
      → (Among x ys → Among x zs)
      → Among x (y ∷ ys)
      → Among x (z ∷ zs)
  after_cons x ys zs same rest (inl e) = inl (e ∙ same)
  after_cons x ys zs same rest (inr m) = inr (rest m)

  after_swap :
      (x : A) {y z y' z' : A} (l : List A)
      → y ≡ y'
      → z ≡ z'
      → Among x (y ∷ z ∷ l)
      → Among x (z' ∷ y' ∷ l)
  after_swap x l same same' (inl e) = inr (inl (e ∙ same))
  after_swap x l same same' (inr (inl e)) = inl (e ∙ same')
  after_swap x l same same' (inr (inr m)) = inr (inr m)

  pub Among-perm : (x : A) {xs ys : List A} → Permᴰ xs ys → Among x xs ↔ Among x ys
  Among-perm x nil = (λ h. h, λ h. h)
  Among-perm x (cons e p) =
      (after_cons x _ _ e (Among-perm x p).0, after_cons x _ _ (sym e) (Among-perm x p).1)
  Among-perm x (swap {a} {b} {a'} {b'} {l} e e') =
      (after_swap x l e e', after_swap x l (sym e') (sym e))
  Among-perm x (trans p q) = (
    λ h. (Among-perm x q).0 ((Among-perm x p).0 h),
    λ h. (Among-perm x p).1 ((Among-perm x q).1 h),
  )

module _ {A B : Type 0} (f : A → B) where
  pub Among-map : (x : A) (xs : List A) → Among x xs → Among (f x) (map f xs)
  Among-map x [] m = absurd m
  Among-map x (y ∷ ys) (inl e) = inl (ap f e)
  Among-map x (y ∷ ys) (inr m) = inr (Among-map x ys m)

  pub map-Among : (y : B) (xs : List A) → Among y (map f xs) → (x : A) × Among x xs × (y ≡ f x)
  map-Among y [] m = absurd m
  map-Among y (x ∷ xs) (inl e) = (x, inl refl, e)
  map-Among y (x ∷ xs) (inr m) = let (z, n, e) = map-Among y xs m in (z, inr n, e)

pub Logged-Among : {A : Type 0} (x : A) (xs : List A) → Logged xs x → Among x xs
Logged-Among {A} x xs (before, after, e) = rw e (go before)
  where
    go : (b : List A) → Among x (b ++ x ∷ after)
    go [] = inl refl
    go (y ∷ b) = inr (go b)

top_band : (b : Band) → 3 ≤ band_rank b → b ≡ Band.hard
top_band Band.hard h = refl
top_band Band.critical h = absurd (omega arith)
top_band Band.warn h = absurd (omega arith)
top_band Band.nominal h = absurd (omega arith)
top_band Band.unknown h = absurd (omega arith)

module _ (readings : Entries Text ℕ) (node : Text) (p : Exceedance → Bool) where
  abbrev scores : List Exceedance
  scores = keep p (evaluate_channels readings node)

  -- A score that passes a test is that of a reading, and the other way round.
  pub scored_reading :
      (item : Exceedance)
      → Among item scores
      → (reading : Text × ℕ) × Among reading readings
        × (item ≡ score node reading)
        × (p item ≡ true)
  unfolding evaluate_channels
  scored_reading item m =
      let (in_all, test) = (Among-keep p item (evaluate_channels readings node)).0 m in
      let (reading, found, e) =
        map-Among (score node) item readings
          ((Among-perm item (sort_by-perm precedes (map (score node) readings))).0 in_all) in
      (reading, found, e, test)

  pub reading_scored :
      (reading : Text × ℕ)
      → Among reading readings
      → p (score node reading) ≡ true
      → Among (score node reading) scores
  unfolding evaluate_channels
  reading_scored reading m test =
      (Among-keep p (score node reading) (evaluate_channels readings node)).1 (
        (Among-perm (score node reading) (sort_by-perm precedes (map (score node) readings))).1
            (Among-map (score node) reading readings m),
        test,
      )

  -- The worst band is hard if and only if a score has it.
  pub worst_band-hard_iff :
      (worst_band (map (λ item. item.in_band) scores) ≡ Band.hard)
      ↔ ((item : Exceedance) × Among item scores × (item.in_band ≡ Band.hard))
  worst_band-hard_iff = (forth, back)
    where
      found_bands : List Band
      found_bands = map (λ item. item.in_band) scores

      forth :
          worst_band found_bands ≡ Band.hard
          → (item : Exceedance) × Among item scores × (item.in_band ≡ Band.hard)
      forth h = elim (worst_band-All found_bands).1 [
        | inl mild ↦ absurd (let e = sym mild ∙ h in cc)
        | inr found ↦
            let (item, m, e) =
              map-Among (λ (i : Exceedance). i.in_band) (worst_band found_bands) scores
                (Logged-Among (worst_band found_bands) found_bands found) in
            (item, m, sym e ∙ h)
      ]

      back :
          (item : Exceedance) × Among item scores × (item.in_band ≡ Band.hard)
          → worst_band found_bands ≡ Band.hard
      back (item, m, e) =
          let top =
            Among-All (λ b. band_rank b ≤ band_rank (worst_band found_bands)) item.in_band
              found_bands (worst_band-All found_bands).0
              (Among-map (λ (i : Exceedance). i.in_band) item scores m) in
          top_band (worst_band found_bands)
            (subst (λ b. band_rank b ≤ band_rank (worst_band found_bands)) e top)
