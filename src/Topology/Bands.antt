-- ===== src/Topology/Bands.antt =====
-- The bands of a channel, and the worst of several.
use openontology.Prelude.{
  Logged, Logged-append, ltb, if◌then◌else◌, Bool-cases, All, eq_string, eq_pair, eq_text, ℕ, ◌≤◌,
  ◌≡◌, refl, sym, ap, ◌⊎◌, inl, inr, List, [], ◌∷◌, arith,
}
use openontology.Topology.{Band, nominal, band_rank, ChannelLimit, band, worst_from, worst_band}

-- A higher reading is never in a milder band, if the limits of the channel do not fall.
band_mono :
    (limit : ChannelLimit) (low high : ℕ)
    → limit.warn_at ≤ limit.critical_at
    → limit.critical_at ≤ limit.hard_at
    → low ≤ high
    → band_rank (band limit low) ≤ band_rank (band limit high)
unfolding band
band_mono limit low high warn_le critical_le h = ground arith

worst_from-ge :
    (worst : Band) (bands : List Band) → band_rank worst ≤ band_rank (worst_from worst bands)
unfolding worst_from
worst_from-ge worst [] = omega arith
worst_from-ge worst (b ∷ bands) =
    ground (arith, worst_from-ge (if ltb (band_rank worst) (band_rank b) then b else worst) bands)

worst_from-All :
    (worst : Band) (bands : List Band)
    → All (λ b. band_rank b ≤ band_rank (worst_from worst bands)) bands
unfolding worst_from
worst_from-All worst [] = tt
worst_from-All worst (b ∷ bands) =
    let next = if ltb (band_rank worst) (band_rank b) then b else worst in
    (ground (arith, worst_from-ge next bands), worst_from-All next bands)

worst_from-Logged :
    (worst : Band) (bands : List Band)
    → (worst_from worst bands ≡ worst) ⊎ Logged bands (worst_from worst bands)
unfolding worst_from
worst_from-Logged worst [] = inl refl
worst_from-Logged worst (b ∷ bands) = elim (Bool-cases (ltb (band_rank worst) (band_rank b))) [
  | inl more ↦ inr (rw (more, worst_from) (one_of_both (worst_from-Logged b bands)))
  | inr no_more ↦ rw (no_more, worst_from) (later (worst_from-Logged worst bands))
]
  where
    one_of_both :
        (worst_from b bands ≡ b) ⊎ Logged bands (worst_from b bands)
        → Logged (b ∷ bands) (worst_from b bands)
    one_of_both (inl same) = ([], bands, ap (λ x. x ∷ bands) (sym same))
    one_of_both (inr found) = Logged-append (b ∷ []) bands (worst_from b bands) found

    later :
        (worst_from worst bands ≡ worst) ⊎ Logged bands (worst_from worst bands)
        → (worst_from worst bands ≡ worst) ⊎ Logged (b ∷ bands) (worst_from worst bands)
    later (inl same) = inl same
    later (inr found) = inr (Logged-append (b ∷ []) bands (worst_from worst bands) found)

-- No band is worse than `worst_band`, and it is one of the bands, or nominal.
pub worst_band-All :
    (bands : List Band)
    → All (λ b. band_rank b ≤ band_rank (worst_band bands)) bands
      × ((worst_band bands ≡ nominal) ⊎ Logged bands (worst_band bands))
unfolding worst_band
worst_band-All bands = (worst_from-All nominal bands, worst_from-Logged nominal bands)
