-- ===== src/Prelude/Strings/Strip.antt =====
-- What `strip` leaves alone: a text whose first and last characters are not blank.
use mathlib.Core.Path.{◌≡◌, refl}
use mathlib.Core.Logic.{inl, inr}
use mathlib.Core.Bool.{false}
use mathlib.Core.List.{[], ◌∷◌, map}
use Prim.Native.Nat.{ℕ}
use openontology.Prelude.Tests.{Bool-cases}
use openontology.Prelude.Strings.{Text, is_space, lstrip, rstrip, rstrip_onto, strip}

abbrev pub StartsSolid : Text → Type 0
StartsSolid [] = Unit
StartsSolid (c ∷ s) = is_space c ≡ false

abbrev pub EndsSolid : Text → Type 0
EndsSolid [] = Unit
EndsSolid (c ∷ []) = is_space c ≡ false
EndsSolid (c ∷ d ∷ s) = EndsSolid (d ∷ s)

lstrip-StartsSolid : (s : Text) → StartsSolid (lstrip s)
lstrip-StartsSolid [] = tt
lstrip-StartsSolid (c ∷ s) = elim (Bool-cases (is_space c)) [
  | inl blank ↦ rw blank (lstrip-StartsSolid s)
  | inr solid ↦ rw solid solid
]

lstrip_solid : (s : Text) → StartsSolid s → lstrip s ≡ s
lstrip_solid [] h = refl
lstrip_solid (c ∷ s) h = rw h

rstrip_onto-StartsSolid : (c : ℕ) (s : Text) → is_space c ≡ false → StartsSolid (rstrip_onto c s)
rstrip_onto-StartsSolid c [] h = rw h h
rstrip_onto-StartsSolid c (d ∷ s) h = h

rstrip-StartsSolid : (s : Text) → StartsSolid s → StartsSolid (rstrip s)
rstrip-StartsSolid [] h = tt
rstrip-StartsSolid (c ∷ s) h = rstrip_onto-StartsSolid c (rstrip s) h

rstrip_onto-EndsSolid : (c : ℕ) (s : Text) → EndsSolid s → EndsSolid (rstrip_onto c s)
rstrip_onto-EndsSolid c [] h = elim (Bool-cases (is_space c)) [
  | inl blank ↦ rw blank tt
  | inr solid ↦ rw solid solid
]
rstrip_onto-EndsSolid c (d ∷ s) h = h

rstrip-EndsSolid : (s : Text) → EndsSolid (rstrip s)
rstrip-EndsSolid [] = tt
rstrip-EndsSolid (c ∷ s) = rstrip_onto-EndsSolid c (rstrip s) (rstrip-EndsSolid s)

rstrip_solid : (s : Text) → EndsSolid s → rstrip s ≡ s
rstrip_solid [] h = refl
rstrip_solid (c ∷ []) h = rw h
rstrip_solid (c ∷ d ∷ s) h = rw (rstrip_solid (d ∷ s) h)

pub strip-StartsSolid : (s : Text) → StartsSolid (strip s)
unfolding strip
strip-StartsSolid s = rstrip-StartsSolid (lstrip s) (lstrip-StartsSolid s)

pub strip-EndsSolid : (s : Text) → EndsSolid (strip s)
unfolding strip
strip-EndsSolid s = rstrip-EndsSolid (lstrip s)

pub strip_solid : (s : Text) → StartsSolid s → EndsSolid s → strip s ≡ s
unfolding strip
strip_solid s h k = rw (lstrip_solid s h) (rstrip_solid s k)

pub strip_idem : (s : Text) → strip (strip s) ≡ strip s
strip_idem s = strip_solid (strip s) (strip-StartsSolid s) (strip-EndsSolid s)

module _ (g : ℕ → ℕ) (solid : (c : ℕ) → is_space c ≡ false → is_space (g c) ≡ false) where
  pub map-StartsSolid : (s : Text) → StartsSolid s → StartsSolid (map g s)
  map-StartsSolid [] h = tt
  map-StartsSolid (c ∷ s) h = solid c h

  pub map-EndsSolid : (s : Text) → EndsSolid s → EndsSolid (map g s)
  map-EndsSolid [] h = tt
  map-EndsSolid (c ∷ []) h = solid c h
  map-EndsSolid (c ∷ d ∷ s) h = map-EndsSolid (d ∷ s) h
