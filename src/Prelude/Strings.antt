-- ===== src/Prelude/Strings.antt =====
-- Python texts that the program takes apart, as lists of code points. `strip` and `upper` follow
-- `str.strip` and `str.upper` on ASCII; other code points are neither blank nor cased here.
pub mod Strip
use Prim.Native.Nat.{ℕ, ◌+◌, ◌-◌}
use Prim.Native.Char.{code}
use Prim.Native.String.{String}
use mathlib.Core.Path.{◌≡◌, refl, subst}
use mathlib.Core.Logic.{◌↔◌, inl, inr}
use mathlib.Core.Bool.{Bool, true, false, ◌&&◌, ◌||◌}
use mathlib.Core.Option.{Option, none, some}
use mathlib.Core.List.{List, [], ◌∷◌, map}
use native.Mathlib.Omega.{arith}
use openontology.Prelude.Tests.{leb, ◌==◌, if◌then◌else◌, Bool-cases}
use openontology.Prelude.Lists.{All}
use openontology.Prelude.Keys.{Eq}

abbrev pub Text : Type 0
Text = List ℕ

abbrev pub codes : String → Text
codes String.[] = []
codes (String.◌∷◌ c s) = code c ∷ codes s

abbrev pub text_eq : Text → Text → Bool
text_eq [] [] = true
text_eq [] (d ∷ t) = false
text_eq (c ∷ s) [] = false
text_eq (c ∷ s) (d ∷ t) = c == d && text_eq s t

pub text_eq_sound : (s t : Text) → text_eq s t ≡ true → s ≡ t
text_eq_sound [] [] h = refl
text_eq_sound [] (d ∷ t) h = cc
text_eq_sound (c ∷ s) [] h = cc
text_eq_sound (c ∷ s) (d ∷ t) h = ground (arith, text_eq_sound s t)

pub text_eq_refl : (s : Text) → text_eq s s ≡ true
text_eq_refl [] = refl
text_eq_refl (c ∷ s) = ground (arith, text_eq_refl s)

pub text_eq_complete : (s t : Text) → s ≡ t → text_eq s t ≡ true
text_eq_complete s t h = rw h (text_eq_refl t)

pub text_eq_iff : (s t : Text) → (text_eq s t ≡ true) ↔ (s ≡ t)
text_eq_iff s t = (text_eq_sound s t, text_eq_complete s t)

instance abbrev pub eq_text : Eq Text
eq_text = record { beq = text_eq; beq_iff = text_eq_iff }

-- The ASCII characters that `str.strip` removes.
abbrev pub is_space : ℕ → Bool
is_space c = c == 32 || (leb 9 c && leb c 13) || (leb 28 c && leb c 31)

abbrev pub lstrip : Text → Text
lstrip [] = []
lstrip (c ∷ s) = let rest = lstrip s in if is_space c then rest else c ∷ s

abbrev pub rstrip_onto : ℕ → Text → Text
rstrip_onto c [] = if is_space c then [] else c ∷ []
rstrip_onto c (d ∷ t) = c ∷ d ∷ t

abbrev pub rstrip : Text → Text
rstrip [] = []
rstrip (c ∷ s) = rstrip_onto c (rstrip s)

-- `s.strip()`
unfoldable pub strip : Text → Text
strip s = rstrip (lstrip s)

abbrev pub upper_char : ℕ → ℕ
upper_char c = if leb b'a' c && leb c b'z' then c - 32 else c

-- `s.upper()`
unfoldable pub upper : Text → Text
upper = map upper_char

abbrev pub lower_char : ℕ → ℕ
lower_char c = if leb b'A' c && leb c b'Z' then c + 32 else c

-- `s.lower()`
unfoldable pub lower : Text → Text
lower = map lower_char

-- `s.replace(old, new)` for single characters
unfoldable pub replace_char : ℕ → ℕ → Text → Text
replace_char old new = map (λ c. if c == old then new else c)

-- `s.rstrip("/")` and the like, for one character
unfoldable pub rstrip_char : ℕ → Text → Text
rstrip_char d [] = []
rstrip_char d (c ∷ s) = elim (rstrip_char d s) [
  | [] ↦ if c == d then [] else c ∷ []
  | x ∷ r ↦ c ∷ x ∷ r
]

-- `s.startswith(prefix)`
abbrev pub has_prefix : Text → Text → Bool
has_prefix s [] = true
has_prefix [] (d ∷ t) = false
has_prefix (c ∷ s) (d ∷ t) = c == d && has_prefix s t

abbrev pub onto_first : ℕ → List Text → List Text
onto_first c [] = (c ∷ []) ∷ []
onto_first c (w ∷ ws) = (c ∷ w) ∷ ws

-- `s.split(",")` and the like, for one character
abbrev pub split_on : ℕ → Text → List Text
split_on d [] = [] ∷ []
split_on d (c ∷ s) = let rest = split_on d s in if c == d then [] ∷ rest else onto_first c rest

-- `table.get(key)` on a table of constants, whose keys are written as literals.
abbrev pub find {ℓ} : {V : Type ℓ} → Text → List (String × V) → Option V
find k [] = none
find k ((j, v) ∷ table) = if text_eq k (codes j) then some v else find k table

-- `k in names`
abbrev pub member : Text → List Text → Bool
member k [] = false
member k (j ∷ names) = text_eq k j || member k names

-- A lookup in a table of constants returns one of its values.
pub find-All {ℓ κ} :
    {V : Type ℓ} (P : V → Type κ) (k : Text) (table : List (String × V)) {v : V}
    → All (λ e. P e.1) table
    → find k table ≡ some v
    → P v
find-All P k [] all h = absurd (ground arith)
find-All P k ((j, w) ∷ table) all h = elim (Bool-cases (text_eq k (codes j))) [
  | inl hit ↦ subst P (ground arith) all.0
  | inr miss ↦ find-All P k table all.1 (ground arith)
]
