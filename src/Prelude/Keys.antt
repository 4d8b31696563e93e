-- ===== src/Prelude/Keys.antt =====
-- Keys that can be compared: the interface that the ordered dictionary asks of its keys.
use mathlib.Core.Path.{◌≡◌}
use mathlib.Core.Logic.{◌↔◌}
use mathlib.Core.Bool.{Bool, true, false, ◌&&◌}
use Prim.Native.String.{String}
use text.Mathlib.Text.{◌==◌ as string_eq}
use text.Mathlib.TextEquality.{eq_iff}
use native.Mathlib.Omega.{arith}

pub record Eq {ℓ} (A : Type ℓ) : Type ℓ where
  pub beq : A → A → Bool
  pub beq_iff : (a b : A) → (beq a b ≡ true) ↔ (a ≡ b)

pub string_beq_iff : (a b : String) → (string_eq a b ≡ true) ↔ (a ≡ b)
string_beq_iff = eq_iff

pub string_ne : (a b : String) → string_eq a b ≡ false → a ≡ b → ⊥
string_ne a b apart same = let h = (string_beq_iff a b).1 same in cc

instance abbrev pub eq_string : Eq String
eq_string = record { beq = string_eq; beq_iff = string_beq_iff }

-- A key of the plan caches is the pair of a tenant and an event id.
abbrev pub pair_beq : String × String → String × String → Bool
pair_beq (a, b) (c, d) = string_eq a c && string_eq b d

pub pair_beq_iff : (p q : String × String) → (pair_beq p q ≡ true) ↔ (p ≡ q)
pair_beq_iff (a, b) (c, d) = (
  (λ h. ground (arith, eq_iff a c, eq_iff b d)),
  (λ h. ground (arith, eq_iff a c, eq_iff b d, ap0 h, ap1 h)),
)
  where
    ap0 : ◌≡◌ {A = String × String} (a, b) (c, d) → a ≡ c
    ap0 h = λ i. (h i).0

    ap1 : ◌≡◌ {A = String × String} (a, b) (c, d) → b ≡ d
    ap1 h = λ i. (h i).1

instance abbrev pub eq_pair : Eq (String × String)
eq_pair = record { beq = pair_beq; beq_iff = pair_beq_iff }
