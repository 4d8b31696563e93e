-- ===== src/Prelude/Decimal.antt =====
-- `str(n)` of a natural number, and that it determines the number.
use Prim.Native.Nat.{ℕ, zero, suc, ◌+◌, ◌-◌, ◌*◌, ◌/◌, ◌%◌, ◌<◌}
use mathlib.Core.Path.{◌≡◌, sym, ap, ◌∙◌}
use mathlib.Core.List.{[], ◌∷◌, ◌++◌, foldl, foldl-append}
use mathlib.Core.Logic.{inl, inr}
use native.Mathlib.Omega.{arith}
use openontology.Prelude.Tests.{ltb, if◌then◌else◌, Bool-cases}
use openontology.Prelude.Lists.{All, All-append}
use openontology.Prelude.Strings.{Text}

digits_from : ℕ → ℕ → Text
digits_from zero n = []
digits_from (suc fuel) n =
    let more = digits_from fuel (n / 10) ++ (48 + n % 10) ∷ [] in
    if ltb n 10 then (48 + n) ∷ [] else more

-- A number has no more digits than its successor, so the fuel is enough.
unfoldable pub decimal : ℕ → Text
unfolding digits_from
decimal n = digits_from (suc n) n

abbrev shift : ℕ → ℕ → ℕ
shift acc c = acc * 10 + (c - 48)

value : Text → ℕ
value = foldl shift 0

value-digits_from : (fuel n : ℕ) → n < fuel → value (digits_from fuel n) ≡ n
unfolding value digits_from
value-digits_from zero n h = elim h [ ]
value-digits_from (suc fuel) n h = elim (Bool-cases (ltb n 10)) [
  | inl small ↦ rw small (omega arith)
  | inr large ↦
      let smaller : n / 10 < fuel = ground arith in
      rw large (rw foldl-append (rw (value-digits_from fuel (n / 10) smaller) (omega arith)))
]

pub decimal_inj : (m n : ℕ) → decimal m ≡ decimal n → m ≡ n
unfolding decimal
decimal_inj m n h =
    sym (value-digits_from (suc m) m (omega arith))
    ∙ ap value h
    ∙ value-digits_from (suc n) n (omega arith)

abbrev pub IsDigit : ℕ → Type 0
IsDigit c = (47 < c) × (c < 58)

digits_from-IsDigit : (fuel n : ℕ) → All IsDigit (digits_from fuel n)
unfolding digits_from
digits_from-IsDigit zero n = tt
digits_from-IsDigit (suc fuel) n = elim (Bool-cases (ltb n 10)) [
  | inl small ↦ rw small (ground arith)
  | inr large ↦ rw large (
      All-append IsDigit (digits_from fuel (n / 10)) ((48 + n % 10) ∷ [])
        (digits_from-IsDigit fuel (n / 10)) (omega arith))
]

pub decimal-IsDigit : (n : ℕ) → All IsDigit (decimal n)
unfolding decimal
decimal-IsDigit n = digits_from-IsDigit (suc n) n
