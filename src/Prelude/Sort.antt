-- ===== src/Prelude/Sort.antt =====
-- Python's `sorted(xs, key=...)`, which keeps the order of items with the same key: `precedes x y`
-- is that the key of `x` is smaller than that of `y`.
use mathlib.Core.Path.{◌≡◌, refl}
use mathlib.Core.Logic.{inl, inr}
use mathlib.Core.Bool.{Bool, true, false}
use mathlib.Core.List.{List, [], ◌∷◌, Permᴰ}
use mathlib.Core.List.Permᴰ.{nil, cons, swap, trans}
use openontology.Prelude.Tests.{if◌then◌else◌, Bool-cases}
use openontology.Prelude.Lists.{All, All-map}

module _ {A : Type 0} where
  Permᴰ-refl : (xs : List A) → Permᴰ xs xs
  Permᴰ-refl [] = nil
  Permᴰ-refl (x ∷ xs) = cons refl (Permᴰ-refl xs)

  module _ (precedes : A → A → Bool) where
    unfoldable pub insert_by : A → List A → List A
    insert_by x [] = x ∷ []
    insert_by x (y ∷ ys) =
        let rest = y ∷ insert_by x ys in if precedes y x then rest else x ∷ y ∷ ys

    unfoldable pub sort_by : List A → List A
    unfolding insert_by
    sort_by [] = []
    sort_by (x ∷ xs) = insert_by x (sort_by xs)

    -- No later item has a smaller key than an earlier one.
    abbrev pub IsSorted : List A → Type 0
    IsSorted [] = Unit
    IsSorted (x ∷ xs) = All (λ y. precedes y x ≡ false) xs × IsSorted xs

    insert_by-perm : (x : A) (ys : List A) → Permᴰ (insert_by x ys) (x ∷ ys)
    unfolding insert_by
    insert_by-perm x [] = Permᴰ-refl (x ∷ [])
    insert_by-perm x (y ∷ ys) = elim (Bool-cases (precedes y x)) [
      | inl first ↦ rw first (trans (cons refl (insert_by-perm x ys)) (swap refl refl))
      | inr not_first ↦ rw not_first (Permᴰ-refl (x ∷ y ∷ ys))
    ]

    pub sort_by-perm : (xs : List A) → Permᴰ (sort_by xs) xs
    unfolding sort_by
    sort_by-perm [] = nil
    sort_by-perm (x ∷ xs) = trans (insert_by-perm x (sort_by xs)) (cons refl (sort_by-perm xs))

    All-insert_by : (P : A → Type 0) (x : A) (ys : List A) → P x → All P ys → All P (insert_by x ys)
    unfolding insert_by
    All-insert_by P x [] h k = (h, tt)
    All-insert_by P x (y ∷ ys) h k = elim (Bool-cases (precedes y x)) [
      | inl first ↦ rw first (k.0, All-insert_by P x ys h k.1)
      | inr not_first ↦ rw not_first (h, k)
    ]

    module _ (asymm : (x y : A) → precedes x y ≡ true → precedes y x ≡ false)
        (le_trans : (x y z : A)
          → precedes y x ≡ false
          → precedes z y ≡ false
          → precedes z x ≡ false) where
      insert_by-IsSorted : (x : A) (ys : List A) → IsSorted ys → IsSorted (insert_by x ys)
      unfolding insert_by
      insert_by-IsSorted x [] h = (tt, tt)
      insert_by-IsSorted x (y ∷ ys) h = elim (Bool-cases (precedes y x)) [
        | inl first ↦ rw first (
          All-insert_by (λ z. precedes z y ≡ false) x ys (asymm y x first) h.0,
          insert_by-IsSorted x ys h.1,
        )
        | inr not_first ↦
            rw not_first ((not_first, All-map _ _ (λ z. le_trans x y z not_first) ys h.0), h)
      ]

      pub sort_by-IsSorted : (xs : List A) → IsSorted (sort_by xs)
      unfolding sort_by
      sort_by-IsSorted [] = tt
      sort_by-IsSorted (x ∷ xs) = insert_by-IsSorted x (sort_by xs) (sort_by-IsSorted xs)
