-- ===== src/OrderedDict.antt =====
-- Python's `collections.OrderedDict` as the caches use it: `services/command-worker`'s
-- `LicenseCache`, `services/ai-interceptor`'s `PlanCache` and `services/graphrag-interceptor`'s
-- `CommandCache`. The entries stand oldest first.
pub mod Laws
pub mod Position
use openontology.Prelude.{
  ℕ, suc, Bool, Option, none, some, List, [], ◌∷◌, ◌++◌, ltb, if◌then◌else◌, length, Eq,
}

abbrev pub Entries {ℓ} : Type ℓ → Type ℓ → Type ℓ
Entries K V = List (K × V)

module _ {ℓ} {K V : Type ℓ} ⦃e : Eq K⦄ where
  -- `d.get(k)`
  unfoldable pub get : K → Entries K V → Option V
  get k [] = none
  get k ((j, v) ∷ d) = if e.beq j k then some v else get k d

  -- `d.pop(k, None)`, without its result
  unfoldable pub pop : K → Entries K V → Entries K V
  pop k [] = []
  pop k ((j, v) ∷ d) = let rest = pop k d in if e.beq j k then rest else (j, v) ∷ rest

  -- `d[k] = v; d.move_to_end(k)`
  unfoldable pub put_last : K → V → Entries K V → Entries K V
  unfolding pop
  put_last k v d = pop k d ++ (k, v) ∷ []

  -- `d.move_to_end(k)`, which raises `KeyError` on a missing key: the callers have looked it up.
  unfoldable pub move_to_end : K → Entries K V → Entries K V
  unfolding get pop
  move_to_end k d = elim (get k d) [ none ↦ d | some v ↦ pop k d ++ (k, v) ∷ [] ]

module _ {ℓ} {K V : Type ℓ} where
  -- `while len(d) > limit: d.popitem(last=False)`
  unfoldable pub evict : ℕ → Entries K V → Entries K V
  evict limit [] = []
  evict limit (x ∷ d) =
      let rest = evict limit d in if ltb limit (suc (length d)) then rest else x ∷ d

  -- how often that loop runs
  unfoldable pub evictions : ℕ → Entries K V → ℕ
  evictions limit [] = 0
  evictions limit (x ∷ d) =
      let rest = suc (evictions limit d) in if ltb limit (suc (length d)) then rest else 0
