-- ===== src/License/Plans/Stable.antt =====
-- `normalise_plan` may be applied to its own result.
use openontology.Prelude.{
  ℕ, ◌≡◌, refl, sym, ap, ◌∙◌, false, [], ◌∷◌, map, arith, ◌==◌, if◌then◌else◌, inl, inr, Text,
  is_space, strip, upper, upper_char, replace_char, find, find-All, All, Option-cases,
}
use openontology.Prelude.Strings.Strip.{
  strip-StartsSolid, strip-EndsSolid, strip_solid, map-StartsSolid, map-EndsSolid,
}
use openontology.License.Plans.{plan_aliases, fold_plan, normalise_plan}

-- What `upper` and the two calls of `replace` do to one character.
abbrev fold_char : ℕ → ℕ
fold_char c =
    let d = upper_char c in let e = if d == b'-' then b'_' else d in if e == b' ' then b'_' else e

fold_char_solid : (c : ℕ) → is_space c ≡ false → is_space (fold_char c) ≡ false
fold_char_solid c h = ground arith

fold_char_idem : (c : ℕ) → fold_char (fold_char c) ≡ fold_char c
fold_char_idem c = ground arith

fold_plan-eq-map : (value : Text) → fold_plan value ≡ map fold_char (strip value)
unfolding fold_plan upper replace_char
fold_plan-eq-map value = go (strip value)
  where
    go : (s : Text) → replace_char b' ' b'_' (replace_char b'-' b'_' (upper s)) ≡ map fold_char s
    go [] = refl
    go (c ∷ s) = ap (◌∷◌ (fold_char c)) (go s)

map-fold_char_idem : (s : Text) → map fold_char (map fold_char s) ≡ map fold_char s
map-fold_char_idem [] = refl
map-fold_char_idem (c ∷ s) = rw (fold_char_idem c, map-fold_char_idem s)

fold_plan_idem : (value : Text) → fold_plan (fold_plan value) ≡ fold_plan value
fold_plan_idem value =
    let s : Text = strip value in
    let kept : strip (map fold_char s) ≡ map fold_char s =
      strip_solid (map fold_char s)
        (map-StartsSolid fold_char fold_char_solid s (strip-StartsSolid value))
        (map-EndsSolid fold_char fold_char_solid s (strip-EndsSolid value)) in
    ap fold_plan (fold_plan-eq-map value)
    ∙ fold_plan-eq-map (map fold_char s)
    ∙ ap (map fold_char) kept
    ∙ map-fold_char_idem s
    ∙ sym (fold_plan-eq-map value)

aliases-canonical : All (λ e. normalise_plan e.1 ≡ e.1) plan_aliases
unfolding normalise_plan strip upper replace_char
aliases-canonical = (refl, (refl, (refl, (refl, (refl, (refl, tt))))))

-- Folding a plan name twice folds it once: the names that the gatekeeper compares are fixed
-- points of `normalise_plan`, whatever the spelling, the case or the blanks of the input.
normalise_plan_idem : (value : Text) → normalise_plan (normalise_plan value) ≡ normalise_plan value
normalise_plan_idem value = elim (Option-cases (find (fold_plan value) plan_aliases)) [
  | inl unknown ↦
      let e : normalise_plan value ≡ fold_plan value = unfold normalise_plan in rw unknown in
      let again : normalise_plan (fold_plan value) ≡ fold_plan value =
        unfold normalise_plan in rw (fold_plan_idem value, unknown) in
      rw (e, again)
  | inr (v, known) ↦
      let e : normalise_plan value ≡ v = unfold normalise_plan in rw known in
      rw (
        e,
        find-All (λ w. normalise_plan w ≡ w) (fold_plan value) plan_aliases aliases-canonical known,
      )
]
