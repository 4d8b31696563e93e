-- ===== src/Prelude/Logs.antt =====
-- Logs, which only grow: what is in one stays there.
use mathlib.Core.Path.{◌≡◌, sym, ap, ◌∙◌}
use mathlib.Core.List.{List, [], ◌∷◌, ◌++◌, append_assoc, append-nil}

module _ {ℓ} {A : Type ℓ} where
  -- `l'` is `l` with more at its end.
  abbrev pub Extends : List A → List A → Type ℓ
  Extends l l' = (more : List A) × (l' ≡ l ++ more)

  pub Extends-refl : (l : List A) → Extends l l
  Extends-refl l = ([], sym (append-nil l))

  pub Extends-trans : (l l' l'' : List A) → Extends l l' → Extends l' l'' → Extends l l''
  Extends-trans l l' l'' (m, e) (m', e') = (m ++ m', e' ∙ ap (λ x. x ++ m') e ∙ append_assoc l m m')

  -- The log `l` holds `x`.
  abbrev pub Logged : List A → A → Type ℓ
  Logged l x = (before after : List A) × (l ≡ before ++ x ∷ after)

  pub Logged-Extends : (l l' : List A) (x : A) → Extends l l' → Logged l x → Logged l' x
  Logged-Extends l l' x (more, e) (before, after, e') =
      (before, after ++ more, e ∙ ap (λ y. y ++ more) e' ∙ append_assoc before (x ∷ after) more)

  pub Logged-append : (l l' : List A) (x : A) → Logged l' x → Logged (l ++ l') x
  Logged-append l l' x (before, after, e) =
      (l ++ before, after, ap (◌++◌ l) e ∙ sym (append_assoc l before (x ∷ after)))
