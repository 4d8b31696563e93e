-- ===== src/Safety/Stages.antt =====
-- What each of the seven corrections of `_enforce_safety_invariants` establishes and leaves alone.
use openontology.Prelude.{
  ltb, Bool-cases, length, is_empty, any, length-append, length-take, eq_string, eq_pair, text_eq,
  text_eq_sound, eq_text, suc, ◌+◌, ◌≤◌, ◌≡◌, refl, ap, ◌∙◌, ◌⊎◌, inl, inr, Bool, true, false, not,
  ◌&&◌, ◌||◌, List, [], ◌∷◌, ◌++◌, arith,
}
use openontology.Prescription.{
  ExecutionPriority, critical, high, routine, is_irreversible, is_critical, is_routine,
  has_supervisor, is_supervisor,
}
use openontology.Safety.{
  Grounds, Draft, has_reason, untrusted, handover, redirect, downgrade, raise_irreversible,
  raise_routine, truncate, append_handover, force_authorization,
}

any-append :
    {A : Type 0} (p : A → Bool) (xs ys : List A) → any p (xs ++ ys) ≡ (any p xs || any p ys)
any-append p [] ys = refl
any-append p (x ∷ xs) ys = ground (arith, any-append p xs ys)

grown : {A : Type 0} (xs ys : List A) (y : A) → is_empty (xs ++ y ∷ ys) ≡ false
grown [] ys y = refl
grown (x ∷ xs) ys y = refl

-- Either nothing changed, or a guardrail was applied.
abbrev pub IsRecorded : Draft → Draft → Type 0
IsRecorded d d' = (d' ≡ d) ⊎ (is_empty d'.applied ≡ false)

pub IsRecorded-chain : (d d' d'' : Draft) → IsRecorded d d' → IsRecorded d' d'' → IsRecorded d d''
IsRecorded-chain d d' d'' p (inr some_) = inr some_
IsRecorded-chain d d' d'' (inl same) (inl same') = inl (same' ∙ same)
IsRecorded-chain d d' d'' (inr some_) (inl same') = inr (ap (λ x. is_empty x.applied) same' ∙ some_)

module _ (g : Grounds) (d : Draft) where
  pub redirect-target : ((redirect g d).target ≡ g.root_cause_node) × IsRecorded d (redirect g d)
  unfolding redirect
  redirect-target = elim (Bool-cases (text_eq d.target g.root_cause_node)) [
    | inl same ↦ rw (same, redirect) (text_eq_sound d.target g.root_cause_node same, inl refl)
    | inr other ↦ rw (other, redirect) (refl, inr (grown d.applied [] _))
  ]

  pub downgrade-action :
      ((downgrade g d).target ≡ d.target)
      × ((is_irreversible (downgrade g d).action && (not g.irreversible_permitted || untrusted g))
          ≡ false)
      × IsRecorded d (downgrade g d)
  unfolding downgrade
  downgrade-action =
      elim (Bool-cases
        (is_irreversible d.action && (not g.irreversible_permitted || untrusted g))) [
          | inl unsafe ↦ rw (unsafe, downgrade) (refl, refl, inr (grown d.applied _ _))
          | inr safe ↦ rw (safe, downgrade) (refl, safe, inl refl)
        ]

  pub raise_irreversible-priority :
      ((raise_irreversible g d).target ≡ d.target)
      × ((raise_irreversible g d).action ≡ d.action)
      × ((is_irreversible d.action && not (is_critical (raise_irreversible g d).priority)) ≡ false)
      × IsRecorded d (raise_irreversible g d)
  unfolding raise_irreversible
  raise_irreversible-priority =
      elim (Bool-cases (is_irreversible d.action && not (is_critical d.priority))) [
        | inl low ↦
            rw (low, raise_irreversible) (refl, refl, ground arith, inr (grown d.applied [] _))
        | inr fine ↦ rw (fine, raise_irreversible) (refl, refl, fine, inl refl)
      ]

  pub raise_routine-priority :
      ((raise_routine g d).target ≡ d.target)
      × ((raise_routine g d).action ≡ d.action)
      × ((is_critical g.priority && is_routine (raise_routine g d).priority) ≡ false)
      × ((is_critical (raise_routine g d).priority ≡ is_critical d.priority))
      × IsRecorded d (raise_routine g d)
  unfolding raise_routine
  raise_routine-priority = elim (Bool-cases (is_critical g.priority && is_routine d.priority)) [
    | inl low ↦
        rw (low, raise_routine)
          (
            refl,
            refl,
            ground arith,
            not_critical d.priority (ground arith),
            inr (grown d.applied [] _),
          )
    | inr fine ↦ rw (fine, raise_routine) (refl, refl, fine, refl, inl refl)
  ]
    where
      not_critical : (p : ExecutionPriority) → is_routine p ≡ true → false ≡ is_critical p
      not_critical routine h = refl
      not_critical critical h = cc
      not_critical high h = cc

  pub truncate-length :
      ((truncate g d).target ≡ d.target)
      × ((truncate g d).action ≡ d.action)
      × ((truncate g d).priority ≡ d.priority)
      × (length (truncate g d).steps ≤ g.max_isolation_steps)
      × IsRecorded d (truncate g d)
  unfolding truncate
  truncate-length = elim (Bool-cases (ltb g.max_isolation_steps (length d.steps))) [
    | inl long ↦
        rw (long, truncate)
          (
            refl,
            refl,
            refl,
            omega (arith, length-take g.max_isolation_steps d.steps),
            inr (grown d.applied [] _),
          )
    | inr short ↦ rw (short, truncate) (refl, refl, refl, ground arith, inl refl)
  ]

  pub append_handover-supervisor :
      ((append_handover g d).target ≡ d.target)
      × ((append_handover g d).action ≡ d.action)
      × ((append_handover g d).priority ≡ d.priority)
      × (length (append_handover g d).steps ≤ suc (length d.steps))
      × ((not (is_empty (append_handover g d).steps)
            && not (has_supervisor (append_handover g d).steps))
          ≡ false)
      × IsRecorded d (append_handover g d)
  unfolding append_handover
  append_handover-supervisor =
      elim (Bool-cases (not (is_empty d.steps) && not (has_supervisor d.steps))) [
        | inl alone ↦
            rw (alone, append_handover)
              (
                refl,
                refl,
                refl,
                omega (arith, length-append d.steps (handover (length d.steps + 1) d.target ∷ [])),
                ground (
                  arith,
                  any-append (λ step. is_supervisor step.actor) d.steps
                      (handover (length d.steps + 1) d.target ∷ []),
                ),
                inr (grown d.applied [] _),
              )
        | inr fine ↦ rw (fine, append_handover) (refl, refl, refl, omega arith, fine, inl refl)
      ]

  pub force_authorization-authorization :
      ((force_authorization g d).target ≡ d.target)
      × ((force_authorization g d).action ≡ d.action)
      × ((force_authorization g d).priority ≡ d.priority)
      × ((force_authorization g d).steps ≡ d.steps)
      × ((not (force_authorization g d).authorization && has_reason g d) ≡ false)
      × IsRecorded d (force_authorization g d)
  unfolding force_authorization
  force_authorization-authorization = elim (Bool-cases (not d.authorization && has_reason g d)) [
    | inl missing ↦
        rw (missing, force_authorization) (refl, refl, refl, refl, refl, inr (grown d.applied [] _))
    | inr fine ↦ rw (fine, force_authorization) (refl, refl, refl, refl, fine, inl refl)
  ]
