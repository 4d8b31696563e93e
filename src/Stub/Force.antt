-- ===== src/Stub/Force.antt =====
-- When a plan of `StubInterceptor` in services/command-worker/command_worker.py has an irreversible
-- step.
use openontology.Prelude.{
  if◌then◌else◌, Bool-cases, take, any, keep, All, All-take, eq_string, eq_pair, Text, eq_text, ℕ,
  suc, ◌+◌, ◌-◌, ◌<◌, ◌≡◌, refl, ap, ◌∙◌, ◌↔◌, ◌⊎◌, inl, inr, Bool, true, false, not, List, [], ◌∷◌,
  arith,
}
use openontology.Settings.{Settings}
use openontology.Json.{Json}
use openontology.Mutation.{Severity, TransitionKind, MutationEnvelope}
use openontology.Command.Plan.{PlannedAction}
use openontology.Stub.Actions.{shutdown_step, isolate_step, by_severity, rules}
use openontology.Stub.Planner.{
  is_critical, is_forceful, renumber, or_inspection, cautious, planned_actions,
}

abbrev pub IsMild : PlannedAction → Type 0
IsMild a = is_forceful a ≡ false

keep-IsMild : (xs : List PlannedAction) → All IsMild (keep (λ a. not (is_forceful a)) xs)
keep-IsMild [] = tt
keep-IsMild (x ∷ xs) = elim (Bool-cases (is_forceful x)) [
  | inl forceful ↦ rw (forceful, All) (keep-IsMild xs)
  | inr mild ↦ rw (mild, All) (mild, keep-IsMild xs)
]

renumber-AllMild :
    (index : ℕ) (xs : List PlannedAction) → All IsMild xs → All IsMild (renumber index xs)
unfolding renumber
renumber-AllMild index [] h = tt
renumber-AllMild index (x ∷ xs) (here, there) = (here, renumber-AllMild (index + 1) xs there)

-- The mutations that call for an irreversible action: a critical one that is not cleared, with
-- the context of the graph whole.
abbrev pub is_grave : TransitionKind → Severity → Bool
is_grave TransitionKind.cleared severity = false
is_grave TransitionKind.raised severity = is_critical severity
is_grave TransitionKind.escalated severity = is_critical severity
is_grave TransitionKind.sustained severity = is_critical severity

module _ (format_g : Json → Text) (settings : Settings) (mutation : MutationEnvelope) where
  by_severity-AllMild :
      (severity : Severity)
      → is_critical severity ≡ false
      → All IsMild (by_severity format_g settings mutation severity)
  by_severity-AllMild Severity.critical h = cc
  by_severity-AllMild Severity.high h = (refl, (refl, tt))
  by_severity-AllMild Severity.info h = (refl, tt)

  rules-AllMild :
      (transition : TransitionKind) (severity : Severity)
      → is_grave transition severity ≡ false
      → All IsMild (rules format_g settings mutation transition severity)
  unfolding rules
  rules-AllMild TransitionKind.cleared severity h = (refl, tt)
  rules-AllMild TransitionKind.raised severity h = by_severity-AllMild severity h
  rules-AllMild TransitionKind.escalated severity h = by_severity-AllMild severity h
  rules-AllMild TransitionKind.sustained severity h = by_severity-AllMild severity h

  or_inspection-AllMild :
      (xs : List PlannedAction)
      → All IsMild xs
      → All IsMild (or_inspection format_g settings mutation xs)
  or_inspection-AllMild [] h = (refl, tt)
  or_inspection-AllMild (x ∷ xs) h = h

  cautious-AllMild :
      (xs : List PlannedAction)
      → ((mutation.degraded ≡ true) ⊎ All IsMild xs)
      → All IsMild (cautious format_g settings mutation xs)
  unfolding cautious
  cautious-AllMild xs h = elim (Bool-cases mutation.degraded) [
    | inl degraded ↦ simp degraded (or_inspection-AllMild _ (keep-IsMild xs))
    | inr whole ↦ simp whole (elim h [ inl degraded ↦ absurd (cc) | inr mild ↦ mild ])
  ]

  pub planned_actions-AllMild :
      ((mutation.degraded ≡ true) ⊎ (is_grave mutation.transition mutation.severity ≡ false))
      → All IsMild (planned_actions format_g settings mutation)
  unfolding planned_actions
  planned_actions-AllMild h = renumber-AllMild 1 _ (
      All-take IsMild settings.max_commands _ (
        cautious-AllMild _ (elim h [
          | inl degraded ↦ inl degraded
          | inr light ↦ inr (rules-AllMild mutation.transition mutation.severity light)
        ])))

  -- The plan is not empty: its first step, without its number, is the first of the rules' steps.
  forceful_either :
      (hot : Bool)
      → is_forceful (
          if hot
          then shutdown_step format_g settings mutation
          else isolate_step format_g settings mutation)
        ≡ true
  forceful_either true = refl
  forceful_either false = refl

  by_severity-first :
      (severity : Severity)
      → (x : PlannedAction) × (xs : List PlannedAction) × (by_severity format_g settings mutation
            severity
          ≡ x ∷ xs)
        × (is_forceful x ≡ is_critical severity)
  by_severity-first Severity.critical = (_, _, refl, forceful_either _)
  by_severity-first Severity.high = (_, _, refl, refl)
  by_severity-first Severity.info = (_, _, refl, refl)

  rules-first :
      (transition : TransitionKind) (severity : Severity)
      → (x : PlannedAction) × (xs : List PlannedAction) × (rules format_g settings mutation
            transition severity
          ≡ x ∷ xs)
        × (is_forceful x ≡ is_grave transition severity)
  unfolding rules
  rules-first TransitionKind.cleared severity = (_, _, refl, refl)
  rules-first TransitionKind.raised severity = by_severity-first severity
  rules-first TransitionKind.escalated severity = by_severity-first severity
  rules-first TransitionKind.sustained severity = by_severity-first severity

  -- the plan's first step, before it is numbered
  abbrev pub Starts : List PlannedAction → Type 0
  Starts xs = (x : PlannedAction) × (rest : List PlannedAction) × (xs ≡ x ∷ rest)

  cautious-Starts :
      (xs : List PlannedAction) → Starts xs → Starts (cautious format_g settings mutation xs)
  unfolding cautious
  cautious-Starts xs h = elim (Bool-cases mutation.degraded) [
    | inl degraded ↦ simp degraded (or_inspection-Starts (keep (λ a. not (is_forceful a)) xs))
    | inr whole ↦ simp whole h
  ]
    where
      or_inspection-Starts :
          (ys : List PlannedAction) → Starts (or_inspection format_g settings mutation ys)
      or_inspection-Starts [] = (_, _, refl)
      or_inspection-Starts (y ∷ ys) = (y, ys, refl)

  -- A plan has a step, if the settings allow one.
  pub planned_actions-Starts :
      0 < settings.max_commands → Starts (planned_actions format_g settings mutation)
  unfolding planned_actions renumber
  planned_actions-Starts room =
      let (first, others, e, force) = rules-first mutation.transition mutation.severity in
      let (x, rest, e') = cautious-Starts _ (first, others, e) in
      let n : settings.max_commands ≡ suc (settings.max_commands - 1) = omega arith in
      (_, _, ap (renumber 1) (ap (take settings.max_commands) e' ∙ ap (λ m. take m (x ∷ rest)) n))

  AllMild-any : (xs : List PlannedAction) → All IsMild xs → any is_forceful xs ≡ false
  AllMild-any [] h = refl
  AllMild-any (x ∷ xs) (here, there) = rw (here, AllMild-any xs there) refl

  grave_first :
      0 < settings.max_commands
      → mutation.degraded ≡ false
      → is_grave mutation.transition mutation.severity ≡ true
      → any is_forceful (planned_actions format_g settings mutation) ≡ true
  unfolding planned_actions cautious renumber
  grave_first room whole grave =
      let (x, xs, e, force) = rules-first mutation.transition mutation.severity in
      let n : settings.max_commands ≡ suc (settings.max_commands - 1) = omega arith in
      let forceful : is_forceful x ≡ true = force ∙ grave in
      let same : cautious format_g settings mutation
            (rules format_g settings mutation mutation.transition mutation.severity)
          ≡ x ∷ xs =
        simp whole e in
      let cut : planned_actions format_g settings mutation
          ≡ record x { sequence = 1 } ∷ renumber 2 (take (settings.max_commands - 1) xs) =
        ap (renumber 1) (ap (take settings.max_commands) same ∙ ap (λ m. take m (x ∷ xs)) n) in
      rw (cut, forceful) refl

  -- The stub plans a forceful step if and only if the mutation is critical and not cleared and
  -- its context is whole, if the settings allow a step at all.
  pub planned_actions-forceful_iff :
      0 < settings.max_commands
      → (any is_forceful (planned_actions format_g settings mutation) ≡ true)
        ↔ ((mutation.degraded ≡ false) × (is_grave mutation.transition mutation.severity ≡ true))
  planned_actions-forceful_iff room = (
    (λ h. elim (Bool-cases mutation.degraded) [
      | inl degraded ↦ absurd (let m = AllMild-any _ (planned_actions-AllMild (inl degraded)) in cc)
      | inr whole ↦ (
        whole,
        (elim (Bool-cases (is_grave mutation.transition mutation.severity)) [
          | inl grave ↦ grave
          | inr light ↦ absurd (let m = AllMild-any _ (planned_actions-AllMild (inr light)) in cc)
        ]),
      )
    ]),
    (λ (whole, grave). grave_first room whole grave),
  )
