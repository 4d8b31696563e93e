-- ===== src/Command/Identity.antt =====
-- `deterministic_command_id` of services/command-worker/command_worker.py: the name that is hashed.
use openontology.Prelude.{
  decimal, decimal_inj, IsDigit, decimal-IsDigit, some_inj, All, eq_string, eq_pair, Text, eq_text,
  find, ℕ, ◌≡◌, refl, sym, ap, ◌∙◌, subst, ◌≢◌, some, [], ◌∷◌, ◌++◌, arith,
}
use mathlib.Core.Path.{ap₂}
use openontology.Command.Vocabulary.{ActionType, action_value, action_aliases, isolate}

-- `f"{event_id}|{sequence}|{action.value}"`
unfoldable pub command_name : Text → ℕ → ActionType → Text
command_name event_id sequence action =
    event_id ++ b'|' ∷ decimal sequence ++ b'|' ∷ action_value action

abbrev NoBar : Text → Type 0
NoBar = All (λ c. c ≢ b'|')

cons_inj : (c d : ℕ) (s t : Text) → ◌≡◌ {A = Text} (c ∷ s) (d ∷ t) → (c ≡ d) × (s ≡ t)
cons_inj c d s t h = ground arith

NoBar-after : (s t : Text) → NoBar (s ++ b'|' ∷ t) → ⊥
NoBar-after [] t h = h.0 refl
NoBar-after (c ∷ s) t h = NoBar-after s t h.1

-- Where no bar follows it, the last bar of a text is determined.
cut_last :
    (s s' t t' : Text) → NoBar t → NoBar t' → s ++ b'|' ∷ t ≡ s' ++ b'|' ∷ t' → (s ≡ s') × (t ≡ t')
cut_last [] [] t t' h h' e = (refl, (cons_inj b'|' b'|' t t' e).1)
cut_last [] (c ∷ s') t t' h h' e =
    absurd (NoBar-after s' t' (subst NoBar (cons_inj b'|' c t (s' ++ b'|' ∷ t') e).1 h))
cut_last (c ∷ s) [] t t' h h' e =
    absurd (NoBar-after s t (subst NoBar (sym (cons_inj c b'|' (s ++ b'|' ∷ t) t' e).1) h'))
cut_last (c ∷ s) (d ∷ s') t t' h h' e =
    let (heads, tails) = cons_inj c d (s ++ b'|' ∷ t) (s' ++ b'|' ∷ t') e in
    let (same, rest) = cut_last s s' t t' h h' tails in (ap₂ ◌∷◌ heads same, rest)

digits-NoBar : (s : Text) → All IsDigit s → NoBar s
digits-NoBar [] h = tt
digits-NoBar (c ∷ s) h = (omega arith, digits-NoBar s h.1)

action-NoBar : (action : ActionType) → NoBar (action_value action)
action-NoBar isolate = omega arith
action-NoBar _ = omega arith

find-action_value : (a : ActionType) → find (action_value a) action_aliases ≡ some a
find-action_value isolate = refl
find-action_value _ = refl

action_value_inj : (a b : ActionType) → action_value a ≡ action_value b → a ≡ b
action_value_inj a b h =
    some_inj (sym (find-action_value a) ∙ ap (λ k. find k action_aliases) h ∙ find-action_value b)

-- Different steps have different names, over all events, positions and actions, also where an
-- event id contains a bar: a UUID that does not collide on names tells every two commands apart.
pub command_name_inj :
    (event event' : Text) (sequence sequence' : ℕ) (action action' : ActionType)
    → command_name event sequence action ≡ command_name event' sequence' action'
    → (event ≡ event') × (sequence ≡ sequence') × (action ≡ action')
unfolding command_name
command_name_inj event event' sequence sequence' action action' h =
    let (front, same_action) =
      cut_last (event ++ b'|' ∷ decimal sequence) (event' ++ b'|' ∷ decimal sequence')
        (action_value action) (action_value action') (action-NoBar action) (action-NoBar action')
        h in
    let (same_event, same_sequence) =
      cut_last event event' (decimal sequence) (decimal sequence')
        (digits-NoBar (decimal sequence) (decimal-IsDigit sequence))
        (digits-NoBar (decimal sequence') (decimal-IsDigit sequence')) front in
    (
      same_event,
      decimal_inj sequence sequence' same_sequence,
      action_value_inj action action' same_action,
    )
