-- ===== src/Command/Vocabulary.antt =====
-- `ActionType`, `ExecutionPriority` and their alias tables in
-- services/command-worker/command_worker.py.
use openontology.Prelude.{
  eq_string, eq_pair, Text, codes, eq_text, find, strip, upper, String, Bool, true, false, Option,
  List, [], ◌∷◌,
}

pub data ActionType : Type 0 where
  isolate shutdown shift_speed inspect schedule_maintenance notify acknowledge : ActionType

-- `ActionType.value`
abbrev pub action_value : ActionType → Text
action_value isolate = codes "ISOLATE"
action_value shutdown = codes "SHUTDOWN"
action_value shift_speed = codes "SHIFT_SPEED"
action_value inspect = codes "INSPECT"
action_value schedule_maintenance = codes "SCHEDULE_MAINTENANCE"
action_value notify = codes "NOTIFY"
action_value acknowledge = codes "ACKNOWLEDGE"

-- `ActionType.is_irreversible`
abbrev pub is_irreversible : ActionType → Bool
is_irreversible isolate = true
is_irreversible shutdown = true
is_irreversible _ = false

pub data ExecutionPriority : Type 0 where
  critical high low : ExecutionPriority

abbrev pub action_aliases : List (String × ActionType)
action_aliases =
    ("ISOLATE", isolate)
    ∷ ("SHUTDOWN", shutdown)
    ∷ ("STOP", shutdown)
    ∷ ("SHIFT_SPEED", shift_speed)
    ∷ ("THROTTLE", shift_speed)
    ∷ ("DERATE", shift_speed)
    ∷ ("REDUCE_LOAD", shift_speed)
    ∷ ("INSPECT", inspect)
    ∷ ("SCHEDULE_MAINTENANCE", schedule_maintenance)
    ∷ ("MAINTENANCE", schedule_maintenance)
    ∷ ("NOTIFY", notify)
    ∷ ("ALERT", notify)
    ∷ ("ACKNOWLEDGE", acknowledge)
    ∷ ("ACK", acknowledge)
    ∷ []

abbrev pub priority_aliases : List (String × ExecutionPriority)
priority_aliases =
    ("CRITICAL", critical)
    ∷ ("EMERGENCY", critical)
    ∷ ("P0", critical)
    ∷ ("HIGH", high)
    ∷ ("URGENT", high)
    ∷ ("P1", high)
    ∷ ("MEDIUM", low)
    ∷ ("NORMAL", low)
    ∷ ("LOW", low)
    ∷ ("INFO", low)
    ∷ ("P2", low)
    ∷ ("P3", low)
    ∷ []

-- `ACTION_ALIASES.get(planned.action.strip().upper())`
unfoldable pub parse_action : Text → Option ActionType
parse_action raw = find (upper (strip raw)) action_aliases

-- `PRIORITY_ALIASES.get(planned.priority.strip().upper())`
unfoldable pub parse_priority : Text → Option ExecutionPriority
parse_priority raw = find (upper (strip raw)) priority_aliases
