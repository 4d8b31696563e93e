-- ===== src/Service/Soundness.antt =====
-- What every command of the paid endpoint satisfies, fresh or replayed.
use openontology.Prelude.{All, ok, eq_string, eq_pair, eq_text, ◌≡◌, true, false}
use openontology.OrderedDict.{Entries}
use openontology.Service.Commands.{CommandActionResponse, CommandKey, eq_command_key}
use openontology.Service.Intercept.{Response}

-- A command that no human has to authorise can be taken back as a whole.
abbrev pub IsSound : CommandActionResponse → Type 0
IsSound command = command.requires_human_authorization ≡ false → command.reversible ≡ true

abbrev SoundEntry : CommandKey × CommandActionResponse → Type 0
SoundEntry entry = IsSound entry.1

abbrev pub AllSound : Entries CommandKey CommandActionResponse → Type 0
AllSound = All SoundEntry

-- The cache stays sound, and so is the answer.
abbrev SoundAnswer : Response → Type 0
SoundAnswer answer =
    AllSound answer.1.cache.entries
    × ((command : CommandActionResponse) → answer.0 ≡ ok command → IsSound command)
