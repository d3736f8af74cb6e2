-- ===== src/Cli/Safe.antt =====
-- What `add-agent` leaves in the configuration file (src/mutmuas/cli.py: node_add_agent).
use mutmuas.Prelude.{String, ◌≡◌, ◌⊎◌, false}
use mutmuas.Result.{Result, ok, err}
use mutmuas.Cli.Agents.{Added, unchanged, added, replaced, refused, raised, is_caught}

-- The file after each end of the command. An exception is from before the file was written, or from the
-- loading of the new text.
abbrev pub IsSafe : (String → Result (Unit {0})) → String → Added × String → Type 0
IsSafe load text (unchanged, new) = new ≡ text
IsSafe load text (refused, new) = new ≡ text
IsSafe load text (added, new) = load new ≡ ok tt
IsSafe load text (replaced, new) = load new ≡ ok tt
IsSafe load text (raised e, new) = (new ≡ text) ⊎ ((load new ≡ err e) × (is_caught e ≡ false))
