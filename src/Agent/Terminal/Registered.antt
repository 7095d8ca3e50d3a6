-- ===== src/Agent/Terminal/Registered.antt =====
-- What the terminal of src/agent.rs runs for a line after a command was registered.
use nerves_hub_link_esp.Base.{ℕ, ◌≡◌, refl, Option, none, some, List, text_of}
use nerves_hub_link_esp.Agent.Commands.{Command, Console}
use nerves_hub_link_esp.Agent.Terminal.{Agent, LevelNames, at_world, run_log, line_output}

module _ {Val W : Type 0} where
  -- An agent whose terminal has a console.
  abbrev pub with_registry : Agent Val W → Console W → List (Command W) → Agent Val W
  with_registry a c cs = record a { console = some (record c { commands = cs }) }

  -- What a line prints, and the world after it, as the terminal's answer.
  abbrev pub printed : Agent Val W → List ℕ × W → Option (List ℕ × Agent Val W)
  printed a r = some (r.0, at_world a r.1)

  -- The line `reboot` asks for a restart, and `log` is answered from the log buffer, whatever is
  -- registered.
  line_output-reserved :
      (names : LevelNames) (line : List ℕ) (args : List (List ℕ)) (name : List ℕ) (a : Agent Val W)
      → ((text_of name ≡ "reboot") → line_output names line (some (name, args)) a ≡ none)
        × ((text_of name ≡ "log")
            → line_output names line (some (name, args)) a ≡ some (run_log names args a))
  unfolding line_output
  line_output-reserved names line args name a = (λ e. rw e refl, λ e. rw e refl)
