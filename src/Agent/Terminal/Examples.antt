-- ===== src/Agent/Terminal/Examples.antt =====
-- What is typed on the terminal of src/agent.rs, and what comes back.
use nerves_hub_link_esp.Base.{ℕ, String, ◌≡◌, refl, none, some, [], ◌∷◌, codes, length}
use nerves_hub_link_esp.Agent.Commands.{Command, with_console, write_pieces, run, Console}
use nerves_hub_link_esp.Agent.Examples.{ideal, a_pump, silent}
use nerves_hub_link_esp.Agent.Terminal.{Agent, LevelNames, answer_console, session_of}
use nerves_hub_link_esp.Console.{new_reader}
use nerves_hub_link_esp.Error.{ok}
use nerves_hub_link_esp.Json.Samples.{Plain, plain}
use nerves_hub_link_esp.Logging.Lines.{info, level_name}

abbrev names : LevelNames
names = record { from_str = λ text. some info; lower_str = λ l. level_name l; debug = λ text. text }

abbrev an_agent : Agent Plain ℕ
an_agent = record {
  device = record { pump = a_pump; calls = []; restarts = 0 };
  console = with_console (λ w. (90061, w)) [] a_pump.session.link.metadata none;
}

abbrev saying : String → String → Command ℕ
saying name text = record {
  name = name;
  help = "says it";
  run = λ args out w. (ok tt, write_pieces out (text ∷ []), w);
}

-- Two answers; the echo of the third line, which is not finished, goes with the first.
two_messages :
    length (session_of (answer_console plain silent ideal names "uptime\rlog\rreb" an_agent).1).sent
    ≡ 2
unfolding level_name answer_console with_console
two_messages = refl

uptime_output :
    run (record { reader = new_reader; commands = saying "a" "b" ∷ [] }) (codes "a c") 0
    ≡ (codes "b", 0)
unfolding run write_pieces
uptime_output = refl

abbrev say : String
say = "say"

abbrev a_console : Console ℕ
a_console = record { reader = new_reader; commands = saying say "old" ∷ [] }
