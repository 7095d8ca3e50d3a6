-- ===== src/Agent/Terminal.antt =====
-- What is typed on the terminal and what is answered, in src/agent.rs.
pub mod Quiet
pub mod Answers
pub mod Registered
mod Examples
use nerves_hub_link_esp.Base.{
  ℕ, zero, suc, String, Bool, true, false, Option, none, some, List, [], ◌∷◌, ◌++◌, str_eq, codes,
  text_of, chars, utf8, if◌then◌else◌,
}
use nerves_hub_link_esp.Agent.{Platform, with_world}
use nerves_hub_link_esp.Agent.Commands
use nerves_hub_link_esp.Agent.Commands.{Console, write_pieces}
use nerves_hub_link_esp.Agent.Updates.{Device, on_session, restart_after}
use nerves_hub_link_esp.Console.{empty_output, finish, Typed, feed, parse}
use nerves_hub_link_esp.Error.{Result, ok, err}
use nerves_hub_link_esp.Json.{Json}
use nerves_hub_link_esp.Link.{Transport, Session, send_console}
use nerves_hub_link_esp.Link.Handling.{prompt}
use nerves_hub_link_esp.Logging.{LogBuffer, level, set_level}
use nerves_hub_link_esp.Logging.Lines.{Level}

-- What the terminal uses of the log crate's levels, whose names are lowered, and of the text that
-- `{:?}` writes.
pub record LevelNames : Type 0 where
  pub from_str : String → Option Level
  pub lower_str : Level → String
  pub debug : String → String

-- The part of the agent that a terminal works on.
pub record Agent (Val W : Type 0) : Type 0 where
  pub device : Device Val W
  pub console : Option (Console W)

module _ {Val W : Type 0} where
  abbrev pub on_device : Agent Val W → Device Val W → Agent Val W
  on_device a d = record a { device = d }

  abbrev pub at_session : Agent Val W → Session Val W → Agent Val W
  at_session a s = on_device a (on_session a.device s)

  abbrev pub session_of : Agent Val W → Session Val W
  session_of a = a.device.pump.session

  abbrev pub at_world : Agent Val W → W → Agent Val W
  at_world a w = at_session a (with_world (session_of a) w)

  -- `?` on an operation of the link.
  unfoldable pub after_sending :
      {A : Type 0}
      → Agent Val W
      → Result (Unit {0}) × Session Val W
      → (Agent Val W → Result A × Agent Val W)
      → Result A × Agent Val W
  after_sending a (ok u, s) f = f (at_session a s)
  after_sending a (err e, s) f = (err e, at_session a s)

module _ (names : LevelNames) where
  level_output : List String → List ℕ
  unfolding write_pieces finish
  level_output pieces = finish (write_pieces empty_output pieces)

  set_to : String → Option Level → LogBuffer → List ℕ × LogBuffer
  unfolding level_output set_level
  set_to text (some l) logs =
      (level_output ("log level is now " ∷ names.lower_str l ∷ []), set_level logs l)
  set_to text none logs = (
    level_output
        ("log: unknown level " ∷ names.debug text ∷ ", try error/warn/info/debug/trace" ∷ []),
    logs,
  )

  show_or_set : List (List ℕ) → LogBuffer → List ℕ × LogBuffer
  unfolding level_output set_to level text_of
  show_or_set [] logs = (level_output ("log level is " ∷ names.lower_str (level logs) ∷ []), logs)
  show_or_set (arg ∷ args) logs = set_to (text_of arg) (names.from_str (text_of arg)) logs

  unfoldable pub log_command : List (List ℕ) → Option LogBuffer → List ℕ × Option LogBuffer
  unfolding show_or_set level_output
  log_command args none =
      (level_output ("log: this device is not sending logs to NervesHub" ∷ []), none)
  log_command args (some logs) = let (out, logs) = show_or_set args logs in (out, some logs)

run_console : {W : Type 0} → Option (Console W) → List ℕ → W → List ℕ × W
unfolding Commands.run
run_console none line w = ([], w)
run_console (some c) line w = Commands.run c line w

module _ {Val W : Type 0} where
  -- The registry's answer.
  unfoldable pub run_line : List ℕ → Agent Val W → List ℕ × Agent Val W
  unfolding run_console
  run_line line a =
      let (out, w) = run_console a.console line (session_of a).world in (out, at_world a w)

  run_log : LevelNames → List (List ℕ) → Agent Val W → List ℕ × Agent Val W
  unfolding log_command
  run_log names args a =
      let (out, logs) = log_command names args a.device.pump.logs in
      (out, on_device a (record a.device { pump = record a.device.pump { logs = logs } }))

  -- What a line prints, or none if it asks for a restart.
  unfoldable pub line_output :
      LevelNames
      → List ℕ
      → Option (List ℕ × List (List ℕ))
      → Agent Val W
      → Option (List ℕ × Agent Val W)
  unfolding run_line run_log text_of
  line_output names line none a = some (run_line line a)
  line_output names line (some (name, args)) a =
      if str_eq (text_of name) "reboot"
      then none
      else if str_eq (text_of name) "log"
      then some (run_log names args a)
      else some (run_line line a)

-- The echo so far, the output on a line of its own, and the prompt.
with_output : List ℕ → List ℕ → List ℕ
unfolding chars
with_output reply [] = reply ++ codes prompt
with_output reply (b ∷ bs) = reply ++ chars (b ∷ bs) ++ codes "\r\n" ++ codes prompt

module _ {Val W : Type 0} (js : Json Val) (t : Transport W) (pf : Platform W)
    (names : LevelNames) where
  unfoldable pub send_reply : List ℕ → Agent Val W → Result (Unit {0}) × Session Val W
  unfolding send_console text_of
  send_reply reply a = send_console js t (text_of reply) (session_of a)

  -- Announced, and then the device restarts.
  reboot_after : Agent Val W → Result (Unit {0}) × Session Val W → Result Bool × Agent Val W
  unfolding restart_after
  reboot_after a r = let (r, d) = restart_after pf a.device r in (r, on_device a d)

  unfoldable pub answer_line :
      (Agent Val W → Result Bool × Agent Val W)
      → List ℕ
      → Agent Val W
      → Option (List ℕ × Agent Val W)
      → Result Bool × Agent Val W
  unfolding reboot_after send_reply with_output after_sending
  answer_line rest reply a none = reboot_after a (send_reply (reply ++ codes "rebooting\r\n") a)
  answer_line rest reply a (some (out, a')) =
      after_sending a' (send_reply (with_output reply out) a') rest

  -- A message for each line: the echo goes with the first.
  unfoldable pub answer_lines : List (List ℕ) → List ℕ → Agent Val W → Result Bool × Agent Val W
  unfolding answer_line line_output parse send_reply after_sending
  answer_lines [] reply a = after_sending a (send_reply reply a) (λ a. (ok false, a))
  answer_lines (line ∷ lines) reply a =
      answer_line (answer_lines lines []) reply a (line_output names line (parse line) a)

  answer_typed : Option (Console W) → List ℕ → Agent Val W → Result Bool × Agent Val W
  unfolding answer_lines feed
  answer_typed none typed a = (ok false, a)
  answer_typed (some c) typed a =
      let fed = feed c.reader typed in
      answer_lines fed.lines fed.echo
        (record a { console = some (record c { reader = fed.reader }) })

  -- True when a command asked for a restart.
  unfoldable pub answer_console : String → Agent Val W → Result Bool × Agent Val W
  unfolding answer_typed
  answer_console input a = answer_typed a.console (codes input) a
