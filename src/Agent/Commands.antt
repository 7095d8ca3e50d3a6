-- ===== src/Agent/Commands.antt =====
-- The terminal of src/agent.rs: the commands that can be typed, and what each prints. Code points are
-- what is typed; bytes are what is printed.
pub mod Registry
use Prim.Native.String
use Prim.Native.String.{compare, count, slice}
use text.Mathlib.Text.{is_le}
use nerves_hub_link_esp.Base.{
  ℕ, zero, suc, ◌+◌, ◌-◌, ◌*◌, ◌/◌, ◌%◌, String, Bool, true, false, not, Option, none, some, List,
  [], ◌∷◌, ◌++◌, map, str_eq, codes, text_of, utf8, to_string, ltb, if◌then◌else◌,
}
use nerves_hub_link_esp.Console.{
  Output, empty_output, finish, write_str, LineReader, new_reader, parse,
}
use nerves_hub_link_esp.Error.{Error, Result, ok, err, status_reason}
use nerves_hub_link_esp.Metadata.{FirmwareMetadata, chip_name}

-- A closure, whose own state is part of the world.
pub record Command (W : Type 0) : Type 0 where
  pub name : String
  pub help : String
  pub run : List String → Output → W → Result (Unit {0}) × Output × W

pub record Console (W : Type 0) : Type 0 where
  pub reader : LineReader
  pub commands : List (Command W)

-- `write!`: the pieces of the format one after another.
unfoldable pub write_pieces : Output → List String → Output
unfolding write_str utf8
write_pieces o [] = o
write_pieces o (s ∷ ss) = write_pieces (write_str o (utf8 (codes s))) ss

-- `n` times the same text.
times : ℕ → String → List String
times zero s = []
times (suc n) s = s ∷ times n s

-- "  {name:<14} {help}\r\n"
help_line : String → String → List String
unfolding times
help_line name help = "  " ∷ name ∷ (times (14 - count name) " " ++ (" " ∷ help ∷ "\r\n" ∷ []))

-- What follows the name, or the arguments, as texts.
unfoldable pub texts : List (List ℕ) → List String
texts = map (λ s. text_of s)

module _ {W : Type 0} where
  -- `sort_by`, which keeps the order of equal names.
  insert_by_name : Command W → List (Command W) → List (Command W)
  insert_by_name c [] = c ∷ []
  insert_by_name c (d ∷ ds) =
      if is_le (compare c.name d.name) then c ∷ d ∷ ds else d ∷ insert_by_name c ds

  unfoldable pub sort_by_name : List (Command W) → List (Command W)
  unfolding insert_by_name
  sort_by_name [] = []
  sort_by_name (c ∷ cs) = insert_by_name c (sort_by_name cs)

  help_lines : List (Command W) → List String
  unfolding help_line
  help_lines [] = []
  help_lines (c ∷ cs) = help_line c.name c.help ++ help_lines cs

  unfoldable pub help_output : List (Command W) → Output
  unfolding help_lines sort_by_name write_pieces
  help_output commands = write_pieces empty_output (
      "commands:\r\n"
      ∷ (help_line "help" "this list"
          ++ (help_line "log [level]" "what is sent to NervesHub"
              ++ (help_line "reboot" "restart the device" ++ help_lines (sort_by_name commands)))))

  unfoldable pub named : String → List (Command W) → Option (Command W)
  named name [] = none
  named name (c ∷ cs) = if str_eq c.name name then some c else named name cs

  -- The error of a command is printed after what it wrote.
  after_run : String → Result (Unit {0}) × Output × W → List ℕ × W
  unfolding write_pieces finish status_reason
  after_run name (ok u, out, w) = (finish out, w)
  after_run name (err e, out, w) =
      (finish (write_pieces out ("\r\n" ∷ name ∷ ": " ∷ status_reason e ∷ [])), w)

  unfoldable pub run_named : String → List String → Option (Command W) → W → List ℕ × W
  unfolding after_run write_pieces finish
  run_named name args (some c) w = after_run name (c.run args empty_output w)
  run_named name args none w =
      (finish (write_pieces empty_output (name ∷ ": unknown command, try `help`" ∷ [])), w)

  unfoldable pub run_command : String → List String → List (Command W) → W → List ℕ × W
  unfolding help_output named run_named finish
  run_command name args commands w =
      if str_eq name "help"
      then (finish (help_output commands), w)
      else run_named name args (named name commands) w

  unfoldable pub run_parsed : Option (List ℕ × List (List ℕ)) → List (Command W) → W → List ℕ × W
  unfolding run_command texts text_of
  run_parsed none commands w = ([], w)
  run_parsed (some (name, args)) commands w = run_command (text_of name) (texts args) commands w

  -- The bytes that a line prints.
  unfoldable pub run : Console W → List ℕ → W → List ℕ × W
  unfolding run_parsed parse
  run c line w = run_parsed (parse line) c.commands w

  -- `Vec::retain`, of the commands with another name.
  others : String → List (Command W) → List (Command W)
  others name [] = []
  others name (c ∷ cs) = if str_eq c.name name then others name cs else c ∷ others name cs

  unfoldable pub register : Command W → List (Command W) → List (Command W)
  unfolding others
  register c cs = others c.name cs ++ c ∷ []

  -- Without a terminal, a command is left out.
  unfoldable pub command : Command W → Option (Console W) → Option (Console W)
  unfolding register
  command c none = none
  command c (some console) = some (record console { commands = register c console.commands })

  abbrev new_console : Console W
  new_console = record { reader = new_reader; commands = [] }

  or_new : Option (Console W) → Option (Console W)
  or_new none = some new_console
  or_new (some console) = some console

  all_commands : List (Command W) → Option (Console W) → Option (Console W)
  unfolding command
  all_commands [] console = console
  all_commands (c ∷ cs) console = all_commands cs (command c console)

-- "{:02}"
two_digits : ℕ → List String
unfolding to_string
two_digits n = if ltb n 10 then "0" ∷ to_string n ∷ [] else to_string n ∷ []

uptime_pieces : ℕ → List String
unfolding two_digits to_string
uptime_pieces seconds =
    to_string (seconds / 86400)
    ∷ "d "
    ∷ (two_digits (seconds % 86400 / 3600)
        ++ ("h "
            ∷ (two_digits (seconds % 3600 / 60)
                ++ ("m " ∷ (two_digits (seconds % 60) ++ ("s" ∷ []))))))

hex_digit : ℕ → String
hex_digit n = slice "0123456789abcdef" n (n + 1)

-- "{:#06x}", of a u16.
hex_u16 : ℕ → List String
unfolding hex_digit
hex_u16 n =
    "0x"
    ∷ hex_digit (n / 4096 % 16)
    ∷ hex_digit (n / 256 % 16)
    ∷ hex_digit (n / 16 % 16)
    ∷ hex_digit (n % 16)
    ∷ []

chip_pieces : ℕ → Option String → List String
unfolding hex_u16
chip_pieces id (some name) = "chip      " ∷ name ∷ "\r\n" ∷ []
chip_pieces id none = "chip      unknown (" ∷ (hex_u16 id ++ (")\r\n" ∷ []))

-- The hash has at least sixteen characters: a shorter one would be a panic.
info_pieces : FirmwareMetadata → List String
unfolding chip_pieces chip_name
info_pieces m =
    "project   "
    ∷ m.project_name
    ∷ "\r\n"
    ∷ "version   "
    ∷ m.version
    ∷ "\r\n"
    ∷ "idf       "
    ∷ m.idf_ver
    ∷ "\r\n"
    ∷ (chip_pieces m.chip_id (chip_name m.chip_id)
        ++ ("elf sha   " ∷ slice m.app_elf_sha256 0 16 ∷ []))

-- `elapsed_secs` reads the system's clock, and `device_commands` are those that call ESP-IDF.
module _ {W : Type 0} (elapsed_secs : W → ℕ × W) (device_commands : List (Command W)) where
  uptime_command : Command W
  unfolding uptime_pieces write_pieces
  uptime_command = record {
    name = "uptime";
    help = "time since boot";
    run = λ args out w.
        let (seconds, w) = elapsed_secs w in (ok tt, write_pieces out (uptime_pieces seconds), w);
  }

  info_command : FirmwareMetadata → Command W
  unfolding info_pieces write_pieces
  info_command m = record {
    name = "info";
    help = "firmware and device identity";
    run = λ args out w. (ok tt, write_pieces out (info_pieces m), w);
  }

  unfoldable pub with_console : FirmwareMetadata → Option (Console W) → Option (Console W)
  unfolding uptime_command info_command command or_new all_commands
  with_console m console =
      command (info_command m)
        (all_commands device_commands (command uptime_command (or_new console)))
