-- ===== src/Link/Moves.antt =====
-- The operations of src/link.rs that write or that change a link, in any order.
use nerves_hub_link_esp.Base.{ℕ, String, Option, List, [], ◌∷◌}
use nerves_hub_link_esp.Extensions.{Outgoing}
use nerves_hub_link_esp.Frame.{Frame}
use nerves_hub_link_esp.Json.{Json}
use nerves_hub_link_esp.Link.{
  Transport, UpdateHandler, Session, with_link, set_downloading, want_console, send_join,
  send_heartbeat, send_progress, send_firmware_validated, send_status, send_rebooting,
  send_console_join, send_console, send_extensions_join, send_extension, send_log, send_logs,
}
use nerves_hub_link_esp.Link.Handling.{handle}
use nerves_hub_link_esp.Logging.Lines.{LogLine}
use nerves_hub_link_esp.Metadata.{BootReport}
use nerves_hub_link_esp.Update.{Stage}

pub data Move (Val : Type 0) : Type 0 where
  join : BootReport → Move Val
  heartbeat validated rebooting : Move Val
  progress : Stage → ℕ → Move Val
  status : String → Val → Move Val
  join_console join_extensions wants_console : Move Val
  output : String → Move Val
  answer : List (Outgoing Val) → Move Val
  log_line : LogLine → Move Val
  log_lines : List LogLine → Move Val
  downloads : Option String → Move Val
  receive : Frame → Move Val

module _ {Val W : Type 0} (js : Json Val) (t : Transport W) (h : UpdateHandler W) where
  -- Whether the operation gives an error or not, what it has done stays.
  unfoldable pub move : Move Val → Session Val W → Session Val W
  unfolding send_join send_heartbeat send_progress send_firmware_validated send_status
      send_rebooting send_console_join send_console send_extensions_join send_extension send_log
      send_logs set_downloading want_console handle
  move (join boot) s = (send_join js t boot s).1
  move heartbeat s = (send_heartbeat js t s).1
  move validated s = (send_firmware_validated js t s).1
  move rebooting s = (send_rebooting js t s).1
  move (progress stage percent) s = (send_progress js t stage percent s).1
  move (status text extra) s = (send_status js t text extra s).1
  move join_console s = (send_console_join js t s).1
  move join_extensions s = (send_extensions_join js t s).1
  move wants_console s = with_link s (want_console s.link)
  move (output text) s = (send_console js t text s).1
  move (answer outgoing) s = (send_extension js t outgoing s).1
  move (log_line line) s = (send_log js t line s).1
  move (log_lines lines) s = (send_logs js t lines s).1
  move (downloads uuid) s = with_link s (set_downloading uuid s.link)
  move (receive f) s = (handle js t h f s).1

  unfoldable pub use_all : List (Move Val) → Session Val W → Session Val W
  unfolding move
  use_all [] s = s
  use_all (m ∷ ms) s = use_all ms (move m s)
