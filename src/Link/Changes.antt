-- ===== src/Link/Changes.antt =====
-- What each operation of src/link.rs changes of a link, besides the generator of references.
use nerves_hub_link_esp.Base.{false, ◌≡◌, refl, some}
use nerves_hub_link_esp.Error.{Result, ok, err}
use nerves_hub_link_esp.Extensions.{join_message}
use nerves_hub_link_esp.Frame.{Frame}
use nerves_hub_link_esp.Json.{Json}
use nerves_hub_link_esp.Link.{
  Transport, UpdateHandler, Link, Session, and_then, with_link, set_downloading, want_console,
  fresh, send, send_join, send_heartbeat, send_console_join, send_extensions_join,
}
use nerves_hub_link_esp.Link.Handling.{handle, handle_message}
use nerves_hub_link_esp.Link.Moves.{
  Move, join, heartbeat, validated, rebooting, progress, status, join_console, join_extensions,
  wants_console, output, answer, log_line, log_lines, downloads, receive, move,
}
use nerves_hub_link_esp.Link.Sends.{
  Sends, Sends-refl, write-Sends, send_progress-Sends, send_firmware_validated-Sends,
  send_status-Sends, send_rebooting-Sends, send_console-Sends, send_extension-Sends, send_log-Sends,
  send_logs-Sends,
}
use nerves_hub_link_esp.Link.Turns.{Turn, handle_message-Turned}
use nerves_hub_link_esp.Message.{Message, RefGenerator, decode_frame, next_ref}

module _ {Val : Type 0} where
  -- What an operation that sends makes of the link.
  unfoldable pub own_change : Move Val → Link Val → Link Val
  unfolding next_ref set_downloading want_console
  own_change (join boot) l = record l { join_ref = some (next_ref l.refs).1; joined = false }
  own_change heartbeat l = record l { heartbeat_ref = some (next_ref l.refs).1 }
  own_change join_console l = record l { console_join_ref = some (next_ref l.refs).1 }
  own_change join_extensions l = record l { extensions_join_ref = some (next_ref l.refs).1 }
  own_change wants_console l = want_console l
  own_change (downloads uuid) l = set_downloading uuid l
  own_change _ l = l

module _ {Val : Type 0} (js : Json Val) where
  pub data Change : Move Val → Link Val → Link Val → Type 0 where
    own : {mv : Move Val} {l : Link Val} → Change mv l (own_change mv l)
    by_message :
        {f : Frame} {l l' : Link Val} (m : Message Val)
        → decode_frame js f ≡ ok m
        → Turn js m l l'
        → Change (receive f) l l'

pub record Moved {Val W : Type 0} (js : Json Val) (mv : Move Val) (s s' : Session Val W)
    : Type 0 where
  pub changed : Link Val
  pub change : Change js mv s.link changed
  pub sends : Sends (with_link s changed) s'

module _ {Val W : Type 0} (js : Json Val) where
  mine :
      (mv : Move Val) {s s' : Session Val W}
      → Sends (with_link s (own_change mv s.link)) s'
      → Moved js mv s s'
  mine mv k = record { changed = _; change = own; sends = k }

  -- The generator may move first.
  mine_later :
      (mv : Move Val) {s s' : Session Val W} (refs : RefGenerator)
      → Sends (with_link s (record (own_change mv s.link) { refs = refs })) s'
      → Moved js mv s s'
  mine_later mv refs k =
      mine mv
        (record { kept = k.kept; frames = k.frames; appended = k.appended; in_kind = k.in_kind })

module _ {Val W : Type 0} (js : Json Val) (t : Transport W) (h : UpdateHandler W) where
  receive-Moved :
      (f : Frame) (r : Result (Message Val)) (s : Session Val W)
      → decode_frame js f ≡ r
      → Moved js (receive f) s (and_then (r, s) (handle_message js t h)).1
  unfolding and_then own_change
  receive-Moved f (ok m) s e =
      let k = handle_message-Turned js t h m s in
      record { changed = k.turned; change = by_message m e k.turn; sends = k.sends }
  receive-Moved f (err e) s _ = mine js (receive f) (Sends-refl s)

  pub move-Moved : (mv : Move Val) (s : Session Val W) → Moved js mv s (move js t h mv s)
  unfolding move own_change send_join send_heartbeat send_console_join send_extensions_join
      join_message send fresh handle set_downloading want_console
  move-Moved (join boot) s = mine_later js _ (next_ref s.link.refs).0 (write-Sends js t _ _)
  move-Moved heartbeat s = mine_later js _ (next_ref s.link.refs).0 (write-Sends js t _ _)
  move-Moved validated s = mine js _ (send_firmware_validated-Sends js t s)
  move-Moved rebooting s = mine js _ (send_rebooting-Sends js t s)
  move-Moved (progress stage percent) s = mine js _ (send_progress-Sends js t stage percent s)
  move-Moved (status text extra) s = mine js _ (send_status-Sends js t text extra s)
  move-Moved join_console s = mine_later js _ (next_ref s.link.refs).0 (write-Sends js t _ _)
  move-Moved join_extensions s = mine_later js _ (next_ref s.link.refs).0 (write-Sends js t _ _)
  move-Moved wants_console s = mine js _ (Sends-refl _)
  move-Moved (output text) s = mine js _ (send_console-Sends js t text s)
  move-Moved (answer outgoing) s = mine js _ (send_extension-Sends js t outgoing s)
  move-Moved (log_line line) s = mine js _ (send_log-Sends js t line s)
  move-Moved (log_lines lines) s = mine js _ (send_logs-Sends js t lines s)
  move-Moved (downloads uuid) s = mine js _ (Sends-refl _)
  move-Moved (receive f) s = receive-Moved f (decode_frame js f) s refl
