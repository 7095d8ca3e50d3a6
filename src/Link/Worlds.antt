-- ===== src/Link/Worlds.antt =====
-- What the sending operations of src/link.rs make of the world: no more than the transport does.
use nerves_hub_link_esp.Base.{ℕ, Option, none, some, List, [], ◌∷◌}
use nerves_hub_link_esp.Error.{Result, ok, err}
use nerves_hub_link_esp.Extensions.{Outgoing, need_location, need_health, extensions_topic}
use nerves_hub_link_esp.Extensions.Logs.{logs, written_batch}
use nerves_hub_link_esp.Frame.{Frame}
use nerves_hub_link_esp.Json.{Json}
use nerves_hub_link_esp.Link.{
  Transport, Session, Step, and_then, fresh, transmit, send_frame, write_encoded, write,
  send_heartbeat, send_outgoing, send_extension, send_batch, send_lines, send_logs,
}
use nerves_hub_link_esp.Logging.Lines.{LogLine}
use nerves_hub_link_esp.Message.{Message, encode_frame}

-- What holds of the world holds after either kind of frame was handed to the transport.
pub record KeptBySending {W : Type 0} (t : Transport W) (P : W → Type 0) : Type 0 where
  pub by_text : (bytes : List ℕ) (w : W) → P w → P (t.send_text bytes w).1
  pub by_binary : (bytes : List ℕ) (w : W) → P w → P (t.send_binary bytes w).1

module _ {Val W : Type 0} (js : Json Val) (t : Transport W) (P : W → Type 0)
    (kept : KeptBySending t P) where
  transmit-kept : (f : Frame) (w : W) → P w → P (transmit js t f w).1
  unfolding transmit
  transmit-kept (Frame.text bytes) w h = kept.by_text bytes w h
  transmit-kept (Frame.binary bytes) w h = kept.by_binary bytes w h

  write_encoded-kept :
      (r : Result Frame) (s : Session Val W) → P s.world → P (write_encoded js t r s).1.world
  unfolding write_encoded send_frame
  write_encoded-kept (ok f) s h = transmit-kept f s.world h
  write_encoded-kept (err e) s h = h

  write-kept : (m : Message Val) (s : Session Val W) → P s.world → P (write js t m s).1.world
  unfolding write
  write-kept m s h = write_encoded-kept _ s h

  pub send_heartbeat-kept : (s : Session Val W) → P s.world → P (send_heartbeat js t s).1.world
  unfolding send_heartbeat fresh
  send_heartbeat-kept s h = write-kept _ _ h

  send_outgoing-kept :
      (out : Outgoing Val) (s : Session Val W) → P s.world → P (send_outgoing js t out s).1.world
  unfolding send_outgoing fresh
  send_outgoing-kept (Outgoing.send event payload) s h = write-kept _ _ h
  send_outgoing-kept need_location s h = h
  send_outgoing-kept need_health s h = h

  and_then-kept :
      {A B : Type 0} (r : Result A × Session Val W) (f : A → Step Val W B)
      → P r.1.world
      → ((a : A) (s : Session Val W) → P s.world → P (f a s).1.world)
      → P (and_then r f).1.world
  unfolding and_then
  and_then-kept (ok a, s) f h k = k a s h
  and_then-kept (err e, s) f h k = h

  send_extension-kept :
      (outgoing : List (Outgoing Val)) (s : Session Val W)
      → P s.world
      → P (send_extension js t outgoing s).1.world
  unfolding send_extension
  send_extension-kept [] s h = h
  send_extension-kept (out ∷ outgoing) s h =
      and_then-kept (send_outgoing js t out s) _ (send_outgoing-kept out s h)
        (λ _ s' k. send_extension-kept outgoing s' k)

  send_batch-kept :
      (ls : List LogLine) (s : Session Val W) → P s.world → P (send_batch js t ls s).1.world
  unfolding send_batch fresh
  send_batch-kept ls s h =
      let (reference, s') = fresh s in
      write_encoded-kept
        (encode_frame js s'.link.config.serializer (
          s'.link.extensions_join_ref,
          some reference,
          extensions_topic,
          "logging:send",
          written_batch ls,
        ))
        s' h

  send_lines-kept :
      (batch : Option (List LogLine)) (ls : List LogLine) (s : Session Val W)
      → P s.world
      → P (send_lines js t batch ls s).1.world
  unfolding send_lines
  send_lines-kept (some batch) ls s h = send_batch-kept batch s h
  send_lines-kept none ls s h = send_extension-kept (logs js s.link.extensions ls) s h

  pub send_logs-kept :
      (ls : List LogLine) (s : Session Val W) → P s.world → P (send_logs js t ls s).1.world
  unfolding send_logs
  send_logs-kept ls s h = send_lines-kept _ ls s h
