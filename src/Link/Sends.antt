-- ===== src/Link/Sends.antt =====
-- What the sending operations of src/link.rs leave alone, and the kind of frame that they send.
use nerves_hub_link_esp.Base.{
  ℕ, String, ◌≡◌, refl, sym, ap, subst, ◌∙◌, Option, none, some, List, [], ◌∷◌, ◌++◌, append_assoc,
  append_nil, str_eq, if_intro,
}
use nerves_hub_link_esp.Error.{Result, ok, err}
use nerves_hub_link_esp.Extensions.{Outgoing, need_location, need_health}
use nerves_hub_link_esp.Extensions.Logs.{log, logs}
use nerves_hub_link_esp.Frame.{Frame}
use nerves_hub_link_esp.Json.{Json}
use nerves_hub_link_esp.Link.{
  Transport, Link, Session, Step, and_then, fresh, send_frame, write_encoded, write, send,
  send_event, send_progress, send_firmware_validated, send_status, send_rebooting, send_console,
  send_outgoing, send_extension, send_log, send_batch, send_lines, send_logs,
}
use nerves_hub_link_esp.Logging.Lines.{LogLine}
use nerves_hub_link_esp.Message.{Message, encode_as}
use nerves_hub_link_esp.Message.Frames.{Carried, Carried-append, Encoded, encode_frame-Encoded}
use nerves_hub_link_esp.Update.{Stage}

-- Frames were sent in the link's serializer; of the link, only the generator moved.
pub record Sends {Val W : Type 0} (s s' : Session Val W) : Type 0 where
  pub kept : s'.link ≡ record s.link { refs = s'.link.refs }
  pub frames : List Frame
  pub appended : s'.sent ≡ s.sent ++ frames
  pub in_kind : Carried s.link.config.serializer frames

module _ {Val W : Type 0} where
  pub Sends-refl : (s : Session Val W) → Sends s s
  unfolding Carried
  Sends-refl s = record {
    kept = refl;
    frames = [];
    appended = sym (append_nil s.sent);
    in_kind = tt;
  }

  pub Sends-trans : {s s' s'' : Session Val W} → Sends s s' → Sends s' s'' → Sends s s''
  Sends-trans {s} {s'} {s''} h k = record {
    kept = k.kept ∙ ap {A = Link Val} (λ l. record l { refs = s''.link.refs }) h.kept;
    frames = h.frames ++ k.frames;
    appended =
        k.appended ∙ ap (λ fs. fs ++ k.frames) h.appended ∙ append_assoc s.sent h.frames k.frames;
    in_kind =
        Carried-append _ h.frames k.frames h.in_kind
          (subst (λ l. Carried l.config.serializer k.frames) h.kept k.in_kind);
  }

  pub and_then-Sends :
      {A B : Type 0} {s : Session Val W} (r : Result A × Session Val W) (f : A → Step Val W B)
      → Sends s r.1
      → ((a : A) (s' : Session Val W) → Sends s' (f a s').1)
      → Sends s (and_then r f).1
  unfolding and_then
  and_then-Sends (ok a, s') f h k = Sends-trans h (k a s')
  and_then-Sends (err e, s') f h k = h

  pub fresh-Sends : (s : Session Val W) → Sends s (fresh s).1
  unfolding fresh Carried
  fresh-Sends s = record {
    kept = refl;
    frames = [];
    appended = sym (append_nil s.sent);
    in_kind = tt;
  }

module _ {Val W : Type 0} (js : Json Val) (t : Transport W) where
  write_encoded-Sends :
      (r : Result Frame) (s : Session Val W)
      → Encoded s.link.config.serializer r
      → Sends s (write_encoded js t r s).1
  unfolding write_encoded send_frame Encoded Carried
  write_encoded-Sends (ok f) s h = record {
    kept = refl;
    frames = f ∷ [];
    appended = refl;
    in_kind = (h, tt);
  }
  write_encoded-Sends (err e) s h = Sends-refl s

  pub write-Sends : (m : Message Val) (s : Session Val W) → Sends s (write js t m s).1
  unfolding write encode_as
  write-Sends m s = write_encoded-Sends _ s (encode_frame-Encoded js _ _)

  send_event-Sends :
      (event : String) (payload : Val) (s : Session Val W)
      → Sends s (send_event js t event payload s).1
  unfolding send_event send
  send_event-Sends event payload s = Sends-trans (fresh-Sends s) (write-Sends _ _)

  pub send_progress-Sends :
      (stage : Stage) (percent : ℕ) (s : Session Val W)
      → Sends s (send_progress js t stage percent s).1
  unfolding send_progress
  send_progress-Sends stage percent = send_event-Sends _ _

  pub send_firmware_validated-Sends :
      (s : Session Val W) → Sends s (send_firmware_validated js t s).1
  unfolding send_firmware_validated
  send_firmware_validated-Sends = send_event-Sends _ _

  pub send_status-Sends :
      (status : String) (extra : Val) (s : Session Val W)
      → Sends s (send_status js t status extra s).1
  unfolding send_status
  send_status-Sends status extra = send_event-Sends _ _

  pub send_rebooting-Sends : (s : Session Val W) → Sends s (send_rebooting js t s).1
  unfolding send_rebooting
  send_rebooting-Sends = send_event-Sends _ _

  pub send_console-Sends :
      (output : String) (s : Session Val W) → Sends s (send_console js t output s).1
  unfolding send_console
  send_console-Sends output s =
      if_intro {A = Result (Unit {0}) × Session Val W} (λ r. Sends s r.1) (str_eq output "") _ _
        (λ e. Sends-refl s) (λ e. Sends-trans (fresh-Sends s) (write-Sends _ _))

  send_outgoing-Sends :
      (out : Outgoing Val) (s : Session Val W) → Sends s (send_outgoing js t out s).1
  unfolding send_outgoing
  send_outgoing-Sends (Outgoing.send event payload) s =
      Sends-trans (fresh-Sends s) (write-Sends _ _)
  send_outgoing-Sends need_location s = Sends-refl s
  send_outgoing-Sends need_health s = Sends-refl s

  pub send_extension-Sends :
      (outgoing : List (Outgoing Val)) (s : Session Val W)
      → Sends s (send_extension js t outgoing s).1
  unfolding send_extension
  send_extension-Sends [] s = Sends-refl s
  send_extension-Sends (out ∷ outgoing) s =
      and_then-Sends _ _ (send_outgoing-Sends out s) (λ _ s'. send_extension-Sends outgoing s')

  pub send_log-Sends : (line : LogLine) (s : Session Val W) → Sends s (send_log js t line s).1
  unfolding send_log
  send_log-Sends line s = send_extension-Sends (log js s.link.extensions line) s

  send_batch-Sends :
      (lines : List LogLine) (s : Session Val W) → Sends s (send_batch js t lines s).1
  unfolding send_batch
  send_batch-Sends lines s =
      Sends-trans (fresh-Sends s) (write_encoded-Sends _ _ (encode_frame-Encoded js _ _))

  send_lines-Sends :
      (batch : Option (List LogLine)) (lines : List LogLine) (s : Session Val W)
      → Sends s (send_lines js t batch lines s).1
  unfolding send_lines
  send_lines-Sends (some batch) lines s = send_batch-Sends batch s
  send_lines-Sends none lines s = send_extension-Sends (logs js s.link.extensions lines) s

  pub send_logs-Sends :
      (lines : List LogLine) (s : Session Val W) → Sends s (send_logs js t lines s).1
  unfolding send_logs
  send_logs-Sends lines s = send_lines-Sends _ lines s
