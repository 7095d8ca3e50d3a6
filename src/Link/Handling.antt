-- ===== src/Link/Handling.antt =====
-- What src/link.rs does with a frame that came in.
use nerves_hub_link_esp.Base.{
  String, Bool, true, false, ◌&&◌, ◌||◌, Option, none, some, List, [], ◌∷◌, is_some, unwrap_or,
  str_eq, if◌then◌else◌,
}
use nerves_hub_link_esp.Error.{Result, ok, err, join_refused}
use nerves_hub_link_esp.Extensions.{
  Outgoing, extensions_topic, on_invitation, on_join_reply, on_event, disconnected,
}
use nerves_hub_link_esp.Frame.{Frame}
use nerves_hub_link_esp.Json.{Json, or_protocol}
use nerves_hub_link_esp.Link.{
  Transport, UpdateHandler, Action, extension, no_action, apply_update, reboot, identify, console,
  console_restart, reconnect, Link, Session, Step, and_then, with_link, send_status, send_console,
  send_extension,
}
use nerves_hub_link_esp.Message.{
  Message, same_ref, str_at, reply_response, is_ok_reply_to, decode_frame, console_topic,
  control_topic,
}
use nerves_hub_link_esp.Update.{UpdatePayload, UpdateDecision, actionable}

abbrev pub prompt : String
prompt = "esp32> "

abbrev pub no_file_transfer : String
no_file_transfer = "\r\nfile transfer is not supported on this device\r\n"

unfoldable pub is_file_data : String → Bool
is_file_data event =
    (str_eq event "file-data/start" || str_eq event "file-data") || str_eq event "file-data/stop"

module _ {Val : Type 0} where
  unfoldable pub typed : Option String → Action Val
  typed none = no_action
  typed (some input) = console input

  unfoldable pub asked : List (Outgoing Val) → Action Val
  asked [] = no_action
  asked (out ∷ outgoing) = extension (out ∷ outgoing)

  -- Any reply with the heartbeat's reference answers it, whatever its status.
  unfoldable pub answers_heartbeat : Link Val → Message Val → Bool
  answers_heartbeat l m =
      (str_eq m.event "phx_reply" && is_some m.reference) && same_ref m.reference l.heartbeat_ref

  unfoldable pub close : Link Val → Link Val
  unfolding disconnected
  close l = record l { joined = false; extensions = disconnected l.extensions }

module _ {Val : Type 0} (js : Json Val) where
  unfoldable pub refusal : Message Val → String
  refusal m = unwrap_or (reason_of (reply_response js m)) "unknown"
    where
      reason_of : Option Val → Option String
      reason_of none = none
      reason_of (some response) = str_at js response "reason"

  unfoldable pub invite : Val → Link Val → Link Val
  unfolding on_invitation
  invite payload l = record l { extensions = on_invitation js l.extensions payload }

module _ {Val W : Type 0} (js : Json Val) (t : Transport W) (h : UpdateHandler W) where
  unfoldable pub quiet : Result (Unit {0}) × Session Val W → Result (Action Val) × Session Val W
  unfolding and_then
  quiet r = and_then r (λ _ s. (ok no_action, s))

  unfoldable pub perform : UpdatePayload → UpdateDecision → Step Val W (Action Val)
  unfolding quiet send_status
  perform u UpdateDecision.apply s = (ok (apply_update u), s)
  perform u (UpdateDecision.ignore reason) s =
      quiet (send_status js t "ignored" (js.object (("reason", js.string reason) ∷ [])) s)
  perform u (UpdateDecision.reschedule delay_ms reason) s = quiet (
      send_status js t "rescheduled"
        (js.object (("delay_for", js.number delay_ms) ∷ ("reason", js.string reason) ∷ [])) s)

  -- The application's decision, done.
  unfoldable pub consult : UpdatePayload → Step Val W (Action Val)
  unfolding perform
  consult u s =
      let (decision, world) = h.update_available u s.world in
      perform u decision (record s { world = world })

  unfoldable pub decide : UpdatePayload → Step Val W (Action Val)
  unfolding consult actionable
  decide u s = if is_some (actionable u) then consult u s else (ok no_action, s)

  unfoldable pub read_and_decide : Val → Step Val W (Action Val)
  unfolding and_then decide
  read_and_decide payload s = and_then (or_protocol (js.read_update payload), s) decide

  unfoldable pub decide_response : Option Val → Step Val W (Action Val)
  unfolding read_and_decide
  decide_response none s = (ok no_action, s)
  decide_response (some response) s = read_and_decide response s

  unfoldable pub handle_reply : Message Val → Step Val W (Action Val)
  unfolding is_ok_reply_to refusal decide_response
  handle_reply m s =
      if same_ref s.link.join_ref m.reference
      then if is_ok_reply_to js m (unwrap_or s.link.join_ref "")
        then decide_response (reply_response js m) (with_link s (record s.link { joined = true }))
        else (err (join_refused (refusal js m)), s)
      else (ok no_action, s)

  unfoldable pub handle_console_frame : Message Val → Step Val W (Action Val)
  unfolding quiet send_console typed is_file_data
  handle_console_frame m s =
      if str_eq m.event "phx_reply"
      then if same_ref s.link.console_join_ref m.reference
        then quiet (send_console js t prompt s)
        else (ok no_action, s)
      else if str_eq m.event "dn"
      then (ok (typed (str_at js m.payload "data")), s)
      else if str_eq m.event "restart"
      then (ok console_restart, s)
      else if is_file_data m.event
      then quiet (send_console js t no_file_transfer s)
      else (ok no_action, s)

  -- The platform's list of what it attached: kept, and each of it confirmed.
  unfoldable pub attach : Val → Step Val W (Action Val)
  unfolding quiet on_join_reply send_extension
  attach response s =
      let (extensions, confirmations) = on_join_reply js s.link.extensions response in
      quiet (
        send_extension js t confirmations (with_link s (record s.link { extensions = extensions })))

  unfoldable pub handle_extension_frame : Message Val → Step Val W (Action Val)
  unfolding attach on_event asked
  handle_extension_frame m s =
      if str_eq m.event "phx_reply"
      then if same_ref s.link.extensions_join_ref m.reference
        then attach (unwrap_or (reply_response js m) (js.array [])) s
        else (ok no_action, s)
      else (ok (asked (on_event s.link.extensions m.event)), s)

  unfoldable pub handle_control_frame : Message Val → Step Val W (Action Val)
  unfolding answers_heartbeat
  handle_control_frame m s = (
    ok no_action,
    if answers_heartbeat s.link m then with_link s (record s.link { heartbeat_ref = none }) else s,
  )

  unfoldable pub handle_device_frame : Message Val → Step Val W (Action Val)
  unfolding handle_reply read_and_decide invite close
  handle_device_frame m s =
      if str_eq m.event "phx_reply"
      then handle_reply m s
      else if str_eq m.event "update"
      then read_and_decide m.payload s
      else if str_eq m.event "reboot"
      then (ok reboot, s)
      else if str_eq m.event "identify"
      then (ok identify, s)
      else if str_eq m.event "extensions:get"
      then (ok no_action, with_link s (invite js m.payload s.link))
      else if str_eq m.event "phx_close" || str_eq m.event "phx_error"
      then (ok reconnect, with_link s (close s.link))
      else (ok no_action, s)

  unfoldable pub handle_message : Message Val → Step Val W (Action Val)
  unfolding handle_extension_frame handle_console_frame handle_control_frame handle_device_frame
  handle_message m s =
      if str_eq m.topic extensions_topic
      then handle_extension_frame m s
      else if str_eq m.topic console_topic
      then handle_console_frame m s
      else if str_eq m.topic control_topic
      then handle_control_frame m s
      else handle_device_frame m s

  -- A frame that cannot be read is an error.
  unfoldable pub handle : Frame → Step Val W (Action Val)
  unfolding and_then decode_frame handle_message
  handle f s = and_then (decode_frame js f, s) handle_message
