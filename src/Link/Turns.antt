-- ===== src/Link/Turns.antt =====
-- How a message that came in changes a link, by handle_message of src/link.rs.
use nerves_hub_link_esp.Base.{
  true, ◌||◌, ◌≡◌, Option, none, some, [], is_some, unwrap_or, str_eq, if_intro,
}
use nerves_hub_link_esp.Error.{Result, ok}
use nerves_hub_link_esp.Extensions.{extensions_topic, on_join_reply}
use nerves_hub_link_esp.Json.{Json}
use nerves_hub_link_esp.Link.{
  Transport, UpdateHandler, Action, no_action, Link, Session, with_link, send_extension,
}
use nerves_hub_link_esp.Link.Handling.{
  quiet, perform, consult, decide, read_and_decide, decide_response, handle_reply,
  handle_console_frame, attach, handle_extension_frame, answers_heartbeat, handle_control_frame,
  invite, close, handle_device_frame, handle_message, is_file_data, prompt, no_file_transfer,
}
use nerves_hub_link_esp.Link.Sends.{
  Sends, Sends-refl, and_then-Sends, send_status-Sends, send_console-Sends, send_extension-Sends,
}
use nerves_hub_link_esp.Message.{
  Message, same_ref, reply_response, is_ok_reply_to, console_topic, control_topic,
}
use nerves_hub_link_esp.Update.{UpdatePayload, UpdateDecision, actionable}

module _ {Val : Type 0} (js : Json Val) where
  -- What one message may make of a link.
  pub data Turn (m : Message Val) (l : Link Val) : Link Val → Type 0 where
    idle : Turn m l l
    accepted :
        str_eq m.event "phx_reply" ≡ true
        → same_ref l.join_ref m.reference ≡ true
        → is_ok_reply_to js m (unwrap_or l.join_ref "") ≡ true
        → Turn m l (record l { joined = true })
    attached :
        same_ref l.extensions_join_ref m.reference ≡ true
        → Turn m l (record l {
          extensions =
              (on_join_reply js l.extensions (unwrap_or (reply_response js m) (js.array []))).0;
        })
    answered :
        str_eq m.topic control_topic ≡ true
        → answers_heartbeat l m ≡ true
        → Turn m l (record l { heartbeat_ref = none })
    invited : Turn m l (invite js m.payload l)
    closed : Turn m l (close l)

-- A message turned the link, and what was then sent changed no more of it.
pub record Turned {Val W A : Type 0} (js : Json Val) (m : Message Val) (s : Session Val W)
    (r : Result A × Session Val W) : Type 0 where
  pub turned : Link Val
  pub turn : Turn js m s.link turned
  pub sends : Sends (with_link s turned) r.1

-- A result, of a session and an action.
abbrev Out : Type 0 → Type 0 → Type 0
Out Val W = Result (Action Val) × Session Val W

module _ {Val W A : Type 0} (js : Json Val) where
  still :
      (m : Message Val) (s : Session Val W) (r : Result A × Session Val W)
      → Sends s r.1
      → Turned js m s r
  still m s r h = record { turned = s.link; turn = idle; sends = h }

module _ {Val W : Type 0} (js : Json Val) (t : Transport W) (h : UpdateHandler W) where
  quiet-Sends :
      (s : Session Val W) (r : Result (Unit {0}) × Session Val W)
      → Sends s r.1
      → Sends s (quiet js t h r).1
  unfolding quiet
  quiet-Sends s r k = and_then-Sends r _ k (λ _ s'. Sends-refl s')

  perform-Sends :
      (u : UpdatePayload) (d : UpdateDecision) (s : Session Val W)
      → Sends s (perform js t h u d s).1
  unfolding perform
  perform-Sends u UpdateDecision.apply s = Sends-refl s
  perform-Sends u (UpdateDecision.ignore reason) s =
      quiet-Sends s _ (send_status-Sends js t "ignored" _ s)
  perform-Sends u (UpdateDecision.reschedule delay_ms reason) s =
      quiet-Sends s _ (send_status-Sends js t "rescheduled" _ s)

  -- What the application's decision makes of the world is no part of the link.
  consult-Sends : (u : UpdatePayload) (s : Session Val W) → Sends s (consult js t h u s).1
  unfolding consult
  consult-Sends u s = Sends-world (perform-Sends u _ _)
    where
      Sends-world : {w : W} {s' : Session Val W} → Sends (record s { world = w }) s' → Sends s s'
      Sends-world k = record {
        kept = k.kept;
        frames = k.frames;
        appended = k.appended;
        in_kind = k.in_kind;
      }

  decide-Sends : (u : UpdatePayload) (s : Session Val W) → Sends s (decide js t h u s).1
  unfolding decide
  decide-Sends u s =
      if_intro {A = Out Val W} (λ r. Sends s r.1) (is_some (actionable u)) _ _
        (λ e. consult-Sends u s) (λ e. Sends-refl s)

  read_and_decide-Sends :
      (payload : Val) (s : Session Val W) → Sends s (read_and_decide js t h payload s).1
  unfolding read_and_decide
  read_and_decide-Sends payload s = and_then-Sends _ _ (Sends-refl s) decide-Sends

  decide_response-Sends :
      (response : Option Val) (s : Session Val W) → Sends s (decide_response js t h response s).1
  unfolding decide_response
  decide_response-Sends none s = Sends-refl s
  decide_response-Sends (some response) s = read_and_decide-Sends response s

  handle_reply-Turned :
      (m : Message Val) (s : Session Val W)
      → str_eq m.event "phx_reply" ≡ true
      → Turned js m s (handle_reply js t h m s)
  unfolding handle_reply
  handle_reply-Turned m s e =
      if_intro (Turned js m s) (same_ref s.link.join_ref m.reference) _ _
        (λ same.
          if_intro (Turned js m s) (is_ok_reply_to js m (unwrap_or s.link.join_ref "")) _ _
            (λ well. record {
              turned = record s.link { joined = true };
              turn = accepted e same well;
              sends = decide_response-Sends _ _;
            })
            (λ _. still js m s _ (Sends-refl s)))
        (λ _. still js m s _ (Sends-refl s))

  handle_console_frame-Turned :
      (m : Message Val) (s : Session Val W) → Turned js m s (handle_console_frame js t h m s)
  unfolding handle_console_frame
  handle_console_frame-Turned m s =
      if_intro (Turned js m s) (str_eq m.event "phx_reply") _ _
        (λ _.
          if_intro (Turned js m s) (same_ref s.link.console_join_ref m.reference) _ _
            (λ _. still js m s _ (quiet-Sends s _ (send_console-Sends js t prompt s)))
            (λ _. still js m s _ (Sends-refl s)))
        (λ _.
          if_intro (Turned js m s) (str_eq m.event "dn") _ _ (λ _. still js m s _ (Sends-refl s))
            (λ _.
              if_intro (Turned js m s) (str_eq m.event "restart") _ _
                (λ _. still js m s _ (Sends-refl s))
                (λ _.
                  if_intro (Turned js m s) (is_file_data m.event) _ _
                    (λ _.
                      still js m s _ (quiet-Sends s _ (send_console-Sends js t no_file_transfer s)))
                    (λ _. still js m s _ (Sends-refl s)))))

  attach-Sends :
      (response : Val) (s : Session Val W)
      → Sends
          (with_link s
            (record s.link { extensions = (on_join_reply js s.link.extensions response).0 }))
          (attach js t h response s).1
  unfolding attach
  attach-Sends response s =
      quiet-Sends _
        (send_extension js t (on_join_reply js s.link.extensions response).1 (
          with_link s
            (record s.link { extensions = (on_join_reply js s.link.extensions response).0 })))
        (send_extension-Sends js t (on_join_reply js s.link.extensions response).1 _)

  handle_extension_frame-Turned :
      (m : Message Val) (s : Session Val W) → Turned js m s (handle_extension_frame js t h m s)
  unfolding handle_extension_frame
  handle_extension_frame-Turned m s =
      if_intro (Turned js m s) (str_eq m.event "phx_reply") _ _
        (λ _.
          if_intro (Turned js m s) (same_ref s.link.extensions_join_ref m.reference) _ _
            (λ same. record { turned = _; turn = attached same; sends = attach-Sends _ s })
            (λ _. still js m s _ (Sends-refl s)))
        (λ _. still js m s _ (Sends-refl s))

  handle_control_frame-Turned :
      (m : Message Val) (s : Session Val W)
      → str_eq m.topic control_topic ≡ true
      → Turned js m s (handle_control_frame js t h m s)
  unfolding handle_control_frame
  handle_control_frame-Turned m s on_control =
      if_intro (λ s'. Turned {A = Action Val} js m s (ok no_action, s'))
        (answers_heartbeat s.link m) _ _
        (λ e. record { turned = _; turn = answered on_control e; sends = Sends-refl _ })
        (λ _. still js m s _ (Sends-refl s))

  handle_device_frame-Turned :
      (m : Message Val) (s : Session Val W) → Turned js m s (handle_device_frame js t h m s)
  unfolding handle_device_frame
  handle_device_frame-Turned m s =
      if_intro (Turned js m s) (str_eq m.event "phx_reply") _ _ (λ e. handle_reply-Turned m s e)
        (λ _.
          if_intro (Turned js m s) (str_eq m.event "update") _ _
            (λ _. still js m s _ (read_and_decide-Sends m.payload s))
            (λ _.
              if_intro (Turned js m s) (str_eq m.event "reboot") _ _
                (λ _. still js m s _ (Sends-refl s))
                (λ _.
                  if_intro (Turned js m s) (str_eq m.event "identify") _ _
                    (λ _. still js m s _ (Sends-refl s))
                    (λ _.
                      if_intro (Turned js m s) (str_eq m.event "extensions:get") _ _
                        (λ _. record { turned = _; turn = invited; sends = Sends-refl _ })
                        (λ _.
                          if_intro (Turned js m s)
                            (str_eq m.event "phx_close" || str_eq m.event "phx_error") _ _
                            (λ _. record { turned = _; turn = closed; sends = Sends-refl _ })
                            (λ _. still js m s _ (Sends-refl s)))))))

  pub handle_message-Turned :
      (m : Message Val) (s : Session Val W) → Turned js m s (handle_message js t h m s)
  unfolding handle_message
  handle_message-Turned m s =
      if_intro (Turned js m s) (str_eq m.topic extensions_topic) _ _
        (λ _. handle_extension_frame-Turned m s)
        (λ _.
          if_intro (Turned js m s) (str_eq m.topic console_topic) _ _
            (λ _. handle_console_frame-Turned m s)
            (λ _.
              if_intro (Turned js m s) (str_eq m.topic control_topic) _ _
                (λ e. handle_control_frame-Turned m s e) (λ _. handle_device_frame-Turned m s)))
