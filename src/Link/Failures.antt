-- ===== src/Link/Failures.antt =====
-- Why handling a frame fails, in src/link.rs.
use nerves_hub_link_esp.Base.{
  String, true, false, ◌||◌, ◌≡◌, refl, subst, Option, none, some, is_some, unwrap_or, str_eq, inl,
  inr, ◌⊎◌, if_intro,
}
use nerves_hub_link_esp.Error.{Error, Result, ok, err, join_refused, protocol}
use nerves_hub_link_esp.Extensions.{extensions_topic, on_join_reply}
use nerves_hub_link_esp.Frame.{Frame}
use nerves_hub_link_esp.Json.{Json, or_protocol}
use nerves_hub_link_esp.Link.{
  Transport, UpdateHandler, no_action, Session, and_then, with_link, send_extension,
}
use nerves_hub_link_esp.Link.Blames.{
  Unsent, Blames, fine, and_then-Blames, send_status-Blames, send_console-Blames,
  send_extension-Blames,
}
use nerves_hub_link_esp.Link.Handling.{
  quiet, perform, consult, decide, read_and_decide, decide_response, refusal, handle_reply,
  handle_console_frame, attach, handle_extension_frame, handle_control_frame, handle_device_frame,
  handle_message, handle, is_file_data, prompt, no_file_transfer,
}
use nerves_hub_link_esp.Message.{
  Message, same_ref, reply_response, is_ok_reply_to, decode_frame, console_topic, control_topic,
}
use nerves_hub_link_esp.Update.{UpdatePayload, UpdateDecision, actionable}

same_error : {A : Type 0} {e e' : Error} → ◌≡◌ {A = Result A} (err e) (err e') → e ≡ e'
same_error same = cc

module _ {Val W : Type 0} (js : Json Val) (t : Transport W) (h : UpdateHandler W) where
  -- Why handling a frame gave an error, and the session that it left: the frame could not be read;
  -- the reply to the join refused it; an update could not be read; or an answer was not sent.
  pub data Fails (f : Frame) (s : Session Val W) : Error → Session Val W → Type 0 where
    unreadable : {e : Error} → decode_frame js f ≡ err e → Fails f s e s
    refused :
        (m : Message Val)
        → decode_frame js f ≡ ok m
        → same_ref s.link.join_ref m.reference ≡ true
        → is_ok_reply_to js m (unwrap_or s.link.join_ref "") ≡ false
        → Fails f s (join_refused (refusal js m)) s
    bad_update :
        {s' : Session Val W} (payload : Val) (message : String)
        → js.read_update payload ≡ inl message
        → Fails f s (protocol message) s'
    unsent : {e : Error} {s' : Session Val W} → Unsent js t e → Fails f s e s'

  Explained : {A : Type 0} → Frame → Session Val W → Result A × Session Val W → Type 0
  Explained f s r = (e : Error) → r.0 ≡ err e → Fails f s e r.1

  well :
      {A : Type 0} (f : Frame) (s : Session Val W) (a : A) (s' : Session Val W)
      → Explained f s (ok a, s')
  unfolding Explained
  well f s a s' e k = absurd cc

  failed :
      {A : Type 0} {f : Frame} {s s' : Session Val W} {e : Error}
      → Fails f s e s'
      → (e' : Error) → ◌≡◌ {A = Result A} (err e) (err e')
      → Fails f s e' s'
  failed {f} {s} {s'} k e' same = subst (λ x. Fails f s x s') (same_error same) k

  blamed :
      {A : Type 0} (f : Frame) (s : Session Val W) (r : Result A × Session Val W)
      → Blames js t r
      → Explained f s r
  unfolding Explained Blames
  blamed f s r b e k = unsent (b e k)

  quiet-Explained :
      (f : Frame) (s : Session Val W) (r : Result (Unit {0}) × Session Val W)
      → Blames js t r
      → Explained f s (quiet js t h r)
  unfolding quiet
  quiet-Explained f s r b =
      blamed f s (quiet js t h r) (and_then-Blames js t r _ b (λ _ s'. fine js t no_action s'))

  perform-Explained :
      (f : Frame) (s : Session Val W) (u : UpdatePayload) (d : UpdateDecision) (s' : Session Val W)
      → Explained f s (perform js t h u d s')
  unfolding perform
  perform-Explained f s u UpdateDecision.apply s' = well f s _ s'
  perform-Explained f s u (UpdateDecision.ignore reason) s' =
      quiet-Explained f s _ (send_status-Blames js t "ignored" _ s')
  perform-Explained f s u (UpdateDecision.reschedule delay_ms reason) s' =
      quiet-Explained f s _ (send_status-Blames js t "rescheduled" _ s')

  consult-Explained :
      (f : Frame) (s : Session Val W) (u : UpdatePayload) (s' : Session Val W)
      → Explained f s (consult js t h u s')
  unfolding consult
  consult-Explained f s u s' =
      let (d, world) = h.update_available u s'.world in
      perform-Explained f s u d (record s' { world = world })

  decide-Explained :
      (f : Frame) (s : Session Val W) (u : UpdatePayload) (s' : Session Val W)
      → Explained f s (decide js t h u s')
  unfolding decide
  decide-Explained f s u s' =
      if_intro (Explained f s) (is_some (actionable u)) _ _ (λ _. consult-Explained f s u s')
        (λ _. well f s no_action s')

  update-Explained :
      (f : Frame) (s s' : Session Val W) (payload : Val) (r : String ⊎ UpdatePayload)
      → js.read_update payload ≡ r
      → Explained f s (and_then (or_protocol r, s') (decide js t h))
  unfolding and_then Explained
  update-Explained f s s' payload (inr u) k = decide-Explained f s u s'
  update-Explained f s s' payload (inl message) k = failed (bad_update payload message k)

  response-Explained :
      (f : Frame) (s s' : Session Val W) (response : Option Val)
      → Explained f s (decide_response js t h response s')
  unfolding decide_response read_and_decide
  response-Explained f s s' (some payload) = update-Explained f s s' payload _ refl
  response-Explained f s s' none = well f s no_action s'

  handle_reply-Explained :
      (f : Frame) (m : Message Val) (s : Session Val W)
      → decode_frame js f ≡ ok m
      → Explained f s (handle_reply js t h m s)
  unfolding handle_reply Explained
  handle_reply-Explained f m s e =
      if_intro (Explained f s) (same_ref s.link.join_ref m.reference) _ _
        (λ same.
          if_intro (Explained f s) (is_ok_reply_to js m (unwrap_or s.link.join_ref "")) _ _
            (λ _. response-Explained f s _ (reply_response js m))
            (λ bad. failed (refused m e same bad)))
        (λ _. well f s no_action s)

  handle_console_frame-Explained :
      (f : Frame) (m : Message Val) (s : Session Val W)
      → Explained f s (handle_console_frame js t h m s)
  unfolding handle_console_frame
  handle_console_frame-Explained f m s =
      if_intro (Explained f s) (str_eq m.event "phx_reply") _ _
        (λ _.
          if_intro (Explained f s) (same_ref s.link.console_join_ref m.reference) _ _
            (λ _. quiet-Explained f s _ (send_console-Blames js t prompt s))
            (λ _. well f s no_action s))
        (λ _.
          if_intro (Explained f s) (str_eq m.event "dn") _ _ (λ _. well f s _ s)
            (λ _.
              if_intro (Explained f s) (str_eq m.event "restart") _ _ (λ _. well f s _ s)
                (λ _.
                  if_intro (Explained f s) (is_file_data m.event) _ _
                    (λ _. quiet-Explained f s _ (send_console-Blames js t no_file_transfer s))
                    (λ _. well f s no_action s))))

  attach-Explained :
      (f : Frame) (response : Val) (s : Session Val W) → Explained f s (attach js t h response s)
  unfolding attach
  attach-Explained f response s =
      let (extensions, confirmations) = on_join_reply js s.link.extensions response in
      quiet-Explained f s
        (send_extension js t confirmations
          (with_link s (record s.link { extensions = extensions })))
        (send_extension-Blames js t confirmations _)

  handle_extension_frame-Explained :
      (f : Frame) (m : Message Val) (s : Session Val W)
      → Explained f s (handle_extension_frame js t h m s)
  unfolding handle_extension_frame
  handle_extension_frame-Explained f m s =
      if_intro (Explained f s) (str_eq m.event "phx_reply") _ _
        (λ _.
          if_intro (Explained f s) (same_ref s.link.extensions_join_ref m.reference) _ _
            (λ _. attach-Explained f _ s) (λ _. well f s no_action s))
        (λ _. well f s _ s)

  handle_device_frame-Explained :
      (f : Frame) (m : Message Val) (s : Session Val W)
      → decode_frame js f ≡ ok m
      → Explained f s (handle_device_frame js t h m s)
  unfolding handle_device_frame read_and_decide
  handle_device_frame-Explained f m s e =
      if_intro (Explained f s) (str_eq m.event "phx_reply") _ _
        (λ _. handle_reply-Explained f m s e)
        (λ _.
          if_intro (Explained f s) (str_eq m.event "update") _ _
            (λ _. update-Explained f s s m.payload _ refl)
            (λ _.
              if_intro (Explained f s) (str_eq m.event "reboot") _ _ (λ _. well f s _ s)
                (λ _.
                  if_intro (Explained f s) (str_eq m.event "identify") _ _ (λ _. well f s _ s)
                    (λ _.
                      if_intro (Explained f s) (str_eq m.event "extensions:get") _ _
                        (λ _. well f s _ _)
                        (λ _.
                          if_intro (Explained f s)
                            (str_eq m.event "phx_close" || str_eq m.event "phx_error") _ _
                            (λ _. well f s _ _) (λ _. well f s no_action s))))))

  handle_message-Explained :
      (f : Frame) (m : Message Val) (s : Session Val W)
      → decode_frame js f ≡ ok m
      → Explained f s (handle_message js t h m s)
  unfolding handle_message handle_control_frame
  handle_message-Explained f m s e =
      if_intro (Explained f s) (str_eq m.topic extensions_topic) _ _
        (λ _. handle_extension_frame-Explained f m s)
        (λ _.
          if_intro (Explained f s) (str_eq m.topic console_topic) _ _
            (λ _. handle_console_frame-Explained f m s)
            (λ _.
              if_intro (Explained f s) (str_eq m.topic control_topic) _ _
                (λ _. well f s no_action _) (λ _. handle_device_frame-Explained f m s e)))

  read-Explained :
      (f : Frame) (r : Result (Message Val)) (s : Session Val W)
      → decode_frame js f ≡ r
      → Explained f s (and_then (r, s) (handle_message js t h))
  unfolding and_then Explained
  read-Explained f (ok m) s e = handle_message-Explained f m s e
  read-Explained f (err e) s k = failed (unreadable k)

  -- Handling a frame gives an error only for one of four reasons: the frame cannot be read, and the
  -- session is as before; it replies to the join without the status ok, and the error is the
  -- refusal and the session as before; an update cannot be read, and the error is serde's; or an
  -- answer was not sent, and the error is that of the encoding or of the transport.
  pub handle-Fails :
      (f : Frame) (s : Session Val W) (e : Error)
      → (handle js t h f s).0 ≡ err e
      → Fails f s e (handle js t h f s).1
  unfolding handle Explained
  handle-Fails f s = read-Explained f (decode_frame js f) s refl
