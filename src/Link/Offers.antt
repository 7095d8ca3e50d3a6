-- ===== src/Link/Offers.antt =====
-- When src/link.rs has an update applied.
use nerves_hub_link_esp.Base.{
  String, true, ◌||◌, ◌≡◌, refl, Option, none, some, List, [], ◌∷◌, is_some, unwrap_or, str_eq, inl,
  inr, ◌⊎◌, if_intro,
}
use nerves_hub_link_esp.Error.{Result, ok, err}
use nerves_hub_link_esp.Extensions.{Outgoing, extensions_topic, on_event}
use nerves_hub_link_esp.Frame.{Frame}
use nerves_hub_link_esp.Json.{Json, or_protocol}
use nerves_hub_link_esp.Link.{
  Transport, UpdateHandler, Action, extension, no_action, apply_update, reboot, identify, console,
  console_restart, reconnect, Session, and_then,
}
use nerves_hub_link_esp.Link.Handling.{
  quiet, perform, consult, decide, read_and_decide, decide_response, handle_reply, typed, asked,
  handle_console_frame, attach, handle_extension_frame, handle_control_frame, handle_device_frame,
  handle_message, handle, is_file_data,
}
use nerves_hub_link_esp.Message.{
  Message, same_ref, str_at, reply_response, is_ok_reply_to, decode_frame, console_topic,
  control_topic,
}
use nerves_hub_link_esp.Update.{UpdatePayload, UpdateDecision, actionable}

module _ {Val W : Type 0} (js : Json Val) (t : Transport W) (h : UpdateHandler W) where
  -- A frame that carries a payload: as its message's, or as the response of a reply.
  pub record Carries (f : Frame) (payload : Val) : Type 0 where
    pub message : Message Val
    pub decoded : decode_frame js f ≡ ok message
    pub within : (message.payload ≡ payload) ⊎ (reply_response js message ≡ some payload)

  -- An update that the platform offered in a frame, with an image to fetch, and that the application chose.
  pub record Offered (f : Frame) (u : UpdatePayload) : Type 0 where
    pub payload : Val
    pub carried : Carries f payload
    pub offered : js.read_update payload ≡ inr u
    pub fetchable : is_some (actionable u) ≡ true
    pub asked_in : W
    pub chosen : (h.update_available u asked_in).0 ≡ UpdateDecision.apply

  -- What is to be done, if it is an update, is one that was offered and chosen.
  abbrev pub Allowed : Frame → Result (Action Val) × Session Val W → Type 0
  Allowed f (ok (apply_update u), s) = Offered f u
  Allowed f (ok (extension needs), s) = Unit {0}
  Allowed f (ok no_action, s) = Unit {0}
  Allowed f (ok reboot, s) = Unit {0}
  Allowed f (ok identify, s) = Unit {0}
  Allowed f (ok (console text), s) = Unit {0}
  Allowed f (ok console_restart, s) = Unit {0}
  Allowed f (ok reconnect, s) = Unit {0}
  Allowed f (err e, s) = Unit {0}

  quiet-Allowed : (f : Frame) (r : Result (Unit {0}) × Session Val W) → Allowed f (quiet js t h r)
  unfolding quiet and_then
  quiet-Allowed f (ok u, s) = tt
  quiet-Allowed f (err e, s) = tt

  typed-Allowed :
      (f : Frame) (text : Option String) (s : Session Val W) → Allowed f (ok (typed text), s)
  unfolding typed
  typed-Allowed f none s = tt
  typed-Allowed f (some text) s = tt

  asked-Allowed :
      (f : Frame) (needs : List (Outgoing Val)) (s : Session Val W)
      → Allowed f (ok (asked needs), s)
  unfolding asked
  asked-Allowed f [] s = tt
  asked-Allowed f (need ∷ needs) s = tt

  perform-Allowed :
      (f : Frame) (u : UpdatePayload) (d : UpdateDecision) (s : Session Val W)
      → (d ≡ UpdateDecision.apply → Offered f u)
      → Allowed f (perform js t h u d s)
  unfolding perform
  perform-Allowed f u UpdateDecision.apply s k = k refl
  perform-Allowed f u (UpdateDecision.ignore reason) s k = quiet-Allowed f _
  perform-Allowed f u (UpdateDecision.reschedule delay_ms reason) s k = quiet-Allowed f _

  update-Allowed :
      (f : Frame) (payload : Val) (r : String ⊎ UpdatePayload) (s : Session Val W)
      → Carries f payload
      → js.read_update payload ≡ r
      → Allowed f (and_then (or_protocol r, s) (decide js t h))
  unfolding and_then decide consult
  update-Allowed f payload (inl message) s c e = tt
  update-Allowed f payload (inr u) s c e =
      if_intro (Allowed f) (is_some (actionable u)) _ _
        (λ fetchable. perform-Allowed f u (h.update_available u s.world).0 _ (λ chosen. record {
          payload = payload;
          carried = c;
          offered = e;
          fetchable = fetchable;
          asked_in = s.world;
          chosen = chosen;
        }))
        (λ _. tt)

  response-Allowed :
      (f : Frame) (m : Message Val) (response : Option Val) (s : Session Val W)
      → decode_frame js f ≡ ok m
      → reply_response js m ≡ response
      → Allowed f (decide_response js t h response s)
  unfolding decide_response read_and_decide
  response-Allowed f m none s d e = tt
  response-Allowed f m (some payload) s d e =
      update-Allowed f payload _ s (record { message = m; decoded = d; within = inr e }) refl

  handle_reply-Allowed :
      (f : Frame) (m : Message Val) (s : Session Val W)
      → decode_frame js f ≡ ok m
      → Allowed f (handle_reply js t h m s)
  unfolding handle_reply
  handle_reply-Allowed f m s d =
      if_intro (Allowed f) (same_ref s.link.join_ref m.reference) _ _
        (λ _.
          if_intro (Allowed f) (is_ok_reply_to js m (unwrap_or s.link.join_ref "")) _ _
            (λ _. response-Allowed f m (reply_response js m) _ d refl) (λ _. tt))
        (λ _. tt)

  handle_console_frame-Allowed :
      (f : Frame) (m : Message Val) (s : Session Val W)
      → Allowed f (handle_console_frame js t h m s)
  unfolding handle_console_frame
  handle_console_frame-Allowed f m s =
      if_intro (Allowed f) (str_eq m.event "phx_reply") _ _
        (λ _.
          if_intro (Allowed f) (same_ref s.link.console_join_ref m.reference) _ _
            (λ _. quiet-Allowed f _) (λ _. tt))
        (λ _.
          if_intro (Allowed f) (str_eq m.event "dn") _ _
            (λ _. typed-Allowed f (str_at js m.payload "data") s)
            (λ _.
              if_intro (Allowed f) (str_eq m.event "restart") _ _ (λ _. tt)
                (λ _.
                  if_intro (Allowed f) (is_file_data m.event) _ _ (λ _. quiet-Allowed f _)
                    (λ _. tt))))

  handle_extension_frame-Allowed :
      (f : Frame) (m : Message Val) (s : Session Val W)
      → Allowed f (handle_extension_frame js t h m s)
  unfolding handle_extension_frame attach
  handle_extension_frame-Allowed f m s =
      if_intro (Allowed f) (str_eq m.event "phx_reply") _ _
        (λ _.
          if_intro (Allowed f) (same_ref s.link.extensions_join_ref m.reference) _ _
            (λ _. quiet-Allowed f _) (λ _. tt))
        (λ _. asked-Allowed f (on_event s.link.extensions m.event) s)

  handle_device_frame-Allowed :
      (f : Frame) (m : Message Val) (s : Session Val W)
      → decode_frame js f ≡ ok m
      → Allowed f (handle_device_frame js t h m s)
  unfolding handle_device_frame read_and_decide
  handle_device_frame-Allowed f m s d =
      if_intro (Allowed f) (str_eq m.event "phx_reply") _ _ (λ _. handle_reply-Allowed f m s d)
        (λ _.
          if_intro (Allowed f) (str_eq m.event "update") _ _
            (λ _.
              update-Allowed f m.payload _ s
                (record { message = m; decoded = d; within = inl refl }) refl)
            (λ _.
              if_intro (Allowed f) (str_eq m.event "reboot") _ _ (λ _. tt)
                (λ _.
                  if_intro (Allowed f) (str_eq m.event "identify") _ _ (λ _. tt)
                    (λ _.
                      if_intro (Allowed f) (str_eq m.event "extensions:get") _ _ (λ _. tt)
                        (λ _.
                          if_intro (Allowed f)
                            (str_eq m.event "phx_close" || str_eq m.event "phx_error") _ _ (λ _. tt)
                            (λ _. tt))))))

  handle_message-Allowed :
      (f : Frame) (m : Message Val) (s : Session Val W)
      → decode_frame js f ≡ ok m
      → Allowed f (handle_message js t h m s)
  unfolding handle_message handle_control_frame
  handle_message-Allowed f m s d =
      if_intro (Allowed f) (str_eq m.topic extensions_topic) _ _
        (λ _. handle_extension_frame-Allowed f m s)
        (λ _.
          if_intro (Allowed f) (str_eq m.topic console_topic) _ _
            (λ _. handle_console_frame-Allowed f m s)
            (λ _.
              if_intro (Allowed f) (str_eq m.topic control_topic) _ _ (λ _. tt)
                (λ _. handle_device_frame-Allowed f m s d)))

  decoded-Allowed :
      (f : Frame) (r : Result (Message Val)) (s : Session Val W)
      → decode_frame js f ≡ r
      → Allowed f (and_then (r, s) (handle_message js t h))
  unfolding and_then
  decoded-Allowed f (ok m) s d = handle_message-Allowed f m s d
  decoded-Allowed f (err e) s d = tt

  -- Whatever frame comes in: if an update is to be applied, serde read it from a payload that this frame
  -- carries, it names an image to fetch, and the application, when asked about it, decided to apply it.
  pub handle-Allowed : (f : Frame) (s : Session Val W) → Allowed f (handle js t h f s)
  unfolding handle
  handle-Allowed f s = decoded-Allowed f (decode_frame js f) s refl
