-- ===== src/Link/Blames.antt =====
-- What the sending operations of src/link.rs fail by.
use nerves_hub_link_esp.Base.{String, ◌≡◌, ◌∙◌, refl, Option, List, [], ◌∷◌, str_eq, if_intro}
use nerves_hub_link_esp.Error.{Error, Result, ok, err}
use nerves_hub_link_esp.Extensions.{Outgoing, need_location, need_health}
use nerves_hub_link_esp.Frame.{Frame}
use nerves_hub_link_esp.Json.{Json, Parts, Written}
use nerves_hub_link_esp.Link.{
  Transport, Session, Step, and_then, transmit, send_frame, write_encoded, write, send, send_event,
  send_status, send_console, send_outgoing, send_extension,
}
use nerves_hub_link_esp.Message.{Serializer, Message, encode_frame, encode_as}

-- The same error, of results of another type.
again :
    {A B : Type 0} {e e' : Error}
    → ◌≡◌ {A = Result A} (err e) (err e')
    → ◌≡◌ {A = Result B} (err e) (err e')
again same = cc

module _ {Val W : Type 0} (js : Json Val) (t : Transport W) where
  -- An answer was not sent: its encoding failed, or the transport refused the frame.
  pub data Unsent (e : Error) : Type 0 where
    not_encoded :
        (serializer : Serializer) (parts : Parts (Option String) (Written Val))
        → encode_frame js serializer parts ≡ err e
        → Unsent e
    not_sent : (f : Frame) (w : W) → (transmit js t f w).0 ≡ err e → Unsent e

  -- The result of an operation that fails only by what it sends.
  unfoldable pub Blames : {A : Type 0} → Result A × Session Val W → Type 0
  Blames r = (e : Error) → r.0 ≡ err e → Unsent e

  pub fine : {A : Type 0} (a : A) (s : Session Val W) → Blames (ok a, s)
  unfolding Blames
  fine a s e k = absurd cc

  pub and_then-Blames :
      {A B : Type 0} (r : Result A × Session Val W) (f : A → Step Val W B)
      → Blames r
      → ((a : A) (s : Session Val W) → Blames (f a s))
      → Blames (and_then r f)
  unfolding and_then Blames
  and_then-Blames (ok a, s) f h k = k a s
  and_then-Blames (err e, s) f h k = λ e' same. h e' (again same)

  write_encoded-Blames :
      (serializer : Serializer) (parts : Parts (Option String) (Written Val)) (r : Result Frame)
      (s : Session Val W)
      → encode_frame js serializer parts ≡ r
      → Blames (write_encoded js t r s)
  unfolding write_encoded send_frame Blames
  write_encoded-Blames serializer parts (ok f) s h = λ e k. not_sent f s.world k
  write_encoded-Blames serializer parts (err e) s h =
      λ e' k. not_encoded serializer parts (h ∙ again k)

  write-Blames : (m : Message Val) (s : Session Val W) → Blames (write js t m s)
  unfolding write encode_as
  write-Blames m s = write_encoded-Blames _ _ _ s refl

  send_event-Blames :
      (event : String) (payload : Val) (s : Session Val W)
      → Blames (send_event js t event payload s)
  unfolding send_event send
  send_event-Blames event payload s = write-Blames _ _

  pub send_status-Blames :
      (status : String) (extra : Val) (s : Session Val W) → Blames (send_status js t status extra s)
  unfolding send_status
  send_status-Blames status extra s = send_event-Blames _ _ s

  pub send_console-Blames :
      (output : String) (s : Session Val W) → Blames (send_console js t output s)
  unfolding send_console
  send_console-Blames output s =
      if_intro {A = Result (Unit {0}) × Session Val W} Blames (str_eq output "") _ _
        (λ _. fine tt s) (λ _. write-Blames _ _)

  send_outgoing-Blames :
      (out : Outgoing Val) (s : Session Val W) → Blames (send_outgoing js t out s)
  unfolding send_outgoing
  send_outgoing-Blames (Outgoing.send event payload) s = write-Blames _ _
  send_outgoing-Blames need_location s = fine tt s
  send_outgoing-Blames need_health s = fine tt s

  pub send_extension-Blames :
      (outgoing : List (Outgoing Val)) (s : Session Val W) → Blames (send_extension js t outgoing s)
  unfolding send_extension
  send_extension-Blames [] s = fine tt s
  send_extension-Blames (out ∷ outgoing) s =
      and_then-Blames _ _ (send_outgoing-Blames out s) (λ _ s'. send_extension-Blames outgoing s')
