-- ===== src/Message/Frames.antt =====
-- The frames of src/message.rs are of the kind that their serializer writes.
use nerves_hub_link_esp.Base.{
  ℕ, String, Bool, true, false, ◌≡◌, refl, Option, List, [], ◌∷◌, ◌++◌, if_intro,
}
use nerves_hub_link_esp.Error.{Result, ok, err}
use nerves_hub_link_esp.Frame.{Frame, is_utf8}
use nerves_hub_link_esp.Json.{Json, Written, Parts, or_protocol}
use nerves_hub_link_esp.Message.{
  Serializer, json, msg_pack, encode_frame, utf8_text, text_frame, binary_frame,
}

-- JSON travels in text frames, and msgpack in binary ones.
unfoldable pub carries : Serializer → Frame → Bool
carries json (Frame.text bytes) = true
carries msg_pack (Frame.binary bytes) = true
carries _ _ = false

unfoldable pub Carried : Serializer → List Frame → Type 0
Carried serializer [] = Unit
Carried serializer (f ∷ fs) = (carries serializer f ≡ true) × Carried serializer fs

pub Carried-append :
    (serializer : Serializer) (fs gs : List Frame)
    → Carried serializer fs
    → Carried serializer gs
    → Carried serializer (fs ++ gs)
unfolding Carried
Carried-append serializer [] gs h k = k
Carried-append serializer (f ∷ fs) gs h k = (h.0, Carried-append serializer fs gs h.1 k)

-- An encoding that succeeds is a frame of its serializer.
unfoldable pub Encoded : Serializer → Result Frame → Type 0
Encoded serializer (ok f) = carries serializer f ≡ true
Encoded serializer (err e) = Unit

module _ {Val : Type 0} (js : Json Val) where
  text_frame-Encoded : (r : Result (List ℕ)) → Encoded json (text_frame js r)
  unfolding text_frame utf8_text Encoded carries
  text_frame-Encoded (ok bytes) = if_intro (Encoded json) (is_utf8 bytes) _ _ (λ e. refl) (λ e. tt)
  text_frame-Encoded (err e) = tt

  binary_frame-Encoded : (r : Result (List ℕ)) → Encoded msg_pack (binary_frame js r)
  unfolding binary_frame Encoded carries
  binary_frame-Encoded (ok bytes) = refl
  binary_frame-Encoded (err e) = tt

  pub encode_frame-Encoded :
      (serializer : Serializer) (parts : Parts (Option String) (Written Val))
      → Encoded serializer (encode_frame js serializer parts)
  unfolding encode_frame
  encode_frame-Encoded json parts = text_frame-Encoded (or_protocol (js.write_json parts))
  encode_frame-Encoded msg_pack parts = binary_frame-Encoded (or_protocol (js.write_msgpack parts))
