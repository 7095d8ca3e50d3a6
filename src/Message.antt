-- ===== src/Message.antt =====
-- src/message.rs: messages, the frames that carry them, and the generator of message references.
pub mod References
pub mod Frames
use nerves_hub_link_esp.Base.{
  ℕ, ◌+◌, ◌%◌, ◌^◌, String, to_string, Bool, true, false, ◌&&◌, Option, none, some, List, ◌⊎◌, inl,
  inr, str_eq, if◌then◌else◌,
}
use nerves_hub_link_esp.Error.{Result, ok, err, protocol}
use nerves_hub_link_esp.Frame
use nerves_hub_link_esp.Frame.{Frame, is_utf8}
use nerves_hub_link_esp.Json.{Json, Written, Parts, or_protocol}

pub data Serializer : Type 0 where
  json msg_pack : Serializer

unfoldable pub vsn : Serializer → String
vsn json = "2.0.0"
vsn msg_pack = "3.0.0"

pub record RefGenerator : Type 0 where
  pub next : ℕ

abbrev pub new_generator : RefGenerator
new_generator = record { next = 0 }

-- A u64, which wraps.
unfoldable pub next_ref : RefGenerator → RefGenerator × String
next_ref g = let n = (g.next + 1) % 2 ^ 64 in (record { next = n }, to_string n)

abbrev pub device_topic : String
device_topic = "device"

abbrev pub console_topic : String
console_topic = "console"

abbrev pub console_version : String
console_version = "1.0.0"

abbrev pub control_topic : String
control_topic = "phoenix"

abbrev pub device_api_version : String
device_api_version = "2.2.0"

pub record Message (Val : Type 0) : Type 0 where
  pub join_ref : Option String
  pub reference : Option String
  pub topic : String
  pub event : String
  pub payload : Val

-- The same text, or none on both sides.
abbrev pub same_ref : Option String → Option String → Bool
same_ref none none = true
same_ref (some a) (some b) = str_eq a b
same_ref _ _ = false

module _ {Val : Type 0} where
  abbrev pub new_message : String → String → Val → Message Val
  new_message topic event payload = record {
    join_ref = none;
    reference = none;
    topic = topic;
    event = event;
    payload = payload;
  }

  abbrev pub with_refs : Message Val → Option String → Option String → Message Val
  with_refs m join_ref reference = record m { join_ref = join_ref; reference = reference }

module _ {Val : Type 0} (js : Json Val) where
  utf8_text : List ℕ → Result Frame
  unfolding is_utf8
  utf8_text bytes =
      if is_utf8 bytes then ok (Frame.text bytes) else err (protocol "JSON that is not UTF-8")

  text_frame : Result (List ℕ) → Result Frame
  unfolding utf8_text
  text_frame (ok bytes) = utf8_text bytes
  text_frame (err e) = err e

  binary_frame : Result (List ℕ) → Result Frame
  binary_frame (ok bytes) = ok (Frame.binary bytes)
  binary_frame (err e) = err e

  -- The capacity of the buffer, which the source also passes, does not change what is written.
  unfoldable pub encode_frame : Serializer → Parts (Option String) (Written Val) → Result Frame
  unfolding text_frame binary_frame
  encode_frame json parts = text_frame (or_protocol (js.write_json parts))
  encode_frame msg_pack parts = binary_frame (or_protocol (js.write_msgpack parts))

  unfoldable pub encode_as : Message Val → Serializer → Result Frame
  unfolding encode_frame
  encode_as m serializer =
      encode_frame serializer (m.join_ref, m.reference, m.topic, m.event, Written.value m.payload)

  -- A reference that is neither null nor a string is kept as the text it displays.
  text_or_display : Option String → Val → Option String
  text_or_display (some s) v = some s
  text_or_display none v = some (js.display v)

  reference_text : Val → Option String
  unfolding text_or_display
  reference_text v = if js.is_null v then none else text_or_display (js.as_str v) v

  decode : String ⊎ Parts (Option String) Val → Result (Message Val)
  decode (inl e) = err (protocol e)
  decode (inr (join_ref, reference, topic, event, payload)) = ok (record {
    join_ref = join_ref;
    reference = reference;
    topic = topic;
    event = event;
    payload = payload;
  })

  decode_msgpack : String ⊎ Parts Val Val → Result (Message Val)
  unfolding reference_text
  decode_msgpack (inl e) = err (protocol e)
  decode_msgpack (inr (join_ref, reference, topic, event, payload)) = ok (record {
    join_ref = reference_text join_ref;
    reference = reference_text reference;
    topic = topic;
    event = event;
    payload = payload;
  })

  unfoldable pub decode_frame : Frame → Result (Message Val)
  unfolding decode decode_msgpack
  decode_frame (Frame.text bytes) = decode (js.read_json bytes)
  decode_frame (Frame.binary bytes) = decode_msgpack (js.read_msgpack bytes)

  -- `value.get(key).and_then(Value::as_str)`
  abbrev pub str_at : Val → String → Option String
  str_at v key = str_of (js.get v key)
    where
      str_of : Option Val → Option String
      str_of none = none
      str_of (some w) = js.as_str w

  abbrev pub reply_response : Message Val → Option Val
  reply_response m = js.get m.payload "response"

  unfoldable pub is_ok_reply_to : Message Val → String → Bool
  is_ok_reply_to m reference =
      (str_eq m.event "phx_reply" && same_ref m.reference (some reference))
      && same_ref (str_at m.payload "status") (some "ok")
