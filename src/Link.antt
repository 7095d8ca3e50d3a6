-- ===== src/Link.antt =====
-- src/link.rs: the state of the channels, and what a device sends on them. The transport and the
-- application's decisions are parameters: functions of a world of any type.
pub mod Handling
pub mod Sends
pub mod Turns
pub mod Moves
pub mod Changes
pub mod Serializers
pub mod Joining
pub mod Quiet
pub mod Heartbeats
pub mod Blames
pub mod Failures
pub mod Counts
pub mod Worlds
pub mod Offers
mod Examples
use nerves_hub_link_esp.Base.{
  ℕ, String, Bool, true, false, Option, none, some, List, [], ◌∷◌, ◌++◌, is_some, str_eq,
  if◌then◌else◌,
}
use nerves_hub_link_esp.Config.{Config}
use nerves_hub_link_esp.Error.{Error, Result, ok, err, transport}
use nerves_hub_link_esp.Extensions
use nerves_hub_link_esp.Extensions.{
  Extensions, Outgoing, extensions_topic, is_attached, logging, join_message, logging_batched,
}
use nerves_hub_link_esp.Extensions.Logs.{written_batch, log, logs, log_batch}
use nerves_hub_link_esp.Frame
use nerves_hub_link_esp.Frame.{Frame}
use nerves_hub_link_esp.Json.{Json, Map}
use nerves_hub_link_esp.Logging.Lines.{LogLine}
use nerves_hub_link_esp.Message.{
  RefGenerator, new_generator, next_ref, Message, new_message, with_refs, encode_as, encode_frame,
  device_topic, console_topic, control_topic, console_version,
}
use nerves_hub_link_esp.Metadata.{FirmwareMetadata, BootReport, join_params}
use nerves_hub_link_esp.Update.{UpdatePayload, UpdateDecision, Stage, stage_as_str}

-- `recv_frame` gives none when nothing arrived before the timeout.
pub record Transport (W : Type 0) : Type 0 where
  pub send_text : List ℕ → W → Result (Unit {0}) × W
  pub send_binary : List ℕ → W → Result (Unit {0}) × W
  pub recv_frame : W → Result (Option Frame) × W

pub record UpdateHandler (W : Type 0) : Type 0 where
  pub update_available : UpdatePayload → W → UpdateDecision × W
  pub progress : Stage → ℕ → W → W

-- What the run loop must do.
pub data Action (Val : Type 0) : Type 0 where
  extension : List (Outgoing Val) → Action Val
  no_action : Action Val
  apply_update : UpdatePayload → Action Val
  reboot identify : Action Val
  console : String → Action Val
  console_restart reconnect : Action Val

pub record Link (Val : Type 0) : Type 0 where
  pub config : Config
  pub metadata : FirmwareMetadata
  pub refs : RefGenerator
  pub join_ref : Option String
  pub extensions : Extensions Val
  pub extensions_join_ref : Option String
  pub console_join_ref : Option String
  pub console_wanted : Bool
  pub joined : Bool
  pub downloading : Option String
  pub heartbeat_ref : Option String

-- A link at work: the frames handed to the transport so far, the oldest first, stand beside the world.
pub record Session (Val W : Type 0) : Type 0 where
  pub link : Link Val
  pub world : W
  pub sent : List Frame

-- An operation that fails leaves what it had done.
abbrev pub Step : Type 0 → Type 0 → Type 0 → Type 0
Step Val W A = Session Val W → Result A × Session Val W

module _ {Val W A B : Type 0} where
  -- `?`
  unfoldable pub and_then : Result A × Session Val W → (A → Step Val W B) → Result B × Session Val W
  and_then (ok a, s) f = f a s
  and_then (err e, s) f = (err e, s)

module _ {Val : Type 0} where
  unfoldable pub new : Config → FirmwareMetadata → Link Val
  unfolding Extensions.new
  new config metadata = record {
    config = config;
    metadata = metadata;
    refs = new_generator;
    join_ref = none;
    extensions = Extensions.new config.extensions;
    extensions_join_ref = none;
    console_join_ref = none;
    console_wanted = false;
    joined = false;
    downloading = none;
    heartbeat_ref = none;
  }

  unfoldable pub set_downloading : Option String → Link Val → Link Val
  set_downloading uuid l = record l { downloading = uuid }

  unfoldable pub want_console : Link Val → Link Val
  want_console l = record l { console_wanted = true }

  unfoldable pub heartbeat_unanswered : Link Val → Bool
  heartbeat_unanswered l = is_some l.heartbeat_ref

  abbrev pub console_joined : Link Val → Bool
  console_joined l = is_some l.console_join_ref

  unfoldable pub logging_attached : Link Val → Bool
  unfolding is_attached
  logging_attached l = is_attached l.extensions logging

module _ {Val W : Type 0} where
  abbrev pub with_link : Session Val W → Link Val → Session Val W
  with_link s l = record s { link = l }

  -- The generator's next reference.
  unfoldable pub fresh : Session Val W → String × Session Val W
  unfolding next_ref
  fresh s =
      let (refs, reference) = next_ref s.link.refs in
      (reference, with_link s (record s.link { refs = refs }))

module _ {Val W : Type 0} (js : Json Val) (t : Transport W) where
  unfoldable pub transmit : Frame → W → Result (Unit {0}) × W
  transmit (Frame.text bytes) w = t.send_text bytes w
  transmit (Frame.binary bytes) w = t.send_binary bytes w

  unfoldable pub send_frame : Frame → Step Val W (Unit {0})
  unfolding transmit
  send_frame f s =
      let (r, world) = transmit f s.world in
      (r, record s { world = world; sent = s.sent ++ f ∷ [] })

  unfoldable pub write_encoded : Result Frame → Step Val W (Unit {0})
  unfolding send_frame
  write_encoded (ok f) s = send_frame f s
  write_encoded (err e) s = (err e, s)

  -- Every frame but a batch of log lines goes out through here.
  unfoldable pub write : Message Val → Step Val W (Unit {0})
  unfolding write_encoded encode_as
  write m s = write_encoded (encode_as js m s.link.config.serializer) s

  -- On the device's channel, under its join's reference.
  unfoldable pub send : Message Val → Option String → Step Val W (Unit {0})
  unfolding write
  send m reference s = write (with_refs m s.link.join_ref reference) s

  unfoldable pub send_join : BootReport → Step Val W (Unit {0})
  unfolding fresh send join_params
  send_join boot s =
      let (reference, s) = fresh s in
      let s = with_link s (record s.link { join_ref = some reference; joined = false }) in
      let params =
        join_params js s.link.metadata s.link.config.device_api_version s.link.downloading boot in
      send (new_message device_topic "phx_join" params) (some reference) s

  unfoldable pub send_heartbeat : Step Val W (Unit {0})
  unfolding fresh write
  send_heartbeat s =
      let (reference, s) = fresh s in
      let s = with_link s (record s.link { heartbeat_ref = some reference }) in
      write (with_refs (new_message control_topic "heartbeat" (js.object [])) none (some reference))
        s

  -- A message of the device's channel with a reference of its own.
  unfoldable pub send_event : String → Val → Step Val W (Unit {0})
  unfolding fresh send
  send_event event payload s =
      let (reference, s) = fresh s in
      send (new_message device_topic event payload) (some reference) s

  unfoldable pub send_progress : Stage → ℕ → Step Val W (Unit {0})
  unfolding send_event stage_as_str
  send_progress stage percent =
      send_event "update_progress"
        (js.object (("value", js.number percent) ∷ ("stage", js.string (stage_as_str stage)) ∷ []))

  unfoldable pub send_firmware_validated : Step Val W (Unit {0})
  unfolding send_event
  send_firmware_validated = send_event "firmware_validated" (js.object [])

  -- The status, and over it the pairs of `extra` if that is an object.
  status_entries : String → Option (Map Val) → List (String × Val)
  status_entries status none = ("status", js.string status) ∷ []
  status_entries status (some extra) = ("status", js.string status) ∷ extra

  unfoldable pub send_status : String → Val → Step Val W (Unit {0})
  unfolding send_event status_entries
  send_status status extra =
      send_event "status_update" (js.object (status_entries status (js.as_object extra)))

  unfoldable pub send_rebooting : Step Val W (Unit {0})
  unfolding send_event
  send_rebooting = send_event "rebooting" (js.object [])

  -- A join carries its own reference in both positions.
  unfoldable pub send_console_join : Step Val W (Unit {0})
  unfolding fresh write
  send_console_join s =
      let (reference, s) = fresh s in
      let s = with_link s (record s.link { console_join_ref = some reference }) in
      let payload = js.object (("console_version", js.string console_version) ∷ []) in
      write
        (with_refs (new_message console_topic "phx_join" payload) (some reference) (some reference))
        s

  unfoldable pub send_console : String → Step Val W (Unit {0})
  unfolding fresh write
  send_console output s =
      if str_eq output ""
      then (ok tt, s)
      else let (reference, s) = fresh s in
        let payload = js.object (("data", js.string output) ∷ []) in
        write
          (with_refs (new_message console_topic "up" payload) s.link.console_join_ref
            (some reference))
          s

  unfoldable pub send_extensions_join : Step Val W (Unit {0})
  unfolding join_message write
  send_extensions_join s =
      let (refs, reference, m) = join_message js s.link.extensions s.link.refs in
      let s = with_link s (record s.link { refs = refs; extensions_join_ref = some reference }) in
      write (with_refs m (some reference) (some reference)) s

  -- Only a `send` is a frame to write.
  send_outgoing : Outgoing Val → Step Val W (Unit {0})
  unfolding fresh write
  send_outgoing (Outgoing.send event payload) s =
      let (reference, s) = fresh s in
      write
        (with_refs (new_message extensions_topic event payload) s.link.extensions_join_ref
          (some reference))
        s
  send_outgoing _ s = (ok tt, s)

  unfoldable pub send_extension : List (Outgoing Val) → Step Val W (Unit {0})
  unfolding send_outgoing and_then
  send_extension [] s = (ok tt, s)
  send_extension (out ∷ outgoing) s =
      and_then (send_outgoing out s) (λ _ s. send_extension outgoing s)

  unfoldable pub send_log : LogLine → Step Val W (Unit {0})
  unfolding log send_extension
  send_log line s = send_extension (log js s.link.extensions line) s

  send_batch : List LogLine → Step Val W (Unit {0})
  unfolding fresh encode_frame write_encoded written_batch
  send_batch lines s =
      let (reference, s) = fresh s in
      write_encoded
        (encode_frame js s.link.config.serializer (
          s.link.extensions_join_ref,
          some reference,
          extensions_topic,
          "logging:send",
          written_batch lines,
        ))
        s

  send_lines : Option (List LogLine) → List LogLine → Step Val W (Unit {0})
  unfolding send_batch logs send_extension
  send_lines (some batch) lines s = send_batch batch s
  send_lines none lines s = send_extension (logs js s.link.extensions lines) s

  unfoldable pub send_logs : List LogLine → Step Val W (Unit {0})
  unfolding log_batch send_lines
  send_logs lines s = send_lines (log_batch js s.link.extensions lines) lines s
