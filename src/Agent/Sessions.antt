-- ===== src/Agent/Sessions.antt =====
-- One connection's lifetime, in src/agent.rs: `session_within`, and what is made of it by `run_session`
-- and `run_session_until`.
pub mod Tending
pub mod Rounds
pub mod Once
pub mod Held
pub mod Ends
pub mod Scenes
mod Examples
use nerves_hub_link_esp.Base.{
  ℕ, zero, suc, ◌+◌, ◌-◌, ◌*◌, ◌/◌, String, Bool, true, false, not, ◌&&◌, ◌||◌, Option, none, some,
  List, [], ◌∷◌, ◌++◌, is_some, leb, str_eq, codes, format, to_string, if◌then◌else◌,
}
use nerves_hub_link_esp.Agent.{
  Platform, PendingVerify, no_pending, yes_pending, Pump, with_world, beaten, send_logs,
  confirm_running_image,
}
use nerves_hub_link_esp.Agent.Commands.{Console}
use nerves_hub_link_esp.Agent.Terminal.{
  Agent, LevelNames, on_device, at_session, at_world, session_of, answer_console,
}
use nerves_hub_link_esp.Agent.Updates.{Device, apply}
use nerves_hub_link_esp.Checksum.{Digest}
use nerves_hub_link_esp.Config.{Config}
use nerves_hub_link_esp.Console.{new_reader}
use nerves_hub_link_esp.Error.{Error, Result, ok, err, transport}
use nerves_hub_link_esp.Extensions.{
  Outgoing, need_location, need_health, any_enabled, health, is_attached,
}
use nerves_hub_link_esp.Extensions.Payloads.{Location, HealthReport, location, health_answer}
use nerves_hub_link_esp.Frame.{Frame}
use nerves_hub_link_esp.Install.{HttpStream, ImageSink}
use nerves_hub_link_esp.Json.{Json}
use nerves_hub_link_esp.Link
use nerves_hub_link_esp.Link.{
  Transport, UpdateHandler, Action, extension, no_action, apply_update, reboot, identify, console,
  console_restart, reconnect, Link, Session, with_link, want_console, heartbeat_unanswered,
  logging_attached, send_join, send_heartbeat, send_rebooting, send_console_join, send_console,
  send_extensions_join, send_extension,
}
use nerves_hub_link_esp.Link.Handling.{handle, prompt}
use nerves_hub_link_esp.Logging.{LogBuffer, is_empty}
use nerves_hub_link_esp.Logging.Lines.{Allocator}
use nerves_hub_link_esp.Metadata.{FirmwareMetadata, BootReport}
use nerves_hub_link_esp.Update.{UpdatePayload}

abbrev pub extensions_invitation_wait_ms : ℕ
extensions_invitation_wait_ms = 5000

pub data Stopped : Type 0 where
  rebooting finished : Stopped

pub data Control : Type 0 where
  stay report_health leave : Control

pub record SessionWindow : Type 0 where
  pub linger_ms : ℕ
  pub limit_ms : ℕ

abbrev pub default_window : SessionWindow
default_window = record { linger_ms = 10 * 1000; limit_ms = 60 * 1000 }

-- The application's side of the agent, and what is asked of the session by its caller. `F` is f64.
pub record Providers (F W : Type 0) : Type 0 where
  pub provide_location : Option (W → Option (Location F) × W)
  pub provide_health : Option (W → HealthReport F × W)
  pub on_identify : Option (W → W)
  pub window : Option SessionWindow
  pub control : Option (W → Control × W)

-- A session's own variables beside the agent; the frames received in it, the newest first; and
-- how often the running image was confirmed in it.
-- The times of the last heartbeat and of the last log message are the pump's.
pub record Run (Val W : Type 0) : Type 0 where
  pub agent : Agent Val W
  pub joined : Bool
  pub confirmed : Bool
  pub extensions_joined : Bool
  pub console_joined : Bool
  pub health_answered : Bool
  pub joined_at : Option ℕ
  pub started : ℕ
  pub heard : List Frame
  pub confirmations : ℕ

-- Whether the session goes on; an end with none means reconnect.
pub data Flow : Type 0 where
  going : Flow
  ended : Result (Option Stopped) → Flow

module _ {Val W : Type 0} where
  abbrev pub link_of : Run Val W → Link Val
  link_of r = (session_of r.agent).link

  abbrev pub run_world : Run Val W → W
  run_world r = (session_of r.agent).world

  abbrev pub with_agent : Run Val W → Agent Val W → Run Val W
  with_agent r a = record r { agent = a }

  abbrev pub in_session : Run Val W → Session Val W → Run Val W
  in_session r s = with_agent r (at_session r.agent s)

  abbrev pub in_world : Run Val W → W → Run Val W
  in_world r w = with_agent r (at_world r.agent w)

  abbrev pub with_pump : Run Val W → Pump Val W → Run Val W
  with_pump r p = with_agent r (on_device r.agent (record r.agent.device { pump = p }))

  -- The next part of a round, if the session goes on.
  unfoldable pub and_part : Flow × Run Val W → (Run Val W → Flow × Run Val W) → Flow × Run Val W
  and_part (going, r) f = f r
  and_part (ended e, r) f = (ended e, r)

  -- `?` on an operation of the link, in `r`, and what follows it.
  unfoldable pub sending :
      Run Val W → Result (Unit {0}) × Session Val W → (Run Val W → Run Val W) → Flow × Run Val W
  sending r (ok u, s) f = (going, f (in_session r s))
  sending r (err e, s) f = (ended (err e), in_session r s)

  -- The same on the pump's operations.
  unfoldable pub pumping : Run Val W → Result (Unit {0}) × Pump Val W → Flow × Run Val W
  pumping r (ok u, p) = (going, with_pump r p)
  pumping r (err e, p) = (ended (err e), with_pump r p)

-- `saturating_sub`, against a bound.
abbrev pub is_past : Option ℕ → ℕ → ℕ → Bool
is_past none now ms = false
is_past (some at) now ms = leb ms (now - at)

unfoldable pub wanted : {Val : Type 0} → Link Val → Bool
unfolding any_enabled
wanted l = any_enabled l.extensions.enabled

unfoldable pub health_attached : {Val : Type 0} → Link Val → Bool
unfolding is_attached
health_attached l = is_attached l.extensions health

is_drained : Option LogBuffer → Bool
unfolding is_empty
is_drained none = true
is_drained (some b) = is_empty b

module _ {Val F W : Type 0} (js : Json Val) (float : F → Val) (t : Transport W)
    (ps : Providers F W) where
  -- What the application's providers answer: pieces of a message, and the world after them.
  located : Option (W → Option (Location F) × W) → W → List (Outgoing Val) × W
  unfolding location
  located none w = (location js float none, w)
  located (some provide) w = let (l, w) = provide w in (location js float l, w)

  measured : Option (W → HealthReport F × W) → W → List (Outgoing Val) × W
  unfolding health_answer
  measured none w = ([], w)
  measured (some provide) w = let (report, w) = provide w in (health_answer js float report, w)

  unfoldable pub resolve : Outgoing Val → W → List (Outgoing Val) × W
  unfolding located measured
  resolve need_location w = located ps.provide_location w
  resolve need_health w = measured ps.provide_health w
  resolve (Outgoing.send event payload) w = (Outgoing.send event payload ∷ [], w)

  unfoldable pub answer_need : Outgoing Val → Session Val W → Result (Unit {0}) × Session Val W
  unfolding resolve send_extension
  answer_need need s =
      let (answer, w) = resolve need s.world in send_extension js t answer (with_world s w)

  unfoldable pub answer_extension :
      List (Outgoing Val) → Session Val W → Result (Unit {0}) × Session Val W
  unfolding answer_need Link.and_then
  answer_extension [] s = (ok tt, s)
  answer_extension (need ∷ needs) s =
      Link.and_then (answer_need need s) (λ _ s. answer_extension needs s)

  -- Each condition counts only where the platform took part in it.
  unfoldable pub nothing_outstanding : Run Val W → Bool
  unfolding wanted health_attached logging_attached is_drained
  nothing_outstanding r =
      let l = link_of r in
      ((not (wanted l) || l.extensions.joined)
        && ((not (is_some ps.provide_health) || not (health_attached l)) || r.health_answered))
      && (not (logging_attached l) || is_drained r.agent.device.pump.logs)

-- What the agent is made with, and all that a session calls, of the platform, the application and the libraries.
pub record Env (Val F S W : Type 0) : Type 0 where
  pub config : Config
  pub metadata : FirmwareMetadata
  pub js : Json Val
  pub float : F → Val
  pub wire : Transport W
  pub handler : UpdateHandler W
  pub allocator : Allocator
  pub platform : Platform W
  pub names : LevelNames
  pub digest : Digest S
  pub http : HttpStream W
  pub sink : ImageSink W
  pub providers : Providers F W

abbrev pub asked : {Val F S W : Type 0} → Env Val F S W → Bool
asked e = is_some e.providers.control

abbrev pub windowed : {Val F S W : Type 0} → Env Val F S W → Bool
windowed e = is_some e.providers.window
