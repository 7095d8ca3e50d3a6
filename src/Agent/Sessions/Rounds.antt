-- ===== src/Agent/Sessions/Rounds.antt =====
-- The loop of `session_within` in src/agent.rs: what it does with a frame, and the rounds.
pub mod Held
pub mod Returns
use nerves_hub_link_esp.Base.{
  ℕ, zero, suc, String, Bool, true, false, ◌||◌, Option, none, some, List, [], ◌∷◌, is_some, codes,
  format, if◌then◌else◌,
}
use nerves_hub_link_esp.Agent.{PendingVerify, yes_pending, no_pending}
use nerves_hub_link_esp.Agent.Commands.{Console}
use nerves_hub_link_esp.Agent.Sessions.{
  Stopped, rebooting, finished, Run, Flow, going, ended, run_world, with_agent, in_session,
  in_world, sending, answer_extension, Env,
}
use nerves_hub_link_esp.Agent.Sessions.Tending.{tend}
use nerves_hub_link_esp.Agent.Terminal.{
  Agent, on_device, at_session, at_world, session_of, answer_console,
}
use nerves_hub_link_esp.Agent.Updates.{Device, apply}
use nerves_hub_link_esp.Console.{new_reader}
use nerves_hub_link_esp.Error.{Error, Result, ok, err, transport}
use nerves_hub_link_esp.Extensions.{Outgoing, need_location, need_health}
use nerves_hub_link_esp.Frame.{Frame}
use nerves_hub_link_esp.Link
use nerves_hub_link_esp.Link.{
  Action, extension, no_action, apply_update, reboot, identify, console, console_restart, reconnect,
  Link, Session, with_link, want_console, send_join, send_rebooting, send_console,
}
use nerves_hub_link_esp.Link.Handling.{handle, prompt}
use nerves_hub_link_esp.Metadata.{BootReport}

module _ {Val : Type 0} where
  -- `contains(&NeedHealth)`
  wants_health : List (Outgoing Val) → Bool
  wants_health [] = false
  wants_health (need_health ∷ needs) = true
  wants_health (need_location ∷ needs) = wants_health needs
  wants_health (Outgoing.send event payload ∷ needs) = wants_health needs

fresh_reader : {W : Type 0} → Option (Console W) → Option (Console W)
fresh_reader none = none
fresh_reader (some c) = some (record c { reader = new_reader })

module _ {Val W : Type 0} where
  unfoldable pub run_of : ℕ → Agent Val W → Run Val W
  run_of started a = record {
    agent = a;
    joined = false;
    confirmed = false;
    extensions_joined = false;
    console_joined = false;
    health_answered = false;
    joined_at = none;
    started = started;
    heard = [];
    confirmations = 0;
  }

  -- A restart that follows at once, and the end of the session.
  unfoldable pub restart_now : (W → W) → Run Val W → Flow × Run Val W
  restart_now restart r =
      let r = in_world r (restart (run_world r)) in
      let d = r.agent.device in
      (
        ended (ok (some rebooting)),
        with_agent r (on_device r.agent (record d { restarts = suc d.restarts })),
      )

  unfoldable pub rebooted :
      (W → W) → Run Val W → Result (Unit {0}) × Session Val W → Flow × Run Val W
  unfolding restart_now
  rebooted restart r (ok u, s) = restart_now restart (in_session r s)
  rebooted restart r (err e, s) = (ended (err e), in_session r s)

  -- Whether a terminal's command asked for a restart.
  unfoldable pub typed_on : Run Val W → Result Bool × Agent Val W → Flow × Run Val W
  typed_on r (ok true, a) = (ended (ok (some rebooting)), with_agent r a)
  typed_on r (ok false, a) = (going, with_agent r a)
  typed_on r (err e, a) = (ended (err e), with_agent r a)

  identified : Option (W → W) → Run Val W → Run Val W
  identified none r = r
  identified (some show) r = in_world r (show (run_world r))

module _ {Val F S W : Type 0} (e : Env Val F S W) where
  open e use {
    config, metadata, js, float, wire, handler, allocator, platform, names, digest, http, sink,
    providers,
  }

  -- After an update that did not restart the device, a whole interval to the next heartbeat.
  unfoldable pub updated :
      Run Val W → Option (Result Bool × Device Val W) → Option (Flow × Run Val W)
  updated r none = none
  updated r (some (ok true, d)) =
      some (ended (ok (some rebooting)), with_agent r (on_device r.agent d))
  updated r (some (ok false, d)) =
      let r = with_agent r (on_device r.agent d) in
      let (now, w) = platform.now_ms (run_world r) in
      let r = in_world r w in
      let d = r.agent.device in
      some (
        going,
        with_agent r
            (on_device r.agent (record d { pump = record d.pump { last_heartbeat = now } })),
      )
  updated r (some (err e, d)) = some (ended (err e), with_agent r (on_device r.agent d))

  unfoldable pub act : ℕ → Action Val → Run Val W → Option (Flow × Run Val W)
  unfolding updated apply rebooted send_rebooting identified typed_on answer_console fresh_reader
      sending send_console answer_extension wants_health
  act fuel (apply_update update) r =
      updated r
        (apply js wire handler allocator platform digest http sink fuel update r.agent.device)
  act fuel reboot r =
      some (rebooted platform.restart r (send_rebooting js wire (session_of r.agent)))
  act fuel identify r = some (going, identified providers.on_identify r)
  act fuel (console typed) r =
      some (typed_on r (answer_console js wire platform names typed r.agent))
  act fuel console_restart r =
      let r = with_agent r (record r.agent { console = fresh_reader r.agent.console }) in
      some (
        sending r (send_console js wire (format ("\r\n" ∷ prompt ∷ [])) (session_of r.agent))
          (λ r. r))
  act fuel reconnect r = some (ended (ok none), r)
  act fuel (extension needs) r =
      let r = record r { health_answered = wants_health needs || r.health_answered } in
      some
        (sending r (answer_extension js float wire providers needs (session_of r.agent)) (λ r. r))
  act fuel no_action r = some (going, r)

  -- A frame that cannot be handled ends the session.
  unfoldable pub handled :
      ℕ → Run Val W → Result (Action Val) × Session Val W → Option (Flow × Run Val W)
  unfolding act
  handled fuel r (ok action, s) = act fuel action (in_session r s)
  handled fuel r (err e, s) = some (ended (ok none), in_session r s)

  unfoldable pub received : ℕ → Run Val W → Result (Option Frame) × W → Option (Flow × Run Val W)
  unfolding handled handle
  received fuel r (ok (some frame), w) =
      let r = record (in_world r w) { heard = frame ∷ r.heard } in
      handled fuel r (handle js wire handler frame (session_of r.agent))
  received fuel r (ok none, w) = some (going, in_world r w)
  received fuel r (err e, w) = some (ended (ok none), in_world r w)

  unfoldable pub receive_after : ℕ → Flow × Run Val W → Option (Flow × Run Val W)
  unfolding received
  receive_after fuel (going, r) = received fuel r (wire.recv_frame (run_world r))
  receive_after fuel (ended e, r) = some (ended e, r)

  -- `fuel` is the installation's.
  unfoldable pub round : ℕ → Run Val W → Option (Flow × Run Val W)
  unfolding receive_after tend
  round fuel r = receive_after fuel (tend e r)

  unfoldable pub round_then :
      (Run Val W → Option (Flow × Run Val W))
      → Option (Flow × Run Val W)
      → Option (Flow × Run Val W)
  round_then rest none = none
  round_then rest (some (going, r)) = rest r
  round_then rest (some (ended o, r)) = some (ended o, r)

  -- The session after at most `rounds` of the loop, going or ended; none only when an installation's
  -- fuel is used up.
  unfoldable pub rounds_from : ℕ → ℕ → Run Val W → Option (Flow × Run Val W)
  unfolding round_then round
  rounds_from zero fuel r = some (going, r)
  rounds_from (suc rounds) fuel r = round_then (rounds_from rounds fuel) (round fuel r)

  is_validated : PendingVerify → Bool
  is_validated yes_pending = false
  is_validated no_pending = true

  new_link : Agent Val W → Link Val
  unfolding Link.new want_console
  new_link a = let l = Link.new config metadata in if is_some a.console then want_console l else l

  -- The times are read one after the other.
  unfoldable pub new_run : Agent Val W → Run Val W
  unfolding run_of
  new_run a =
      let (log_now, w) = platform.now_ms (session_of a).world in
      let (beat_now, w) = platform.now_ms w in
      let (started, w) = platform.now_ms w in
      let d = (at_world a w).device in
      run_of started (
        on_device a
          (record d { pump = record d.pump { last_heartbeat = beat_now; last_log = log_now } }))

  boot_report : W → BootReport × W
  unfolding is_validated
  boot_report w =
      let (pending, w) = platform.pending_verify w in
      let (reverted, w) = platform.auto_revert_detected w in
      (
        record {
          firmware_validated = is_validated pending;
          firmware_auto_revert_detected = reverted;
        },
        w,
      )

  joining : Agent Val W → Result (Unit {0}) × Session Val W
  unfolding new_link boot_report send_join
  joining a =
      let s = with_link (session_of a) (new_link a) in
      let (boot, w) = boot_report s.world in send_join js wire boot (record s { world = w })

  unfoldable pub after_joining :
      ℕ → ℕ → Agent Val W → Result (Unit {0}) × Session Val W → Option (Flow × Run Val W)
  unfolding run_of new_run rounds_from
  after_joining rounds fuel a (ok u, s) = rounds_from rounds fuel (new_run (at_session a s))
  after_joining rounds fuel a (err error, s) = some (ended (err error), run_of 0 (at_session a s))

  unfoldable pub session_within : ℕ → ℕ → Agent Val W → Option (Flow × Run Val W)
  unfolding after_joining joining
  session_within rounds fuel a = after_joining rounds fuel a (joining a)
