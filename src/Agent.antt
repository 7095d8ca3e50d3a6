-- ===== src/Agent.antt =====
-- src/agent.rs: the log sent at a pace, the keepalive during an installation, and the confirmation of
-- the running image. The platform is a parameter, as the transport is.
pub mod Pace
pub mod Waits
pub mod Updates
pub mod Commands
pub mod Terminal
pub mod Sessions
pub mod Quiet
pub mod Reconnects
mod Examples
use nerves_hub_link_esp.Base.{
  ℕ, zero, suc, ◌+◌, ◌-◌, ◌*◌, min, Bool, true, false, not, ◌&&◌, ◌||◌, Option, none, some, List,
  [], ◌∷◌, ◌++◌, leb, ltb, is_some, if◌then◌else◌,
}
use nerves_hub_link_esp.Error.{Error, Result, ok, err}
use nerves_hub_link_esp.Extensions
use nerves_hub_link_esp.Extensions.{is_attached, logging_batched, any_enabled}
use nerves_hub_link_esp.Json.{Json}
use nerves_hub_link_esp.Link
use nerves_hub_link_esp.Link.{
  Transport, UpdateHandler, Link, Session, logging_attached, send_heartbeat, send_progress,
  send_firmware_validated,
}
use nerves_hub_link_esp.Logging.{LogBuffer, take_stamped}
use nerves_hub_link_esp.Logging.Lines.{LogLine, Allocator}
use nerves_hub_link_esp.Update.{Stage}

abbrev pub log_send_interval_ms : ℕ
log_send_interval_ms = 250

abbrev pub log_batch_interval_ms : ℕ
log_batch_interval_ms = 1000

abbrev pub log_batch_max_lines : ℕ
log_batch_max_lines = 100

abbrev pub log_batch_max_bytes : ℕ
log_batch_max_bytes = 3000

pub data PendingVerify : Type 0 where
  yes_pending no_pending : PendingVerify

-- The calls of `Platform`, where a transport, a client and a sink are the ones given beside it; and, of
-- the system, its clock, which `unix_micros` reads, and what other tasks do to the log buffer `meanwhile`.
pub record Platform (W : Type 0) : Type 0 where
  pub now_ms : W → ℕ × W
  pub sleep_ms : ℕ → W → W
  pub restart : W → W
  pub start_http : W → Result (Unit {0}) × W
  pub begin_update : W → Result (Unit {0}) × W
  pub connect : W → Result (Unit {0}) × W
  pub pending_verify : W → PendingVerify × W
  pub auto_revert_detected : W → Bool × W
  pub mark_valid : W → Result (Unit {0}) × W
  pub unix_micros : W → Option ℕ × W
  pub meanwhile : LogBuffer → LogBuffer

-- The link and the transport are the session; the log buffer is the agent's, if it has one.
pub record Pump (Val W : Type 0) : Type 0 where
  pub session : Session Val W
  pub logs : Option LogBuffer
  pub last_heartbeat : ℕ
  pub last_log : ℕ

abbrev pub with_world : {Val W : Type 0} → Session Val W → W → Session Val W
with_world s w = record s { world = w }

-- The time between messages and the most lines of one, by whether lines go as batches.
unfoldable pub pace_of : Bool → ℕ × ℕ
pace_of true = (log_batch_interval_ms, log_batch_max_lines)
pace_of false = (log_send_interval_ms, 1)

module _ {Val W : Type 0} where
  unfoldable pub and_next :
      Result (Unit {0}) × Pump Val W
      → (Pump Val W → Result (Unit {0}) × Pump Val W)
      → Result (Unit {0}) × Pump Val W
  and_next (ok a, p) f = f p
  and_next (err e, p) f = (err e, p)

  -- What follows a call of the link's: the time is noted if it went well.
  noted : ℕ → Pump Val W → Result (Unit {0}) × Session Val W → Result (Unit {0}) × Pump Val W
  noted now p (ok a, s) = (ok tt, record p { session = s; last_log = now })
  noted now p (err e, s) = (err e, record p { session = s })

  unfoldable pub beaten :
      ℕ → Pump Val W → Result (Unit {0}) × Session Val W → Result (Unit {0}) × Pump Val W
  beaten now p (ok a, s) = (ok tt, record p { session = s; last_heartbeat = now })
  beaten now p (err e, s) = (err e, record p { session = s })

module _ {Val W : Type 0} (js : Json Val) (t : Transport W) (a : Allocator) (pf : Platform W) where
  unfoldable pub pace : Link Val → ℕ × ℕ
  unfolding logging_batched pace_of
  pace l = pace_of (logging_batched js l.extensions)

  -- Lines that were taken, if there are any.
  send_taken : ℕ → List LogLine → Pump Val W → Result (Unit {0}) × Pump Val W
  unfolding noted
  send_taken now [] p = (ok tt, p)
  send_taken now (line ∷ lines) p = noted now p (Link.send_logs js t (line ∷ lines) p.session)

  send_due : ℕ → ℕ → LogBuffer → Pump Val W → Result (Unit {0}) × Pump Val W
  unfolding send_taken take_stamped
  send_due now max_lines b p =
      let (micros, world) = pf.unix_micros p.session.world in
      let (b, lines) = take_stamped a pf.meanwhile b max_lines log_batch_max_bytes micros in
      send_taken now lines (record p { session = with_world p.session world; logs = some b })

  send_from : ℕ → Option LogBuffer → Pump Val W → Result (Unit {0}) × Pump Val W
  unfolding send_due pace logging_attached
  send_from now none p = (ok tt, p)
  send_from now (some b) p =
      if not (logging_attached p.session.link)
      then (ok tt, p)
      else if ltb (now - p.last_log) (pace p.session.link).0
      then (ok tt, p)
      else send_due now (pace p.session.link).1 b p

  unfoldable pub send_logs : ℕ → Pump Val W → Result (Unit {0}) × Pump Val W
  unfolding send_from
  send_logs now p = send_from now p.logs p

  beat : ℕ → ℕ → Pump Val W → Result (Unit {0}) × Pump Val W
  unfolding beaten send_heartbeat
  beat heartbeat_ms now p =
      if leb heartbeat_ms (now - p.last_heartbeat)
      then beaten now p (send_heartbeat js t p.session)
      else (ok tt, p)

  unfoldable pub tick : ℕ → Pump Val W → Result (Unit {0}) × Pump Val W
  unfolding beat send_logs and_next
  tick heartbeat_ms p =
      let (now, world) = pf.now_ms p.session.world in
      and_next (beat heartbeat_ms now (record p { session = with_world p.session world }))
        (send_logs now)

  -- After a tick: the time may have come, or some of it is slept and the loop goes on as `rest`.
  unfoldable pub wait_round :
      ℕ
      → (Pump Val W → Option (Result (Unit {0}) × Pump Val W))
      → Result (Unit {0}) × Pump Val W
      → Option (Result (Unit {0}) × Pump Val W)
  wait_round until rest (err e, p) = some (err e, p)
  wait_round until rest (ok u, p) = sleep_until (pf.now_ms p.session.world)
    where
      at_world : W → Pump Val W
      at_world world = record p { session = with_world p.session world }

      sleep_until : ℕ × W → Option (Result (Unit {0}) × Pump Val W)
      sleep_until (now, world) =
          if leb until now
          then some (ok tt, at_world world)
          else rest (at_world (pf.sleep_ms (min (until - now) 1000) world))

  -- The loop of `wait`: none only when the fuel is used up.
  unfoldable pub wait_from : ℕ → ℕ → ℕ → Pump Val W → Option (Result (Unit {0}) × Pump Val W)
  unfolding wait_round tick
  wait_from zero heartbeat_ms until p = none
  wait_from (suc fuel) heartbeat_ms until p =
      wait_round until (wait_from fuel heartbeat_ms until) (tick heartbeat_ms p)

  -- A round sleeps a millisecond at least, so there are at most as many as milliseconds to wait.
  unfoldable pub wait : ℕ → ℕ → Pump Val W → Option (Result (Unit {0}) × Pump Val W)
  unfolding wait_from
  wait heartbeat_ms duration_ms p =
      let (now, world) = pf.now_ms p.session.world in
      wait_from (suc duration_ms) heartbeat_ms (now + duration_ms)
        (record p { session = with_world p.session world })

  unfoldable pub report : UpdateHandler W → Stage → ℕ → Pump Val W → Result (Unit {0}) × Pump Val W
  unfolding send_progress
  report h stage percent p =
      let s = with_world p.session (h.progress stage percent p.session.world) in
      let (r, s) = send_progress js t stage percent s in (r, record p { session = s })

  report_validated : Session Val W → Result (Unit {0}) × W → Result (Unit {0}) × Session Val W
  unfolding send_firmware_validated
  report_validated s (ok u, world) = send_firmware_validated js t (with_world s world)
  report_validated s (err e, world) = (err e, with_world s world)

  confirm_with : PendingVerify → Session Val W → Result (Unit {0}) × Session Val W
  unfolding send_firmware_validated report_validated
  confirm_with yes_pending s = report_validated s (pf.mark_valid s.world)
  confirm_with no_pending s = send_firmware_validated js t s

  -- The rollback is cancelled only where one is pending; the report goes out either way.
  unfoldable pub confirm_running_image : Session Val W → Result (Unit {0}) × Session Val W
  unfolding confirm_with
  confirm_running_image s =
      let (pending, world) = pf.pending_verify s.world in confirm_with pending (with_world s world)
