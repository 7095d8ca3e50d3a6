-- ===== src/Agent/Sessions/Tending.antt =====
-- What a session does between frames, in src/agent.rs: the parts of the loop of `session_within`, in order.
pub mod Held
use nerves_hub_link_esp.Base.{
  ℕ, suc, ◌-◌, ◌*◌, ◌/◌, Bool, true, false, not, ◌&&◌, ◌||◌, Option, none, some, [], ◌∷◌, leb,
  format, to_string, if◌then◌else◌,
}
use nerves_hub_link_esp.Agent.{beaten, send_logs, confirm_running_image}
use nerves_hub_link_esp.Agent.Sessions.{
  extensions_invitation_wait_ms, finished, Control, stay, report_health, leave, SessionWindow, Run,
  Flow, going, ended, link_of, run_world, in_world, and_part, sending, pumping, is_past, wanted,
  health_attached, answer_extension, nothing_outstanding, Env,
}
use nerves_hub_link_esp.Agent.Terminal.{session_of}
use nerves_hub_link_esp.Error.{Error, ok, err, transport}
use nerves_hub_link_esp.Extensions.{need_health}
use nerves_hub_link_esp.Link.{
  heartbeat_unanswered, send_heartbeat, send_console_join, send_extensions_join,
}

module _ {Val F S W : Type 0} (e : Env Val F S W) where
  open e use {js, float, wire, handler, allocator, platform, names, digest, http, sink, providers}

  confirm_now : Run Val W → Flow × Run Val W
  unfolding sending confirm_running_image
  confirm_now r =
      let (now, w) = platform.now_ms (run_world r) in
      let r = record (in_world r w) {
        joined = true;
        joined_at = some now;
        confirmations = suc r.confirmations;
      } in
      sending r (confirm_running_image js wire allocator platform (session_of r.agent))
        (λ r. record r { confirmed = true })

  -- The running image is confirmed once the join is accepted.
  unfoldable pub confirm_part : Run Val W → Flow × Run Val W
  unfolding confirm_now
  confirm_part r = if (link_of r).joined && not r.confirmed then confirm_now r else (going, r)

  invitation_overdue : Option ℕ → W → Bool × W
  invitation_overdue none w = (false, w)
  invitation_overdue (some at) w =
      let (now, w) = platform.now_ms w in (leb extensions_invitation_wait_ms (now - at), w)

  join_extensions : Bool → Run Val W → Flow × Run Val W
  unfolding sending send_extensions_join wanted
  join_extensions overdue r =
      let l = link_of r in
      if ((l.joined && wanted l) && not r.extensions_joined) && (l.extensions.invited || overdue)
      then sending r (send_extensions_join js wire (session_of r.agent))
          (λ r. record r { extensions_joined = true })
      else (going, r)

  unfoldable pub extensions_part : Run Val W → Flow × Run Val W
  unfolding invitation_overdue join_extensions
  extensions_part r =
      let (overdue, w) = invitation_overdue r.joined_at (run_world r) in
      join_extensions overdue (in_world r w)

  unfoldable pub console_part : Run Val W → Flow × Run Val W
  unfolding sending send_console_join
  console_part r =
      let l = link_of r in
      if (l.joined && l.console_wanted) && not r.console_joined
      then sending r (send_console_join js wire (session_of r.agent))
          (λ r. record r { console_joined = true })
      else (going, r)

  heartbeat_ms : Run Val W → ℕ
  heartbeat_ms r = (link_of r).config.heartbeat_interval_secs * 1000

  no_reply : Run Val W → Error
  unfolding heartbeat_ms to_string
  no_reply r =
      transport
        (format ("no reply to a heartbeat in " ∷ to_string (heartbeat_ms r / 1000) ∷ "s" ∷ []))

  -- A heartbeat is due, and the last one must have been answered.
  unfoldable pub heartbeat_part : ℕ → Run Val W → Flow × Run Val W
  unfolding heartbeat_ms heartbeat_unanswered no_reply pumping beaten send_heartbeat
  heartbeat_part now r =
      let p = r.agent.device.pump in
      if leb (heartbeat_ms r) (now - p.last_heartbeat)
      then if heartbeat_unanswered (link_of r)
        then (ended (err (no_reply r)), r)
        else pumping r (beaten now p (send_heartbeat js wire p.session))
      else (going, r)

  unfoldable pub logs_part : ℕ → Run Val W → Flow × Run Val W
  unfolding pumping send_logs
  logs_part now r = pumping r (send_logs js wire allocator platform now r.agent.device.pump)

  unfoldable pub obey : Control → Run Val W → Flow × Run Val W
  unfolding sending answer_extension health_attached
  obey stay r = (going, r)
  obey report_health r =
      if health_attached (link_of r)
      then sending r
          (answer_extension js float wire providers (need_health ∷ []) (session_of r.agent))
          (λ r. r)
      else (going, r)
  obey leave r = (ended (ok (some finished)), r)

  control_part : Option (W → Control × W) → Run Val W → Flow × Run Val W
  unfolding obey
  control_part none r = (going, r)
  control_part (some control) r = let (wish, w) = control (run_world r) in obey wish (in_world r w)

  unfoldable pub window_part : Option SessionWindow → ℕ → Run Val W → Flow × Run Val W
  unfolding nothing_outstanding
  window_part none now r = (going, r)
  window_part (some window) now r =
      if leb window.limit_ms (now - r.started)
      then if not (link_of r).joined
        then (ended (err (transport "no join reply inside the session limit")), r)
        else (ended (ok (some finished)), r)
      else if is_past r.joined_at now window.linger_ms
          && nothing_outstanding js float wire providers r
      then (ended (ok (some finished)), r)
      else (going, r)

  -- What is done between frames, up to the time's being read.
  unfoldable pub join_parts : Run Val W → Flow × Run Val W
  unfolding and_part confirm_part extensions_part console_part
  join_parts r = and_part (and_part (confirm_part r) extensions_part) console_part

  unfoldable pub timed_parts : ℕ → Run Val W → Flow × Run Val W
  unfolding and_part heartbeat_part logs_part control_part window_part
  timed_parts now r =
      and_part
        (and_part (and_part (heartbeat_part now r) (logs_part now))
          (control_part providers.control))
        (window_part providers.window now)

  unfoldable pub tend : Run Val W → Flow × Run Val W
  unfolding and_part join_parts timed_parts
  tend r =
      and_part (join_parts r)
        λ r. let (now, w) = platform.now_ms (run_world r) in timed_parts now (in_world r w)
