-- ===== src/Agent/Sessions/Tending/Held.antt =====
-- What a session of src/agent.rs does between frames keeps its invariant.
use nerves_hub_link_esp.Base.{
  ℕ, suc, ◌-◌, Bool, true, false, not, ◌&&◌, ◌||◌, ◌≡◌, refl, ap, Option, none, some, List, [], ◌∷◌,
  arith, leb, if_intro, and_true, is_some,
}
use nerves_hub_link_esp.Agent.{with_world, beaten, confirm_running_image, Pump}
use nerves_hub_link_esp.Agent.Quiet.{
  pump_link, beaten-SameJoin, send_logs-SameJoin, confirm_running_image-SameJoin,
}
use nerves_hub_link_esp.Agent.Sessions.{
  finished, Control, stay, report_health, leave, SessionWindow, Run, Flow, link_of, run_world,
  in_world, with_pump, sending, pumping, is_past, wanted, health_attached, answer_extension,
  answer_need, resolve, nothing_outstanding, Env, Providers, asked, windowed,
}
use nerves_hub_link_esp.Agent.Sessions.Held.{
  Held, FlowHeld, Held-end, Held-in, and_part-Held, sending-Held,
}
use nerves_hub_link_esp.Agent.Sessions.Tending.{
  confirm_now, confirm_part, invitation_overdue, join_extensions, extensions_part, console_part,
  heartbeat_ms, no_reply, heartbeat_part, logs_part, obey, control_part, window_part, join_parts,
  timed_parts, tend,
}
use nerves_hub_link_esp.Agent.Terminal.{session_of}
use nerves_hub_link_esp.Error.{Result, ok, err}
use nerves_hub_link_esp.Extensions.{Outgoing, need_health}
use nerves_hub_link_esp.Json.{Json}
use nerves_hub_link_esp.Link.{
  Transport, Session, heartbeat_unanswered, send_heartbeat, send_console_join, send_extensions_join,
}
use nerves_hub_link_esp.Link.Joining.{IsAccepted, at_same}
use nerves_hub_link_esp.Link.Quiet.{
  SameJoin, Sends-SameJoin, send_heartbeat-SameJoin, send_console_join-SameJoin,
  send_extensions_join-SameJoin,
}
use nerves_hub_link_esp.Link.Sends.{Sends, Sends-refl, and_then-Sends, send_extension-Sends}

module _ {Val F W : Type 0} (js : Json Val) (float : F → Val) (t : Transport W)
    (ps : Providers F W) where
  answer_need-Sends :
      (need : Outgoing Val) (s : Session Val W) → Sends s (answer_need js float t ps need s).1
  unfolding answer_need
  answer_need-Sends need s =
      let (answer, w) = resolve js float t ps need s.world in
      let k = send_extension-Sends js t answer (with_world s w) in
      record { kept = k.kept; frames = k.frames; appended = k.appended; in_kind = k.in_kind }

  answer_extension-Sends :
      (needs : List (Outgoing Val)) (s : Session Val W)
      → Sends s (answer_extension js float t ps needs s).1
  unfolding answer_extension
  answer_extension-Sends [] s = Sends-refl s
  answer_extension-Sends (need ∷ needs) s =
      and_then-Sends _ _ (answer_need-Sends need s) (λ _ s'. answer_extension-Sends needs s')

  pub answer_extension-SameJoin :
      (needs : List (Outgoing Val)) (s : Session Val W)
      → SameJoin s.link (answer_extension js float t ps needs s).1.link
  answer_extension-SameJoin needs s = Sends-SameJoin (answer_extension-Sends needs s)

past-is_some : (at : Option ℕ) (now ms : ℕ) → is_past at now ms ≡ true → is_some at ≡ true
past-is_some none now ms h = absurd cc
past-is_some (some t) now ms h = refl

module _ {Val F S W : Type 0} (e : Env Val F S W) where
  open e use {js, float, wire, handler, allocator, platform, names, digest, http, sink, providers}

  abbrev FlowOk : ℕ → Flow × Run Val W → Type 0
  FlowOk = FlowHeld js (asked e) (windowed e)

  -- The answer to the confirmation, which is the first.
  sending-Confirmed :
      (n : ℕ) (r : Run Val W) (x : Result (Unit {0}) × Session Val W)
      → SameJoin (link_of r) x.1.link
      → r.agent.device.restarts ≡ n
      → IsAccepted js (link_of r) r.heard
      → r.confirmations ≡ 1
      → FlowOk n (sending r x (λ r. record r { confirmed = true }))
  unfolding sending
  sending-Confirmed n r (ok u, s) k c a one = record {
    restarted = c;
    accepted = λ _. at_same js k.same_ref a;
    not_yet = λ f. absurd cc;
    timed = λ _. omega (arith, one);
    well = record {
      once = omega (arith, one);
      after_join = λ _. at_same js k.same_ref a;
      joined_too = λ _. omega (arith, one);
    };
  }
  sending-Confirmed n r (err error, s) k c a one = record {
    restarted = c;
    after_all = λ f. absurd cc;
    well = record {
      once = omega (arith, one);
      after_join = λ _. at_same js k.same_ref a;
      joined_too = λ _. omega (arith, one);
    };
  }

  -- Confirmed now, and never before.
  confirm_now-Held :
      (n : ℕ) (r : Run Val W)
      → (link_of r).joined ≡ true
      → r.confirmed ≡ false
      → Held js n r
      → FlowOk n (confirm_now e r)
  unfolding confirm_now
  confirm_now-Held n r j u h =
      let (now, w) = platform.now_ms (run_world r) in
      let q : Run Val W = record (in_world r w) {
        joined = true;
        joined_at = some now;
        confirmations = suc r.confirmations;
      } in
      sending-Confirmed n q (confirm_running_image js wire allocator platform (session_of q.agent))
        (confirm_running_image-SameJoin js wire handler allocator platform (session_of q.agent))
        h.restarted (h.accepted j) (ap suc (h.not_yet u))

  confirm_part-Held : (n : ℕ) (r : Run Val W) → Held js n r → FlowOk n (confirm_part e r)
  unfolding confirm_part
  confirm_part-Held n r h =
      if_intro (FlowOk n) ((link_of r).joined && not r.confirmed) _ _
        (λ both. let (j, u) = and_true _ _ both in confirm_now-Held n r j (ground arith) h) (λ _. h)

  join_extensions-Held :
      (n : ℕ) (overdue : Bool) (r : Run Val W)
      → Held js n r
      → FlowOk n (join_extensions e overdue r)
  unfolding join_extensions
  join_extensions-Held n overdue r h =
      let l = link_of r in
      if_intro (FlowOk n)
        (((l.joined && wanted l) && not r.extensions_joined) && (l.extensions.invited || overdue)) _
        _
        (λ _.
          sending-Held js (asked e) (windowed e) n r
            (send_extensions_join js wire (session_of r.agent)) _
            (send_extensions_join-SameJoin js wire handler (session_of r.agent)) h (λ q k. k))
        (λ _. h)

  extensions_part-Held : (n : ℕ) (r : Run Val W) → Held js n r → FlowOk n (extensions_part e r)
  unfolding extensions_part
  extensions_part-Held n r h =
      let (overdue, w) = invitation_overdue e r.joined_at (run_world r) in
      join_extensions-Held n overdue (in_world r w) h

  console_part-Held : (n : ℕ) (r : Run Val W) → Held js n r → FlowOk n (console_part e r)
  unfolding console_part
  console_part-Held n r h =
      let l = link_of r in
      if_intro (FlowOk n) ((l.joined && l.console_wanted) && not r.console_joined) _ _
        (λ _.
          sending-Held js (asked e) (windowed e) n r
            (send_console_join js wire (session_of r.agent)) _
            (send_console_join-SameJoin js wire handler (session_of r.agent)) h (λ q k. k))
        (λ _. h)

  pumping-Held :
      (n : ℕ) (r : Run Val W) (x : Result (Unit {0}) × Pump Val W)
      → SameJoin (link_of r) (pump_link x.1)
      → Held js n r
      → FlowOk n (pumping r x)
  unfolding pumping
  pumping-Held n r (ok u, p) k h = Held-in js n r p.session k h
  pumping-Held n r (err error, p) k h =
      Held-end js (asked e) (windowed e) n (with_pump r p) (err error) refl (λ f. absurd cc)
        (Held-in js n r p.session k h)

  heartbeat_part-Held :
      (n now : ℕ) (r : Run Val W) → Held js n r → FlowOk n (heartbeat_part e now r)
  unfolding heartbeat_part
  heartbeat_part-Held n now r h =
      let p = r.agent.device.pump in
      if_intro (FlowOk n) (leb (heartbeat_ms e r) (now - p.last_heartbeat)) _ _
        (λ _.
          if_intro (FlowOk n) (heartbeat_unanswered (link_of r)) _ _
            (λ _.
              Held-end js (asked e) (windowed e) n r (err (no_reply e r)) refl (λ f. absurd cc) h)
            (λ _.
              pumping-Held n r (beaten now p (send_heartbeat js wire p.session))
                (beaten-SameJoin _ now p (send_heartbeat js wire p.session)
                  (send_heartbeat-SameJoin js wire handler p.session))
                h))
        (λ _. h)

  logs_part-Held : (n now : ℕ) (r : Run Val W) → Held js n r → FlowOk n (logs_part e now r)
  unfolding logs_part
  logs_part-Held n now r h =
      pumping-Held n r _
        (send_logs-SameJoin js wire handler allocator platform now r.agent.device.pump) h

  obey-Held :
      (n : ℕ) (wish : Control) (r : Run Val W)
      → asked e ≡ true
      → Held js n r
      → FlowOk n (obey e wish r)
  unfolding obey
  obey-Held n stay r y h = h
  obey-Held n report_health r y h =
      if_intro (FlowOk n) (health_attached (link_of r)) _ _
        (λ _.
          sending-Held js (asked e) (windowed e) n r
            (answer_extension js float wire providers (need_health ∷ []) (session_of r.agent)) _
            (answer_extension-SameJoin js float wire providers (need_health ∷ [])
              (session_of r.agent))
            h (λ q k. k))
        (λ _. h)
  obey-Held n leave r y h =
      Held-end js (asked e) (windowed e) n r (ok (some finished)) refl (λ _ u. absurd cc) h

  control_part-Held :
      (n : ℕ) (control : Option (W → Control × W)) (r : Run Val W)
      → asked e ≡ is_some control
      → Held js n r
      → FlowOk n (control_part e control r)
  unfolding control_part
  control_part-Held n none r y h = h
  control_part-Held n (some control) r y h =
      let (wish, w) = control (run_world r) in obey-Held n wish (in_world r w) y h

  window_part-Held :
      (n : ℕ) (window : Option SessionWindow) (now : ℕ) (r : Run Val W)
      → windowed e ≡ is_some window
      → Held js n r
      → FlowOk n (window_part e window now r)
  unfolding window_part
  window_part-Held n none now r y h = h
  window_part-Held n (some window) now r y h =
      if_intro (FlowOk n) (leb window.limit_ms (now - r.started)) _ _
        (λ _.
          if_intro (FlowOk n) (not (link_of r).joined) _ _
            (λ _. Held-end js (asked e) (windowed e) n r (err _) refl (λ f. absurd cc) h)
            (λ j.
              Held-end js (asked e) (windowed e) n r (ok (some finished)) refl
                (λ _ _. (y, h.accepted (ground (arith, j)))) h))
        (λ _.
          if_intro (FlowOk n)
            (is_past r.joined_at now window.linger_ms
              && nothing_outstanding js float wire providers r)
            _ _
            (λ both.
              Held-end js (asked e) (windowed e) n r (ok (some finished)) refl
                (λ _ _. (
                  y,
                  h.well.after_join (
                      h.timed
                        (past-is_some r.joined_at now window.linger_ms (and_true _ _ both).0)),
                ))
                h)
            (λ _. h))

  join_parts-Held : (n : ℕ) (r : Run Val W) → Held js n r → FlowOk n (join_parts e r)
  unfolding join_parts
  join_parts-Held n r h =
      and_part-Held js (asked e) (windowed e) n _ (console_part e)
        (and_part-Held js (asked e) (windowed e) n _ (extensions_part e) (confirm_part-Held n r h)
          (extensions_part-Held n))
        (console_part-Held n)

  timed_parts-Held : (n now : ℕ) (r : Run Val W) → Held js n r → FlowOk n (timed_parts e now r)
  unfolding timed_parts
  timed_parts-Held n now r h =
      and_part-Held js (asked e) (windowed e) n _ (window_part e providers.window now)
        (and_part-Held js (asked e) (windowed e) n _ (control_part e providers.control)
          (and_part-Held js (asked e) (windowed e) n _ (logs_part e now)
            (heartbeat_part-Held n now r h) (logs_part-Held n now))
          (λ q k. control_part-Held n providers.control q refl k))
        (λ q k. window_part-Held n providers.window now q refl k)

  pub tend-Held :
      (n : ℕ) (r : Run Val W) → Held js n r → FlowHeld js (asked e) (windowed e) n (tend e r)
  unfolding tend
  tend-Held n r h =
      and_part-Held js (asked e) (windowed e) n (join_parts e r) _ (join_parts-Held n r h) (λ q k.
        let (now, w) = platform.now_ms (run_world q) in timed_parts-Held n now (in_world q w) k)
