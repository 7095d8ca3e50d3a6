-- ===== src/Agent/Sessions/Rounds/Held.antt =====
-- The rounds of a session of src/agent.rs keep its invariant, from its join to its end.
use nerves_hub_link_esp.Base.{
  ℕ, zero, suc, Bool, true, false, ◌≡◌, refl, ap, Option, none, some, [], ◌∷◌, ◌||◌, arith, subst,
  format,
}
use nerves_hub_link_esp.Agent.Sessions.{
  Stopped, rebooting, finished, Run, Flow, going, ended, link_of, run_world, with_agent, in_session,
  in_world, answer_extension, Env, asked, windowed,
}
use nerves_hub_link_esp.Agent.Sessions.Held.{
  Held, HeldEnd, FlowHeld, restarts_by, Held-end, Held-in, ConfirmedWell-in, sending-Held,
}
use nerves_hub_link_esp.Agent.Sessions.Rounds.{
  restart_now, rebooted, typed_on, identified, fresh_reader, wants_health, updated, act, handled,
  received, receive_after, round, round_then, rounds_from, run_of, new_run, joining, new_link,
  boot_report, after_joining, session_within,
}
use nerves_hub_link_esp.Agent.Sessions.Tending.Held.{tend-Held, answer_extension-SameJoin}
use nerves_hub_link_esp.Agent.Terminal.{Agent, session_of, at_session}
use nerves_hub_link_esp.Agent.Terminal.Quiet.{SameAnswer, answer_console-SameAnswer}
use nerves_hub_link_esp.Agent.Updates.{Device, apply}
use nerves_hub_link_esp.Agent.Updates.Quiet.{SameDevice, SameUpdate, apply-SameUpdate}
use nerves_hub_link_esp.Error.{Result, ok, err}
use nerves_hub_link_esp.Frame.{Frame}
use nerves_hub_link_esp.Json.{Json}
use nerves_hub_link_esp.Link.{
  Action, extension, no_action, apply_update, reboot, identify, console, console_restart, reconnect,
  Session, send_console, with_link,
}
use nerves_hub_link_esp.Link.Changes.{move-Moved}
use nerves_hub_link_esp.Link.Handling.{handle, prompt}
use nerves_hub_link_esp.Link.Joining.{Moved-IsAccepted, later, hear}
use nerves_hub_link_esp.Link.Moves.{move, receive}
use nerves_hub_link_esp.Link.Quiet.{
  SameJoin, SameJoin-refl, Sends-SameJoin, receive-join_ref, send_join-joined,
}
use nerves_hub_link_esp.Link.Sends.{send_rebooting-Sends, send_console-Sends}

module _ {Val W : Type 0} (js : Json Val) where
  -- A device of the same join, put in a run.
  device-Held :
      (n : ℕ) (r : Run Val W) (a : Agent Val W)
      → SameDevice (link_of r) n a.device
      → Held js n r
      → Held js n (with_agent r a)
  device-Held n r a k h = record {
    restarted = k.count;
    accepted = (Held-in js n r (session_of a) k.link h).accepted;
    not_yet = h.not_yet;
    timed = h.timed;
    well = ConfirmedWell-in js k.link h.well;
  }

  identified-Held :
      (n : ℕ) (identify : Option (W → W)) (r : Run Val W)
      → Held js n r
      → Held js n (identified identify r)
  unfolding identified
  identified-Held n none r h = h
  identified-Held n (some show) r h = h

module _ {Val W : Type 0} (js : Json Val) (ask win : Bool) where
  abbrev pub OptionHeld : ℕ → Option (Flow × Run Val W) → Type 0
  OptionHeld n none = Unit {0}
  OptionHeld n (some x) = FlowHeld js ask win n x

  device-HeldEnd :
      (n : ℕ) (o : Result (Option Stopped)) (r : Run Val W) (a : Agent Val W)
      → SameDevice (link_of r) (restarts_by o n) a.device
      → (o ≡ ok (some finished) → ⊥)
      → Held js n r
      → HeldEnd js ask win n o (with_agent r a)
  device-HeldEnd n o r a k other h = record {
    restarted = k.count;
    well = ConfirmedWell-in js k.link h.well;
    after_all = λ f. absurd (other f);
  }

  rebooted-Held :
      (restart : W → W) (n : ℕ) (r : Run Val W) (x : Result (Unit {0}) × Session Val W)
      → SameJoin (link_of r) x.1.link
      → Held js n r
      → FlowHeld js ask win n (rebooted restart r x)
  unfolding rebooted restart_now
  rebooted-Held restart n r (ok u, s) k h = record {
    restarted = ap suc h.restarted;
    well = ConfirmedWell-in js k h.well;
    after_all = λ f. absurd cc;
  }
  rebooted-Held restart n r (err e, s) k h =
      Held-end js ask win n (in_session r s) (err e) refl (λ f. absurd cc) (Held-in js n r s k h)

  typed_on-Held :
      (n : ℕ) (r : Run Val W) (x : Result Bool × Agent Val W)
      → SameAnswer (link_of r) n x
      → Held js n r
      → FlowHeld js ask win n (typed_on r x)
  unfolding typed_on
  typed_on-Held n r (ok true, a) k h =
      device-HeldEnd n (ok (some rebooting)) r a k.device (λ f. cc) h
  typed_on-Held n r (ok false, a) k h = device-Held js n r a k.device h
  typed_on-Held n r (err e, a) k h = device-HeldEnd n (err e) r a k.device (λ f. cc) h

module _ {Val F S W : Type 0} (e : Env Val F S W) where
  open e use {js, float, wire, handler, allocator, platform, names, digest, http, sink, providers}

  updated-Held :
      (n : ℕ) (r : Run Val W) (o : Option (Result Bool × Device Val W))
      → SameUpdate (link_of r) n o
      → Held js n r
      → OptionHeld js (asked e) (windowed e) n (updated e r o)
  unfolding updated
  updated-Held n r none k h = tt
  updated-Held n r (some (ok true, d)) k h =
      device-HeldEnd js (asked e) (windowed e) n (ok (some rebooting)) r
        (record r.agent { device = d }) k (λ f. cc) h
  updated-Held n r (some (ok false, d)) k h = device-Held js n r (record r.agent { device = d }) k h
  updated-Held n r (some (err error, d)) k h =
      device-HeldEnd js (asked e) (windowed e) n (err error) r (record r.agent { device = d }) k
        (λ f. cc) h

  act-Held :
      (n fuel : ℕ) (action : Action Val) (r : Run Val W)
      → Held js n r
      → OptionHeld js (asked e) (windowed e) n (act e fuel action r)
  unfolding act
  act-Held n fuel (apply_update update) r h =
      updated-Held n r _
        (subst
          (λ m.
            SameUpdate (link_of r) m (
              apply js wire handler allocator platform digest http sink fuel update r.agent.device))
          h.restarted
          (apply-SameUpdate js wire handler allocator platform digest http sink fuel update
            r.agent.device))
        h
  act-Held n fuel reboot r h =
      rebooted-Held js (asked e) (windowed e) platform.restart n r _
        (Sends-SameJoin (send_rebooting-Sends js wire (session_of r.agent))) h
  act-Held n fuel identify r h = identified-Held js n providers.on_identify r h
  act-Held n fuel (console typed) r h =
      typed_on-Held js (asked e) (windowed e) n r _
        (answer_console-SameAnswer js wire platform names typed r.agent (link_of r) n
          (record { link = SameJoin-refl _; count = h.restarted }))
        h
  act-Held n fuel console_restart r h =
      let q = with_agent r (record r.agent { console = fresh_reader r.agent.console }) in
      let text = format ("\r\n" ∷ prompt ∷ []) in
      sending-Held js (asked e) (windowed e) n q (send_console js wire text (session_of q.agent))
        (λ q. q) (Sends-SameJoin (send_console-Sends js wire text (session_of q.agent))) h
        (λ q k. k)
  act-Held n fuel reconnect r h =
      Held-end js (asked e) (windowed e) n r (ok none) refl (λ f. absurd cc) h
  act-Held n fuel (extension needs) r h =
      let q : Run Val W = record r { health_answered = wants_health needs || r.health_answered } in
      sending-Held js (asked e) (windowed e) n q
        (answer_extension js float wire providers needs (session_of r.agent)) (λ q. q)
        (answer_extension-SameJoin js float wire providers needs (session_of r.agent)) h (λ q k. k)
  act-Held n fuel no_action r h = h

  handled-Held :
      (n fuel : ℕ) (r : Run Val W) (x : Result (Action Val) × Session Val W)
      → Held js n (in_session r x.1)
      → OptionHeld js (asked e) (windowed e) n (handled e fuel r x)
  unfolding handled
  handled-Held n fuel r (ok action, s) h = act-Held n fuel action (in_session r s) h
  handled-Held n fuel r (err error, s) h =
      Held-end js (asked e) (windowed e) n (in_session r s) (ok none) refl (λ f. absurd cc) h

  -- A frame more is heard.
  heard-Held :
      (n : ℕ) (r : Run Val W) (f : Frame)
      → Held js n r
      → Held js n (record (in_session r (handle js wire handler f (session_of r.agent)).1) {
        heard = f ∷ r.heard;
      })
  heard-Held n r f h =
      unfold move hear in
      let moved = move-Moved js wire handler (receive f) (session_of r.agent) in
      let same = receive-join_ref js wire handler f (session_of r.agent) in
      record {
        restarted = h.restarted;
        accepted = λ j. Moved-IsAccepted js moved h.accepted j;
        not_yet = h.not_yet;
        timed = h.timed;
        well = record {
          once = h.well.once;
          after_join = λ c. later js same (h.well.after_join c);
          joined_too = h.well.joined_too;
        };
      }

  received-Held :
      (n fuel : ℕ) (r : Run Val W) (x : Result (Option Frame) × W)
      → Held js n r
      → OptionHeld js (asked e) (windowed e) n (received e fuel r x)
  unfolding received
  received-Held n fuel r (ok (some frame), w) h =
      let q : Run Val W = record (in_world r w) { heard = frame ∷ r.heard } in
      handled-Held n fuel q (handle js wire handler frame (session_of q.agent))
        (heard-Held n (in_world r w) frame h)
  received-Held n fuel r (ok none, w) h = h
  received-Held n fuel r (err error, w) h =
      Held-end js (asked e) (windowed e) n (in_world r w) (ok none) refl (λ f. absurd cc) h

  receive_after-Held :
      (n fuel : ℕ) (x : Flow × Run Val W)
      → FlowHeld js (asked e) (windowed e) n x
      → OptionHeld js (asked e) (windowed e) n (receive_after e fuel x)
  unfolding receive_after
  receive_after-Held n fuel (going, r) h = received-Held n fuel r (wire.recv_frame (run_world r)) h
  receive_after-Held n fuel (ended o, r) h = h

  round_then-Held :
      (n : ℕ) (rest : Run Val W → Option (Flow × Run Val W)) (x : Option (Flow × Run Val W))
      → OptionHeld js (asked e) (windowed e) n x
      → ((r : Run Val W) → Held js n r → OptionHeld js (asked e) (windowed e) n (rest r))
      → OptionHeld js (asked e) (windowed e) n (round_then e rest x)
  unfolding round_then
  round_then-Held n rest none h k = tt
  round_then-Held n rest (some (going, r)) h k = k r h
  round_then-Held n rest (some (ended o, r)) h k = h

  rounds_from-Held :
      (rounds n fuel : ℕ) (r : Run Val W)
      → Held js n r
      → OptionHeld js (asked e) (windowed e) n (rounds_from e rounds fuel r)
  unfolding rounds_from round
  rounds_from-Held zero n fuel r h = h
  rounds_from-Held (suc rounds) n fuel r h =
      round_then-Held n (rounds_from e rounds fuel) _
        (receive_after-Held n fuel _ (tend-Held e n r h)) (rounds_from-Held rounds n fuel)

  -- At its start, a session that has sent its join.
  new_run-Held :
      (a : Agent Val W) (s : Session Val W)
      → s.link.joined ≡ false
      → Held js a.device.restarts (new_run e (at_session a s))
  unfolding new_run run_of
  new_run-Held a s j = record {
    restarted = refl;
    accepted = λ y. absurd cc;
    not_yet = λ _. refl;
    timed = λ y. absurd cc;
    well = record {
      once = omega arith;
      after_join = λ c. absurd (omega arith);
      joined_too = λ y. absurd cc;
    };
  }

  after_joining-Held :
      (rounds fuel : ℕ) (a : Agent Val W) (x : Result (Unit {0}) × Session Val W)
      → x.1.link.joined ≡ false
      → OptionHeld js (asked e) (windowed e) a.device.restarts (after_joining e rounds fuel a x)
  unfolding after_joining
  after_joining-Held rounds fuel a (ok u, s) j =
      rounds_from-Held rounds a.device.restarts fuel _ (new_run-Held a s j)
  after_joining-Held rounds fuel a (err error, s) j =
      unfold run_of in
      record {
        restarted = refl;
        after_all = λ f. absurd cc;
        well = record {
          once = omega arith;
          after_join = λ c. absurd (omega arith);
          joined_too = λ y. absurd cc;
        };
      }

  pub session_within-Held :
      (rounds fuel : ℕ) (a : Agent Val W)
      → OptionHeld js (asked e) (windowed e) a.device.restarts (session_within e rounds fuel a)
  unfolding session_within joining
  session_within-Held rounds fuel a =
      let s = with_link (session_of a) (new_link e a) in
      let (boot, w) = boot_report e s.world in
      after_joining-Held rounds fuel a _
        (send_join-joined js wire handler boot (record s { world = w }))
