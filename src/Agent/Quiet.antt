-- ===== src/Agent/Quiet.antt =====
-- What src/agent.rs does between joins leaves the join as it is: the keepalive, and the waits.
use nerves_hub_link_esp.Base.{
  ℕ, zero, suc, ◌+◌, ◌-◌, not, Option, none, some, List, [], ◌∷◌, leb, ltb, if_intro, unwrap_or,
}
use nerves_hub_link_esp.Agent.{
  Platform, Pump, with_world, and_next, noted, beaten, pace, send_taken, send_due, send_from,
  send_logs, beat, tick, wait_round, wait_from, wait, confirm_running_image, report_validated,
  confirm_with, yes_pending, no_pending, PendingVerify,
}
use nerves_hub_link_esp.Agent.Updates.{on_world}
use nerves_hub_link_esp.Error.{Result, ok, err}
use nerves_hub_link_esp.Json.{Json}
use nerves_hub_link_esp.Link
use nerves_hub_link_esp.Link.{
  Transport, UpdateHandler, Link, Session, logging_attached, send_heartbeat, send_status,
  set_downloading,
}
use nerves_hub_link_esp.Link.Quiet.{
  SameJoin, SameJoin-refl, SameJoin-trans, Sends-SameJoin, send_heartbeat-SameJoin,
}
use nerves_hub_link_esp.Link.Sends.{send_logs-Sends, send_firmware_validated-Sends}
use nerves_hub_link_esp.Logging.{LogBuffer}
use nerves_hub_link_esp.Logging.Lines.{LogLine, Allocator}

module _ {Val W : Type 0} where
  abbrev pub pump_link : Pump Val W → Link Val
  pump_link p = p.session.link

  and_next-SameJoin :
      (l : Link Val) (r : Result (Unit {0}) × Pump Val W)
      (f : Pump Val W → Result (Unit {0}) × Pump Val W)
      → SameJoin l (pump_link r.1)
      → ((p : Pump Val W) → SameJoin (pump_link p) (pump_link (f p).1))
      → SameJoin l (pump_link (and_next r f).1)
  unfolding and_next
  and_next-SameJoin l (ok u, p) f h k = SameJoin-trans h (k p)
  and_next-SameJoin l (err e, p) f h k = h

  noted-SameJoin :
      (l : Link Val) (now : ℕ) (p : Pump Val W) (r : Result (Unit {0}) × Session Val W)
      → SameJoin l r.1.link
      → SameJoin l (pump_link (noted now p r).1)
  unfolding noted
  noted-SameJoin l now p (ok u, s) h = h
  noted-SameJoin l now p (err e, s) h = h

  pub beaten-SameJoin :
      (l : Link Val) (now : ℕ) (p : Pump Val W) (r : Result (Unit {0}) × Session Val W)
      → SameJoin l r.1.link
      → SameJoin l (pump_link (beaten now p r).1)
  unfolding beaten
  beaten-SameJoin l now p (ok u, s) h = h
  beaten-SameJoin l now p (err e, s) h = h

module _ {Val W : Type 0} (js : Json Val) (t : Transport W) (h : UpdateHandler W) (a : Allocator)
    (pf : Platform W) where
  beat-SameJoin :
      (heartbeat_ms now : ℕ) (p : Pump Val W)
      → SameJoin (pump_link p) (pump_link (beat js t a pf heartbeat_ms now p).1)
  unfolding beat
  beat-SameJoin heartbeat_ms now p =
      if_intro {A = Result (Unit {0}) × Pump Val W} (λ r. SameJoin (pump_link p) (pump_link r.1))
        (leb heartbeat_ms (now - p.last_heartbeat)) _ _
        (λ _.
          beaten-SameJoin _ now p (send_heartbeat js t p.session)
            (send_heartbeat-SameJoin js t h p.session))
        (λ _. SameJoin-refl _)

  send_taken-SameJoin :
      (now : ℕ) (ls : List LogLine) (p : Pump Val W)
      → SameJoin (pump_link p) (pump_link (send_taken js t a pf now ls p).1)
  unfolding send_taken
  send_taken-SameJoin now [] p = SameJoin-refl _
  send_taken-SameJoin now (l ∷ ls) p =
      noted-SameJoin _ now p (Link.send_logs js t (l ∷ ls) p.session)
        (Sends-SameJoin (send_logs-Sends js t (l ∷ ls) p.session))

  send_from-SameJoin :
      (now : ℕ) (logs : Option LogBuffer) (p : Pump Val W)
      → SameJoin (pump_link p) (pump_link (send_from js t a pf now logs p).1)
  unfolding send_from send_due
  send_from-SameJoin now none p = SameJoin-refl _
  send_from-SameJoin now (some b) p =
      if_intro {A = Result (Unit {0}) × Pump Val W} (λ r. SameJoin (pump_link p) (pump_link r.1))
        (not (logging_attached p.session.link)) _ _ (λ _. SameJoin-refl _)
        (λ _.
          if_intro {A = Result (Unit {0}) × Pump Val W}
            (λ r. SameJoin (pump_link p) (pump_link r.1))
            (ltb (now - p.last_log) (pace js t a pf p.session.link).0) _ _ (λ _. SameJoin-refl _)
            (λ _. send_taken-SameJoin now _ _))

  pub send_logs-SameJoin :
      (now : ℕ) (p : Pump Val W) → SameJoin (pump_link p) (pump_link (send_logs js t a pf now p).1)
  unfolding send_logs
  send_logs-SameJoin now p = send_from-SameJoin now p.logs p

  pub tick-SameJoin :
      (heartbeat_ms : ℕ) (p : Pump Val W)
      → SameJoin (pump_link p) (pump_link (tick js t a pf heartbeat_ms p).1)
  unfolding tick
  tick-SameJoin heartbeat_ms p =
      let (now, world) = pf.now_ms p.session.world in
      let q : Pump Val W = on_world p world in
      and_next-SameJoin _ (beat js t a pf heartbeat_ms now q) (send_logs js t a pf now)
        (beat-SameJoin heartbeat_ms now q) (send_logs-SameJoin now)

  -- Wherever a wait ends.
  abbrev pub Waited : Link Val → Option (Result (Unit {0}) × Pump Val W) → Type 0
  Waited l none = Unit {0}
  Waited l (some (r, p)) = SameJoin l (pump_link p)

  wait_round-Waited :
      (l : Link Val) (until : ℕ) (rest : Pump Val W → Option (Result (Unit {0}) × Pump Val W))
      (r : Result (Unit {0}) × Pump Val W)
      → SameJoin l (pump_link r.1)
      → ((p : Pump Val W) → SameJoin l (pump_link p) → Waited l (rest p))
      → Waited l (wait_round js t a pf until rest r)
  unfolding wait_round
  wait_round-Waited l until rest (err e, p) k ih = k
  wait_round-Waited l until rest (ok u, p) k ih =
      if_intro (Waited l) (leb until (pf.now_ms p.session.world).0) _ _ (λ _. k) (λ _. ih _ k)

  wait_from-Waited :
      (fuel heartbeat_ms until : ℕ) (l : Link Val) (p : Pump Val W)
      → SameJoin l (pump_link p)
      → Waited l (wait_from js t a pf fuel heartbeat_ms until p)
  unfolding wait_from
  wait_from-Waited zero heartbeat_ms until l p k = tt
  wait_from-Waited (suc fuel) heartbeat_ms until l p k =
      wait_round-Waited l until (wait_from js t a pf fuel heartbeat_ms until) _
        (SameJoin-trans k (tick-SameJoin heartbeat_ms p))
        (λ q k'. wait_from-Waited fuel heartbeat_ms until l q k')

  unwrap-Waited :
      (l : Link Val) (p : Pump Val W) (o : Option (Result (Unit {0}) × Pump Val W))
      → SameJoin l (pump_link p)
      → Waited l o
      → SameJoin l (pump_link (unwrap_or o (ok tt, p)).1)
  unwrap-Waited l p none k w = k
  unwrap-Waited l p (some (r, q)) k w = w

  pub wait-SameJoin :
      (heartbeat_ms duration_ms : ℕ) (l : Link Val) (p : Pump Val W)
      → SameJoin l (pump_link p)
      → SameJoin l (pump_link (unwrap_or (wait js t a pf heartbeat_ms duration_ms p) (ok tt, p)).1)
  unfolding wait
  wait-SameJoin heartbeat_ms duration_ms l p k =
      let (now, world) = pf.now_ms p.session.world in
      unwrap-Waited l p
        (wait_from js t a pf (suc duration_ms) heartbeat_ms (now + duration_ms) (on_world p world))
        k
        (wait_from-Waited (suc duration_ms) heartbeat_ms (now + duration_ms) l (on_world p world) k)

  report_validated-SameJoin :
      (s : Session Val W) (r : Result (Unit {0}) × W)
      → SameJoin s.link (report_validated js t a pf s r).1.link
  unfolding report_validated
  report_validated-SameJoin s (ok u, w) =
      Sends-SameJoin (send_firmware_validated-Sends js t (with_world s w))
  report_validated-SameJoin s (err e, w) = SameJoin-refl s.link

  confirm_with-SameJoin :
      (pending : PendingVerify) (s : Session Val W)
      → SameJoin s.link (confirm_with js t a pf pending s).1.link
  unfolding confirm_with
  confirm_with-SameJoin yes_pending s = report_validated-SameJoin s (pf.mark_valid s.world)
  confirm_with-SameJoin no_pending s = Sends-SameJoin (send_firmware_validated-Sends js t s)

  pub confirm_running_image-SameJoin :
      (s : Session Val W) → SameJoin s.link (confirm_running_image js t a pf s).1.link
  unfolding confirm_running_image
  confirm_running_image-SameJoin s =
      let (pending, world) = pf.pending_verify s.world in
      confirm_with-SameJoin pending (with_world s world)
