-- ===== src/Agent/Waits.antt =====
-- The wait between attempts of a download, in src/agent.rs, ends.
use nerves_hub_link_esp.Base.{
  ℕ, zero, suc, ◌+◌, ◌-◌, ◌≤◌, ◌<◌, min, not, Option, none, some, List, [], ◌∷◌, leb, leb→le, ltb,
  if_intro, arith,
}
use nerves_hub_link_esp.Agent.{
  Platform, Pump, with_world, and_next, noted, beaten, pace, send_taken, send_due, send_from,
  send_logs, beat, tick, wait_round, wait_from, wait,
}
use nerves_hub_link_esp.Error.{Error, Result, ok, err}
use nerves_hub_link_esp.Json.{Json}
use nerves_hub_link_esp.Link
use nerves_hub_link_esp.Link.{Transport, Session, logging_attached, send_heartbeat}
use nerves_hub_link_esp.Link.Worlds.{KeptBySending, send_heartbeat-kept, send_logs-kept}
use nerves_hub_link_esp.Logging.{LogBuffer}
use nerves_hub_link_esp.Logging.Lines.{LogLine, Allocator}

-- A platform whose clock does not turn back, and whose sleep lasts: `Past n w` when every reading from
-- the world `w` on is at least `n`.
pub record Clock {W : Type 0} (pf : Platform W) (t : Transport W) : Type 1 where
  pub Past : ℕ → W → Type 0
  pub reads : (w : W) → Past (pf.now_ms w).0 (pf.now_ms w).1
  pub goes_on : (n : ℕ) (w : W) → Past n w → n ≤ (pf.now_ms w).0
  pub sleeps : (n ms : ℕ) (w : W) → Past n w → Past (n + ms) (pf.sleep_ms ms w)
  pub stamps : (n : ℕ) (w : W) → Past n w → Past n (pf.unix_micros w).1
  pub sends : (n : ℕ) → KeptBySending t (Past n)

module _ {Val W : Type 0} {t : Transport W} (js : Json Val) (a : Allocator) (pf : Platform W)
    (clock : Clock pf t) where
  -- Readings from the world on are at least `n`.
  pub record Later (n : ℕ) (w : W) : Type 0 where
    pub time : ℕ
    pub least : n ≤ time
    pub past : clock.Past time w

  -- The wait returned, and if it went well then the time has come.
  pub data Returned (until : ℕ) : Option (Result (Unit {0}) × Pump Val W) → Type 0 where
    failed : (e : Error) (p : Pump Val W) → Returned until (some (err e, p))
    waited : (p : Pump Val W) → Later until p.session.world → Returned until (some (ok tt, p))

  Later-sends : (n : ℕ) → KeptBySending t (Later n)
  Later-sends n = record {
    by_text = λ bytes w h. record {
      time = h.time;
      least = h.least;
      past = (clock.sends h.time).by_text bytes w h.past;
    };
    by_binary = λ bytes w h. record {
      time = h.time;
      least = h.least;
      past = (clock.sends h.time).by_binary bytes w h.past;
    };
  }

  Later-reads : (n : ℕ) (w : W) → Later n w → Later n (pf.now_ms w).1
  Later-reads n w h = record {
    time = (pf.now_ms w).0;
    least = omega (arith, h.least, clock.goes_on h.time w h.past);
    past = clock.reads w;
  }

  Later-stamps : (n : ℕ) (w : W) → Later n w → Later n (pf.unix_micros w).1
  Later-stamps n w h = record {
    time = h.time;
    least = h.least;
    past = clock.stamps h.time w h.past;
  }

  and_next-Later :
      (n : ℕ) (r : Result (Unit {0}) × Pump Val W) (f : Pump Val W → Result (Unit {0}) × Pump Val W)
      → Later n r.1.session.world
      → ((p : Pump Val W) → Later n p.session.world → Later n (f p).1.session.world)
      → Later n (and_next r f).1.session.world
  unfolding and_next
  and_next-Later n (ok u, p) f h k = k p h
  and_next-Later n (err e, p) f h k = h

  noted-Later :
      (n now : ℕ) (p : Pump Val W) (r : Result (Unit {0}) × Session Val W)
      → Later n r.1.world
      → Later n (noted now p r).1.session.world
  unfolding noted
  noted-Later n now p (ok u, s) h = h
  noted-Later n now p (err e, s) h = h

  beaten-Later :
      (n now : ℕ) (p : Pump Val W) (r : Result (Unit {0}) × Session Val W)
      → Later n r.1.world
      → Later n (beaten now p r).1.session.world
  unfolding beaten
  beaten-Later n now p (ok u, s) h = h
  beaten-Later n now p (err e, s) h = h

  beat-Later :
      (n heartbeat_ms now : ℕ) (p : Pump Val W)
      → Later n p.session.world
      → Later n (beat js t a pf heartbeat_ms now p).1.session.world
  unfolding beat
  beat-Later n heartbeat_ms now p h =
      if_intro {A = Result (Unit {0}) × Pump Val W} (λ r. Later n r.1.session.world)
        (leb heartbeat_ms (now - p.last_heartbeat)) _ _
        (λ _.
          beaten-Later n now p (send_heartbeat js t p.session)
            (send_heartbeat-kept js t (Later n) (Later-sends n) p.session h))
        (λ _. h)

  send_taken-Later :
      (n now : ℕ) (ls : List LogLine) (p : Pump Val W)
      → Later n p.session.world
      → Later n (send_taken js t a pf now ls p).1.session.world
  unfolding send_taken
  send_taken-Later n now [] p h = h
  send_taken-Later n now (l ∷ ls) p h =
      noted-Later n now p (Link.send_logs js t (l ∷ ls) p.session)
        (send_logs-kept js t (Later n) (Later-sends n) (l ∷ ls) p.session h)

  send_from-Later :
      (n now : ℕ) (logs : Option LogBuffer) (p : Pump Val W)
      → Later n p.session.world
      → Later n (send_from js t a pf now logs p).1.session.world
  unfolding send_from send_due
  send_from-Later n now none p h = h
  send_from-Later n now (some b) p h =
      if_intro {A = Result (Unit {0}) × Pump Val W} (λ r. Later n r.1.session.world)
        (not (logging_attached p.session.link)) _ _ (λ _. h)
        (λ _.
          if_intro {A = Result (Unit {0}) × Pump Val W} (λ r. Later n r.1.session.world)
            (ltb (now - p.last_log) (pace js t a pf p.session.link).0) _ _ (λ _. h)
            (λ _. send_taken-Later n now _ _ (Later-stamps n p.session.world h)))

  tick-Later :
      (n heartbeat_ms : ℕ) (p : Pump Val W)
      → Later n p.session.world
      → Later n (tick js t a pf heartbeat_ms p).1.session.world
  unfolding tick send_logs
  tick-Later n heartbeat_ms p h =
      let (now, world) = pf.now_ms p.session.world in
      let q : Pump Val W = record p { session = with_world p.session world } in
      and_next-Later n (beat js t a pf heartbeat_ms now q) (send_from_own now)
        (beat-Later n heartbeat_ms now q (Later-reads n p.session.world h))
        (λ q k. send_from-Later n now q.logs q k)
    where
      send_from_own : ℕ → Pump Val W → Result (Unit {0}) × Pump Val W
      send_from_own now q = send_from js t a pf now q.logs q

  -- One round, when what is left fits in the rounds that follow.
  round-Returned :
      (n g until : ℕ) (rest : Pump Val W → Option (Result (Unit {0}) × Pump Val W))
      (r : Result (Unit {0}) × Pump Val W)
      → until ≤ n + g
      → Later n r.1.session.world
      → ((m : ℕ) (p : Pump Val W)
          → m ≤ until
          → until < m + g
          → Later m p.session.world
          → Returned until (rest p))
      → Returned until (wait_round js t a pf until rest r)
  unfolding wait_round
  round-Returned n g until rest (err e, p) fits h k = failed e p
  round-Returned n g until rest (ok tt, p) fits h k =
      let (now, world) = pf.now_ms p.session.world in
      let d = min (until - now) 1000 in
      let at_least : n ≤ now =
        omega (arith, h.least, clock.goes_on h.time p.session.world h.past) in
      if_intro (Returned until) (leb until now) _ _
        (λ come. waited _ (record {
          time = now;
          least = leb→le until now come;
          past = clock.reads p.session.world;
        }))
        (λ early.
          k (now + d) (record p { session = with_world p.session (pf.sleep_ms d world) })
            (ground (arith, early)) (ground (arith, early, at_least, fits))
            (record {
              time = now + d;
              least = omega arith;
              past = clock.sleeps now d world (clock.reads p.session.world);
            }))

  wait_from-Returned :
      (g heartbeat_ms until n : ℕ) (p : Pump Val W)
      → until ≤ n + g
      → Later n p.session.world
      → Returned until (wait_from js t a pf (suc g) heartbeat_ms until p)
  unfolding wait_from
  wait_from-Returned zero heartbeat_ms until n p fits h =
      round-Returned n zero until (wait_from js t a pf zero heartbeat_ms until)
        (tick js t a pf heartbeat_ms p) fits (tick-Later n heartbeat_ms p h)
        (λ m q least left k. absurd (omega arith))
  wait_from-Returned (suc g) heartbeat_ms until n p fits h =
      round-Returned n (suc g) until (wait_from js t a pf (suc g) heartbeat_ms until)
        (tick js t a pf heartbeat_ms p) fits (tick-Later n heartbeat_ms p h)
        (λ m q least left k. wait_from-Returned g heartbeat_ms until m q (omega arith) k)

  -- The wait between attempts of a download returns, its fuel being enough, where the clock does not
  -- turn back and a sleep lasts as long as asked: with the error of a tick, or without an error and then
  -- no sooner than after the duration.
  pub wait-Returned :
      (heartbeat_ms duration_ms : ℕ) (p : Pump Val W)
      → Returned
          ((pf.now_ms p.session.world).0 + duration_ms)
          (wait js t a pf heartbeat_ms duration_ms p)
  unfolding wait
  wait-Returned heartbeat_ms duration_ms p =
      let (now, world) = pf.now_ms p.session.world in
      wait_from-Returned duration_ms heartbeat_ms (now + duration_ms) now
        (record p { session = with_world p.session world }) (omega arith)
        (record { time = now; least = omega arith; past = clock.reads p.session.world })
