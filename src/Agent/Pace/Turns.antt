-- ===== src/Agent/Pace/Turns.antt =====
-- The two clocks of the log in src/agent.rs: a session's, and that of each download's pump, which starts
-- at its time and is gone with it.
use nerves_hub_link_esp.Base.{
  ℕ, suc, ◌+◌, ◌-◌, ◌*◌, ◌≤◌, min, Bool, true, false, inl, inr, List, [], ◌∷◌, arith, if◌then◌else◌,
}
use nerves_hub_link_esp.Agent.{Platform, Pump, send_logs, log_send_interval_ms}
use nerves_hub_link_esp.Agent.Pace.{
  LogCall, Paced, silent, one_sent, Until, sent_by, called, messages, messages_rate,
  send_logs-Paced, is_ok,
}
use nerves_hub_link_esp.Error.{Result}
use nerves_hub_link_esp.Json.{Json}
use nerves_hub_link_esp.Link.{Transport}
use nerves_hub_link_esp.Logging.Lines.{Allocator}

-- A call of `send_logs` in the loop of a session, or the calls of a download's pump between two times.
pub data Turn (Val W : Type 0) : Type 0 where
  looped : LogCall Val W → Turn Val W
  downloaded : (start stop : ℕ) → List (LogCall Val W) → Turn Val W

-- The turns are in order, from a time up to another.
unfoldable pub InOrder : {Val W : Type 0} → ℕ → ℕ → List (Turn Val W) → Type 0
unfolding Until
InOrder now end [] = now ≤ end
InOrder now end (looped c ∷ ts) = (now ≤ c.at) × InOrder c.at end ts
InOrder now end (downloaded start stop cs ∷ ts) =
    (now ≤ start) × (start ≤ stop) × Until stop cs × InOrder stop end ts

unfoldable pub downloads : {Val W : Type 0} → List (Turn Val W) → ℕ
downloads [] = 0
downloads (looped c ∷ ts) = downloads ts
downloads (downloaded start stop cs ∷ ts) = suc (downloads ts)

module _ {Val W : Type 0} (js : Json Val) (t : Transport W) (a : Allocator) (pf : Platform W) where
  -- The frames that the turns send. The session's clock stays as it was over a download.
  unfoldable pub sent_in : List (Turn Val W) → ℕ → ℕ
  unfolding called sent_by is_ok send_logs messages
  sent_in [] last_log = 0
  sent_in (looped c ∷ ts) last_log =
      let r = send_logs js t a pf c.at (called js t a pf c last_log) in
      let rest = sent_in ts r.1.last_log in
      sent_by js t a pf c r.1 + (if is_ok r.0 then rest else 0)
  sent_in (downloaded start stop cs ∷ ts) last_log =
      messages js t a pf cs start + sent_in ts last_log

  -- What `n` messages may take, from the time `now`, when the last one was at `last_log`.
  abbrev Rate : ℕ → ℕ → ℕ → ℕ → ℕ → Type 0
  Rate n more last_log now end =
      n * log_send_interval_ms + now
      ≤ end + more * log_send_interval_ms + min log_send_interval_ms (now - last_log)

  if_ok :
      (c : LogCall Val W) (last_log now end rest more : ℕ) (r : Result (Unit {0}) × Pump Val W)
      (b : Bool)
      → Rate (sent_by js t a pf c r.1 + rest) more last_log now end
      → Rate (sent_by js t a pf c r.1 + 0) more last_log now end
      → Rate (sent_by js t a pf c r.1 + (if b then rest else 0)) more last_log now end
  if_ok c last_log now end rest more r true x y = x
  if_ok c last_log now end rest more r false x y = y

  looped-Rate :
      (c : LogCall Val W) (last_log now end rest more : ℕ) (r : Result (Unit {0}) × Pump Val W)
      → Paced c.at (called js t a pf c last_log) r
      → now ≤ c.at
      → last_log ≤ now
      → c.at ≤ end
      → (r.1.last_log ≤ c.at → Rate rest more r.1.last_log c.at end)
      → Rate (sent_by js t a pf c r.1 + (if is_ok r.0 then rest else 0)) more last_log now end
  unfolding called sent_by
  looped-Rate c last_log now end rest more r (silent few same) later least fits h =
      let k = h (omega (arith, same)) in
      if_ok c last_log now end rest more r (is_ok r.0) (omega (arith, few, same, k))
        (omega (arith, few))
  looped-Rate c last_log now end rest more r (one_sent few due (inl same)) later least fits h =
      let k = h (omega (arith, same)) in
      if_ok c last_log now end rest more r (is_ok r.0) (omega (arith, few, due, same, k))
        (omega (arith, few, due))
  looped-Rate c last_log now end rest more r (one_sent few due (inr bad)) later least fits h =
      rw bad (omega (arith, few, due))

  InOrder-le : (ts : List (Turn Val W)) (now end : ℕ) → InOrder now end ts → now ≤ end
  unfolding InOrder
  InOrder-le [] now end o = o
  InOrder-le (looped c ∷ ts) now end (le, o) = omega (arith, le, InOrder-le ts c.at end o)
  InOrder-le (downloaded start stop cs ∷ ts) now end (le, least, u, o) =
      omega (arith, le, least, InOrder-le ts stop end o)

  sent_in-Rate :
      (ts : List (Turn Val W)) (last_log now end : ℕ)
      → last_log ≤ now
      → InOrder now end ts
      → Rate (sent_in ts last_log) (downloads ts) last_log now end
  unfolding sent_in downloads InOrder
  sent_in-Rate [] last_log now end least o = omega (arith, o)
  sent_in-Rate (looped c ∷ ts) last_log now end least (le, o) =
      looped-Rate c last_log now end _ (downloads ts) _ (send_logs-Paced js t a pf c.at _) le least
        (InOrder-le ts c.at end o) (λ later. sent_in-Rate ts _ c.at end later o)
  sent_in-Rate (downloaded start stop cs ∷ ts) last_log now end least (le, fits, u, o) = omega (
    arith,
    le,
    fits,
    messages_rate js t a pf cs start stop u fits,
    sent_in-Rate ts last_log stop end (omega (arith, le, fits, least)) o,
  )

  -- Messages of log lines are paced for NervesHub's limit of five a second: whatever else happens to the
  -- session and the buffer between the calls of `send_logs`, and whether lines go one by one or in
  -- batches, the messages of calls up to a time take at least 250 ms each of the time since the last
  -- message before them, but for one message with each download: a download's pump has a clock of its own, and
  -- the session goes on with the time that it had before.
  pub sent_in-log_send_interval_ms :
      (ts : List (Turn Val W)) (last_log end : ℕ)
      → InOrder last_log end ts
      → sent_in ts last_log * log_send_interval_ms
        ≤ (end - last_log) + downloads ts * log_send_interval_ms
  sent_in-log_send_interval_ms ts last_log end o =
      omega
        (arith, sent_in-Rate ts last_log last_log end (omega arith) o, InOrder-le ts last_log end o)
