-- ===== src/Agent/Pace.antt =====
-- How often src/agent.rs sends messages of log lines: NervesHub drops what comes too fast.
pub mod Turns
use nerves_hub_link_esp.Base.{
  ℕ, ◌+◌, ◌-◌, ◌*◌, ◌≤◌, Bool, true, false, not, ◌≡◌, refl, sym, subst, ◌⊎◌, inl, inr, Option, none,
  some, List, [], ◌∷◌, length, ltb, Bool-cases, if_intro, arith, if◌then◌else◌,
}
use nerves_hub_link_esp.Agent.{
  Platform, Pump, with_world, noted, pace_of, pace, send_taken, send_due, send_from, send_logs,
  log_send_interval_ms, log_batch_max_bytes,
}
use nerves_hub_link_esp.Error.{Result, ok, err}
use nerves_hub_link_esp.Extensions.{logging_batched}
use nerves_hub_link_esp.Json.{Json}
use nerves_hub_link_esp.Link.{Transport, Link, Session, logging_attached}
use nerves_hub_link_esp.Link.Counts.{SendsAtMost, send_logs-SendsAtMost}
use nerves_hub_link_esp.Logging.{LogBuffer, take_backlog, take_stamped}
use nerves_hub_link_esp.Logging.Batches.{take_stamped-IsBatch}
use nerves_hub_link_esp.Logging.Lines.{LogLine, Allocator}

if_true : {A : Type 0} (b : Bool) (x y : A) → b ≡ true → (if b then x else y) ≡ x
if_true true x y e = refl
if_true false x y e = absurd cc

unfoldable pub is_ok : {A : Type 0} → Result A → Bool
is_ok (ok a) = true
is_ok (err e) = false

pace_of_due :
    (b : Bool) (elapsed : ℕ)
    → ltb elapsed (pace_of b).0 ≡ false
    → (log_send_interval_ms ≤ elapsed) × ((b ≡ true) ⊎ ((pace_of b).1 ≤ 1))
unfolding pace_of
pace_of_due true elapsed k = (ground arith, inl refl)
pace_of_due false elapsed k = (ground arith, inr (omega arith))

-- Nothing was sent, or one message, and the time since the last one was at least the interval.
data Paced {Val W : Type 0} (now : ℕ) (p : Pump Val W) (r : Result (Unit {0}) × Pump Val W)
    : Type 0 where
  silent :
      length r.1.session.sent ≤ length p.session.sent → r.1.last_log ≡ p.last_log → Paced now p r
  one_sent :
      length r.1.session.sent ≤ length p.session.sent + 1
      → p.last_log + log_send_interval_ms ≤ now
      → (r.1.last_log ≡ now) ⊎ (is_ok r.0 ≡ false)
      → Paced now p r

module _ {Val W : Type 0} (js : Json Val) (t : Transport W) (a : Allocator) (pf : Platform W) where
  take_stamped-few :
      (meanwhile : LogBuffer → LogBuffer) (b : LogBuffer) (max_lines max_bytes : ℕ) (now : Option ℕ)
      → length (take_stamped a meanwhile b max_lines max_bytes now).1 ≤ max_lines
  unfolding take_stamped take_backlog
  take_stamped-few meanwhile b max_lines max_bytes now = elim (Bool-cases b.poisoned) [
    | inl e ↦ rw e (omega arith)
    | inr e ↦ (take_stamped-IsBatch a meanwhile b max_lines max_bytes now e).few
  ]

  noted-Paced :
      (now : ℕ) (p p₀ : Pump Val W) (r : Result (Unit {0}) × Session Val W)
      → SendsAtMost 1 p₀.session r.1
      → p₀.last_log + log_send_interval_ms ≤ now
      → Paced now p₀ (noted now p r)
  unfolding noted is_ok
  noted-Paced now p p₀ (ok tt, s) few due = one_sent few.few due (inl refl)
  noted-Paced now p p₀ (err e, s) few due = one_sent few.few due (inr refl)

  send_taken-Paced :
      (now : ℕ) (ls : List LogLine) (p p₀ : Pump Val W)
      → p.session.sent ≡ p₀.session.sent
      → p.last_log ≡ p₀.last_log
      → (logging_batched js p.session.link.extensions ≡ true) ⊎ (length ls ≤ 1)
      → p₀.last_log + log_send_interval_ms ≤ now
      → Paced now p₀ (send_taken js t a pf now ls p)
  unfolding send_taken
  send_taken-Paced now [] p p₀ same at few due = silent (rw same (omega arith)) at
  send_taken-Paced now (l ∷ ls) p p₀ same at few due =
      noted-Paced now p p₀ _
        (record { few = rw (sym same) (send_logs-SendsAtMost js t (l ∷ ls) p.session few).few }) due

  send_due-Paced :
      (now max_lines : ℕ) (b : LogBuffer) (p : Pump Val W)
      → (logging_batched js p.session.link.extensions ≡ true) ⊎ (max_lines ≤ 1)
      → p.last_log + log_send_interval_ms ≤ now
      → Paced now p (send_due js t a pf now max_lines b p)
  unfolding send_due
  send_due-Paced now max_lines b p few due =
      let (micros, world) = pf.unix_micros p.session.world in
      let taken : LogBuffer × List LogLine =
        take_stamped a pf.meanwhile b max_lines log_batch_max_bytes micros in
      let less : length taken.1 ≤ max_lines =
        take_stamped-few pf.meanwhile b max_lines log_batch_max_bytes micros in
      send_taken-Paced now taken.1
        (record p { session = with_world p.session world; logs = some taken.0 }) p refl refl
        (few_lines few less) due
    where
      few_lines : {A : Type 0} {m n : ℕ} → A ⊎ (m ≤ 1) → n ≤ m → A ⊎ (n ≤ 1)
      few_lines (inl k) h = inl k
      few_lines (inr k) h = inr (omega arith)

  -- The pace, by whether lines go as batches.
  pace_due :
      (l : Link Val) (elapsed : ℕ)
      → ltb elapsed (pace js t a pf l).0 ≡ false
      → (log_send_interval_ms ≤ elapsed)
        × ((logging_batched js l.extensions ≡ true) ⊎ ((pace js t a pf l).1 ≤ 1))
  unfolding pace
  pace_due l elapsed k = pace_of_due (logging_batched js l.extensions) elapsed k

  send_from-Paced :
      (now : ℕ) (logs : Option LogBuffer) (p : Pump Val W)
      → Paced now p (send_from js t a pf now logs p)
  unfolding send_from
  send_from-Paced now none p = silent (omega arith) refl
  send_from-Paced now (some b) p =
      if_intro (Paced now p) (not (logging_attached p.session.link)) _ _
        (λ _. silent (omega arith) refl)
        (λ _.
          if_intro (Paced now p) (ltb (now - p.last_log) (pace js t a pf p.session.link).0) _ _
            (λ _. silent (omega arith) refl)
            (λ k.
              let (long, few) = pace_due p.session.link (now - p.last_log) k in
              send_due-Paced now (pace js t a pf p.session.link).1 b p few (omega (arith, long))))

  send_logs-Paced : (now : ℕ) (p : Pump Val W) → Paced now p (send_logs js t a pf now p)
  unfolding send_logs
  send_logs-Paced now p = send_from-Paced now p.logs p

tail_rate :
    (b : Bool) (rest last_log end : ℕ)
    → last_log ≤ end
    → (last_log ≤ end → rest * log_send_interval_ms + last_log ≤ end)
    → (if b then rest else 0) * log_send_interval_ms + last_log ≤ end
tail_rate true rest last_log end k h = h k
tail_rate false rest last_log end k h = omega arith

-- A call of `send_logs` in a run: its time, and the session and the buffer as it finds them, which
-- the rest of the agent and the tasks that log may have changed in between.
pub record LogCall (Val W : Type 0) : Type 0 where
  pub at : ℕ
  pub found : Session Val W
  pub buffer : Option LogBuffer

-- Each call is made by a time.
unfoldable pub Until : {Val W : Type 0} → ℕ → List (LogCall Val W) → Type 0
Until end [] = Unit
Until end (c ∷ cs) = (c.at ≤ end) × Until end cs

module _ {Val W : Type 0} (js : Json Val) (t : Transport W) (a : Allocator) (pf : Platform W) where
  -- The frames that one call sent.
  unfoldable pub sent_by : LogCall Val W → Pump Val W → ℕ
  sent_by c p = length p.session.sent - length c.found.sent

  called : LogCall Val W → ℕ → Pump Val W
  called c last_log = record {
    session = c.found;
    logs = c.buffer;
    last_heartbeat = 0;
    last_log = last_log;
  }

  -- The frames that the calls send, one after the other, up to the first that fails, which ends the
  -- session.
  unfoldable pub messages : List (LogCall Val W) → ℕ → ℕ
  unfolding called sent_by is_ok send_logs
  messages [] last_log = 0
  messages (c ∷ cs) last_log =
      let r = send_logs js t a pf c.at (called c last_log) in
      let rest = messages cs r.1.last_log in sent_by c r.1 + (if is_ok r.0 then rest else 0)

  step_rate :
      (c : LogCall Val W) (last_log end rest : ℕ) (r : Result (Unit {0}) × Pump Val W)
      → Paced c.at (called c last_log) r
      → c.at ≤ end
      → last_log ≤ end
      → (r.1.last_log ≤ end → rest * log_send_interval_ms + r.1.last_log ≤ end)
      → (sent_by c r.1 + (if is_ok r.0 then rest else 0)) * log_send_interval_ms + last_log ≤ end
  unfolding called sent_by
  step_rate c last_log end rest r (silent few same) at_end last_end h =
      let tail = tail_rate (is_ok r.0) rest r.1.last_log end (omega (arith, same)) h in
      omega (arith, few, same, tail)
  step_rate c last_log end rest r (one_sent few due (inl same)) at_end last_end h =
      let tail = tail_rate (is_ok r.0) rest r.1.last_log end (omega (arith, same)) h in
      omega (arith, few, due, same, tail)
  step_rate c last_log end rest r (one_sent few due (inr bad)) at_end last_end h =
      rw bad (omega (arith, few, due))

  -- The messages that calls with one clock send, up to a time, take at least 250 ms each.
  messages_rate :
      (cs : List (LogCall Val W)) (last_log end : ℕ)
      → Until end cs
      → last_log ≤ end
      → messages cs last_log * log_send_interval_ms + last_log ≤ end
  unfolding messages Until
  messages_rate [] last_log end u k = omega arith
  messages_rate (c ∷ cs) last_log end u k =
      step_rate c last_log end _ _ (send_logs-Paced js t a pf c.at _) u.0 k
        (λ later. messages_rate cs _ end u.1 later)
