-- ===== src/Agent/Terminal/Answers.antt =====
-- How many messages the terminal of src/agent.rs answers with.
use nerves_hub_link_esp.Base.{
  ℕ, suc, ◌+◌, ◌≤◌, max, String, Bool, false, Option, none, some, List, [], ◌∷◌, ◌++◌, codes,
  str_eq, if_intro, text_of, length, arith,
}
use nerves_hub_link_esp.Agent.{Platform}
use nerves_hub_link_esp.Agent.Commands.{Console}
use nerves_hub_link_esp.Agent.Terminal.{
  Agent, LevelNames, at_session, session_of, after_sending, run_line, run_log, line_output,
  with_output, send_reply, reboot_after, answer_line, answer_lines, answer_typed, answer_console,
}
use nerves_hub_link_esp.Agent.Updates.{restart_after}
use nerves_hub_link_esp.Console.{parse, feed}
use nerves_hub_link_esp.Error.{Result, ok, err}
use nerves_hub_link_esp.Json.{Json}
use nerves_hub_link_esp.Link.{Transport, Session, send_console}
use nerves_hub_link_esp.Link.Counts.{send_console-SendsAtMost}

-- The lines that a terminal completes from what is typed: none without a terminal.
unfoldable pub completed : {W : Type 0} → Option (Console W) → String → List (List ℕ)
unfolding feed
completed none input = []
completed (some c) input = (feed c.reader (codes input)).lines

module _ {Val W : Type 0} where
  -- At most `n` messages beside the `m` of before.
  pub record Answered (m n : ℕ) (o : Result Bool × Agent Val W) : Type 0 where
    pub few : length (session_of o.1).sent ≤ m + n

  abbrev Printed : ℕ → Option (List ℕ × Agent Val W) → Type 0
  Printed m none = Unit {0}
  Printed m (some (out, a)) = length (session_of a).sent ≤ m

  line_output-Printed :
      (names : LevelNames) (line : List ℕ) (parsed : Option (List ℕ × List (List ℕ)))
      (a : Agent Val W) (m : ℕ)
      → length (session_of a).sent ≤ m
      → Printed m (line_output names line parsed a)
  unfolding line_output run_line run_log
  line_output-Printed names line none a m k = k
  line_output-Printed names line (some (name, args)) a m k =
      if_intro (Printed m) (str_eq (text_of name) "reboot") _ _ (λ _. tt)
        (λ _. if_intro (Printed m) (str_eq (text_of name) "log") _ _ (λ _. k) (λ _. k))

  after_sending-Answered :
      (m n : ℕ) (a : Agent Val W) (r : Result (Unit {0}) × Session Val W)
      (f : Agent Val W → Result Bool × Agent Val W)
      → length r.1.sent ≤ suc m
      → ((b : Agent Val W) → length (session_of b).sent ≤ suc m → Answered (suc m) n (f b))
      → Answered m (suc n) (after_sending a r f)
  unfolding after_sending
  after_sending-Answered m n a (ok u, s) f k h =
      let sent = h (at_session a s) k in record { few = omega (arith, sent.few) }
  after_sending-Answered m n a (err e, s) f k h = record { few = omega (arith, k) }

module _ {Val W : Type 0} (js : Json Val) (t : Transport W) (pf : Platform W)
    (names : LevelNames) where
  send_reply-le :
      (m : ℕ) (reply : List ℕ) (a : Agent Val W)
      → length (session_of a).sent ≤ m
      → length (send_reply js t pf names reply a).1.sent ≤ suc m
  unfolding send_reply
  send_reply-le m reply a k =
      omega (arith, (send_console-SendsAtMost js t (text_of reply) (session_of a)).few)

  reboot_after-Answered :
      (m n : ℕ) (a : Agent Val W) (r : Result (Unit {0}) × Session Val W)
      → length r.1.sent ≤ suc m
      → Answered m (suc n) (reboot_after js t pf names a r)
  unfolding reboot_after restart_after
  reboot_after-Answered m n a (ok u, s) k = record { few = omega (arith, k) }
  reboot_after-Answered m n a (err e, s) k = record { few = omega (arith, k) }

  answer_line-Answered :
      (m n : ℕ) (rest : Agent Val W → Result Bool × Agent Val W) (reply : List ℕ) (a : Agent Val W)
      (o : Option (List ℕ × Agent Val W))
      → length (session_of a).sent ≤ m
      → Printed m o
      → ((b : Agent Val W) → length (session_of b).sent ≤ suc m → Answered (suc m) n (rest b))
      → Answered m (suc n) (answer_line js t pf names rest reply a o)
  unfolding answer_line
  answer_line-Answered m n rest reply a none k p h =
      reboot_after-Answered m n a (send_reply js t pf names (reply ++ codes "rebooting\r\n") a)
        (send_reply-le m _ a k)
  answer_line-Answered m n rest reply a (some (out, b)) k p h =
      after_sending-Answered m n b (send_reply js t pf names (with_output reply out) b) rest
        (send_reply-le m _ b p) h

  -- An empty reply is not sent.
  nothing-Answered :
      (m : ℕ) (a : Agent Val W)
      → length (session_of a).sent ≤ m
      → Answered m 0 (answer_lines js t pf names [] [] a)
  unfolding answer_lines send_reply send_console text_of after_sending
  nothing-Answered m a k = record { few = omega (arith, k) }

  answer_lines-Answered :
      (lines : List (List ℕ)) (a : Agent Val W) (m : ℕ)
      → length (session_of a).sent ≤ m
      → Answered m (length lines) (answer_lines js t pf names lines [] a)
  unfolding answer_lines
  answer_lines-Answered [] a m k = nothing-Answered m a k
  answer_lines-Answered (line ∷ lines) a m k =
      answer_line-Answered m (length lines) (answer_lines js t pf names lines []) [] a
        (line_output names line (parse line) a) k
        (line_output-Printed names line (parse line) a m k)
        (λ b kb. answer_lines-Answered lines b (suc m) kb)

  answer_echo-Answered :
      (lines : List (List ℕ)) (reply : List ℕ) (a : Agent Val W) (m : ℕ)
      → length (session_of a).sent ≤ m
      → Answered m (max 1 (length lines)) (answer_lines js t pf names lines reply a)
  unfolding answer_lines
  answer_echo-Answered [] reply a m k =
      after_sending-Answered m 0 a (send_reply js t pf names reply a) (λ b. (ok false, b))
        (send_reply-le m reply a k) (λ b kb. record { few = omega (arith, kb) })
  answer_echo-Answered (line ∷ lines) reply a m k =
      let answered =
        answer_line-Answered m (length lines) (answer_lines js t pf names lines []) reply a
          (line_output names line (parse line) a) k
          (line_output-Printed names line (parse line) a m k)
          (λ b kb. answer_lines-Answered lines b (suc m) kb) in
      record { few = omega (arith, answered.few) }

  answer_typed-Answered :
      (console : Option (Console W)) (input : String) (a : Agent Val W)
      → Answered
          (length (session_of a).sent)
          (max 1 (length (completed console input)))
          (answer_typed js t pf names console (codes input) a)
  unfolding answer_typed completed
  answer_typed-Answered none input a = record { few = omega arith }
  answer_typed-Answered (some c) input a =
      let fed = feed c.reader (codes input) in
      answer_echo-Answered fed.lines fed.echo _ (length (session_of a).sent) (omega arith)

  -- What is typed is answered in at most one message for each line that it completes, and in at most one
  -- if it completes no line.
  answer_console-Answered :
      (input : String) (a : Agent Val W)
      → Answered
          (length (session_of a).sent)
          (max 1 (length (completed a.console input)))
          (answer_console js t pf names input a)
  unfolding answer_console
  answer_console-Answered input a = answer_typed-Answered a.console input a
