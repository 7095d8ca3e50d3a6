-- ===== src/Agent/Terminal/Quiet.antt =====
-- The terminal of src/agent.rs leaves the join as it is, and restarts the device at most once.
use nerves_hub_link_esp.Base.{
  ℕ, String, Bool, false, ◌≡◌, Option, none, some, List, [], ◌∷◌, ◌++◌, codes, str_eq, if_intro,
  text_of,
}
use nerves_hub_link_esp.Agent.{Platform}
use nerves_hub_link_esp.Agent.Commands.{Console}
use nerves_hub_link_esp.Agent.Terminal.{
  Agent, LevelNames, at_session, session_of, after_sending, run_line, run_log, line_output,
  with_output, send_reply, reboot_after, answer_line, answer_lines, answer_typed, answer_console,
}
use nerves_hub_link_esp.Agent.Updates.Quiet.{SameDevice, restarts_after, restart_after-SameDevice}
use nerves_hub_link_esp.Console.{parse, feed}
use nerves_hub_link_esp.Error.{Result, ok, err}
use nerves_hub_link_esp.Json.{Json}
use nerves_hub_link_esp.Link.{Transport, Link, Session}
use nerves_hub_link_esp.Link.Quiet.{SameJoin, SameJoin-trans, Sends-SameJoin}
use nerves_hub_link_esp.Link.Sends.{send_console-Sends}

module _ {Val W : Type 0} where
  -- An answer's result and agent, against a link and a count of restarts.
  pub record SameAnswer (l : Link Val) (n : ℕ) (o : Result Bool × Agent Val W) : Type 0 where
    pub device : SameDevice l (restarts_after o.0 n) o.1.device

  -- A line's output leaves the link and the count alone.
  abbrev SamePrint : Link Val → ℕ → Option (List ℕ × Agent Val W) → Type 0
  SamePrint l n none = Unit {0}
  SamePrint l n (some (out, a)) = SameDevice l n a.device

  line_output-SamePrint :
      (names : LevelNames) (line : List ℕ) (parsed : Option (List ℕ × List (List ℕ)))
      (a : Agent Val W) (l : Link Val) (n : ℕ)
      → SameDevice l n a.device
      → SamePrint l n (line_output names line parsed a)
  unfolding line_output run_line run_log
  line_output-SamePrint names line none a l n k = record { link = k.link; count = k.count }
  line_output-SamePrint names line (some (name, args)) a l n k =
      if_intro (SamePrint l n) (str_eq (text_of name) "reboot") _ _ (λ _. tt)
        (λ _.
          if_intro (SamePrint l n) (str_eq (text_of name) "log") _ _
            (λ _. record { link = k.link; count = k.count })
            (λ _. record { link = k.link; count = k.count }))

module _ {Val W : Type 0} (js : Json Val) (t : Transport W) (pf : Platform W)
    (names : LevelNames) where
  send_reply-SameJoin :
      (l : Link Val) (reply : List ℕ) (a : Agent Val W)
      → SameJoin l (session_of a).link
      → SameJoin l (send_reply js t pf names reply a).1.link
  unfolding send_reply
  send_reply-SameJoin l reply a k =
      SameJoin-trans k (Sends-SameJoin (send_console-Sends js t _ (session_of a)))

  after_sending-SameAnswer :
      (l : Link Val) (n : ℕ) (a : Agent Val W) (r : Result (Unit {0}) × Session Val W)
      (f : Agent Val W → Result Bool × Agent Val W)
      → SameJoin l r.1.link
      → a.device.restarts ≡ n
      → ((b : Agent Val W) → SameDevice l n b.device → SameAnswer l n (f b))
      → SameAnswer l n (after_sending a r f)
  unfolding after_sending
  after_sending-SameAnswer l n a (ok u, s) f k c h =
      h (at_session a s) (record { link = k; count = c })
  after_sending-SameAnswer l n a (err e, s) f k c h = record {
    device = record { link = k; count = c };
  }

  answer_line-SameAnswer :
      (l : Link Val) (n : ℕ) (rest : Agent Val W → Result Bool × Agent Val W) (reply : List ℕ)
      (a : Agent Val W) (o : Option (List ℕ × Agent Val W))
      → SameDevice l n a.device
      → SamePrint l n o
      → ((b : Agent Val W) → SameDevice l n b.device → SameAnswer l n (rest b))
      → SameAnswer l n (answer_line js t pf names rest reply a o)
  unfolding answer_line reboot_after
  answer_line-SameAnswer l n rest reply a none k p h = record {
    device =
        restart_after-SameDevice pf l n a.device
          (send_reply js t pf names (reply ++ codes "rebooting\r\n") a)
          (send_reply-SameJoin l _ a k.link) k.count;
  }
  answer_line-SameAnswer l n rest reply a (some (out, b)) k p h =
      after_sending-SameAnswer l n b _ rest (send_reply-SameJoin l (with_output reply out) b p.link)
        p.count h

  answer_lines-SameAnswer :
      (lines : List (List ℕ)) (reply : List ℕ) (a : Agent Val W) (l : Link Val) (n : ℕ)
      → SameDevice l n a.device
      → SameAnswer l n (answer_lines js t pf names lines reply a)
  unfolding answer_lines
  answer_lines-SameAnswer [] reply a l n k =
      after_sending-SameAnswer l n a (send_reply js t pf names reply a) (λ b. (ok false, b))
        (send_reply-SameJoin l reply a k.link) k.count (λ b kb. record { device = kb })
  answer_lines-SameAnswer (line ∷ lines) reply a l n k =
      answer_line-SameAnswer l n (answer_lines js t pf names lines []) reply a
        (line_output names line (parse line) a) k
        (line_output-SamePrint names line (parse line) a l n k)
        (λ b kb. answer_lines-SameAnswer lines [] b l n kb)

  answer_typed-SameAnswer :
      (console : Option (Console W)) (typed : List ℕ) (a : Agent Val W) (l : Link Val) (n : ℕ)
      → SameDevice l n a.device
      → SameAnswer l n (answer_typed js t pf names console typed a)
  unfolding answer_typed
  answer_typed-SameAnswer none typed a l n k = record { device = k }
  answer_typed-SameAnswer (some c) typed a l n k =
      let fed = feed c.reader typed in
      answer_lines-SameAnswer fed.lines fed.echo _ l n (record { link = k.link; count = k.count })

  pub answer_console-SameAnswer :
      (input : String) (a : Agent Val W) (l : Link Val) (n : ℕ)
      → SameDevice l n a.device
      → SameAnswer l n (answer_console js t pf names input a)
  unfolding answer_console
  answer_console-SameAnswer input a l n k = answer_typed-SameAnswer a.console (codes input) a l n k
