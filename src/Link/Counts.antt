-- ===== src/Link/Counts.antt =====
-- How many frames the log operations of src/link.rs send.
use nerves_hub_link_esp.Base.{
  ℕ, suc, ◌+◌, ◌≤◌, true, false, not, ◌&&◌, ◌≡◌, refl, inl, inr, ◌⊎◌, some, List, [], ◌∷◌, ◌++◌,
  length, length-append, arith, if_intro, String, str_eq,
}
use nerves_hub_link_esp.Error.{Result, ok, err}
use nerves_hub_link_esp.Extensions.{
  Extensions, Outgoing, need_location, need_health, logging, extensions_topic, is_attached,
  logging_batched,
}
use nerves_hub_link_esp.Extensions.Logs.{log, log_each, logs, log_batch, is_empty, written_batch}
use nerves_hub_link_esp.Frame.{Frame}
use nerves_hub_link_esp.Json.{Json}
use nerves_hub_link_esp.Link.{
  Transport, Session, Step, and_then, fresh, send_frame, write_encoded, write, send_outgoing,
  send_extension, send_batch, send_lines, send_logs, send_console,
}
use nerves_hub_link_esp.Logging.Lines.{LogLine}
use nerves_hub_link_esp.Message.{Message, encode_frame}

-- At most `n` frames were sent.
pub record SendsAtMost {Val W : Type 0} (n : ℕ) (s s' : Session Val W) : Type 0 where
  pub few : length s'.sent ≤ length s.sent + n

module _ {Val W : Type 0} where
  and_then-SendsAtMost :
      {A B : Type 0} (m n : ℕ) (s : Session Val W) (r : Result A × Session Val W)
      (f : A → Step Val W B)
      → SendsAtMost m s r.1
      → ((a : A) (s' : Session Val W) → SendsAtMost n s' (f a s').1)
      → SendsAtMost (m + n) s (and_then r f).1
  unfolding and_then
  and_then-SendsAtMost m n s (ok a, s') f h k = record { few = omega (arith, h.few, (k a s').few) }
  and_then-SendsAtMost m n s (err e, s') f h k = record { few = omega (arith, h.few) }

module _ {Val W : Type 0} (js : Json Val) (t : Transport W) where
  write_encoded-SendsAtMost :
      (r : Result Frame) (s s₀ : Session Val W)
      → s.sent ≡ s₀.sent
      → SendsAtMost 1 s₀ (write_encoded js t r s).1
  unfolding write_encoded send_frame
  write_encoded-SendsAtMost (ok f) s s₀ e = record {
    few = rw e (omega (arith, length-append s₀.sent (f ∷ [])));
  }
  write_encoded-SendsAtMost (err _) s s₀ e = record { few = rw e (omega arith) }

  write-SendsAtMost :
      (m : Message Val) (s s₀ : Session Val W)
      → s.sent ≡ s₀.sent
      → SendsAtMost 1 s₀ (write js t m s).1
  unfolding write
  write-SendsAtMost m s s₀ e = write_encoded-SendsAtMost _ s s₀ e

  send_outgoing-SendsAtMost :
      (out : Outgoing Val) (s : Session Val W) → SendsAtMost 1 s (send_outgoing js t out s).1
  unfolding send_outgoing fresh
  send_outgoing-SendsAtMost (Outgoing.send event payload) s = write-SendsAtMost _ _ s refl
  send_outgoing-SendsAtMost need_location s = record { few = omega arith }
  send_outgoing-SendsAtMost need_health s = record { few = omega arith }

  pub send_extension-SendsAtMost :
      (outgoing : List (Outgoing Val)) (s : Session Val W)
      → SendsAtMost (length outgoing) s (send_extension js t outgoing s).1
  unfolding send_extension
  send_extension-SendsAtMost [] s = record { few = omega arith }
  send_extension-SendsAtMost (out ∷ outgoing) s =
      let sent : SendsAtMost (1 + length outgoing) s (send_extension js t (out ∷ outgoing) s).1 =
        and_then-SendsAtMost 1 (length outgoing) s (send_outgoing js t out s) _
          (send_outgoing-SendsAtMost out s) (λ _ s'. send_extension-SendsAtMost outgoing s') in
      record { few = omega (arith, sent.few) }

  length-log_each : (e : Extensions Val) (ls : List LogLine) → length (log_each js e ls) ≤ length ls
  unfolding log_each log
  length-log_each e [] = omega arith
  length-log_each e (l ∷ ls) =
      if_intro {A = List (Outgoing Val)} (λ out. length (out ++ log_each js e ls) ≤ suc (length ls))
        (not (is_attached e logging)) _ _ (λ _. omega (arith, length-log_each e ls))
        (λ _. omega (arith, length-log_each e ls))

  length-logs : (e : Extensions Val) (ls : List LogLine) → length (logs js e ls) ≤ length ls
  unfolding logs is_empty
  length-logs e [] = omega arith
  length-logs e (l ∷ ls) =
      if_intro {A = List (Outgoing Val)} (λ out. length out ≤ suc (length ls))
        (not (is_attached e logging)) _ _ (λ _. omega arith)
        (λ _.
          if_intro {A = List (Outgoing Val)} (λ out. length out ≤ suc (length ls))
            (not (logging_batched js e)) _ _ (λ _. length-log_each e (l ∷ ls)) (λ _. omega arith))

  send_batch-SendsAtMost :
      (ls : List LogLine) (s : Session Val W) → SendsAtMost 1 s (send_batch js t ls s).1
  unfolding send_batch fresh
  send_batch-SendsAtMost ls s =
      let (reference, s') = fresh s in
      write_encoded-SendsAtMost
        (encode_frame js s'.link.config.serializer (
          s'.link.extensions_join_ref,
          some reference,
          extensions_topic,
          "logging:send",
          written_batch ls,
        ))
        s' s refl

  at_most_one :
      (e : Extensions Val) (ls : List LogLine)
      → (logging_batched js e ≡ true) ⊎ (length ls ≤ 1)
      → (not (is_empty ls) && logging_batched js e) ≡ false
      → length ls ≤ 1
  unfolding is_empty
  at_most_one e ls (inr few) k = few
  at_most_one e [] (inl batched) k = omega arith
  at_most_one e (l ∷ ls) (inl batched) k = absurd cc

  -- One message at most, for lines in a batch and for a single line.
  pub send_logs-SendsAtMost :
      (ls : List LogLine) (s : Session Val W)
      → (logging_batched js s.link.extensions ≡ true) ⊎ (length ls ≤ 1)
      → SendsAtMost 1 s (send_logs js t ls s).1
  unfolding send_logs send_lines log_batch
  send_logs-SendsAtMost ls s few =
      if_intro (λ batch. SendsAtMost 1 s (send_lines js t batch ls s).1)
        (not (is_empty ls) && logging_batched js s.link.extensions) _ _
        (λ _. send_batch-SendsAtMost ls s)
        (λ k. record {
          few = omega (
            arith,
            (send_extension-SendsAtMost (logs js s.link.extensions ls) s).few,
            length-logs s.link.extensions ls,
            at_most_one s.link.extensions ls few k,
          );
        })

  pub send_console-SendsAtMost :
      (output : String) (s : Session Val W) → SendsAtMost 1 s (send_console js t output s).1
  unfolding send_console fresh
  send_console-SendsAtMost output s =
      if_intro {A = Result (Unit {0}) × Session Val W} (λ r. SendsAtMost 1 s r.1) (str_eq output "")
        _ _ (λ _. record { few = omega arith }) (λ _. write-SendsAtMost _ _ s refl)
