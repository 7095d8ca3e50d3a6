-- ===== src/Transport/Closes.antt =====
-- Which of the websocket's closes end the session (src/inbound.rs, src/transport.rs).
use nerves_hub_link_esp.Base.{
  ℕ, ◌+◌, ◌%◌, ◌^◌, ◌≤◌, ◌<◌, ◌≡◌, refl, ap, ◌∙◌, true, false, Option, none, some, List, [], ◌∷◌,
  ◌++◌, arith, ltb,
}
use nerves_hub_link_esp.Inbound.{
  Inbound, Incoming, frame, closed_at, overflow, connected, closed, ends_session, read, piece,
}
use nerves_hub_link_esp.Inbound.Keeps.{Keeps, piece-Keeps}
use nerves_hub_link_esp.Transport.{
  Events, on_connected, on_closed, on_other, on_data, Move, happens, takes, receives, send,
  take_next, receive, take, recv_taken, on_event, step, run,
}

send-inbound : (r : Inbound × Option Incoming) (s : Events) → (send r s).inbound ≡ r.0
unfolding send
send-inbound (i, none) s = refl
send-inbound (i, some m) s = refl

take_next-inbound :
    (i : Inbound) (taken : Option Incoming) (q : List Incoming) → (take_next i taken q).inbound ≡ i
unfolding take_next
take_next-inbound i (some m) q = refl
take_next-inbound i none [] = refl
take_next-inbound i none (m ∷ q) = refl

receive-Keeps : (s : Events) (taken : Option Incoming) → Keeps s.inbound (receive s taken).0.inbound
unfolding receive read
receive-Keeps s none = record { same = refl }
receive-Keeps s (some (frame f)) = record { same = refl }
receive-Keeps s (some overflow) = record { same = refl }
receive-Keeps s (some (closed_at n)) = record { same = refl }

-- Connecting again does not count again.
step-keeps :
    (s : Events) (m : Move) (before : ℕ)
    → s.inbound.closes_before_connecting ≡ some before
    → (step s m).inbound.closes_before_connecting ≡ some before
unfolding step on_event take recv_taken connected closed send
step-keeps s (happens on_connected) before h = rw h refl
step-keeps s (happens on_closed) before h = h
step-keeps s (happens on_other) before h = h
step-keeps s (happens (on_data p)) before h =
    ap (λ i. i.closes_before_connecting) (send-inbound (piece s.inbound p) s)
    ∙ (piece-Keeps s.inbound p).same
    ∙ h
step-keeps s takes before h =
    ap (λ i. i.closes_before_connecting) (take_next-inbound s.inbound s.taken s.queue) ∙ h
step-keeps s receives before h = (receive-Keeps s s.taken).same ∙ h

run-keeps :
    (s : Events) (ms : List Move) (before : ℕ)
    → s.inbound.closes_before_connecting ≡ some before
    → (run s ms).inbound.closes_before_connecting ≡ some before
unfolding run
run-keeps s [] before h = h
run-keeps s (m ∷ ms) before h = run-keeps (step s m) ms before (step-keeps s m before h)

ends_session-some :
    (i : Inbound) (n before : ℕ)
    → i.closes_before_connecting ≡ some before
    → ends_session i n ≡ ltb before n
unfolding ends_session
ends_session-some i n before h = rw h refl

-- A close that the client reports once connected goes into the channel last, with a count that ends
-- the session whenever the run loop reads it, whatever else happens and is read before that. The
-- closes so far are at least those before the first connection, and fewer than a u32 counts.
pub close-ends_session :
    (s : Events) (ms : List Move) (before : ℕ)
    → s.inbound.closes_before_connecting ≡ some before
    → before ≤ s.inbound.closes
    → s.inbound.closes + 1 < 2 ^ 32
    → (n : ℕ) × ((on_event s on_closed).queue ≡ s.queue ++ closed_at n ∷ [])
      × (ends_session (run (on_event s on_closed) ms).inbound n ≡ true)
unfolding on_event closed send
close-ends_session s ms before h le fits = (
  (s.inbound.closes + 1) % 2 ^ 32,
  refl,
  ends_session-some _ _ before (run-keeps (on_event s on_closed) ms before h) ∙ ground arith,
)

-- A close counted before the first connection (the client's own retries) never ends the session,
-- whether it is read before the connection or, after whatever happens, once it is up.
early-ends_session :
    (s : Events) (ms : List Move) (n : ℕ)
    → s.inbound.closes_before_connecting ≡ none
    → n ≤ s.inbound.closes
    → (ends_session s.inbound n ≡ false)
      × (ends_session (run (on_event s on_connected) ms).inbound n ≡ false)
unfolding on_event connected
early-ends_session s ms n h le = (
  (unfold ends_session in rw h refl),
  ends_session-some _ _ s.inbound.closes
        (run-keeps (on_event s on_connected) ms s.inbound.closes (rw h refl))
      ∙ ground arith,
)
