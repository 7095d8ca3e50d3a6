-- ===== src/Transport/Bounds.antt =====
-- The memory that the channel of src/transport.rs can hold.
use nerves_hub_link_esp.Base.{
  ℕ, ◌+◌, ◌≤◌, ◌≡◌, Option, none, some, List, [], ◌∷◌, ◌++◌, arith, length, refl, ap,
}
use nerves_hub_link_esp.Inbound.{
  Inbound, Incoming, frame, closed_at, overflow, max_unread_bytes, connected, closed, read, piece,
}
use nerves_hub_link_esp.Inbound.Bounds.{incoming_bytes, Fits, piece-Fits}
use nerves_hub_link_esp.Transport.{
  Events, on_connected, on_closed, on_other, on_data, Move, happens, takes, receives, send,
  take_next, receive, take, recv_taken, on_event, step, run,
}

unfoldable pub waiting_bytes : List Incoming → ℕ
waiting_bytes [] = 0
waiting_bytes (m ∷ q) = incoming_bytes m + waiting_bytes q

waiting_bytes-append_one :
    (q : List Incoming) (m : Incoming)
    → waiting_bytes (q ++ m ∷ []) ≡ waiting_bytes q + incoming_bytes m
unfolding waiting_bytes
waiting_bytes-append_one [] m = omega arith
waiting_bytes-append_one (n ∷ q) m = omega (arith, waiting_bytes-append_one q m)

unfoldable pub taken_bytes : Option Incoming → ℕ
taken_bytes none = 0
taken_bytes (some m) = incoming_bytes m

-- What waits and what was taken are counted exactly, and with the message that is being put together
-- stay in bounds.
pub record IsBounded (s : Events) : Type 0 where
  pub counted : s.inbound.unread ≡ waiting_bytes s.queue + taken_bytes s.taken
  pub bounded : s.inbound.unread + length s.inbound.partial ≤ max_unread_bytes

send-IsBounded :
    (r : Inbound × Option Incoming) (s : Events)
    → s.inbound.unread ≡ waiting_bytes s.queue + taken_bytes s.taken
    → Fits s.inbound.unread r
    → IsBounded (send r s)
unfolding send
send-IsBounded (i, none) s e f = omega (arith, e, f.counted, f.bounded)
send-IsBounded (i, some m) s e f =
    omega (arith, e, f.counted, f.bounded, waiting_bytes-append_one s.queue m)

closed-IsBounded : (s : Events) → IsBounded s → IsBounded (on_event s on_closed)
unfolding on_event send closed incoming_bytes
closed-IsBounded s h = omega (arith, h.counted, h.bounded, waiting_bytes-append_one s.queue)

connected-IsBounded : (s : Events) → IsBounded s → IsBounded (on_event s on_connected)
unfolding on_event connected
connected-IsBounded s h = omega (arith, h.counted, h.bounded)

take_next-IsBounded :
    (i : Inbound) (taken : Option Incoming) (q : List Incoming)
    → i.unread ≡ waiting_bytes q + taken_bytes taken
    → i.unread + length i.partial ≤ max_unread_bytes
    → IsBounded (take_next i taken q)
unfolding take_next waiting_bytes taken_bytes
take_next-IsBounded i (some m) q e b = record { counted = e; bounded = b }
take_next-IsBounded i none [] e b = record { counted = e; bounded = b }
take_next-IsBounded i none (m ∷ q) e b = record { counted = omega (arith, e); bounded = b }

receive-IsBounded :
    (s : Events) (taken : Option Incoming)
    → s.taken ≡ taken
    → IsBounded s
    → IsBounded (receive s taken).0
unfolding receive read taken_bytes incoming_bytes
receive-IsBounded s none t h = h
receive-IsBounded s (some (frame f)) t h = omega (arith, h.counted, h.bounded, ap taken_bytes t)
receive-IsBounded s (some (closed_at n)) t h = omega (arith, h.counted, h.bounded, ap taken_bytes t)
receive-IsBounded s (some overflow) t h = omega (arith, h.counted, h.bounded, ap taken_bytes t)

step-IsBounded : (s : Events) (m : Move) → IsBounded s → IsBounded (step s m)
unfolding step on_event take recv_taken
step-IsBounded s (happens on_connected) h = connected-IsBounded s h
step-IsBounded s (happens on_closed) h = closed-IsBounded s h
step-IsBounded s (happens on_other) h = h
step-IsBounded s (happens (on_data p)) h =
    send-IsBounded (piece s.inbound p) s h.counted (piece-Fits s.inbound p h.bounded)
step-IsBounded s takes h = take_next-IsBounded s.inbound s.taken s.queue h.counted h.bounded
step-IsBounded s receives h = receive-IsBounded s s.taken refl h

-- From a state of which it holds, such as a new channel's, and however the client's events and the two
-- halves of the run loop's reads interleave, the channel being read without the lock: the unread count
-- is the number of bytes in the frames that wait in the channel and in the one just taken from it, and
-- they and the message being put together are never more than 16 KiB in all.
pub run-IsBounded : (s : Events) (ms : List Move) → IsBounded s → IsBounded (run s ms)
unfolding run
run-IsBounded s [] h = h
run-IsBounded s (m ∷ ms) h = run-IsBounded (step s m) ms (step-IsBounded s m h)
