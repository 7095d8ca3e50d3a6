-- ===== src/Transport/Examples.antt =====
-- Runs of the channel of src/transport.rs.
use nerves_hub_link_esp.Base.{ℕ, ◌≡◌, refl, true, none, some, List, [], ◌∷◌, ◌++◌, arith}
use nerves_hub_link_esp.Inbound.{Inbound, Piece, closed_at, ends_session, opcode_text}
use nerves_hub_link_esp.Inbound
use nerves_hub_link_esp.Transport.{
  Events, on_connected, on_closed, on_data, Move, happens, takes, receives, on_event, run,
}
use nerves_hub_link_esp.Transport.Bounds.{IsBounded, run-IsBounded, waiting_bytes, taken_bytes}
use nerves_hub_link_esp.Transport.Closes.{close-ends_session}

abbrev idle : Events
idle = record { inbound = Inbound.start; queue = []; taken = none }

abbrev hello : Piece
hello = record {
  opcode = opcode_text;
  fin = true;
  offset = 0;
  payload_len = 2;
  bytes = 104 ∷ 105 ∷ [];
}

abbrev moves : List Move
moves =
    happens on_closed
    ∷ happens on_connected
    ∷ happens (on_data hello)
    ∷ takes
    ∷ receives
    ∷ takes
    ∷ happens (on_data hello)
    ∷ receives
    ∷ []

-- The websocket is up, after one close of the client's own retries.
abbrev connected_once : Events
connected_once = record {
  inbound = record Inbound.start { closes = 1; closes_before_connecting = some 1 };
  queue = [];
  taken = none;
}

run-IsBounded_example : IsBounded (run idle moves)
run-IsBounded_example = run-IsBounded idle moves (record {
  counted = (unfold waiting_bytes in unfold taken_bytes in refl);
  bounded = omega arith;
})

close-ends_session_example :
    (n : ℕ) × ((on_event connected_once on_closed).queue ≡ [] ++ closed_at n ∷ [])
    × (ends_session (run (on_event connected_once on_closed) moves).inbound n ≡ true)
close-ends_session_example =
    close-ends_session connected_once moves 1 refl (omega arith) (omega arith)
