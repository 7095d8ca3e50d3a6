-- ===== src/Transport.antt =====
-- src/transport.rs: the channel from the websocket client's events to the run loop. The client itself
-- (ESP-IDF's) is not modelled; its events are.
pub mod Bounds
pub mod Closes
mod Examples
use nerves_hub_link_esp.Base.{ℕ, Bool, Option, none, some, List, [], ◌∷◌, ◌++◌, if◌then◌else◌}
use nerves_hub_link_esp.Error.{Error, Result, ok, err, transport}
use nerves_hub_link_esp.Frame.{Frame}
use nerves_hub_link_esp.Inbound.{
  Inbound, Piece, Incoming, frame, closed_at, overflow, connected, closed, read, piece,
  ends_session,
}

-- `EventState`, with the messages that wait in the channel, oldest first, and the one that the run
-- loop has taken from the channel and not yet dealt with.
pub record Events : Type 0 where
  pub inbound : Inbound
  pub queue : List Incoming
  pub taken : Option Incoming

pub data Event : Type 0 where
  on_connected on_closed on_other : Event
  on_data : Piece → Event

send : Inbound × Option Incoming → Events → Events
send (i, none) s = record s { inbound = i }
send (i, some m) s = record s { inbound = i; queue = s.queue ++ m ∷ [] }

-- An event of the client, dealt with under the lock.
unfoldable pub on_event : Events → Event → Events
unfolding send
on_event s on_connected = record s { inbound = connected s.inbound }
on_event s on_closed = let (i, c) = closed s.inbound in send (i, some c) s
on_event s on_other = s
on_event s (on_data p) = send (piece s.inbound p) s

take_next : Inbound → Option Incoming → List Incoming → Events
take_next i (some m) q = record { inbound = i; queue = q; taken = some m }
take_next i none [] = record { inbound = i; queue = []; taken = none }
take_next i none (m ∷ q) = record { inbound = i; queue = q; taken = some m }

-- `recv_timeout` on the channel, without the lock, once the one taken before is dealt with. Nothing in the
-- channel is a wait that timed out. It is never disconnected: the transport that reads from it also
-- keeps the sender alive.
unfoldable pub take : Events → Events
unfolding take_next
take s = take_next s.inbound s.taken s.queue

-- What a message taken from the channel is to the run loop.
receive : Events → Option Incoming → Events × Result (Option Frame)
receive s none = (s, ok none)
receive s (some (frame f)) = (record s { inbound = read s.inbound f; taken = none }, ok (some f))
receive s (some overflow) = (record s { taken = none }, err (transport "too much arrived unread"))
receive s (some (closed_at n)) = (
  record s { taken = none },
  (if ends_session s.inbound n then err (transport "websocket closed") else ok none),
)

-- The rest of `recv_frame`, under the lock: events may have come since the message was taken.
unfoldable pub recv_taken : Events → Events × Result (Option Frame)
unfolding receive
recv_taken s = receive s s.taken

-- What the two sides do, in the order in which they do it.
pub data Move : Type 0 where
  happens : Event → Move
  takes receives : Move

unfoldable pub step : Events → Move → Events
unfolding on_event take recv_taken
step s (happens e) = on_event s e
step s takes = take s
step s receives = (recv_taken s).0

unfoldable pub run : Events → List Move → Events
unfolding step
run s [] = s
run s (m ∷ ms) = run (step s m) ms
