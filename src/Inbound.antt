-- ===== src/Inbound.antt =====
-- src/inbound.rs: the pieces of websocket frames put back together into whole messages.
pub mod Bounds
pub mod Messages
pub mod Keeps
mod Examples
use nerves_hub_link_esp.Base.{
  ℕ, ◌+◌, ◌-◌, ◌*◌, ◌%◌, ◌^◌, ◌≤◌, Bool, true, false, not, ◌&&◌, ◌||◌, Option, none, some, List, [],
  ◌∷◌, ◌++◌, leb, ltb, ◌==◌, length, or_else, if◌then◌else◌,
}
use nerves_hub_link_esp.Frame.{Frame, text, binary, len, is_utf8}

abbrev pub max_unread_bytes : ℕ
max_unread_bytes = 16 * 1024

pub data Incoming : Type 0 where
  frame : Frame → Incoming
  closed_at : ℕ → Incoming
  overflow : Incoming

abbrev pub opcode_continuation : ℕ
opcode_continuation = 0

abbrev pub opcode_text : ℕ
opcode_text = 1

abbrev pub opcode_binary : ℕ
opcode_binary = 2

abbrev pub opcode_close : ℕ
opcode_close = 8

pub record Piece : Type 0 where
  pub opcode : ℕ
  pub fin : Bool
  pub offset : ℕ
  pub payload_len : ℕ
  pub bytes : List ℕ

pub record Inbound : Type 0 where
  pub partial : List ℕ
  pub is_binary : Bool
  pub unread : ℕ
  pub overflowed : Bool
  pub closes : ℕ
  pub closes_before_connecting : Option ℕ

abbrev pub start : Inbound
start = record {
  partial = [];
  is_binary = false;
  unread = 0;
  overflowed = false;
  closes = 0;
  closes_before_connecting = none;
}

-- `get_or_insert`
unfoldable pub connected : Inbound → Inbound
connected i = record i {
  closes_before_connecting = or_else i.closes_before_connecting (some i.closes);
}

-- The count is a u32.
unfoldable pub closed : Inbound → Inbound × Incoming
closed i = let n = (i.closes + 1) % 2 ^ 32 in (record i { closes = n }, closed_at n)

unfoldable pub ends_session : Inbound → ℕ → Bool
ends_session i n = elim i.closes_before_connecting [ none ↦ false | some before ↦ ltb before n ]

-- The subtraction saturates.
unfoldable pub read : Inbound → Frame → Inbound
unfolding len
read i f = record i { unread = i.unread - len f }

-- A text or binary frame's first piece starts a message.
begin_message : Inbound → Piece → Inbound
begin_message i p =
    if not (p.opcode == opcode_continuation) && p.offset == 0
    then record i { partial = []; is_binary = p.opcode == opcode_binary }
    else i

whole_frame : Bool → List ℕ → Option Frame
unfolding is_utf8
whole_frame true message = some (binary message)
whole_frame false message = if is_utf8 message then some (text message) else none

hand_on : Inbound → Option Frame → Inbound × Option Incoming
unfolding len
hand_on i none = (i, none)
hand_on i (some f) = (record i { unread = i.unread + len f }, some (frame f))

-- The piece has been added: the message goes on once its last frame is whole.
finish_message : Inbound → Piece → Inbound × Option Incoming
unfolding whole_frame hand_on
finish_message i p =
    if leb p.payload_len (p.offset + length p.bytes) && p.fin
    then hand_on (record i { partial = [] }) (whole_frame i.is_binary i.partial)
    else (i, none)

add_piece : Inbound → Piece → Inbound × Option Incoming
unfolding finish_message
add_piece i p =
    if ltb max_unread_bytes (i.unread + length i.partial + length p.bytes)
    then (record i { overflowed = true; partial = [] }, some overflow)
    else finish_message (record i { partial = i.partial ++ p.bytes }) p

data_piece : Inbound → Piece → Inbound × Option Incoming
unfolding begin_message add_piece
data_piece i p = if i.overflowed then (i, none) else add_piece (begin_message i p) p

unfoldable pub is_data : ℕ → Bool
is_data opcode = opcode == opcode_text || (opcode == opcode_binary || opcode == opcode_continuation)

unfoldable pub piece : Inbound → Piece → Inbound × Option Incoming
unfolding data_piece is_data closed
piece i p =
    if is_data p.opcode
    then data_piece i p
    else if p.opcode == opcode_close
    then (let (i', c) = closed i in (i', some c))
    else (i, none)
