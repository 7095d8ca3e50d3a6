-- ===== src/Inbound/Bounds.antt =====
-- What `Inbound` of src/inbound.rs holds, whatever piece arrives.
use nerves_hub_link_esp.Base.{
  ℕ, ◌+◌, ◌≤◌, ◌≡◌, refl, ap, inl, inr, Bool, true, false, Option, none, some, List, [], ◌++◌,
  arith, length, length-append, Bool-cases, ltb, leb, ◌&&◌, ◌==◌, subst, if_intro,
}
use nerves_hub_link_esp.Frame.{len, is_utf8}
use nerves_hub_link_esp.Inbound.{
  Inbound, Piece, Incoming, frame, closed_at, overflow, max_unread_bytes, piece, begin_message,
  add_piece, finish_message, hand_on, whole_frame, data_piece, is_data, opcode_close,
}

-- The bytes of a message for the run loop.
unfoldable pub incoming_bytes : Incoming → ℕ
unfolding len
incoming_bytes (frame f) = len f
incoming_bytes (closed_at n) = 0
incoming_bytes overflow = 0

abbrev pub output_bytes : Option Incoming → ℕ
output_bytes none = 0
output_bytes (some m) = incoming_bytes m

-- From a state with `unread` bytes unread: what is handed on is counted, and all stays in bounds.
pub record Fits (unread : ℕ) (r : Inbound × Option Incoming) : Type 0 where
  pub counted : r.0.unread ≡ unread + output_bytes r.1
  pub bounded : r.0.unread + length r.0.partial ≤ max_unread_bytes

hand_on-Fits :
    (i : Inbound) (b : Bool) (message : List ℕ)
    → i.partial ≡ []
    → i.unread + length message ≤ max_unread_bytes
    → Fits i.unread (hand_on i (whole_frame b message))
unfolding hand_on whole_frame incoming_bytes
hand_on-Fits i true message e h = omega (arith, ap length e)
hand_on-Fits i false message e h = elim (Bool-cases (is_utf8 message)) [
  | inl valid ↦ rw valid (omega (arith, ap length e))
  | inr invalid ↦ rw invalid (omega (arith, ap length e))
]

finish_message-Fits :
    (i : Inbound) (p : Piece)
    → i.unread + length i.partial ≤ max_unread_bytes
    → Fits i.unread (finish_message i p)
unfolding finish_message
finish_message-Fits i p h =
    elim (Bool-cases (leb p.payload_len (p.offset + length p.bytes) && p.fin)) [
      | inl last ↦ rw last (hand_on-Fits (record i { partial = [] }) i.is_binary i.partial refl h)
      | inr more ↦ rw more (omega arith)
    ]

add_piece-Fits :
    (i : Inbound) (p : Piece) → i.unread ≤ max_unread_bytes → Fits i.unread (add_piece i p)
unfolding add_piece incoming_bytes
add_piece-Fits i p h =
    elim (Bool-cases (ltb max_unread_bytes (i.unread + length i.partial + length p.bytes))) [
      | inl over ↦ rw over (omega arith)
      | inr room ↦ rw room (
          finish_message-Fits (record i { partial = i.partial ++ p.bytes }) p
            (ground (arith, length-append i.partial p.bytes)))
    ]

begin_message-unread : (i : Inbound) (p : Piece) → (begin_message i p).unread ≡ i.unread
unfolding begin_message
begin_message-unread i p = ground arith

data_piece-Fits :
    (i : Inbound) (p : Piece)
    → i.unread + length i.partial ≤ max_unread_bytes
    → Fits i.unread (data_piece i p)
unfolding data_piece
data_piece-Fits i p h =
    if_intro (Fits i.unread) i.overflowed (i, none) (add_piece (begin_message i p) p)
      (λ over. omega arith)
      (λ going.
        subst (λ u. Fits u (add_piece (begin_message i p) p)) (begin_message-unread i p)
          (add_piece-Fits (begin_message i p) p (omega (arith, begin_message-unread i p))))

-- Whatever piece arrives, what it completes is counted as unread, and what is unread and what is
-- being put together stay within the limit.
pub piece-Fits :
    (i : Inbound) (p : Piece)
    → i.unread + length i.partial ≤ max_unread_bytes
    → Fits i.unread (piece i p)
unfolding piece incoming_bytes
piece-Fits i p h =
    if_intro (Fits i.unread) (is_data p.opcode) (data_piece i p) _ (λ data_. data_piece-Fits i p h)
      (λ other.
        if_intro (Fits i.unread) (p.opcode == opcode_close) _ (i, none) (λ c. omega arith)
          (λ c. omega arith))
