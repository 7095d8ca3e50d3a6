-- ===== src/Inbound/Keeps.antt =====
-- What no piece changes in `Inbound` (src/inbound.rs).
use nerves_hub_link_esp.Base.{
  ◌+◌, ◌≡◌, refl, ◌∙◌, [], Option, none, some, ◌++◌, arith, ltb, leb, ◌&&◌, ◌==◌, length, if_intro,
}
use nerves_hub_link_esp.Frame.{Frame}
use nerves_hub_link_esp.Inbound.{
  Inbound, Incoming, Piece, max_unread_bytes, closed, piece, begin_message, add_piece,
  finish_message, hand_on, data_piece, is_data, opcode_close,
}

-- The number of closes before the first connection, as a state that keeps it.
pub record Keeps (i i' : Inbound) : Type 0 where
  pub same : i'.closes_before_connecting ≡ i.closes_before_connecting

-- `Keeps` of a step's result.
abbrev KeepsPair : Inbound → Inbound × Option Incoming → Type 0
KeepsPair i r = Keeps i r.0

hand_on-Keeps : (i : Inbound) (o : Option Frame) → Keeps i (hand_on i o).0
unfolding hand_on
hand_on-Keeps i none = record { same = refl }
hand_on-Keeps i (some f) = record { same = refl }

finish_message-Keeps : (i : Inbound) (p : Piece) → Keeps i (finish_message i p).0
unfolding finish_message
finish_message-Keeps i p =
    if_intro (KeepsPair i) (leb p.payload_len (p.offset + length p.bytes) && p.fin) _ (i, none)
      (λ last. record { same = (hand_on-Keeps (record i { partial = [] }) _).same })
      (λ more. record { same = refl })

add_piece-Keeps : (i : Inbound) (p : Piece) → Keeps i (add_piece i p).0
unfolding add_piece
add_piece-Keeps i p =
    if_intro (KeepsPair i) (ltb max_unread_bytes (i.unread + length i.partial + length p.bytes)) _ _
      (λ over. record { same = refl })
      (λ room. record {
        same = (finish_message-Keeps (record i { partial = i.partial ++ p.bytes }) p).same;
      })

begin_message-Keeps : (i : Inbound) (p : Piece) → Keeps i (begin_message i p)
unfolding begin_message
begin_message-Keeps i p = record { same = ground arith }

pub piece-Keeps : (i : Inbound) (p : Piece) → Keeps i (piece i p).0
unfolding piece data_piece closed
piece-Keeps i p =
    if_intro (KeepsPair i) (is_data p.opcode) (data_piece i p) _
      (λ data_.
        if_intro (KeepsPair i) i.overflowed (i, none) (add_piece (begin_message i p) p)
          (λ over. record { same = refl })
          (λ going. record {
            same = (add_piece-Keeps (begin_message i p) p).same ∙ (begin_message-Keeps i p).same;
          }))
      (λ other.
        if_intro (KeepsPair i) (p.opcode == opcode_close) _ (i, none) (λ c. record { same = refl })
          (λ c. record { same = refl }))
