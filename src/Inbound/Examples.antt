-- ===== src/Inbound/Examples.antt =====
-- Runs of `Inbound` (src/inbound.rs).
use nerves_hub_link_esp.Base.{◌≡◌, refl, true, false, List, [], ◌∷◌, arith, ◌==◌}
use nerves_hub_link_esp.Frame.{text}
use nerves_hub_link_esp.Inbound.{
  Piece, frame, start, piece, is_data, opcode_text, opcode_continuation, opcode_binary,
}
use nerves_hub_link_esp.Inbound.Messages.{feed, payload, delivered, Rest, feed-message}

-- "ab" in a frame of its own, then "cde" in a continuation frame that comes in two pieces.
abbrev first : Piece
first = record {
  opcode = opcode_text;
  fin = false;
  offset = 0;
  payload_len = 2;
  bytes = 97 ∷ 98 ∷ [];
}

abbrev others : List Piece
others =
    record {
      opcode = opcode_continuation;
      fin = true;
      offset = 0;
      payload_len = 3;
      bytes = 99 ∷ 100 ∷ [];
    }
    ∷ record {
      opcode = opcode_continuation;
      fin = true;
      offset = 2;
      payload_len = 3;
      bytes = 101 ∷ [];
    }
    ∷ []

feed_test : (feed start (first ∷ others)).1 ≡ frame (text (97 ∷ 98 ∷ 99 ∷ 100 ∷ 101 ∷ [])) ∷ []
unfolding feed piece
feed_test = refl

others-Rest : Rest others
unfolding Rest is_data
others-Rest = (refl, refl, (refl, refl))

feed-message_example :
    (feed start (first ∷ others)).1
    ≡ delivered (opcode_text == opcode_binary) (payload (first ∷ others))
feed-message_example =
    feed-message start first others refl refl refl others-Rest (unfold payload in omega arith)
