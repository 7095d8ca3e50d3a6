-- ===== src/Inbound/Messages.antt =====
-- A message in pieces comes out of `Inbound` (src/inbound.rs) whole, once.
use nerves_hub_link_esp.Base.{
  ℕ, ◌+◌, ◌≤◌, ◌≡◌, refl, ap, sym, ◌∙◌, inl, inr, Bool, true, false, not, Option, none, some, List,
  [], ◌∷◌, ◌++◌, arith, length, length-append, Bool-cases, ltb, leb, ◌&&◌, ◌||◌, ◌==◌,
  if◌then◌else◌, append_assoc, append_nil,
}
use nerves_hub_link_esp.Frame.{text, binary, is_utf8}
use nerves_hub_link_esp.Inbound.{
  Inbound, Piece, Incoming, frame, max_unread_bytes, piece, begin_message, add_piece,
  finish_message, hand_on, whole_frame, data_piece, is_data, opcode_continuation, opcode_binary,
  opcode_text,
}

collect : Option Incoming → List Incoming → List Incoming
collect none out = out
collect (some m) out = m ∷ out

-- The pieces one after another, with all that comes out.
unfoldable pub feed : Inbound → List Piece → Inbound × List Incoming
unfolding collect
feed i [] = (i, [])
feed i (p ∷ ps) = let rest = feed (piece i p).0 ps in (rest.0, collect (piece i p).1 rest.1)

-- The last piece of the last frame of its message.
abbrev pub is_last : Piece → Bool
is_last p = leb p.payload_len (p.offset + length p.bytes) && p.fin

-- A piece that carries a message on: of a continuation frame, or not the first of its frame.
abbrev pub carries_on : Piece → Bool
carries_on p = is_data p.opcode && (p.opcode == opcode_continuation || not (p.offset == 0))

-- A piece that starts a message.
abbrev pub starts : Piece → Bool
starts p = (p.opcode == opcode_text || p.opcode == opcode_binary) && p.offset == 0

-- The pieces after the first: all carry on, and the last one alone is last.
unfoldable pub Rest : List Piece → Type 0
Rest [] = ⊥
Rest (p ∷ []) = (carries_on p ≡ true) × (is_last p ≡ true)
Rest (p ∷ q ∷ ps) = (carries_on p ≡ true) × (is_last p ≡ false) × Rest (q ∷ ps)

unfoldable pub payload : List Piece → List ℕ
payload [] = []
payload (p ∷ ps) = p.bytes ++ payload ps

-- What a whole message is handed on as; a text that is not UTF-8 is dropped.
unfoldable pub delivered : Bool → List ℕ → List Incoming
delivered true message = frame (binary message) ∷ []
delivered false message = if is_utf8 message then frame (text message) ∷ [] else []

begin_message-carries_on : (i : Inbound) (p : Piece) → carries_on p ≡ true → begin_message i p ≡ i
unfolding begin_message is_data
begin_message-carries_on i p c = ground arith

piece-data :
    (i : Inbound) (p : Piece)
    → i.overflowed ≡ false
    → is_data p.opcode ≡ true
    → piece i p ≡ add_piece (begin_message i p) p
unfolding piece data_piece
piece-data i p o d = rw d (rw o refl)

add_piece-room :
    (i : Inbound) (p : Piece)
    → i.unread + length i.partial + length p.bytes ≤ max_unread_bytes
    → add_piece i p ≡ finish_message (record i { partial = i.partial ++ p.bytes }) p
unfolding add_piece
add_piece-room i p room =
    elim (Bool-cases (ltb max_unread_bytes (i.unread + length i.partial + length p.bytes))) [
      | inl over ↦ absurd (ground arith)
      | inr fits ↦ rw fits refl
    ]

finish_message-more : (i : Inbound) (p : Piece) → is_last p ≡ false → finish_message i p ≡ (i, none)
unfolding finish_message
finish_message-more i p l = rw l refl

collect-hand_on :
    (i : Inbound) (b : Bool) (message : List ℕ)
    → collect (hand_on i (whole_frame b message)).1 [] ≡ delivered b message
unfolding collect hand_on whole_frame delivered
collect-hand_on i true message = refl
collect-hand_on i false message = ground arith

feed-middle :
    (i : Inbound) (p : Piece) (ps : List Piece)
    → piece i p ≡ (record i { partial = i.partial ++ p.bytes }, none)
    → (feed i (p ∷ ps)).1 ≡ (feed (record i { partial = i.partial ++ p.bytes }) ps).1
unfolding feed collect
feed-middle i p ps e = rw e refl

piece-room :
    (i : Inbound) (p : Piece)
    → i.overflowed ≡ false
    → carries_on p ≡ true
    → i.unread + length i.partial + length p.bytes ≤ max_unread_bytes
    → piece i p ≡ finish_message (record i { partial = i.partial ++ p.bytes }) p
piece-room i p o c room =
    piece-data i p o (ground arith)
    ∙ ap (λ k. add_piece k p) (begin_message-carries_on i p c)
    ∙ add_piece-room i p room

feed-last :
    (i : Inbound) (p : Piece)
    → is_last p ≡ true
    → piece i p ≡ finish_message (record i { partial = i.partial ++ p.bytes }) p
    → (feed i (p ∷ [])).1 ≡ delivered i.is_binary (i.partial ++ p.bytes)
unfolding feed finish_message
feed-last i p l e =
    ap (λ r. collect r.1 []) e
    ∙ (rw l (collect-hand_on (record i { partial = [] }) i.is_binary (i.partial ++ p.bytes)))

-- From inside a message: its remaining pieces, with room for all of them, hand it on whole.
feed-Rest :
    (i : Inbound) (ps : List Piece)
    → i.overflowed ≡ false
    → Rest ps
    → i.unread + length i.partial + length (payload ps) ≤ max_unread_bytes
    → (feed i ps).1 ≡ delivered i.is_binary (i.partial ++ payload ps)
unfolding Rest payload
feed-Rest i [] o r room = absurd r
feed-Rest i (p ∷ []) o (c, l) room =
    feed-last i p l (piece-room i p o c (omega (arith, ap length (append_nil p.bytes))))
    ∙ ap (λ k. delivered i.is_binary (i.partial ++ k)) (sym (append_nil p.bytes))
feed-Rest i (p ∷ q ∷ ps) o (c, m, r) room =
    let split : length (p.bytes ++ payload (q ∷ ps)) ≡ length p.bytes + length (payload (q ∷ ps)) =
      length-append p.bytes (payload (q ∷ ps)) in
    feed-middle i p (q ∷ ps) (piece-room i p o c (omega (arith, split)) ∙ finish_message-more _ p m)
    ∙ feed-Rest (record i { partial = i.partial ++ p.bytes }) (q ∷ ps) o r
        (omega (arith, split, length-append i.partial p.bytes))
    ∙ ap (delivered i.is_binary) (append_assoc i.partial p.bytes (payload (q ∷ ps)))

begin_message-starts :
    (i : Inbound) (p : Piece)
    → starts p ≡ true
    → begin_message i p ≡ record i { partial = []; is_binary = p.opcode == opcode_binary }
unfolding begin_message
begin_message-starts i p s = ground arith

starts-is_data : (p : Piece) → starts p ≡ true → is_data p.opcode ≡ true
unfolding is_data
starts-is_data p s = ground arith

-- The first piece of a message that is not the last.
piece-starts :
    (i : Inbound) (p : Piece)
    → i.overflowed ≡ false
    → starts p ≡ true
    → is_last p ≡ false
    → i.unread + length p.bytes ≤ max_unread_bytes
    → piece i p ≡ (record i { partial = p.bytes; is_binary = p.opcode == opcode_binary }, none)
piece-starts i p o s m room =
    piece-data i p o (starts-is_data p s)
    ∙ ap (λ k. add_piece k p) (begin_message-starts i p s)
    ∙ add_piece-room (record i { partial = []; is_binary = p.opcode == opcode_binary }) p
        (omega arith)
    ∙ finish_message-more _ p m

-- Before the channel has overflowed, a message of several pieces (a first piece of a text or binary
-- frame, then pieces that carry it on, of the same frame or of continuation frames, of which the last
-- alone completes the final frame) that fits in what is left of the limit is handed on exactly once,
-- with all its bytes in order, as the kind of frame its first piece names; a text that is not UTF-8
-- is dropped. What was partly put together before it does not matter.
pub feed-message :
    (i : Inbound) (p : Piece) (ps : List Piece)
    → i.overflowed ≡ false
    → starts p ≡ true
    → is_last p ≡ false
    → Rest ps
    → i.unread + length (payload (p ∷ ps)) ≤ max_unread_bytes
    → (feed i (p ∷ ps)).1 ≡ delivered (p.opcode == opcode_binary) (payload (p ∷ ps))
unfolding payload feed collect
feed-message i p ps o s m r room =
    let split : length (p.bytes ++ payload ps) ≡ length p.bytes + length (payload ps) =
      length-append p.bytes (payload ps) in
    ap (λ k. collect k.1 (feed k.0 ps).1) (piece-starts i p o s m (omega (arith, split)))
    ∙ feed-Rest (record i { partial = p.bytes; is_binary = p.opcode == opcode_binary }) ps o r
        (omega (arith, split))
