-- ===== src/Frame.antt =====
-- `Frame` of src/message.rs. A text is held as its UTF-8 bytes, as Rust holds it.
use nerves_hub_link_esp.Base.{
  ℕ, Bool, true, false, ◌&&◌, ◌≡◌, refl, List, [], ◌∷◌, leb, length, ◌==◌, if◌then◌else◌,
}

pub data Frame : Type 0 where
  text binary : List ℕ → Frame

unfoldable pub len : Frame → ℕ
len (text bytes) = length bytes
len (binary bytes) = length bytes

abbrev Range : Type 0
Range = ℕ × ℕ

abbrev tail_byte : Range
tail_byte = (0x80, 0xBF)

-- Whether a byte can begin a character, and the ranges of the bytes that must follow it.
following : ℕ → Bool × List Range
following b =
    if leb b 0x7F
    then (true, [])
    else if leb b 0xC1
    then (false, [])
    else if leb b 0xDF
    then (true, tail_byte ∷ [])
    else if b == 0xE0
    then (true, (0xA0, 0xBF) ∷ tail_byte ∷ [])
    else if b == 0xED
    then (true, (0x80, 0x9F) ∷ tail_byte ∷ [])
    else if leb b 0xEF
    then (true, tail_byte ∷ tail_byte ∷ [])
    else if b == 0xF0
    then (true, (0x90, 0xBF) ∷ tail_byte ∷ tail_byte ∷ [])
    else if leb b 0xF3
    then (true, tail_byte ∷ tail_byte ∷ tail_byte ∷ [])
    else if b == 0xF4
    then (true, (0x80, 0x8F) ∷ tail_byte ∷ tail_byte ∷ [])
    else (false, [])

-- `std::str::from_utf8`: the bytes of a text, after a character that still wants `wanted`.
utf8_from : List Range → List ℕ → Bool
unfolding following
utf8_from [] [] = true
utf8_from (r ∷ rs) [] = false
utf8_from [] (b ∷ bs) = let (begins, wanted) = following b in begins && utf8_from wanted bs
utf8_from ((lo, hi) ∷ rs) (b ∷ bs) = (leb lo b && leb b hi) && utf8_from rs bs

unfoldable pub is_utf8 : List ℕ → Bool
unfolding utf8_from
is_utf8 bytes = utf8_from [] bytes

is_utf8_euro : is_utf8 (0x41 ∷ 0xE2 ∷ 0x82 ∷ 0xAC ∷ []) ≡ true
unfolding is_utf8
is_utf8_euro = refl

is_utf8_cut : is_utf8 (0x41 ∷ 0xE2 ∷ 0x82 ∷ []) ≡ false
unfolding is_utf8
is_utf8_cut = refl
