-- ===== src/Base/Utf8.antt =====
-- Characters and their bytes: a text from its code points, and UTF-8.
use Prim.Native.Nat.{ℕ, zero, suc, ◌+◌, ◌-◌, ◌*◌, ◌/◌, ◌%◌, ◌<◌, compare, Ordering}
use Prim.Native.Char.{Char, char, nul, IsScalar}
use Prim.Native.String.{String}
use mathlib.Core.Path.{◌≡◌, refl, ap, ◌∙◌}
use mathlib.Core.List.{List, [], ◌∷◌, ◌++◌}
use native.Mathlib.Omega.{arith}
use native.Mathlib.Decide.{dec_lt}
use nerves_hub_link_esp.Base.Tests.{ltb, if◌then◌else◌}
use nerves_hub_link_esp.Base.Text.{codes}

-- `compare` on the numbers, read from an order.
low-IsScalar : (n : ℕ) → n < 55296 → IsScalar n
low-IsScalar n h = let e : compare n 55296 ≡ Ordering.lt = ground arith in rw e tt

high-IsScalar : (n : ℕ) → 57343 < n → n < 1114112 → IsScalar n
high-IsScalar n h k =
    let e : compare n 55296 ≡ Ordering.gt = ground arith in
    let e' : compare 57343 n ≡ Ordering.lt = ground arith in
    let e'' : compare n 1114112 ≡ Ordering.lt = ground arith in rw (e, e', e'') tt

-- The character of a code point: a Rust `char` has no other numbers.
to_char : ℕ → Char
unfolding low-IsScalar high-IsScalar
to_char n = elim (dec_lt n 55296) [
  | yes h ↦ char n (low-IsScalar n h)
  | no _ ↦ elim (dec_lt 57343 n) [
    | yes h ↦ elim (dec_lt n 1114112) [ yes k ↦ char n (high-IsScalar n h k) | no _ ↦ nul ]
    | no _ ↦ nul
  ]
]

-- The text of code points.
unfoldable pub text_of : List ℕ → String
unfolding to_char dec_lt
text_of [] = String.[]
text_of (c ∷ cs) = String.◌∷◌ (to_char c) (text_of cs)

-- A character's bytes.
utf8_char : ℕ → List ℕ
utf8_char c =
    if ltb c 128
    then c ∷ []
    else if ltb c 2048
    then (192 + c / 64) ∷ (128 + c % 64) ∷ []
    else if ltb c 65536
    then (224 + c / 4096) ∷ (128 + c / 64 % 64) ∷ (128 + c % 64) ∷ []
    else (240 + c / 262144) ∷ (128 + c / 4096 % 64) ∷ (128 + c / 64 % 64) ∷ (128 + c % 64) ∷ []

unfoldable pub utf8 : List ℕ → List ℕ
unfolding utf8_char
utf8 [] = []
utf8 (c ∷ cs) = utf8_char c ++ utf8 cs

-- The characters of valid UTF-8, where `wanted` bytes of one are to come and `c` is what was read.
chars_from : ℕ → ℕ → List ℕ → List ℕ
chars_from wanted c [] = []
chars_from (suc zero) c (b ∷ bs) = (c * 64 + (b - 128)) ∷ chars_from 0 0 bs
chars_from (suc (suc n)) c (b ∷ bs) = chars_from (suc n) (c * 64 + (b - 128)) bs
chars_from zero c (b ∷ bs) =
    let one = b ∷ chars_from 0 0 bs in
    let two = chars_from 1 (b - 192) bs in
    let three = chars_from 2 (b - 224) bs in
    let four = chars_from 3 (b - 240) bs in
    if ltb b 128 then one else if ltb b 224 then two else if ltb b 240 then three else four

unfoldable pub chars : List ℕ → List ℕ
unfolding chars_from
chars bs = chars_from 0 0 bs

chars-char : (c : ℕ) (bs : List ℕ) → c < 2097152 → chars (utf8_char c ++ bs) ≡ c ∷ chars bs
unfolding chars chars_from utf8_char
chars-char c bs h = ground arith

abbrev pub AllChars : List ℕ → Type 0
AllChars [] = Unit {0}
AllChars (c ∷ cs) = (c < 2097152) × AllChars cs

-- The bytes of characters are read back as these characters.
pub chars-utf8 : (cs : List ℕ) → AllChars cs → chars (utf8 cs) ≡ cs
unfolding utf8
chars-utf8 [] h = unfold chars chars_from in refl
chars-utf8 (c ∷ cs) (h, hs) = chars-char c (utf8 cs) h ∙ ap (λ r. c ∷ r) (chars-utf8 cs hs)

utf8_euro : utf8 (codes "A€") ≡ 0x41 ∷ 0xE2 ∷ 0x82 ∷ 0xAC ∷ []
unfolding utf8
utf8_euro = refl

text_of_euro : text_of (chars (utf8 (codes "A€"))) ≡ "A€"
unfolding text_of chars utf8
text_of_euro = refl
