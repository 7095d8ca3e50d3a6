-- ===== src/Base/Text.antt =====
-- Text: whole texts are native strings; where the program walks bytes they are lists of numbers.
use Prim.Native.Nat.{ℕ, zero, suc, ◌+◌, ◌-◌, ◌*◌, ◌/◌, ◌%◌, ◌<◌}
use Prim.Native.Char.{code}
use Prim.Native.String
use Prim.Native.String.{String, char_at}
use mathlib.Core.Path.{◌≡◌, refl, sym, ap, ◌∙◌}
use mathlib.Core.Logic.{◌↔◌, inl, inr}
use mathlib.Core.Bool.{Bool, true, false, ◌&&◌}
use mathlib.Core.List.{List, [], ◌∷◌}
use native.Mathlib.Omega.{arith}
use nerves_hub_link_esp.Base.Tests.{
  ltb, all_below, all_below_sound, ◌==◌, ==_iff, if◌then◌else◌, Bool-cases,
}

-- The code points of a text: its bytes, if it is ASCII.
abbrev pub codes : String → List ℕ
codes String.[] = []
codes (String.◌∷◌ c s) = code c ∷ codes s

-- `char::len_utf8`, and the bytes of a text of code points in UTF-8.
abbrev pub len_utf8 : ℕ → ℕ
len_utf8 c = if ltb c 128 then 1 else if ltb c 2048 then 2 else if ltb c 65536 then 3 else 4

abbrev pub byte_len : List ℕ → ℕ
byte_len [] = 0
byte_len (c ∷ cs) = len_utf8 c + byte_len cs

-- `String::len`.
abbrev pub len : String → ℕ
len s = byte_len (codes s)

-- `format!`: the pieces one after another.
abbrev pub format : List String → String
format [] = ""
format (s ∷ rest) = String.◌++◌ s (format rest)

abbrev pub bytes_eq : List ℕ → List ℕ → Bool
bytes_eq [] [] = true
bytes_eq (x ∷ xs) (y ∷ ys) = x == y && bytes_eq xs ys
bytes_eq _ _ = false

pub bytes_eq_iff : (xs ys : List ℕ) → (bytes_eq xs ys ≡ true) ↔ (xs ≡ ys)
bytes_eq_iff [] [] = ground arith
bytes_eq_iff [] (y ∷ ys) = ground arith
bytes_eq_iff (x ∷ xs) [] = ground arith
bytes_eq_iff (x ∷ xs) (y ∷ ys) = ground (arith, bytes_eq_iff xs ys)

-- The digits of a number in front of a text. Fuel above `n` is enough: each round divides by ten.
digits : ℕ → ℕ → String → String
digits zero n s = s
digits (suc f) n s =
    let front = String.◌∷◌ (char_at "0123456789" (n % 10)) s in
    let rest = digits f (n / 10) front in if n / 10 == 0 then front else rest

-- `u64::to_string`.
unfoldable pub to_string : ℕ → String
unfolding digits
to_string n = digits (suc n) n ""

-- The number that a text of digits spells, after the digits of `acc`.
spelled : ℕ → String → ℕ
spelled acc String.[] = acc
spelled acc (String.◌∷◌ c s) = spelled (acc * 10 + (code c - 48)) s

digit_table : all_below 10 (λ k. code (char_at "0123456789" k) == 48 + k) ≡ true
digit_table = refl

digit-code : (k : ℕ) → k < 10 → code (char_at "0123456789" k) ≡ 48 + k
digit-code k h =
    (==_iff _ _).0
      (all_below_sound 10 (λ j. code (char_at "0123456789" j) == 48 + j) k digit_table h)

spelled-digit :
    (acc n : ℕ) (s : String)
    → spelled acc (String.◌∷◌ (char_at "0123456789" (n % 10)) s) ≡ spelled (acc * 10 + n % 10) s
unfolding spelled
spelled-digit acc n s =
    let e : code (char_at "0123456789" (n % 10)) ≡ 48 + n % 10 =
      digit-code (n % 10) (omega arith) in
    ap (λ k. spelled (acc * 10 + k) s) (omega (arith, e))

spelled-digits : (f n : ℕ) (s : String) → n < f → spelled 0 (digits f n s) ≡ spelled n s
unfolding digits
spelled-digits zero n s h = absurd (omega arith)
spelled-digits (suc f) n s h = elim (Bool-cases (n / 10 == 0)) [
  | inl last ↦
      rw last
        (spelled-digit 0 n s ∙ ap (λ k. spelled k s) (omega (arith, (==_iff (n / 10) 0).0 last)))
  | inr more ↦ rw more (
      spelled-digits f (n / 10) _ (ground arith)
      ∙ spelled-digit (n / 10) n s
      ∙ ap (λ k. spelled k s) (omega arith))
]

spelled-to_string : (n : ℕ) → spelled 0 (to_string n) ≡ n
unfolding to_string
spelled-to_string n = spelled-digits (suc n) n "" (omega arith) ∙ (unfold spelled in refl)

-- Two numbers with the same digits are one number.
pub to_string_injective : (m n : ℕ) → to_string m ≡ to_string n → m ≡ n
to_string_injective m n e = sym (spelled-to_string m) ∙ ap (spelled 0) e ∙ spelled-to_string n

to_string_1024 : to_string 1024 ≡ "1024"
unfolding to_string
to_string_1024 = refl
