-- ===== src/SharedSecret/Base64.antt =====
-- Base64 for URLs, without padding (src/shared_secret.rs, `base64url`), and its decoding.
use nerves_hub_link_esp.Base.{
  ℕ, ◌+◌, ◌-◌, ◌*◌, ◌/◌, ◌%◌, ◌^◌, ◌<◌, ◌≡◌, refl, ap, ◌∙◌, true, List, [], ◌∷◌, arith, ◌&&◌, leb,
  ◌==◌, ==_iff, get_or, all_below, all_below_sound, if◌then◌else◌,
}
use nerves_hub_link_esp.SharedSecret.{alphabet, letter, group, base64url}

-- The value of a character, by the table of RFC 4648, section 5: the letters, the digits, and then `-`
-- and `_`.
unfoldable pub index_of : ℕ → ℕ
index_of c =
    if leb 65 c && leb c 90
    then c - 65
    else if leb 97 c && leb c 122
    then c - 97 + 26
    else if leb 48 c && leb c 57
    then c - 48 + 52
    else if c == 45
    then 62
    else if c == 95
    then 63
    else 64

-- The bytes that base64 text stands for, by RFC 4648: six bits to a character, first ones highest.
unfoldable pub from_base64 : List ℕ → List ℕ
from_base64 [] = []
from_base64 (w ∷ []) = []
from_base64 (w ∷ x ∷ []) = (index_of w * 4 + index_of x / 16) ∷ []
from_base64 (w ∷ x ∷ y ∷ []) =
    (index_of w * 4 + index_of x / 16) ∷ (index_of x % 16 * 16 + index_of y / 4) ∷ []
from_base64 (w ∷ x ∷ y ∷ z ∷ rest) =
    (index_of w * 4 + index_of x / 16)
    ∷ (index_of x % 16 * 16 + index_of y / 4)
    ∷ (index_of y % 4 * 64 + index_of z)
    ∷ from_base64 rest

abbrev pub AllBytes : List ℕ → Type 0
AllBytes [] = Unit {0}
AllBytes (b ∷ bs) = (b < 256) × AllBytes bs

letters_read : all_below 64 (λ k. index_of (letter k) == k) ≡ true
unfolding index_of letter
letters_read = refl

pub letter-mod : (n : ℕ) → letter n ≡ letter (n % 64)
unfolding letter
letter-mod n = let e : n % 64 ≡ n % 64 % 64 = omega arith in ap (λ i. get_or alphabet i 0) e

index_of-letter : (n : ℕ) → index_of (letter n) ≡ n % 64
index_of-letter n =
    ap index_of (letter-mod n)
    ∙ (==_iff _ _).0
        (all_below_sound 64 (λ k. index_of (letter k) == k) (n % 64) letters_read (omega arith))

first_byte :
    (a b c : ℕ)
    → a < 256
    → b < 256
    → c < 256
    → group a b c / 2 ^ 18 % 64 * 4 + group a b c / 2 ^ 12 % 64 / 16 ≡ a
first_byte a b c h k l = omega arith

second_byte :
    (a b c : ℕ)
    → a < 256
    → b < 256
    → c < 256
    → group a b c / 2 ^ 12 % 64 % 16 * 16 + group a b c / 2 ^ 6 % 64 / 4 ≡ b
second_byte a b c h k l = omega arith

third_byte :
    (a b c : ℕ)
    → a < 256
    → b < 256
    → c < 256
    → group a b c / 2 ^ 6 % 64 % 4 * 64 + group a b c % 64 ≡ c
third_byte a b c h k l = omega arith

read_first :
    (a b c : ℕ)
    → a < 256
    → b < 256
    → c < 256
    → index_of (letter (group a b c / 2 ^ 18)) * 4 + index_of (letter (group a b c / 2 ^ 12)) / 16
      ≡ a
read_first a b c h k l = omega (
  arith,
  index_of-letter (group a b c / 2 ^ 18),
  index_of-letter (group a b c / 2 ^ 12),
  first_byte a b c h k l,
)

read_second :
    (a b c : ℕ)
    → a < 256
    → b < 256
    → c < 256
    → index_of (letter (group a b c / 2 ^ 12)) % 16 * 16
        + index_of (letter (group a b c / 2 ^ 6)) / 4
      ≡ b
read_second a b c h k l = omega (
  arith,
  index_of-letter (group a b c / 2 ^ 12),
  index_of-letter (group a b c / 2 ^ 6),
  second_byte a b c h k l,
)

read_third :
    (a b c : ℕ)
    → a < 256
    → b < 256
    → c < 256
    → index_of (letter (group a b c / 2 ^ 6)) % 4 * 64 + index_of (letter (group a b c)) ≡ c
read_third a b c h k l = omega (
  arith,
  index_of-letter (group a b c / 2 ^ 6),
  index_of-letter (group a b c),
  third_byte a b c h k l,
)

∷-ap : {x y : ℕ} {xs ys : List ℕ} → x ≡ y → xs ≡ ys → x ∷ xs ≡ y ∷ ys
∷-ap {x} {y} {xs} {ys} e f = ap (λ k. k ∷ xs) e ∙ ap (λ k. y ∷ k) f

-- Decoding what was encoded gives the bytes back, however many there are.
pub from_base64-base64url : (bs : List ℕ) → AllBytes bs → from_base64 (base64url bs) ≡ bs
unfolding from_base64 base64url
from_base64-base64url [] h = refl
from_base64-base64url (a ∷ []) (h, t) =
    ap (λ x. x ∷ []) (read_first a 0 0 h (omega arith) (omega arith))
from_base64-base64url (a ∷ b ∷ []) (h, (k, t)) =
    ∷-ap (read_first a b 0 h k (omega arith)) (∷-ap (read_second a b 0 h k (omega arith)) refl)
from_base64-base64url (a ∷ b ∷ c ∷ rest) (h, (k, (l, t))) =
    ∷-ap (read_first a b c h k l) (
      ∷-ap (read_second a b c h k l) (∷-ap (read_third a b c h k l) (from_base64-base64url rest t)))
