-- ===== src/SharedSecret/Integers.antt =====
-- What the server reads of the payload of src/shared_secret.rs: Erlang's external term format.
use nerves_hub_link_esp.Base.{
  ℕ, zero, suc, ◌+◌, ◌-◌, ◌*◌, ◌/◌, ◌%◌, ◌^◌, ◌≤◌, ◌<◌, ◌≡◌, refl, ap, ◌∙◌, ℤ, pos, negsuc, false,
  Option, none, some, List, [], ◌∷◌, ◌++◌, arith, leb, ltb, ◌==◌, length, take, drop, if_intro,
  if◌then◌else◌, Bool-cases, ltb→lt, inl, inr,
}
use nerves_hub_link_esp.SharedSecret.{to_be_bytes, digits, big_integer, encode_integer}

abbrev pub Reads : Type 0 → Type 0
Reads A = Option (A × List ℕ)

abbrev pub from_be_bytes : ℕ → ℕ → ℕ → ℕ → ℕ
from_be_bytes a b c d = a * 2 ^ 24 + b * 2 ^ 16 + c * 2 ^ 8 + d

abbrev pub little_endian : List ℕ → ℕ
little_endian [] = 0
little_endian (d ∷ ds) = d + 256 * little_endian ds

-- Two's complement of 32 bits.
abbrev pub signed_32 : ℕ → ℤ
signed_32 n = if ltb n (2 ^ 31) then pos n else negsuc (2 ^ 32 - 1 - n)

abbrev pub negative : ℕ → ℤ
negative zero = pos 0
negative (suc n) = negsuc n

abbrev pub with_sign : ℕ → ℕ → ℤ
with_sign sign n = if sign == 0 then pos n else negative n

-- SMALL_INTEGER_EXT (97), INTEGER_EXT (98) and SMALL_BIG_EXT (110), as the format's description has them.
unfoldable pub read_integer : List ℕ → Reads ℤ
read_integer (tag ∷ bytes) =
    if tag == 97
    then elim bytes [ n ∷ rest ↦ some (pos n, rest) | _ ↦ none ]
    else if tag == 98
    then elim bytes [
      | a ∷ b ∷ c ∷ d ∷ rest ↦ some (signed_32 (from_be_bytes a b c d), rest)
      | _ ↦ none
    ]
    else if tag == 110
    then elim bytes [
      | n ∷ sign ∷ rest ↦ some (with_sign sign (little_endian (take n rest)), drop n rest)
      | _ ↦ none
    ]
    else none
read_integer [] = none

pub be_lem :
    (n : ℕ)
    → n < 2 ^ 32
    → from_be_bytes (n / 2 ^ 24 % 256) (n / 2 ^ 16 % 256) (n / 2 ^ 8 % 256) (n % 256) ≡ n
be_lem n h = omega arith

bytes_bound : ℕ → ℕ
bytes_bound zero = 1
bytes_bound (suc f) = 256 * bytes_bound f

digits-value : (f n : ℕ) → n < bytes_bound f → little_endian (digits f n) ≡ n
unfolding digits bytes_bound
digits-value zero n h = omega arith
digits-value (suc f) n h = elim (Bool-cases (n == 0)) [
  | inl z ↦ rw z (ground arith)
  | inr s ↦ rw s (omega (arith, digits-value f (n / 256) (omega arith)))
]

digits-length : (f n : ℕ) → length (digits f n) ≤ f
unfolding digits
digits-length zero n = omega arith
digits-length (suc f) n =
    if_intro (λ ds. length ds ≤ suc f) (n == 0) [] (n % 256 ∷ digits f (n / 256)) (λ z. omega arith)
      (λ s. omega (arith, digits-length f (n / 256)))

pub take-length : (xs ys : List ℕ) → take (length xs) (xs ++ ys) ≡ xs
take-length [] ys = refl
take-length (x ∷ xs) ys = ap (λ k. x ∷ k) (take-length xs ys)

pub drop-length : (xs ys : List ℕ) → drop (length xs) (xs ++ ys) ≡ ys
drop-length [] ys = refl
drop-length (x ∷ xs) ys = drop-length xs ys

small_lem : (n : ℕ) (rest : List ℕ) → read_integer (97 ∷ n ∷ rest) ≡ some (pos n, rest)
unfolding read_integer
small_lem n rest = refl

word_lem :
    (n : ℕ) (v : ℤ) (rest : List ℕ)
    → n < 2 ^ 32
    → signed_32 n ≡ v
    → read_integer (98 ∷ (to_be_bytes n ++ rest)) ≡ some (v, rest)
unfolding read_integer to_be_bytes
word_lem n v rest h e = ap (λ k. some (signed_32 k, rest)) (be_lem n h) ∙ ap (λ k. some (k, rest)) e

big_lem :
    (magnitude sign : ℕ) (rest : List ℕ)
    → magnitude < 2 ^ 64
    → read_integer (big_integer magnitude sign ++ rest) ≡ some (with_sign sign magnitude, rest)
unfolding read_integer big_integer
big_lem magnitude sign rest h =
    let ds = digits 8 magnitude in
    let count : length ds % 256 ≡ length ds = omega (arith, digits-length 8 magnitude) in
    ap (λ n. some (with_sign sign (little_endian (take n (ds ++ rest))), drop n (ds ++ rest))) count
    ∙ ap (λ k. some (with_sign sign (little_endian k), drop (length ds) (ds ++ rest)))
        (take-length ds rest)
    ∙ ap (λ k. some (with_sign sign (little_endian ds), k)) (drop-length ds rest)
    ∙ ap (λ n. some (with_sign sign n, rest)) (digits-value 8 magnitude (unfold bytes_bound in h))

negative_lem : (n : ℕ) → n < 2 ^ 31 → signed_32 (2 ^ 32 - suc n) ≡ negsuc n
negative_lem n h =
    let large : ltb (2 ^ 32 - suc n) (2 ^ 31) ≡ false = ground arith in
    rw large (ap negsuc (omega arith))

-- The integers of 64 bits.
abbrev pub IsI64 : ℤ → Type 0
IsI64 (pos n) = n < 2 ^ 63
IsI64 (negsuc n) = n < 2 ^ 63

-- Every i64, as it is encoded and whatever follows it, is read back as itself.
pub read_integer-encode_integer :
    (v : ℤ) (rest : List ℕ) → IsI64 v → read_integer (encode_integer v ++ rest) ≡ some (v, rest)
unfolding encode_integer
read_integer-encode_integer (pos n) rest h =
    if_intro (λ b. read_integer (b ++ rest) ≡ some (pos n, rest)) (leb n 255) _ _
      (λ small. small_lem n rest)
      (λ large.
        if_intro (λ b. read_integer (b ++ rest) ≡ some (pos n, rest)) (ltb n (2 ^ 31))
          (98 ∷ to_be_bytes n) (big_integer n 0)
          (λ fits. word_lem n (pos n) rest (ground arith) (rw fits refl))
          (λ big. big_lem n 0 rest (omega arith)))
read_integer-encode_integer (negsuc n) rest h =
    if_intro (λ b. read_integer (b ++ rest) ≡ some (negsuc n, rest)) (ltb n (2 ^ 31))
      (98 ∷ to_be_bytes (2 ^ 32 - suc n)) (big_integer (suc n) 1)
      (λ fits.
        word_lem (2 ^ 32 - suc n) (negsuc n) rest (ground arith)
          (negative_lem n (ltb→lt n (2 ^ 31) fits)))
      (λ big. big_lem (suc n) 1 rest (omega arith))
