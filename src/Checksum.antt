-- ===== src/Checksum.antt =====
-- src/checksum.rs: the SHA-256 of an image as hexadecimal text, and the comparison of two such texts.
-- The hash itself is the `sha2` crate's and stands as a parameter.
use Prim.Native.String.{char_at}
use nerves_hub_link_esp.Base.{
  ℕ, ◌+◌, ◌/◌, ◌%◌, ◌≡◌, refl, String, Bool, ◌&&◌, List, [], ◌∷◌, ◌++◌, map, codes, format,
  bytes_eq, leb, if◌then◌else◌,
}

-- What the code relies on of `sha2`: a hasher is fed in pieces, and only the bytes count, not where
-- they were cut.
pub record Digest (S : Type 0) : Type 0 where
  pub new : S
  pub update : S → List ℕ → S
  pub finalize : S → List ℕ
  pub update-nil : (s : S) → update s [] ≡ s
  pub update-append : (s : S) (xs ys : List ℕ) → update (update s xs) ys ≡ update s (xs ++ ys)

-- `format!("{b:02X}")`
hex_byte : ℕ → String
hex_byte b =
    String.◌∷◌ (char_at "0123456789ABCDEF" (b / 16 % 16))
      (String.◌∷◌ (char_at "0123456789ABCDEF" (b % 16)) "")

unfoldable pub hex_upper : List ℕ → String
unfolding hex_byte
hex_upper bytes = format (map hex_byte bytes)

module _ {S : Type 0} (digest : Digest S) where
  unfoldable pub finalize_hex_upper : S → String
  unfolding hex_upper
  finalize_hex_upper hasher = hex_upper (digest.finalize hasher)

to_ascii_lowercase : ℕ → ℕ
to_ascii_lowercase c = if leb b'A' c && leb c b'Z' then c + 32 else c

unfoldable pub eq_ignore_ascii_case : String → String → Bool
unfolding to_ascii_lowercase
eq_ignore_ascii_case a b =
    bytes_eq (map to_ascii_lowercase (codes a)) (map to_ascii_lowercase (codes b))

unfoldable pub matches : String → String → Bool
unfolding eq_ignore_ascii_case
matches expected actual = eq_ignore_ascii_case expected actual

hex_upper_test : hex_upper (0xDE ∷ 0xAD ∷ 0x07 ∷ []) ≡ "DEAD07"
unfolding hex_upper
hex_upper_test = refl

matches_test : matches "DEADBEEF" "deadbeef" ≡ Bool.true
unfolding matches
matches_test = refl
