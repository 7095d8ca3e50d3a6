-- ===== src/SharedSecret.antt =====
-- src/shared_secret.rs: the headers that sign the websocket handshake. Texts are their bytes. PBKDF2 and
-- HMAC (crates) are parameters: of a secret, a salt, the iterations and the key length; of a key and a text.
pub mod Integers
pub mod Base64
pub mod Payload
pub mod Tokens
pub mod Handshake
mod Examples
use nerves_hub_link_esp.Base.{
  ℕ, zero, suc, ◌+◌, ◌-◌, ◌*◌, ◌/◌, ◌%◌, ◌^◌, ℤ, pos, negsuc, String, Bool, true, false, List, [],
  ◌∷◌, ◌++◌, leb, ltb, ◌==◌, length, get_or, codes, to_string, if◌then◌else◌,
}

-- "SFMyNTY"
abbrev pub protected : List ℕ
protected = codes "SFMyNTY"

abbrev pub default_iterations : ℕ
default_iterations = 1000

abbrev pub default_key_length : ℕ
default_key_length = 32

abbrev pub default_max_age_secs : ℤ
default_max_age_secs = pos 86400

pub record SharedSecret : Type 0 where
  pub key : List ℕ
  pub secret : List ℕ

-- `u32::to_be_bytes`.
unfoldable pub to_be_bytes : ℕ → List ℕ
to_be_bytes n = n / 2 ^ 24 % 256 ∷ n / 2 ^ 16 % 256 ∷ n / 2 ^ 8 % 256 ∷ n % 256 ∷ []

-- The little-endian digits. A u64 has at most eight, so `fuel` 8 is enough.
unfoldable pub digits : ℕ → ℕ → List ℕ
digits zero remaining = []
digits (suc fuel) remaining =
    let rest = digits fuel (remaining / 256) in
    if remaining == 0 then [] else remaining % 256 ∷ rest

-- A number of more than 32 bits, of an absolute value and a sign.
big_integer : ℕ → ℕ → List ℕ
unfolding digits
big_integer magnitude sign = 110 ∷ length (digits 8 magnitude) % 256 ∷ sign ∷ digits 8 magnitude

-- An i64: `negsuc n` is -(n + 1), and `as i32` keeps the low 32 bits of its two's complement.
unfoldable pub encode_integer : ℤ → List ℕ
unfolding to_be_bytes big_integer
encode_integer (pos n) =
    if leb n 255
    then 97 ∷ n ∷ []
    else if ltb n (2 ^ 31)
    then 98 ∷ to_be_bytes n
    else big_integer n 0
encode_integer (negsuc n) =
    if ltb n (2 ^ 31) then 98 ∷ to_be_bytes (2 ^ 32 - suc n) else big_integer (suc n) 1

unfoldable pub payload : List ℕ → ℤ → ℤ → List ℕ
unfolding to_be_bytes encode_integer
payload identifier signed_at_ms max_age =
    131
    ∷ 104
    ∷ 3
    ∷ 109
    ∷ (to_be_bytes (length identifier % 2 ^ 32)
        ++ (identifier ++ (encode_integer signed_at_ms ++ encode_integer max_age)))

abbrev pub alphabet : List ℕ
alphabet = codes "ABCDEFGHIJKLMNOPQRSTUVWXYZabcdefghijklmnopqrstuvwxyz0123456789-_"

-- `ALPHABET[i & 63]`
unfoldable pub letter : ℕ → ℕ
letter i = get_or alphabet (i % 64) 0

abbrev pub group : ℕ → ℕ → ℕ → ℕ
group a b c = a * 2 ^ 16 + b * 2 ^ 8 + c

unfoldable pub base64url : List ℕ → List ℕ
unfolding letter
base64url [] = []
base64url (a ∷ []) = let n = group a 0 0 in letter (n / 2 ^ 18) ∷ letter (n / 2 ^ 12) ∷ []
base64url (a ∷ b ∷ []) =
    let n = group a b 0 in letter (n / 2 ^ 18) ∷ letter (n / 2 ^ 12) ∷ letter (n / 2 ^ 6) ∷ []
base64url (a ∷ b ∷ c ∷ rest) =
    let n = group a b c in
    letter (n / 2 ^ 18) ∷ letter (n / 2 ^ 12) ∷ letter (n / 2 ^ 6) ∷ letter n ∷ base64url rest

-- `i64::to_string`.
unfoldable pub signed_to_string : ℤ → List ℕ
signed_to_string (pos n) = codes (to_string n)
signed_to_string (negsuc n) = 45 ∷ codes (to_string (suc n))

-- "SHA256-1000-32"
abbrev pub alg : List ℕ
unfolding to_string
alg =
    codes "SHA256-"
    ++ (codes (to_string default_iterations) ++ (45 ∷ codes (to_string default_key_length)))

unfoldable pub salt : List ℕ → List ℕ → ℤ → List ℕ
unfolding signed_to_string
salt alg key signed_at =
    codes "NH1:device-socket:shared-secret:connect"
    ++ (10 ∷ 10 ∷ codes "x-nh-alg=NH1-HMAC-"
        ++ (alg
            ++ (10 ∷ codes "x-nh-key="
                ++ (key ++ (10 ∷ codes "x-nh-time=" ++ (signed_to_string signed_at ++ 10 ∷ []))))))

-- Multiplication by 1000 in an i64, which wraps.
wrap_i64 : ℕ → ℤ
wrap_i64 m = if ltb m (2 ^ 63) then pos m else negsuc (2 ^ 64 - 1 - m)

unfoldable pub times_1000 : ℤ → ℤ
unfolding wrap_i64
times_1000 (pos n) = wrap_i64 (n * 1000 % 2 ^ 64)
times_1000 (negsuc n) = wrap_i64 ((2 ^ 64 - suc n * 1000 % 2 ^ 64) % 2 ^ 64)

module _ (hmac : List ℕ → List ℕ → List ℕ) where
  unfoldable pub token : List ℕ → List ℕ → List ℕ
  unfolding base64url
  token signing_key payload =
      let plain_text = protected ++ (46 ∷ base64url payload) in
      plain_text ++ (46 ∷ base64url (hmac signing_key plain_text))

  unfoldable pub headers :
      (List ℕ → List ℕ → ℕ → ℕ → List ℕ) → SharedSecret → List ℕ → ℤ → List (List ℕ × List ℕ)
  unfolding token payload salt signed_to_string times_1000
  headers pbkdf2_hmac s identifier signed_at =
      let derived =
        pbkdf2_hmac s.secret (salt alg s.key signed_at) default_iterations default_key_length in
      (codes "x-nh-alg", codes "NH1-HMAC-" ++ alg)
      ∷ (codes "x-nh-key", s.key)
      ∷ (codes "x-nh-time", signed_to_string signed_at)
      ∷ (
        codes "x-nh-signature",
        token derived (payload identifier (times_1000 signed_at) default_max_age_secs),
      )
      ∷ []
