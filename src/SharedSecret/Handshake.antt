-- ===== src/SharedSecret/Handshake.antt =====
-- The whole of the headers of src/shared_secret.rs, and how they read by the names that the source's
-- documentation gives them.
use nerves_hub_link_esp.Base.{
  ℕ, ℤ, Option, none, some, List, [], ◌∷◌, ◌++◌, codes, bytes_eq, if◌then◌else◌,
}
use nerves_hub_link_esp.SharedSecret.{SharedSecret}
use nerves_hub_link_esp.SharedSecret.Payload.{read_payload}
use nerves_hub_link_esp.SharedSecret.Tokens.{verify}

-- The value of the header of a name.
header_named : List ℕ → List (List ℕ × List ℕ) → Option (List ℕ)
header_named name [] = none
header_named name ((n, value) ∷ hs) =
    let rest = header_named name hs in if bytes_eq n name then some value else rest

module _ (hmac : List ℕ → List ℕ → List ℕ) (pbkdf2_hmac : List ℕ → List ℕ → ℕ → ℕ → List ℕ) where
  -- The salt repeats the headers that were received.
  server_salt : List ℕ → List ℕ → List ℕ → List ℕ
  server_salt alg_header key time =
      codes "NH1:device-socket:shared-secret:connect"
      ++ (10 ∷ 10 ∷ codes "x-nh-alg="
          ++ (alg_header
              ++ (10 ∷ codes "x-nh-key="
                  ++ (key ++ (10 ∷ codes "x-nh-time=" ++ (time ++ 10 ∷ []))))))

  read_verified : Option (List ℕ) → Option (List ℕ × (ℤ × ℤ))
  read_verified none = none
  read_verified (some message) = read_payload message

  -- The headers of a handshake, by what they say: the algorithm, the key, the time and the signature. The
  -- algorithm must be the one of 1000 iterations and 32 bytes; a key is derived from the secret and the
  -- headers, the token is verified, and the payload read.
  checked : List ℕ → List ℕ → List ℕ → List ℕ → List ℕ → Option (List ℕ × (ℤ × ℤ))
  unfolding server_salt read_verified
  checked secret alg_header key time signature =
      if bytes_eq alg_header (codes "NH1-HMAC-SHA256-1000-32")
      then read_verified
          (verify (hmac (pbkdf2_hmac secret (server_salt alg_header key time) 1000 32)) signature)
      else none

  authenticate_with :
      List ℕ
      → Option (List ℕ)
      → Option (List ℕ)
      → Option (List ℕ)
      → Option (List ℕ)
      → Option (List ℕ × (ℤ × ℤ))
  unfolding checked
  authenticate_with secret (some alg_header) (some key) (some time) (some signature) =
      checked secret alg_header key time signature
  authenticate_with secret _ _ _ _ = none

  unfoldable pub authenticate : List ℕ → List (List ℕ × List ℕ) → Option (List ℕ × (ℤ × ℤ))
  unfolding authenticate_with header_named
  authenticate secret hs =
      authenticate_with secret (header_named (codes "x-nh-alg") hs)
        (header_named (codes "x-nh-key") hs) (header_named (codes "x-nh-time") hs)
        (header_named (codes "x-nh-signature") hs)
