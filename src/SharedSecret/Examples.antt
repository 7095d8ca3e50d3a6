-- ===== src/SharedSecret/Examples.antt =====
-- Runs of the signing of src/shared_secret.rs, with a code of the first bytes of what is signed.
use nerves_hub_link_esp.Base.{ℕ, ◌≡◌, refl, pos, some, List, [], ◌∷◌, ◌++◌, arith, codes, ◌%◌, map}
use nerves_hub_link_esp.SharedSecret.{SharedSecret, payload, token, base64url, letter}
use nerves_hub_link_esp.SharedSecret.Payload.{read_payload, read_payload-payload}
use nerves_hub_link_esp.SharedSecret.Base64.{AllBytes}
use nerves_hub_link_esp.SharedSecret.Tokens.{verify, verify-token}

abbrev weak_code : List ℕ → List ℕ → List ℕ
weak_code key message = map (λ b. b % 256) key

map-AllBytes : (bs : List ℕ) → AllBytes (map (λ b. b % 256) bs)
map-AllBytes [] = tt
map-AllBytes (b ∷ bs) = (omega arith, map-AllBytes bs)

verify-token_example :
    verify (weak_code (1 ∷ 2 ∷ [])) (token weak_code (1 ∷ 2 ∷ []) (131 ∷ 104 ∷ 3 ∷ []))
    ≡ some (131 ∷ 104 ∷ 3 ∷ [])
verify-token_example =
    verify-token weak_code (1 ∷ 2 ∷ []) (131 ∷ 104 ∷ 3 ∷ [])
      (omega arith, (omega arith, (omega arith, tt))) (λ k t. map-AllBytes k)

read_payload-payload_example :
    read_payload (payload (codes "device-1") (pos 1755828640000) (pos 86400))
    ≡ some (codes "device-1", (pos 1755828640000, pos 86400))
read_payload-payload_example =
    read_payload-payload (codes "device-1") (pos 1755828640000) (pos 86400) (omega arith)
      (omega arith) (omega arith)

base64url_test : base64url (codes "any carnal pleas") ≡ codes "YW55IGNhcm5hbCBwbGVhcw"
unfolding base64url letter
base64url_test = refl

abbrev shared : SharedSecret
shared = record { key = codes "nhp_key"; secret = codes "secret" }

abbrev weak_key : List ℕ → List ℕ → ℕ → ℕ → List ℕ
weak_key secret salt iterations key_length = secret ++ salt
