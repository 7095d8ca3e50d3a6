-- ===== src/SharedSecret/Payload.antt =====
-- The signed payload of src/shared_secret.rs, read as Erlang's external term format.
use nerves_hub_link_esp.Base.{
  ℕ, ◌%◌, ◌^◌, ◌<◌, ◌≡◌, ap, sym, ◌∙◌, ℤ, Option, none, some, List, [], ◌∷◌, ◌++◌, arith, ◌&&◌,
  ◌==◌, length, take, drop, append_nil, if◌then◌else◌,
}
use nerves_hub_link_esp.SharedSecret.{to_be_bytes, encode_integer, payload}
use nerves_hub_link_esp.SharedSecret.Integers.{
  Reads, IsI64, read_integer, read_integer-encode_integer, from_be_bytes, take-length, drop-length,
  be_lem,
}

-- Nothing may be left over.
all_read : List ℕ → ℤ → Reads ℤ → Option (List ℕ × (ℤ × ℤ))
all_read identifier first (some (second, [])) = some (identifier, (first, second))
all_read identifier first (some (second, b ∷ rest)) = none
all_read identifier first none = none

read_second : List ℕ → Reads ℤ → Option (List ℕ × (ℤ × ℤ))
unfolding all_read
read_second identifier none = none
read_second identifier (some (first, rest)) = all_read identifier first (read_integer rest)

-- A version byte (131), a tuple (104) of three, a binary (109), and two integers.
unfoldable pub read_payload : List ℕ → Option (List ℕ × (ℤ × ℤ))
unfolding read_second
read_payload (version ∷ tuple ∷ arity ∷ tag ∷ a ∷ b ∷ c ∷ d ∷ rest) =
    let n = from_be_bytes a b c d in
    if (version == 131 && tuple == 104) && (arity == 3 && tag == 109)
    then read_second (take n rest) (read_integer (drop n rest))
    else none
read_payload _ = none

payload_lem :
    (identifier rest : List ℕ)
    → length identifier < 2 ^ 32
    → read_payload
        (131 ∷ 104 ∷ 3 ∷ 109 ∷ (to_be_bytes (length identifier % 2 ^ 32) ++ (identifier ++ rest)))
      ≡ read_second identifier (read_integer rest)
unfolding read_payload to_be_bytes
payload_lem identifier rest h =
    let n : ℕ = length identifier % 2 ^ 32 in
    let whole : n ≡ length identifier = omega arith in
    ap (λ k. read_second (take k (identifier ++ rest)) (read_integer (drop k (identifier ++ rest))))
      (be_lem n (omega arith) ∙ whole)
    ∙ ap (λ k. read_second k (read_integer (drop (length identifier) (identifier ++ rest))))
        (take-length identifier rest)
    ∙ ap (λ k. read_second identifier (read_integer k)) (drop-length identifier rest)

-- What the device signs is read by the server as the tuple of the identifier, the time and the maximal
-- age, whatever they are: the identifier is shorter than 2^32 bytes, and both integers are of 64 bits.
pub read_payload-payload :
    (identifier : List ℕ) (signed_at_ms max_age : ℤ)
    → length identifier < 2 ^ 32
    → IsI64 signed_at_ms
    → IsI64 max_age
    → read_payload (payload identifier signed_at_ms max_age)
      ≡ some (identifier, (signed_at_ms, max_age))
unfolding payload read_second all_read
read_payload-payload identifier signed_at_ms max_age h k l =
    payload_lem identifier (encode_integer signed_at_ms ++ encode_integer max_age) h
    ∙ ap (read_second identifier)
        (read_integer-encode_integer signed_at_ms (encode_integer max_age) k)
    ∙ ap (λ b. all_read identifier signed_at_ms (read_integer b)) (sym_nil (encode_integer max_age))
    ∙ ap (all_read identifier signed_at_ms) (read_integer-encode_integer max_age [] l)
  where
    sym_nil : (b : List ℕ) → b ≡ b ++ []
    sym_nil b = sym (append_nil b)
