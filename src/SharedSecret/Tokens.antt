-- ===== src/SharedSecret/Tokens.antt =====
-- Reading the token of src/shared_secret.rs, from what its documentation says of Plug.Crypto's format,
-- with nothing of what the device writes it with.
use nerves_hub_link_esp.Base.{
  ℕ, ◌/◌, ◌%◌, ◌^◌, ◌≡◌, refl, ap, ◌∙◌, Bool, true, false, not, ◌&&◌, Option, none, some, List, [],
  ◌∷◌, ◌++◌, arith, ◌==◌, append_assoc, bytes_eq, bytes_eq_iff, all_below, all_below_sound,
  if◌then◌else◌,
}
use nerves_hub_link_esp.SharedSecret.{protected, letter, group, base64url, token}
use nerves_hub_link_esp.SharedSecret.Base64.{
  AllBytes, from_base64, from_base64-base64url, letter-mod,
}

-- The text before the first dot, and after it if there is one.
until_dot : List ℕ → List ℕ × Option (List ℕ)
until_dot [] = ([], none)
until_dot (c ∷ cs) =
    let rest = until_dot cs in if c == 46 then ([], some cs) else (c ∷ rest.0, rest.1)

abbrev pub NoDot : List ℕ → Type 0
NoDot [] = Unit {0}
NoDot (c ∷ cs) = ((c == 46) ≡ false) × NoDot cs

until_dot-NoDot : (a b : List ℕ) → NoDot a → until_dot (a ++ (46 ∷ b)) ≡ (a, some b)
unfolding until_dot
until_dot-NoDot [] b h = refl
until_dot-NoDot (c ∷ a) b (h, hs) = rw h (ap (λ r. (c ∷ r.0, r.1)) (until_dot-NoDot a b hs))

letters_no_dot : all_below 64 (λ k. not (letter k == 46)) ≡ true
unfolding letter
letters_no_dot = refl

letter-NoDot : (n : ℕ) → (letter n == 46) ≡ false
letter-NoDot n =
    let table =
      all_below_sound 64 (λ k. not (letter k == 46)) (n % 64) letters_no_dot (omega arith) in
    ap (λ c. c == 46) (letter-mod n) ∙ not_lem _ table
  where
    not_lem : (b : Bool) → not b ≡ true → b ≡ false
    not_lem true h = ground arith
    not_lem false h = refl

base64url-NoDot : (bs : List ℕ) → NoDot (base64url bs)
unfolding base64url
base64url-NoDot [] = tt
base64url-NoDot (a ∷ []) =
    (letter-NoDot (group a 0 0 / 2 ^ 18), (letter-NoDot (group a 0 0 / 2 ^ 12), tt))
base64url-NoDot (a ∷ b ∷ []) = (
  letter-NoDot (group a b 0 / 2 ^ 18),
  (letter-NoDot (group a b 0 / 2 ^ 12), (letter-NoDot (group a b 0 / 2 ^ 6), tt)),
)
base64url-NoDot (a ∷ b ∷ c ∷ rest) =
    let n = group a b c in
    (
      letter-NoDot (n / 2 ^ 18),
      (
        letter-NoDot (n / 2 ^ 12),
        (letter-NoDot (n / 2 ^ 6), (letter-NoDot n, base64url-NoDot rest)),
      ),
    )

-- The header {"alg":"HS256"}, as the format spells it.
abbrev expected_header : List ℕ
expected_header = 83 ∷ 70 ∷ 77 ∷ 121 ∷ 78 ∷ 84 ∷ 89 ∷ []

-- The last two parts of a token, once the first is read.
signed_part : (List ℕ → List ℕ) → List ℕ → List ℕ × Option (List ℕ) → Option (List ℕ)
signed_part mac first (second, none) = none
signed_part mac first (second, some third) =
    if bytes_eq first expected_header && bytes_eq (from_base64 third) (mac (first ++ (46 ∷ second)))
    then some (from_base64 second)
    else none

parts : (List ℕ → List ℕ) → List ℕ × Option (List ℕ) → Option (List ℕ)
unfolding signed_part
parts mac (first, none) = none
parts mac (first, some rest) = signed_part mac first (until_dot rest)

-- The payload of a token, if its three parts are the header expected, a payload, and the code `mac`
-- of those two.
unfoldable pub verify : (List ℕ → List ℕ) → List ℕ → Option (List ℕ)
unfolding parts until_dot
verify mac t = parts mac (until_dot t)

bytes_eq_refl : (xs : List ℕ) → bytes_eq xs xs ≡ true
bytes_eq_refl xs = (bytes_eq_iff xs xs).1 refl

protected-NoDot : NoDot protected
protected-NoDot = (refl, (refl, (refl, (refl, (refl, (refl, (refl, tt)))))))

signed_lem :
    (mac : List ℕ → List ℕ) (message : List ℕ)
    → AllBytes message
    → AllBytes (mac (protected ++ (46 ∷ base64url message)))
    → signed_part mac protected
        (base64url message, some (base64url (mac (protected ++ (46 ∷ base64url message)))))
      ≡ some message
unfolding signed_part
signed_lem mac message m b =
    let code = mac (protected ++ (46 ∷ base64url message)) in
    rw (from_base64-base64url code b)
      (rw (bytes_eq_refl code) (rw (from_base64-base64url message m) refl))

-- A token of this device reads as the format wants it, under the same key: its first part is the header
-- SFMyNTY, its parts can be told apart, its signature is the code of the first two in base64 for URLs as
-- RFC 4648 has it, and its payload decodes to the one that was signed. The payload and the code are
-- bytes.
pub verify-token :
    (hmac : List ℕ → List ℕ → List ℕ) (key message : List ℕ)
    → AllBytes message
    → ((k t : List ℕ) → AllBytes (hmac k t))
    → verify (hmac key) (token hmac key message) ≡ some message
unfolding verify token parts
verify-token hmac key message m b =
    let body = base64url message in
    let code = base64url (hmac key (protected ++ (46 ∷ body))) in
    ap (λ t. parts (hmac key) (until_dot t)) (append_assoc protected (46 ∷ body) (46 ∷ code))
    ∙ ap (parts (hmac key)) (until_dot-NoDot protected (body ++ (46 ∷ code)) protected-NoDot)
    ∙ ap (signed_part (hmac key) protected) (until_dot-NoDot body code (base64url-NoDot message))
    ∙ signed_lem (hmac key) message m (b key _)
