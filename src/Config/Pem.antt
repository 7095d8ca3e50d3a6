-- ===== src/Config/Pem.antt =====
-- The PEM that `leak_pem` (src/config.rs) hands to mbedTLS.
use Prim.Native.Nat.{zero, suc}
use nerves_hub_link_esp.Base.{
  ℕ, ◌<◌, ◌≡◌, refl, ap, ◌∙◌, String, Bool, false, List, [], ◌∷◌, ◌++◌, arith, length, ◌==◌, any,
}
use nerves_hub_link_esp.Error.{ok}
use nerves_hub_link_esp.Config.{leak_pem, strip_nuls, keep_byte, to_cstring}

abbrev pub has_nul : List ℕ → Bool
has_nul bytes = any (λ b. b == 0) bytes

abbrev pub nuls : ℕ → List ℕ
nuls zero = []
nuls (suc k) = 0 ∷ nuls k

strip_nuls-nuls : (k : ℕ) → strip_nuls (nuls k) ≡ []
unfolding strip_nuls
strip_nuls-nuls zero = refl
strip_nuls-nuls (suc k) = ap (keep_byte 0) (strip_nuls-nuls k) ∙ (unfold keep_byte in refl)

keep_byte-other : (b : ℕ) (bs : List ℕ) → (b == 0) ≡ false → keep_byte b bs ≡ b ∷ bs
unfolding keep_byte
keep_byte-other b [] h = rw h refl
keep_byte-other b (c ∷ cs) h = refl

strip_nuls-append : (bs : List ℕ) (k : ℕ) → has_nul bs ≡ false → strip_nuls (bs ++ nuls k) ≡ bs
unfolding strip_nuls
strip_nuls-append [] k h = strip_nuls-nuls k
strip_nuls-append (b ∷ bs) k h =
    ap (keep_byte b) (strip_nuls-append bs k (ground arith)) ∙ keep_byte-other b bs (ground arith)

leak_pem-nonempty :
    (bs : List ℕ) (what : String)
    → 0 < length bs
    → leak_pem bs what ≡ to_cstring what (strip_nuls bs)
unfolding leak_pem
leak_pem-nonempty [] what h = absurd (omega arith)
leak_pem-nonempty (b ∷ bs) what h = refl

-- PEM without a NUL inside, and with any number of them after it, is handed on as just the PEM, so
-- that it gets the one NUL that ends a C string; it must have a byte or a NUL.
leak_pem-nuls :
    (bs : List ℕ) (k : ℕ) (what : String)
    → has_nul bs ≡ false
    → 0 < length (bs ++ nuls k)
    → leak_pem (bs ++ nuls k) what ≡ ok bs
unfolding to_cstring
leak_pem-nuls bs k what h some_ =
    leak_pem-nonempty (bs ++ nuls k) what some_
    ∙ ap (to_cstring what) (strip_nuls-append bs k h)
    ∙ rw h refl
