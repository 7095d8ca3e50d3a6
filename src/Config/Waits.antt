-- ===== src/Config/Waits.antt =====
-- The waits of `Config::backoff_for` and the PEM of `leak_pem` (src/config.rs).
use Prim.Native.Nat.{zero, suc}
use nerves_hub_link_esp.Base.{
  ℕ, ◌≤◌, ◌≡◌, refl, ap, ◌∙◌, some, List, [], ◌∷◌, ◌++◌, arith, length, get_elem?, unwrap_or,
}
use nerves_hub_link_esp.Config.{Config, backoff_for, wait_for, last_or}

last_or-append : (d : ℕ) (xs : List ℕ) (x : ℕ) → last_or d (xs ++ x ∷ []) ≡ x
unfolding last_or
last_or-append d [] x = refl
last_or-append d (y ∷ xs) x = last_or-append y xs x

get_elem?-last :
    (xs : List ℕ) (x n d : ℕ) → length xs ≤ n → d ≡ x → unwrap_or (get_elem? (xs ++ x ∷ []) n) d ≡ x
get_elem?-last [] x zero d h e = refl
get_elem?-last [] x (suc n) d h e = e
get_elem?-last (y ∷ xs) x zero d h e = absurd (omega arith)
get_elem?-last (y ∷ xs) x (suc n) d h e = get_elem?-last xs x n d (omega arith) e

get_elem?-front :
    (xs : List ℕ) (x n d w : ℕ)
    → get_elem? xs n ≡ some w
    → unwrap_or (get_elem? (xs ++ x ∷ []) n) d ≡ w
get_elem?-front [] x n d w e = absurd (ground arith)
get_elem?-front (y ∷ xs) x zero d w e = ground arith
get_elem?-front (y ∷ xs) x (suc n) d w e = get_elem?-front xs x n d w e

wait_for-append :
    (xs : List ℕ) (x n : ℕ)
    → (d : ℕ) × (d ≡ x) × (wait_for (xs ++ x ∷ []) n ≡ unwrap_or (get_elem? (xs ++ x ∷ []) n) d)
unfolding wait_for
wait_for-append [] x n = (last_or x [], (unfold last_or in refl), refl)
wait_for-append (y ∷ xs) x n = (last_or y (xs ++ x ∷ []), last_or-append y xs x, refl)

-- The waits that are configured, of which there is at least one, in order: the attempt's own while there are any, the last of them
-- from then on.
backoff_for-walks :
    (c : Config) (front : List ℕ) (last attempt : ℕ)
    → c.reconnect_backoff_secs ≡ front ++ last ∷ []
    → ((w : ℕ) → get_elem? front attempt ≡ some w → backoff_for c attempt ≡ w)
      × (length front ≤ attempt → backoff_for c attempt ≡ last)
unfolding backoff_for
backoff_for-walks c front last attempt e =
    let (d, is_last, same) = wait_for-append front last attempt in
    let whole = ap (λ bs. wait_for bs attempt) e ∙ same in
    (
      (λ w h. whole ∙ get_elem?-front front last attempt d w h),
      (λ h. whole ∙ get_elem?-last front last attempt d h is_last),
    )
