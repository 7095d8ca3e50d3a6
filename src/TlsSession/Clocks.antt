-- ===== src/TlsSession/Clocks.antt =====
-- What `rebase` of src/tls_session.rs keeps of a ticket's age.
use nerves_hub_link_esp.Base.{
  ℕ, suc, ◌-◌, ◌^◌, ◌≤◌, ◌<◌, ◌≡◌, refl, ap, ◌∙◌, pos, negsuc, leb, if_intro, arith,
}
use nerves_hub_link_esp.TlsSession.{rebase, saturating_sub, at_least_zero}

age_lem :
    (at from_now : ℕ) → at_least_zero (saturating_sub (pos from_now) (pos at)) ≡ pos (from_now - at)
unfolding at_least_zero saturating_sub
age_lem at from_now =
    if_intro (λ z. at_least_zero z ≡ pos (from_now - at)) (leb at from_now) (pos (from_now - at))
      (negsuc (at - suc from_now)) (λ h. refl) (λ h. ap pos (ground arith))

rebase_lem :
    (at from_now to_now : ℕ)
    → rebase (pos at) (pos from_now) (pos to_now)
      ≡ saturating_sub (pos to_now) (pos (from_now - at))
unfolding rebase
rebase_lem at from_now to_now = ap (saturating_sub (pos to_now)) (age_lem at from_now)

-- A time taken off, and taken off what is left.
back : (n k : ℕ) → k < 2 ^ 63 → saturating_sub (pos n) (saturating_sub (pos n) (pos k)) ≡ pos k
unfolding saturating_sub
back n k h =
    if_intro (λ z. saturating_sub (pos n) z ≡ pos k) (leb k n) (pos (n - k)) (negsuc (k - suc n))
      (λ le.
        if_intro (λ z. z ≡ pos k) (leb (n - k) n) (pos (n - (n - k))) (negsuc (n - k - suc n))
          (λ e. ap pos (ground arith)) (λ e. absurd (ground arith)))
      (λ gt. ap pos (ground arith))

-- On clocks that count from zero, in 64 bits: the date that a ticket gets on the other clock gives it,
-- there, the age that it had, or no age if its own clock had been set back to before it. A ticket that
-- was not dated ahead of its clock keeps its date when it is moved to the other clock and back, even
-- where the other clock is so young that its date there is before zero.
pub rebase-ages :
    (at from_now to_now : ℕ)
    → at < 2 ^ 63
    → from_now < 2 ^ 63
    → to_now < 2 ^ 63
    → (saturating_sub (pos to_now) (rebase (pos at) (pos from_now) (pos to_now))
        ≡ pos (from_now - at))
      × (at ≤ from_now
          → rebase (rebase (pos at) (pos from_now) (pos to_now)) (pos to_now) (pos from_now)
            ≡ pos at)
rebase-ages at from_now to_now h k l =
    let age : saturating_sub (pos to_now) (rebase (pos at) (pos from_now) (pos to_now))
        ≡ pos (from_now - at) =
      (ap (saturating_sub (pos to_now)) (rebase_lem at from_now to_now)
        ∙ back to_now (from_now - at) (omega arith)) in
    (age, λ le. return_lem le age)
  where
    sub_lem : at ≤ from_now → saturating_sub (pos from_now) (pos (from_now - at)) ≡ pos at
    sub_lem le =
        unfold saturating_sub in
        if_intro (λ z. z ≡ pos at) (leb (from_now - at) from_now) (pos (from_now - (from_now - at)))
          (negsuc (from_now - at - suc from_now)) (λ e. ap pos (ground arith))
          (λ e. absurd (ground arith))

    return_lem :
        at ≤ from_now
        → saturating_sub (pos to_now) (rebase (pos at) (pos from_now) (pos to_now))
          ≡ pos (from_now - at)
        → rebase (rebase (pos at) (pos from_now) (pos to_now)) (pos to_now) (pos from_now) ≡ pos at
    return_lem le age =
        unfold rebase at_least_zero in
        (ap (λ z. saturating_sub (pos from_now) (at_least_zero z)) age ∙ sub_lem le)
