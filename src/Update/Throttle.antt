-- ===== src/Update/Throttle.antt =====
-- One call of `ProgressThrottle::take` (src/update.rs).
use nerves_hub_link_esp.Base.{ℕ, ◌+◌, ◌*◌, ◌/◌, ◌≤◌, ◌<◌, min, ◌≡◌, ◌≢◌, ◌⊎◌, none, some, arith}
use nerves_hub_link_esp.Update.{ProgressThrottle, take, percent_of}

div-le_of_le-mul : (a t k : ℕ) → 0 < t → a ≤ k * t → a / t ≤ k
div-le_of_le-mul a t k h le = grind arith

le-div_of_mul-le : (a t k : ℕ) → 0 < t → k * t ≤ a → k ≤ a / t
le-div_of_mul-le a t k h le = grind arith

-- The quotient of `percent_of` before it is cut to a byte.
quotient-le : (d total : ℕ) → 0 < total → min d total * 100 / total ≤ 100
quotient-le d total h = div-le_of_le-mul (min d total * 100) total 100 h (omega arith)

pub percent_of-le : (d total : ℕ) → 0 < total → percent_of d total ≤ 100
unfolding percent_of
percent_of-le d total h = omega (arith, quotient-le d total h)

pub percent_of-full : (d total : ℕ) → 0 < total → total ≤ d → percent_of d total ≡ 100
unfolding percent_of
percent_of-full d total h le =
    omega
      (arith, quotient-le d total h, le-div_of_mul-le (min d total * 100) total 100 h (omega arith))

-- What a report says of the throttle before and after it.
pub record Reported (t t' : ProgressThrottle) (downloaded total percent : ℕ) : Type 0 where
  pub sized : 0 < total
  pub exact : percent ≡ percent_of downloaded total
  pub at_most : percent ≤ 100
  pub recorded : t'.last_reported ≡ some percent
  pub same_step : t'.step ≡ t.step
  pub moved_on :
      (last : ℕ)
      → t.last_reported ≡ some last
      → (last ≢ percent) × ((percent ≡ 100) ⊎ (min (last + t.step) 255 ≤ percent))

pub take-some :
    (t t' : ProgressThrottle) (d total p : ℕ)
    → take t d total ≡ (t', some p)
    → Reported t t' d total p
unfolding take
take-some t t' d total p h = record {
  sized = ground arith;
  exact = ground arith;
  at_most = ground (arith, percent_of-le d total);
  recorded = ground arith;
  same_step = ground arith;
  moved_on = λ last e. (ground arith, ground arith);
}

pub take-none : (t t' : ProgressThrottle) (d total : ℕ) → take t d total ≡ (t', none) → t' ≡ t
unfolding take
take-none t t' d total h = ground arith

-- Once everything has arrived, the last percentage that was reported is 100, whatever was reported
-- before: a call with all of a nonempty image downloaded reports 100 or finds it reported already.
take_complete :
    (t : ProgressThrottle) (d total : ℕ)
    → 0 < total
    → total ≤ d
    → (take t d total).0.last_reported ≡ some 100
unfolding take
take_complete t d total h le = ground (arith, percent_of-full d total)
