-- ===== src/Update/Reports.antt =====
-- The calls of `ProgressThrottle::take` (src/update.rs) over a whole download.
use nerves_hub_link_esp.Base.{
  ℕ, ◌+◌, ◌*◌, ◌≤◌, ◌<◌, max, ◌≡◌, refl, ap, subst, ◌⊎◌, inl, inr, Option, none, some, List, [],
  ◌∷◌, arith, length,
}
use nerves_hub_link_esp.Update.{ProgressThrottle, new, take}
use nerves_hub_link_esp.Update.Throttle.{Reported, take-some, take-none}

add_report : Option ℕ → List ℕ → List ℕ
add_report none ps = ps
add_report (some p) ps = p ∷ ps

-- What is reported, in order, of the byte counts of a download.
unfoldable pub reports : ProgressThrottle → ℕ → List ℕ → List ℕ
unfolding add_report
reports t total [] = []
reports t total (d ∷ ds) = let (t', p) = take t d total in add_report p (reports t' total ds)

abbrev pub Follows : ℕ → Option ℕ → ℕ → Type 0
Follows step none p = p ≤ 100
Follows step (some last) p = (p ≤ 100) × ((last + step ≤ p) ⊎ ((last < 100) × (p ≡ 100)))

-- Each report lies a step past the one before it, or is the 100 that ends the download.
abbrev pub Spaced : ℕ → Option ℕ → List ℕ → Type 0
Spaced step last [] = Unit {0}
Spaced step last (p ∷ ps) = Follows step last p × Spaced step (some p) ps

abbrev pub AtMost100 : Option ℕ → Type 0
AtMost100 none = Unit {0}
AtMost100 (some p) = p ≤ 100

follows :
    (last : Option ℕ) (t t' : ProgressThrottle) (d total p : ℕ)
    → t.last_reported ≡ last
    → AtMost100 last
    → Reported t t' d total p
    → Follows t.step last p
follows none t t' d total p e b r = r.at_most
follows (some last) t t' d total p e b r = ground (arith, r.moved_on last e)

abbrev SpacedBy : ProgressThrottle → List ℕ → Type 0
SpacedBy t ps = Spaced t.step t.last_reported ps

reports_step :
    (t : ProgressThrottle) (d total : ℕ) (ds : List ℕ)
    → AtMost100 t.last_reported
    → ((t' : ProgressThrottle) → AtMost100 t'.last_reported → SpacedBy t' (reports t' total ds))
    → (t' : ProgressThrottle) (p : Option ℕ) → take t d total ≡ (t', p)
    → SpacedBy t (add_report p (reports t' total ds))
unfolding add_report
reports_step t d total ds b ih t' none e = rw (take-none t t' d total e) (ih t b)
reports_step t d total ds b ih t' (some p) e =
    let r = take-some t t' d total p e in
    (
      follows t.last_reported t t' d total p refl b r,
      subst (λ k. Spaced k (some p) (reports t' total ds)) r.same_step
          (subst (λ l. Spaced t'.step l (reports t' total ds)) r.recorded
            (ih t' (rw r.recorded r.at_most))),
    )

reports-Spaced :
    (t : ProgressThrottle) (total : ℕ) (ds : List ℕ)
    → AtMost100 t.last_reported
    → SpacedBy t (reports t total ds)
unfolding reports
reports-Spaced t total [] b = tt
reports-Spaced t total (d ∷ ds) b =
    reports_step t d total ds b (λ t' b'. reports-Spaced t' total ds b') (take t d total).0
      (take t d total).1 refl

-- The percentages that a download reports, whatever byte counts it passes through, start anywhere up
-- to 100, never pass 100, and grow: each is at least the throttle's step past the one before it,
-- except that the last may be the 100 that ends the download.
pub reports-new-Spaced :
    (step total : ℕ) (ds : List ℕ) → Spaced (new step).step none (reports (new step) total ds)
unfolding new
reports-new-Spaced step total ds = reports-Spaced (new step) total ds tt

-- After 100 there is nothing left to report.
Spaced-full : (step : ℕ) (ps : List ℕ) → 0 < step → Spaced step (some 100) ps → ps ≡ []
Spaced-full step [] h s = refl
Spaced-full step (p ∷ ps) h (f, s) = absurd (omega arith)

Spaced-length :
    (step last : ℕ) (ps : List ℕ)
    → 0 < step
    → last ≤ 100
    → Spaced step (some last) ps
    → length ps * step + last ≤ 100 + step
Spaced-length step last [] h b s = omega arith
Spaced-length step last (p ∷ ps) h b ((at_most, inl spaced), s) =
    omega (arith, Spaced-length step p ps h at_most s)
Spaced-length step last (p ∷ ps) h b ((at_most, inr (before, full)), s) =
    let rest = Spaced-full step ps h (subst (λ k. Spaced step (some k) ps) full s) in
    let none_left : length ps ≡ 0 = ap length rest in rw none_left (omega arith)

length-Spaced :
    (step : ℕ) (ps : List ℕ) → 0 < step → Spaced step none ps → length ps * step ≤ 100 + 2 * step
length-Spaced step [] h s = omega arith
length-Spaced step (p ∷ ps) h (f, s) = omega (arith, Spaced-length step p ps h f s)

-- A download sends at most `100 / step + 2` progress messages, for the step that the throttle keeps
-- (at least 1), however many chunks it comes in.
length-reports :
    (step total : ℕ) (ds : List ℕ)
    → length (reports (new step) total ds) * max step 1 ≤ 100 + 2 * max step 1
unfolding new
length-reports step total ds =
    length-Spaced (max step 1) (reports (new step) total ds) (omega arith)
      (reports-new-Spaced step total ds)
