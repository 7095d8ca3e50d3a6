-- ===== src/Extensions/Meta.antt =====
-- The map of a line's metadata (`Meta` of src/extensions.rs): its loop ends with every key written.
use nerves_hub_link_esp.Base.{
  ℕ, zero, suc, ◌+◌, ◌≤◌, String, Bool, true, false, ◌≡◌, ◌⊎◌, inl, inr, refl, subst, Option, none,
  some, List, [], ◌∷◌, length, codes, if_intro, arith, if◌then◌else◌,
}
use nerves_hub_link_esp.Extensions.Logs.{
  codes_ltb, str_ltb, Pair, is_done, smaller, scan, next_after, write_next, write_from,
  written_meta,
}

codes_ltb_irrefl : (xs : List ℕ) → codes_ltb xs xs ≡ false
unfolding codes_ltb
codes_ltb_irrefl [] = refl
codes_ltb_irrefl (x ∷ xs) = ground (arith, codes_ltb_irrefl xs)

codes_ltb_trans :
    (xs ys zs : List ℕ) → codes_ltb xs ys ≡ true → codes_ltb ys zs ≡ true → codes_ltb xs zs ≡ true
unfolding codes_ltb
codes_ltb_trans [] ys [] h k = absurd (ground arith)
codes_ltb_trans [] ys (z ∷ zs) h k = refl
codes_ltb_trans (x ∷ xs) [] zs h k = absurd (ground arith)
codes_ltb_trans (x ∷ xs) (y ∷ ys) [] h k = absurd (ground arith)
codes_ltb_trans (x ∷ xs) (y ∷ ys) (z ∷ zs) h k = ground (arith, codes_ltb_trans xs ys zs)

-- A key is done once it is written.
is_done-written : (key : String) → is_done (some key) key ≡ true
unfolding is_done str_ltb
is_done-written key = rw (codes_ltb_irrefl (codes key)) refl

-- What is not done after a later key was not done before it.
not_done-earlier :
    (after : Option String) (key k : String)
    → is_done after key ≡ false
    → is_done (some key) k ≡ false
    → is_done after k ≡ false
unfolding is_done str_ltb
not_done-earlier none key k h j = refl
not_done-earlier (some s) key k h j =
    ground (arith, codes_ltb_trans (codes s) (codes key) (codes k))

one_if : Bool → ℕ
one_if done = if done then 0 else 1

-- The pairs whose keys are not done.
left : Option String → List Pair → ℕ
unfolding one_if
left after [] = 0
left after (p ∷ ps) = one_if (is_done after p.0) + left after ps

one_if_mono : (a b : Bool) → (a ≡ false → b ≡ false) → one_if a ≤ one_if b
unfolding one_if
one_if_mono true b h = ground arith
one_if_mono false true h = absurd (ground (arith, h refl))
one_if_mono false false h = omega arith

left_mono :
    (after : Option String) (key : String) (ps : List Pair)
    → is_done after key ≡ false
    → left (some key) ps ≤ left after ps
unfolding left
left_mono after key [] h = omega arith
left_mono after key (p ∷ ps) h = omega (
  arith,
  one_if_mono (is_done (some key) p.0) (is_done after p.0) (not_done-earlier after key p.0 h),
  left_mono after key ps h,
)

-- A pair that was found: its key was not done, and once it is written fewer are left.
From : Option String → List Pair → Pair → Type 0
From after ps q = (is_done after q.0 ≡ false) × (suc (left (some q.0) ps) ≤ left after ps)

From-cons :
    (after : Option String) (p : Pair) (ps : List Pair) (q : Pair)
    → From after ps q
    → From after (p ∷ ps) q
unfolding From left
From-cons after p ps q (fresh, fewer) = (
  fresh,
  omega (
    arith,
    fewer,
    one_if_mono (is_done (some q.0) p.0) (is_done after p.0) (not_done-earlier after q.0 p.0 fresh),
  ),
)

From-head :
    (after : Option String) (p : Pair) (ps : List Pair)
    → is_done after p.0 ≡ false
    → From after (p ∷ ps) p
unfolding From left one_if
From-head after p ps fresh =
    (fresh, rw fresh (rw (is_done-written p.0) (omega (arith, left_mono after p.0 ps fresh))))

-- The smaller of the candidate and a pair is one of them.
smaller-either :
    (next : Option Pair) (p q : Pair) → smaller next p ≡ some q → (next ≡ some q) ⊎ (p ≡ q)
unfolding smaller
smaller-either none p q = λ e. inr cc
smaller-either (some s) p q =
    if_intro {A = Option Pair} (λ o. o ≡ some q → (some s ≡ some q) ⊎ (p ≡ q)) (str_ltb s.0 p.0) _ _
      (λ _ e. inl e) (λ _ e. inr cc)

picked :
    (after : Option String) (next : Option Pair) (p : Pair) (ps : List Pair) (q : Pair)
    (done : Bool)
    → is_done after p.0 ≡ done
    → (if done then next else smaller next p) ≡ some q
    → (next ≡ some q) ⊎ From after (p ∷ ps) q
picked after next p ps q true at e = inl e
picked after next p ps q false at e = either (smaller-either next p q e)
  where
    either : (next ≡ some q) ⊎ (p ≡ q) → (next ≡ some q) ⊎ From after (p ∷ ps) q
    either (inl k) = inl k
    either (inr same) = inr (subst (From after (p ∷ ps)) same (From-head after p ps at))

scan-From :
    (after : Option String) (next : Option Pair) (ps : List Pair) (q : Pair)
    → scan after next ps ≡ some q
    → (next ≡ some q) ⊎ From after ps q
unfolding scan
scan-From after next [] q e = inl e
scan-From after next (p ∷ ps) q e =
    either (scan-From after (if is_done after p.0 then next else smaller next p) ps q e)
  where
    either :
        ((if is_done after p.0 then next else smaller next p) ≡ some q) ⊎ From after ps q
        → (next ≡ some q) ⊎ From after (p ∷ ps) q
    either (inl k) = picked after next p ps q (is_done after p.0) refl k
    either (inr found) = inr (From-cons after p ps q found)

next_after-From :
    (pairs : List Pair) (after : Option String) (q : Pair)
    → next_after pairs after ≡ some q
    → From after pairs q
unfolding next_after
next_after-From pairs after q e = either (scan-From after none pairs q e)
  where
    either : (none ≡ some q) ⊎ From after pairs q → From after pairs q
    either (inl k) = absurd cc
    either (inr found) = found

-- The keys written go up, each the next after the one before it, and after the last none is left.
pub data Ascends (pairs : List Pair) : Option String → List Pair → Type 0 where
  finished : {after : Option String} → next_after pairs after ≡ none → Ascends pairs after []
  writes :
      {after : Option String} {rest : List Pair} (p : Pair)
      → is_done after p.0 ≡ false
      → next_after pairs after ≡ some p
      → Ascends pairs (some p.0) rest
      → Ascends pairs after (p ∷ rest)

write_next-Ascends :
    (fuel : ℕ) (pairs : List Pair) (after : Option String) (rest : Pair → List Pair)
    (o : Option Pair)
    → next_after pairs after ≡ o
    → left after pairs ≤ suc fuel
    → ((p : Pair) → left (some p.0) pairs ≤ fuel → Ascends pairs (some p.0) (rest p))
    → Ascends pairs after (write_next rest o)
unfolding write_next From
write_next-Ascends fuel pairs after rest none e few k = finished e
write_next-Ascends fuel pairs after rest (some p) e few k =
    let (fresh, fewer) = next_after-From pairs after p e in
    writes p fresh e (k p (omega (arith, few, fewer)))

write_from-Ascends :
    (fuel : ℕ) (pairs : List Pair) (after : Option String)
    → left after pairs ≤ fuel
    → Ascends pairs after (write_from fuel pairs after)
unfolding write_from From
write_from-Ascends zero pairs after few = finished (nothing (next_after pairs after) refl)
  where
    nothing : (o : Option Pair) → next_after pairs after ≡ o → next_after pairs after ≡ none
    nothing none e = e
    nothing (some p) e =
        let (fresh, fewer) = next_after-From pairs after p e in absurd (omega (arith, few, fewer))
write_from-Ascends (suc fuel) pairs after few =
    write_next-Ascends fuel pairs after _ (next_after pairs after) refl few
      (λ p fewer. write_from-Ascends fuel pairs (some p.0) fewer)

left-length : (after : Option String) (pairs : List Pair) → left after pairs ≤ length pairs
unfolding left one_if
left-length after [] = omega arith
left-length after (p ∷ ps) = ground (arith, left-length after ps)

-- The map of any pairs: its keys go up strictly, each the smallest key above the one before it as
-- `next_after` gives it, and the loop ends only when no key is left.
pub written_meta-Ascends : (pairs : List Pair) → Ascends pairs none (written_meta pairs)
unfolding written_meta
written_meta-Ascends pairs = write_from-Ascends (length pairs) pairs none (left-length none pairs)
