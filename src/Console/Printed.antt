-- ===== src/Console/Printed.antt =====
-- What one command prints (src/console.rs, `Output`).
use nerves_hub_link_esp.Base.{
  ℕ, zero, suc, ◌+◌, ◌-◌, ◌≤◌, ◌<◌, ◌≡◌, refl, ap, sym, ◌∙◌, ◌⊎◌, inl, inr, true, false, List, [],
  ◌∷◌, ◌++◌, arith, ltb, ◌==◌, length, length-append, length-take, take, if_intro, append_assoc,
  append_nil,
}
use nerves_hub_link_esp.Console.{
  Output, empty_output, max_output, marker, finish, write_str, cut_at, is_char_boundary,
}

-- The writes of a command, in order.
unfoldable pub write_all : Output → List (List ℕ) → Output
write_all o [] = o
write_all o (s ∷ ss) = write_all (write_str o s) ss

unfoldable pub printed : List (List ℕ) → List ℕ
printed [] = []
printed (s ∷ ss) = s ++ printed ss

cut_at-le : (s : List ℕ) (cut : ℕ) → cut_at s cut ≤ cut
unfolding cut_at
cut_at-le s zero = omega arith
cut_at-le s (suc cut) =
    if_intro (λ k. k ≤ suc cut) (is_char_boundary s (suc cut)) (suc cut) (cut_at s cut)
      (λ b. omega arith) (λ b. omega (arith, cut_at-le s cut))

-- From a text, written to with `s`: in bounds, and either marked or with all of `s`.
record Wrote (o : Output) (s : List ℕ) (o' : Output) : Type 0 where
  in_bounds : length o'.text ≤ max_output
  kept : (o'.truncated ≡ true) ⊎ ((o'.text ≡ o.text ++ s) × (o'.truncated ≡ o.truncated))
  fits :
      length o.text + length s ≤ max_output
      → (0 < length s) ⊎ (length o.text < max_output)
      → (o'.text ≡ o.text ++ s) × (o'.truncated ≡ o.truncated)

write_str-Wrote : (o : Output) (s : List ℕ) → length o.text ≤ max_output → Wrote o s (write_str o s)
unfolding write_str
write_str-Wrote o s h =
    if_intro (Wrote o s) (max_output - length o.text == 0) _ _
      (λ full. record {
        in_bounds = h;
        kept = inl refl;
        fits = λ room more. absurd (full_lem full room more);
      })
      (λ room.
        if_intro (Wrote o s) (ltb (max_output - length o.text) (length s)) _ _
          (λ over. record {
            in_bounds = omega (
              arith,
              cut_at-le s (max_output - length o.text),
              length-append o.text (take (cut_at s (max_output - length o.text)) s),
              length-take (cut_at s (max_output - length o.text)) s,
            );
            kept = inl refl;
            fits = λ f more. absurd (over_lem over f);
          })
          (λ fits. record {
            in_bounds = ground (arith, length-append o.text s);
            kept = inr (refl, refl);
            fits = λ f more. (refl, refl);
          }))
  where
    full_lem :
        (max_output - length o.text == 0) ≡ true
        → length o.text + length s ≤ max_output
        → (0 < length s) ⊎ (length o.text < max_output)
        → ⊥
    full_lem full room more = ground arith

    over_lem :
        ltb (max_output - length o.text) (length s) ≡ true
        → length o.text + length s ≤ max_output
        → ⊥
    over_lem over f = ground arith

-- After writes, `o` holds them all (`said`) or is marked.
record Tells (said : List ℕ) (o : Output) : Type 0 where
  in_bounds : length o.text ≤ max_output
  told : (o.truncated ≡ true) ⊎ ((o.text ≡ said) × (o.truncated ≡ false))

marked : (o : Output) (s : List ℕ) → o.truncated ≡ true → (write_str o s).truncated ≡ true
unfolding write_str
marked o s h = ground arith

told_lem :
    (said : List ℕ) (o : Output) (s : List ℕ) (o' : Output)
    → (o.truncated ≡ true → o'.truncated ≡ true)
    → Tells said o
    → Wrote o s o'
    → (o'.truncated ≡ true) ⊎ ((o'.text ≡ said ++ s) × (o'.truncated ≡ false))
told_lem said o s o' keeps t w = elim w.kept [
  | inl cut ↦ inl cut
  | inr (text, flag) ↦ elim t.told [
    | inl was ↦ inl (keeps was)
    | inr (all, whole) ↦ inr (text ∙ ap (λ k. k ++ s) all, flag ∙ whole)
  ]
]

write_all-Tells :
    (said : List ℕ) (o : Output) (ss : List (List ℕ))
    → Tells said o
    → Tells (said ++ printed ss) (write_all o ss)
unfolding write_all printed
write_all-Tells said o [] t = rw (append_nil said) t
write_all-Tells said o (s ∷ ss) t =
    let w = write_str-Wrote o s t.in_bounds in
    rw⁻¹ (append_assoc said s (printed ss)) (
      write_all-Tells (said ++ s) (write_str o s) ss (record {
        in_bounds = w.in_bounds;
        told = told_lem said o s (write_str o s) (marked o s) t w;
      }))

-- What a command's output comes to: all that was written, within the limit, or a part of at most
-- `max_output` bytes and then the marker.
unfoldable pub Honest : List ℕ → List ℕ → Type 0
Honest said out =
    ((out ≡ said) × (length said ≤ max_output))
    ⊎ ((kept : List ℕ) × (out ≡ kept ++ marker) × (length kept ≤ max_output))

finish-Tells : (said : List ℕ) (o : Output) → Tells said o → Honest said (finish o)
unfolding Honest finish
finish-Tells said o t = elim t.told [
  | inl cut ↦ rw cut (inr (o.text, refl, t.in_bounds))
  | inr (all, whole) ↦ rw whole (inl (all, omega (arith, t.in_bounds, ap length all)))
]

-- Whatever a command writes, its output is everything it wrote, which is then at most 2048 bytes, or
-- at most 2048 bytes followed by the marker: nothing is dropped without saying so.
pub finish-Honest : (ss : List (List ℕ)) → Honest (printed ss) (finish (write_all empty_output ss))
finish-Honest ss = finish-Tells (printed ss) (write_all empty_output ss) (
    write_all-Tells [] empty_output ss
      (record { in_bounds = omega arith; told = inr (refl, refl) }))

abbrev pub AllWritten : List (List ℕ) → Type 0
AllWritten [] = Unit {0}
AllWritten (s ∷ ss) = (0 < length s) × AllWritten ss

write_all_complete :
    (o : Output) (ss : List (List ℕ))
    → AllWritten ss
    → length o.text + length (printed ss) ≤ max_output
    → o.truncated ≡ false
    → finish (write_all o ss) ≡ o.text ++ printed ss
unfolding write_all printed finish
write_all_complete o [] a h t = rw t (sym (append_nil o.text))
write_all_complete o (s ∷ ss) (written, a) h t =
    let split = length-append s (printed ss) in
    let w = write_str-Wrote o s (omega arith) in
    let all = w.fits (omega (arith, split)) (inl written) in
    write_all_complete (write_str o s) ss a
      (omega (arith, split, ap length all.0, length-append o.text s)) (all.1 ∙ t)
    ∙ ap (λ k. k ++ printed ss) all.0
    ∙ append_assoc o.text s (printed ss)

-- Writes that are none of them empty and come to at most 2048 bytes are all printed, unmarked.
finish_complete :
    (ss : List (List ℕ))
    → AllWritten ss
    → length (printed ss) ≤ max_output
    → finish (write_all empty_output ss) ≡ printed ss
finish_complete ss a h = write_all_complete empty_output ss a (omega arith) refl
