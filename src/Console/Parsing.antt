-- ===== src/Console/Parsing.antt =====
-- How a line is split into a command and its arguments (src/console.rs, `parse`).
use nerves_hub_link_esp.Base.{
  ℕ, ◌≡◌, refl, ap, ◌∙◌, true, false, Option, none, some, List, [], ◌∷◌, ◌++◌, append_nil, if_intro,
  arith,
}
use nerves_hub_link_esp.Console.{
  is_whitespace, parse, split_whitespace, words, add_word, first_word, name_first,
}

abbrev pub NoSpace : List ℕ → Type 0
NoSpace [] = Unit {0}
NoSpace (c ∷ cs) = (is_whitespace c ≡ false) × NoSpace cs

abbrev pub AllSpace : List ℕ → Type 0
AllSpace [] = Unit {0}
AllSpace (c ∷ cs) = (is_whitespace c ≡ true) × AllSpace cs

-- A word of a line: of one character or more, none of them whitespace.
abbrev pub IsWord : List ℕ → Type 0
IsWord [] = ⊥
IsWord (c ∷ cs) = NoSpace (c ∷ cs)

abbrev pub AllWords : List (List ℕ) → Type 0
AllWords [] = Unit {0}
AllWords (w ∷ ws) = IsWord w × AllWords ws

-- A line: its words, each but the last before whitespace, of whatever kind and length.
unfoldable pub line_of : List (List ℕ × List ℕ) → List ℕ
line_of [] = []
line_of ((w, gap) ∷ rest) = w ++ (gap ++ line_of rest)

abbrev pub Spaced : List (List ℕ × List ℕ) → Type 0
Spaced [] = Unit {0}
Spaced ((w, gap) ∷ []) = IsWord w × AllSpace gap
Spaced ((w, []) ∷ next ∷ rest) = ⊥
Spaced ((w, g ∷ gap) ∷ next ∷ rest) = IsWord w × AllSpace (g ∷ gap) × Spaced (next ∷ rest)

unfoldable pub firsts : List (List ℕ × List ℕ) → List (List ℕ)
firsts [] = []
firsts ((w, gap) ∷ rest) = w ∷ firsts rest

words-space :
    (c : ℕ) (s : List ℕ)
    → is_whitespace c ≡ true
    → words (c ∷ s) ≡ ([], add_word (words s).0 (words s).1)
unfolding words first_word
words-space c s h = rw h refl

words-char :
    (c : ℕ) (s : List ℕ) → is_whitespace c ≡ false → words (c ∷ s) ≡ (c ∷ (words s).0, (words s).1)
unfolding words first_word
words-char c s h = rw h refl

words-NoSpace : (w s : List ℕ) → NoSpace w → words (w ++ s) ≡ (w ++ (words s).0, (words s).1)
words-NoSpace [] s h = refl
words-NoSpace (c ∷ w) s (h, hs) =
    words-char c (w ++ s) h ∙ ap (λ r. (c ∷ r.0, r.1)) (words-NoSpace w s hs)

split_whitespace-AllSpace :
    (gap s : List ℕ) → AllSpace gap → split_whitespace (gap ++ s) ≡ split_whitespace s
unfolding split_whitespace
split_whitespace-AllSpace [] s h = refl
split_whitespace-AllSpace (c ∷ gap) s (h, hs) =
    ap (λ r. add_word r.0 r.1) (words-space c (gap ++ s) h)
    ∙ (unfold add_word in refl)
    ∙ split_whitespace-AllSpace gap s hs

words-AllSpace :
    (g : ℕ) (gap s : List ℕ)
    → is_whitespace g ≡ true
    → AllSpace gap
    → words (g ∷ (gap ++ s)) ≡ ([], split_whitespace s)
unfolding split_whitespace
words-AllSpace g gap s h hs =
    words-space g (gap ++ s) h ∙ ap (λ k. ([], k)) (split_whitespace-AllSpace gap s hs)

add_word-IsWord : (w : List ℕ) (ws : List (List ℕ)) → IsWord w → add_word w ws ≡ w ∷ ws
unfolding add_word
add_word-IsWord [] ws h = absurd h
add_word-IsWord (c ∷ w) ws h = refl

IsWord-NoSpace : (w : List ℕ) → IsWord w → NoSpace w
IsWord-NoSpace [] h = tt
IsWord-NoSpace (c ∷ w) h = h

split_whitespace-word :
    (w s : List ℕ) (ws : List (List ℕ))
    → IsWord w
    → words s ≡ ([], ws)
    → split_whitespace (w ++ s) ≡ w ∷ ws
unfolding split_whitespace
split_whitespace-word w s ws h e =
    ap (λ r. add_word r.0 r.1)
      (words-NoSpace w s (IsWord-NoSpace w h) ∙ ap (λ r. (w ++ r.0, r.1)) e)
    ∙ ap (λ k. add_word k ws) (append_nil w)
    ∙ add_word-IsWord w ws h

words_of_gap : (gap : List ℕ) → AllSpace gap → words (gap ++ []) ≡ ([], [])
words_of_gap [] h = unfold words in refl
words_of_gap (g ∷ gap) (h, hs) =
    words-AllSpace g gap [] h hs ∙ (unfold split_whitespace words add_word in refl)

split_whitespace-Spaced :
    (ps : List (List ℕ × List ℕ)) → Spaced ps → split_whitespace (line_of ps) ≡ firsts ps
unfolding line_of firsts
split_whitespace-Spaced [] h = unfold split_whitespace words add_word in refl
split_whitespace-Spaced ((w, gap) ∷ []) (h, g) =
    split_whitespace-word w (gap ++ []) [] h (words_of_gap gap g)
split_whitespace-Spaced ((w, []) ∷ next ∷ rest) h = absurd h
split_whitespace-Spaced ((w, g ∷ gap) ∷ next ∷ rest) (h, (k, ks), s) =
    split_whitespace-word w _ (firsts (next ∷ rest)) h (
      words-AllSpace g gap (line_of (next ∷ rest)) k ks
      ∙ ap (λ r. ([], r)) (split_whitespace-Spaced (next ∷ rest) s))

-- A line that is a name and arguments, set apart by any whitespace, with any before and after them,
-- is parsed into exactly that name and those arguments.
pub parse-line :
    (lead name gap : List ℕ) (args : List (List ℕ × List ℕ))
    → AllSpace lead
    → Spaced ((name, gap) ∷ args)
    → parse (lead ++ line_of ((name, gap) ∷ args)) ≡ some (name, firsts args)
unfolding parse name_first firsts
parse-line lead name gap args l h =
    ap name_first
      (split_whitespace-AllSpace lead _ l ∙ split_whitespace-Spaced ((name, gap) ∷ args) h)

record AreWords (s : List ℕ) (r : List ℕ × List (List ℕ)) : Type 0 where
  first : NoSpace r.0
  others : AllWords r.1
  blank : add_word r.0 r.1 ≡ [] → AllSpace s

add_word-AllWords :
    (w : List ℕ) (ws : List (List ℕ)) → NoSpace w → AllWords ws → AllWords (add_word w ws)
unfolding add_word
add_word-AllWords [] ws h k = k
add_word-AllWords (c ∷ w) ws h k = (h, k)

nothing_added : (w : List ℕ) (ws : List (List ℕ)) → add_word w ws ≡ [] → ws ≡ []
unfolding add_word
nothing_added [] ws e = e
nothing_added (c ∷ w) ws e = absurd (ground arith)

added_char : (c : ℕ) (w : List ℕ) (ws : List (List ℕ)) → add_word (c ∷ w) ws ≡ [] → ⊥
unfolding add_word
added_char c w ws e = ground arith

words-AreWords : (s : List ℕ) → AreWords s (words s)
unfolding words first_word
words-AreWords [] = record { first = tt; others = tt; blank = λ e. tt }
words-AreWords (c ∷ s) =
    let ih = words-AreWords s in
    if_intro (AreWords (c ∷ s)) (is_whitespace c) _ _
      (λ h. record {
        first = tt;
        others = add_word-AllWords (words s).0 (words s).1 ih.first ih.others;
        blank = λ e. (h, ih.blank (unfold add_word in e));
      })
      (λ h. record {
        first = (h, ih.first);
        others = ih.others;
        blank = λ e. absurd (added_char c (words s).0 (words s).1 e);
      })

-- What `parse` may answer for a line: nothing only for one of whitespace alone; a name and arguments
-- that are words.
unfoldable pub ParsedWell : List ℕ → Option (List ℕ × List (List ℕ)) → Type 0
ParsedWell line none = AllSpace line
ParsedWell line (some (name, args)) = IsWord name × AllWords args

name_first-ParsedWell :
    (line : List ℕ) (ws : List (List ℕ))
    → AllWords ws
    → (ws ≡ [] → AllSpace line)
    → ParsedWell line (name_first ws)
unfolding ParsedWell name_first
name_first-ParsedWell line [] h b = b refl
name_first-ParsedWell line (w ∷ ws) h b = h

-- Whatever is typed, only a line of nothing but whitespace has no command; any other names one, and
-- the name and each argument are words: not empty, and without whitespace.
pub parse-ParsedWell : (line : List ℕ) → ParsedWell line (parse line)
unfolding parse split_whitespace
parse-ParsedWell line =
    let w = words-AreWords line in
    name_first-ParsedWell line (add_word (words line).0 (words line).1)
      (add_word-AllWords (words line).0 (words line).1 w.first w.others) w.blank
