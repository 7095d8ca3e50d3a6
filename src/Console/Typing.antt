-- ===== src/Console/Typing.antt =====
-- How keystrokes become lines (src/console.rs, `LineReader`).
use nerves_hub_link_esp.Base.{
  ℕ, ◌+◌, ◌≤◌, ◌<◌, ◌≡◌, refl, Bool, false, ◌&&◌, ◌||◌, Option, none, some, List, [], ◌∷◌, ◌++◌,
  arith, len_utf8, byte_len, ltb, ◌==◌, append_assoc, if_intro,
}
use nerves_hub_link_esp.Console.{
  LineReader, Escape, no, started, csi, Typed, quiet, is_control, pop, put_back, feed, type_char,
  plain_char, add_char, erase, end_line,
}

-- One call after another.
abbrev pub then_feed : Typed → List ℕ → Typed
then_feed t cs =
    let rest = feed t.reader cs in
    record { reader = rest.reader; echo = t.echo ++ rest.echo; lines = t.lines ++ rest.lines }

-- It does not matter where the transport cuts what was typed into chunks: feeding two chunks one
-- after the other leaves the same reader, and the same echo and lines in all, as feeding both at once.
feed-append : (r : LineReader) (a b : List ℕ) → feed r (a ++ b) ≡ then_feed (feed r a) b
unfolding feed
feed-append r [] b = refl
feed-append r (c ∷ a) b =
    let t = type_char r r.escape c in
    let rest = feed t.reader a in
    rw (feed-append t.reader a b) (
      rw (append_assoc t.echo rest.echo (feed rest.reader b).echo)
        (rw (append_assoc t.lines rest.lines (feed rest.reader b).lines) refl))

len_utf8-le : (c : ℕ) → len_utf8 c ≤ 4
len_utf8-le c = ground arith

pub len_utf8-pos : (c : ℕ) → 0 < len_utf8 c
len_utf8-pos c = ground arith

pub byte_len-append : (a b : List ℕ) → byte_len (a ++ b) ≡ byte_len a + byte_len b
byte_len-append [] b = omega arith
byte_len-append (c ∷ a) b = omega (arith, byte_len-append a b)

-- A line as the reader may hold it: bounded, and without control characters.
abbrev pub NoControl : List ℕ → Type 0
NoControl [] = Unit {0}
NoControl (c ∷ cs) = (is_control c ≡ false) × NoControl cs

pub record IsLine (line : List ℕ) : Type 0 where
  pub bounded : byte_len line ≤ 259
  pub printable : NoControl line

abbrev pub AllLines : List (List ℕ) → Type 0
AllLines [] = Unit {0}
AllLines (l ∷ ls) = IsLine l × AllLines ls

NoControl-append_one :
    (a : List ℕ) (c : ℕ) → NoControl a → is_control c ≡ false → NoControl (a ++ c ∷ [])
NoControl-append_one [] c h k = (k, tt)
NoControl-append_one (x ∷ a) c (h, hs) k = (h, NoControl-append_one a c hs k)

empty-IsLine : IsLine []
empty-IsLine = record { bounded = omega arith; printable = tt }

record Good (t : Typed) : Type 0 where
  held : IsLine t.reader.line
  completed : AllLines t.lines

quiet-Good : (r : LineReader) → IsLine r.line → Good (quiet r)
quiet-Good r h = record { held = h; completed = tt }

add_char-Good :
    (r : LineReader) (c : ℕ) → is_control c ≡ false → IsLine r.line → Good (add_char r c)
unfolding add_char
add_char-Good r c k h =
    if_intro Good (ltb (byte_len r.line) 256) _ (quiet r)
      (λ room. record {
        held = record {
          bounded = ground (arith, byte_len-append r.line (c ∷ []), len_utf8-le c);
          printable = NoControl-append_one r.line c h.printable k;
        };
        completed = tt;
      })
      (λ full. quiet-Good r h)

-- What `pop` leaves of a line.
record Popped (line front : List ℕ) : Type 0 where
  shorter : byte_len front ≤ byte_len line
  clean : NoControl line → NoControl front

PoppedOption : List ℕ → Option (List ℕ) → Type 0
PoppedOption line none = Unit {0}
PoppedOption line (some front) = Popped line front

put_back-Popped :
    (c : ℕ) (cs : List ℕ) (o : Option (List ℕ)) → PoppedOption cs o → Popped (c ∷ cs) (put_back c o)
unfolding PoppedOption put_back
put_back-Popped c cs none h = record { shorter = omega arith; clean = λ k. tt }
put_back-Popped c cs (some front) h = record {
  shorter = omega (arith, h.shorter);
  clean = λ (k, ks). (k, h.clean ks);
}

pop-Popped : (line : List ℕ) → PoppedOption line (pop line)
unfolding pop PoppedOption
pop-Popped [] = tt
pop-Popped (c ∷ cs) = put_back-Popped c cs (pop cs) (pop-Popped cs)

erase-Good :
    (r : LineReader) (o : Option (List ℕ))
    → PoppedOption r.line o
    → IsLine r.line
    → Good (erase r o)
unfolding erase PoppedOption
erase-Good r none p h = quiet-Good r h
erase-Good r (some front) p h = record {
  held = record { bounded = omega (arith, p.shorter, h.bounded); printable = p.clean h.printable };
  completed = tt;
}

end_line-Good : (r : LineReader) (c : ℕ) → IsLine r.line → Good (end_line r c)
unfolding end_line
end_line-Good r c h = record { held = empty-IsLine; completed = (h, tt) }

plain_char-Good : (r : LineReader) (b : Bool) (c : ℕ) → IsLine r.line → Good (plain_char r b c)
unfolding plain_char
plain_char-Good r b c h =
    if_intro Good (c == 27) _ _ (λ e. quiet-Good _ h)
      (λ e.
        if_intro Good (c == 10 && b) _ _ (λ e. quiet-Good _ h)
          (λ e.
            if_intro Good (c == 13 || c == 10) _ _ (λ e. end_line-Good r c h)
              (λ e.
                if_intro Good (c == 8 || c == 127) _ _
                  (λ e. erase-Good r (pop r.line) (pop-Popped r.line) h)
                  (λ e.
                    if_intro Good (is_control c) _ _ (λ e. quiet-Good r h)
                      (λ e. add_char-Good r c e h)))))

type_char-Good : (r : LineReader) (e : Escape) (c : ℕ) → IsLine r.line → Good (type_char r e c)
unfolding type_char
type_char-Good r started c h = quiet-Good _ h
type_char-Good r csi c h = quiet-Good _ h
type_char-Good r no c h =
    plain_char-Good (record r { pending_newline = false }) r.pending_newline c h

AllLines-append : (a b : List (List ℕ)) → AllLines a → AllLines b → AllLines (a ++ b)
AllLines-append [] b h k = k
AllLines-append (l ∷ a) b (h, hs) k = (h, AllLines-append a b hs k)

-- Whatever is typed, and in whatever chunks, neither the part-typed line nor any completed one has a
-- control character in it or is longer than 259 bytes (the limit of 256 and what a last character of
-- several bytes adds), if the line held at the start is so.
pub feed-IsLine :
    (r : LineReader) (cs : List ℕ)
    → IsLine r.line
    → IsLine (feed r cs).reader.line × AllLines (feed r cs).lines
unfolding feed
feed-IsLine r [] h = (h, tt)
feed-IsLine r (c ∷ cs) h =
    let g = type_char-Good r r.escape c h in
    let (held, rest) = feed-IsLine (type_char r r.escape c).reader cs g.held in
    (held, AllLines-append (type_char r r.escape c).lines _ g.completed rest)
