-- ===== src/Console/Entering.antt =====
-- What the keys of a terminal do to a line (src/console.rs, `LineReader::feed`).
use nerves_hub_link_esp.Base.{
  ℕ, ◌+◌, ◌≤◌, ◌<◌, ◌≡◌, refl, ap, ◌∙◌, ◌⊎◌, Bool, true, false, List, [], ◌∷◌, ◌++◌, arith,
  byte_len, append_assoc, append_nil, lt→ltb,
}
use nerves_hub_link_esp.Console.{
  LineReader, no, csi, Typed, quiet, is_control, feed, type_char, plain_char, add_char, end_line,
}
use nerves_hub_link_esp.Console.Typing.{then_feed, NoControl, len_utf8-pos, byte_len-append}

-- A reader outside of an escape sequence.
abbrev pub held : List ℕ → Bool → LineReader
held line pending = record { line = line; escape = no; pending_newline = pending }

plain_char-printable :
    (r : LineReader) (b : Bool) (c : ℕ) → is_control c ≡ false → plain_char r b c ≡ add_char r c
unfolding plain_char
plain_char-printable r b c k = ground arith

type_char-printable :
    (line : List ℕ) (b : Bool) (c : ℕ)
    → is_control c ≡ false
    → byte_len line < 256
    → type_char (held line b) no c
      ≡ record { reader = held (line ++ c ∷ []) false; echo = c ∷ []; lines = [] }
unfolding type_char add_char
type_char-printable line b c k room =
    plain_char-printable (held line false) b c k ∙ rw (lt→ltb (byte_len line) 256 room) refl

feed-one :
    (line : List ℕ) (b : Bool) (c : ℕ) (cs : List ℕ) (t : Typed)
    → type_char (held line b) no c ≡ t
    → feed (held line b) (c ∷ cs) ≡ then_feed t cs
unfolding feed
feed-one line b c cs t e = ap (λ u. then_feed u cs) e

-- The keystrokes of Enter.
enter :
    (line : List ℕ) (b : Bool)
    → type_char (held line b) no 13
      ≡ record { reader = held [] true; echo = 13 ∷ 10 ∷ []; lines = line ∷ [] }
unfolding type_char plain_char end_line
enter line b = refl

newline : type_char (held [] true) no 10 ≡ quiet (held [] false)
unfolding type_char plain_char
newline = refl

feed-newline : feed (held [] true) (10 ∷ []) ≡ quiet (held [] false)
unfolding feed
feed-newline = ap (λ u. then_feed u []) newline

-- Typed characters and Enter, in front of whatever is typed next.
typed_line :
    (line : List ℕ) (b : Bool) (cs more : List ℕ)
    → NoControl cs
    → byte_len line + byte_len cs ≤ 256
    → feed (held line b) (cs ++ 13 ∷ more)
      ≡ then_feed
          (record { reader = held [] true; echo = cs ++ 13 ∷ 10 ∷ []; lines = (line ++ cs) ∷ [] })
          more
typed_line line b [] more k room = rw (append_nil line) (feed-one line b 13 more _ (enter line b))
typed_line line b (c ∷ cs) more (k, ks) room =
    feed-one line b c (cs ++ 13 ∷ more) _
      (type_char-printable line b c k (omega (arith, len_utf8-pos c)))
    ∙ ap (λ t. record { reader = t.reader; echo = c ∷ t.echo; lines = t.lines })
        (typed_line (line ++ c ∷ []) false cs more ks
          (omega (arith, byte_len-append line (c ∷ []))))
    ∙ ap
        (λ l.
          then_feed
            (record { reader = held [] true; echo = c ∷ (cs ++ 13 ∷ 10 ∷ []); lines = l ∷ [] })
            more)
        (append_assoc line (c ∷ []) cs)

-- For a reader that holds no part of a line and is outside of an escape sequence, a line of characters that are not control characters, at most 256 bytes in UTF-8, then Enter: the
-- reader completes exactly that line and echoes it with a line break, whether Enter comes as `\r` alone
-- or as `\r\n`, and is then ready for the next line.
pub feed-line :
    (b : Bool) (cs : List ℕ)
    → NoControl cs
    → byte_len cs ≤ 256
    → (feed (held [] b) (cs ++ 13 ∷ [])
        ≡ record { reader = held [] true; echo = cs ++ 13 ∷ 10 ∷ []; lines = cs ∷ [] })
      × (feed (held [] b) (cs ++ 13 ∷ 10 ∷ [])
          ≡ record { reader = held [] false; echo = cs ++ 13 ∷ 10 ∷ []; lines = cs ∷ [] })
unfolding feed
feed-line b cs k room = (
  typed_line [] b cs [] k (omega arith) ∙ rw (append_nil (cs ++ 13 ∷ 10 ∷ [])) refl,
  typed_line [] b cs (10 ∷ []) k (omega arith)
      ∙ ap
          (λ t. record {
            reader = t.reader;
            echo = (cs ++ 13 ∷ 10 ∷ []) ++ t.echo;
            lines = cs ∷ t.lines;
          })
          (feed-newline)
      ∙ rw (append_nil (cs ++ 13 ∷ 10 ∷ [])) refl,
)

abbrev pub Parameters : List ℕ → Type 0
Parameters [] = Unit {0}
Parameters (c ∷ cs) = ((c < 64) ⊎ (126 < c)) × Parameters cs

abbrev in_csi : List ℕ → LineReader
in_csi line = record { line = line; escape = csi; pending_newline = false }

csi_char :
    (line : List ℕ) (c : ℕ)
    → (c < 64) ⊎ (126 < c)
    → type_char (in_csi line) csi c ≡ quiet (in_csi line)
unfolding type_char
csi_char line c h = ground arith

csi_final :
    (line : List ℕ) (c : ℕ)
    → 64 ≤ c
    → c ≤ 126
    → type_char (in_csi line) csi c ≡ quiet (held line false)
unfolding type_char
csi_final line c lo hi = ground arith

feed-csi :
    (line params : List ℕ) (final : ℕ)
    → Parameters params
    → 64 ≤ final
    → final ≤ 126
    → feed (in_csi line) (params ++ final ∷ []) ≡ quiet (held line false)
unfolding feed
feed-csi line [] final p lo hi = ap (λ u. then_feed u []) (csi_final line final lo hi)
feed-csi line (c ∷ params) final (k, ks) lo hi =
    ap (λ u. then_feed u (params ++ final ∷ [])) (csi_char line c k)
    ∙ feed-csi line params final ks lo hi

-- Outside of an escape sequence, a cursor key and the like, `ESC [`, then parameters that are not final bytes, then a final byte:
-- nothing is echoed, no line is completed and the part-typed line stays.
feed-escape :
    (line : List ℕ) (b : Bool) (params : List ℕ) (final : ℕ)
    → Parameters params
    → 64 ≤ final
    → final ≤ 126
    → feed (held line b) (27 ∷ 91 ∷ (params ++ final ∷ [])) ≡ quiet (held line false)
unfolding feed type_char plain_char
feed-escape line b params final p lo hi = feed-csi line params final p lo hi
