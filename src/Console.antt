-- ===== src/Console.antt =====
-- src/console.rs: what a command prints, how keystrokes become lines, and how a line is split. Texts
-- that are cut or counted are lists of bytes; keystrokes are lists of code points.
pub mod Printed
pub mod Typing
pub mod Entering
pub mod Parsing
mod Examples
use nerves_hub_link_esp.Base.{
  ℕ, zero, suc, ◌+◌, ◌-◌, Bool, true, false, not, ◌&&◌, ◌||◌, Option, none, some, List, [], ◌∷◌,
  ◌++◌, leb, ltb, ◌==◌, length, take, get_elem?, codes, any, byte_len, if◌then◌else◌,
}

abbrev pub max_output : ℕ
max_output = 2048

pub record Output : Type 0 where
  pub text : List ℕ
  pub truncated : Bool

abbrev pub empty_output : Output
empty_output = record { text = []; truncated = false }

-- "\r\n[output truncated]"
abbrev pub marker : List ℕ
marker = 13 ∷ 10 ∷ codes "[output truncated]"

unfoldable pub finish : Output → List ℕ
finish o = if o.truncated then o.text ++ marker else o.text

-- `str::is_char_boundary`: the end, or a byte that does not continue a character.
is_boundary_byte : Bool → Option ℕ → Bool
is_boundary_byte at_end none = at_end
is_boundary_byte at_end (some b) = not (leb 128 b && ltb b 192)

is_char_boundary : List ℕ → ℕ → Bool
unfolding is_boundary_byte
is_char_boundary s cut = cut == 0 || is_boundary_byte (length s == cut) (get_elem? s cut)

cut_at : List ℕ → ℕ → ℕ
unfolding is_char_boundary
cut_at s zero = zero
cut_at s (suc cut) =
    let lower = cut_at s cut in if is_char_boundary s (suc cut) then suc cut else lower

-- The subtraction saturates.
unfoldable pub write_str : Output → List ℕ → Output
unfolding cut_at
write_str o s =
    let room = max_output - length o.text in
    if room == 0
    then record o { truncated = true }
    else if ltb room (length s)
    then record { text = o.text ++ take (cut_at s room) s; truncated = true }
    else record o { text = o.text ++ s }

pub data Escape : Type 0 where
  no started csi : Escape

pub record LineReader : Type 0 where
  pub line : List ℕ
  pub escape : Escape
  pub pending_newline : Bool

abbrev pub new_reader : LineReader
new_reader = record { line = []; escape = no; pending_newline = false }

-- `char::is_control`: the category Cc.
abbrev pub is_control : ℕ → Bool
is_control c = ltb c 32 || (leb 127 c && leb c 159)

-- `String::pop`: the line without its last character, if it has one.
put_back : ℕ → Option (List ℕ) → List ℕ
put_back c none = []
put_back c (some front) = c ∷ front

pop : List ℕ → Option (List ℕ)
unfolding put_back
pop [] = none
pop (c ∷ cs) = some (put_back c (pop cs))

-- What one character leads to: the reader after it, what to echo, and the lines it completes.
pub record Typed : Type 0 where
  pub reader : LineReader
  pub echo : List ℕ
  pub lines : List (List ℕ)

abbrev pub quiet : LineReader → Typed
quiet r = record { reader = r; echo = []; lines = [] }

erase : LineReader → Option (List ℕ) → Typed
erase r none = quiet r
erase r (some front) = record {
  reader = record r { line = front };
  echo = 8 ∷ 32 ∷ 8 ∷ [];
  lines = [];
}

add_char : LineReader → ℕ → Typed
add_char r c =
    if ltb (byte_len r.line) 256
    then record { reader = record r { line = r.line ++ c ∷ [] }; echo = c ∷ []; lines = [] }
    else quiet r

end_line : LineReader → ℕ → Typed
end_line r c = record {
  reader = record r { line = []; pending_newline = c == 13 };
  echo = 13 ∷ 10 ∷ [];
  lines = r.line ∷ [];
}

-- Outside of an escape sequence, once the pending newline has been taken.
plain_char : LineReader → Bool → ℕ → Typed
unfolding pop erase add_char end_line
plain_char r was_pending c =
    if c == 27
    then quiet (record r { escape = started })
    else if c == 10 && was_pending
    then quiet r
    else if c == 13 || c == 10
    then end_line r c
    else if c == 8 || c == 127
    then erase r (pop r.line)
    else if is_control c
    then quiet r
    else add_char r c

type_char : LineReader → Escape → ℕ → Typed
unfolding plain_char
type_char r started c = quiet (record r { escape = if c == 91 then csi else no })
type_char r csi c = quiet (record r { escape = if leb 64 c && leb c 126 then no else csi })
type_char r no c = plain_char (record r { pending_newline = false }) r.pending_newline c

unfoldable pub feed : LineReader → List ℕ → Typed
unfolding type_char
feed r [] = quiet r
feed r (c ∷ cs) =
    let t = type_char r r.escape c in
    let rest = feed t.reader cs in
    record { reader = rest.reader; echo = t.echo ++ rest.echo; lines = t.lines ++ rest.lines }

-- `char::is_whitespace`: the property White_Space.
abbrev pub is_whitespace : ℕ → Bool
is_whitespace c =
    (leb 9 c && leb c 13)
    || (leb 8192 c && leb c 8202)
    || any (λ w. c == w) (32 ∷ 133 ∷ 160 ∷ 5760 ∷ 8232 ∷ 8233 ∷ 8239 ∷ 8287 ∷ 12288 ∷ [])

-- The word that a text starts with, empty if it starts with whitespace, and the words after it.
add_word : List ℕ → List (List ℕ) → List (List ℕ)
add_word [] ws = ws
add_word (c ∷ cs) ws = (c ∷ cs) ∷ ws

first_word : ℕ → List ℕ × List (List ℕ) → List ℕ × List (List ℕ)
unfolding add_word
first_word c (w, ws) = if is_whitespace c then ([], add_word w ws) else (c ∷ w, ws)

words : List ℕ → List ℕ × List (List ℕ)
unfolding first_word
words [] = ([], [])
words (c ∷ cs) = first_word c (words cs)

-- `str::split_whitespace`.
split_whitespace : List ℕ → List (List ℕ)
unfolding words add_word
split_whitespace s = let (w, ws) = words s in add_word w ws

name_first : List (List ℕ) → Option (List ℕ × List (List ℕ))
name_first [] = none
name_first (name ∷ args) = some (name, args)

unfoldable pub parse : List ℕ → Option (List ℕ × List (List ℕ))
unfolding split_whitespace name_first
parse line = name_first (split_whitespace line)
