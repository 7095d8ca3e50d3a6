-- ===== src/Logging/Lines.antt =====
-- A log line (src/extensions.rs), what it costs and its stamp (src/logging.rs). A Rust `String` is a
-- text and the capacity of the buffer behind it, which is the allocator's.
use nerves_hub_link_esp.Base.{
  ℕ, ◌+◌, ◌*◌, String, Bool, true, false, Option, none, some, List, [], ◌∷◌, ◌++◌, length, any,
  str_eq, str_len, to_string,
}

pub record Buffer : Type 0 where
  pub text : String
  pub capacity : ℕ

pub record LogLine : Type 0 where
  pub level : Buffer
  pub message : Buffer
  pub timestamp : Option Buffer
  pub meta : List (Buffer × Buffer)
  pub meta_capacity : ℕ

-- What the target and the standard library decide: the sizes of a line and of a pair of strings, the
-- buffer that a new string gets, and the capacity of a vector (of a length and a capacity) after a push.
pub record Allocator : Type 0 where
  pub line_size : ℕ
  pub pair_size : ℕ
  pub new_string : String → Buffer
  pub after_push : ℕ → ℕ → ℕ

pub data Level : Type 0 where
  error warn info debug trace : Level

-- `Level as usize`.
abbrev pub level_number : Level → ℕ
level_number error = 1
level_number warn = 2
level_number info = 3
level_number debug = 4
level_number trace = 5

unfoldable pub level_name : Level → String
level_name error = "error"
level_name warn = "warning"
level_name info = "info"
level_name debug = "debug"
level_name trace = "debug"

strings_cost : List (Buffer × Buffer) → ℕ
strings_cost [] = 0
strings_cost ((key, value) ∷ meta) = key.capacity + value.capacity + strings_cost meta

option_cost : Option Buffer → ℕ
option_cost none = 0
option_cost (some b) = b.capacity

strings_len : List (Buffer × Buffer) → ℕ
strings_len [] = 0
strings_len ((key, value) ∷ meta) = str_len key.text + str_len value.text + 6 + strings_len meta

timestamp_len : Option Buffer → ℕ
timestamp_len none = 0
timestamp_len (some t) = str_len t.text + 16

unfoldable pub approximate_json_len : LogLine → ℕ
unfolding strings_len timestamp_len
approximate_json_len line =
    str_len line.level.text
    + str_len line.message.text
    + timestamp_len line.timestamp
    + strings_len line.meta
    + 40

unfoldable pub has_time : LogLine → Bool
has_time line = any (λ pair. str_eq pair.0.text "time") line.meta

module _ (a : Allocator) where
  unfoldable pub heap_cost : LogLine → ℕ
  unfolding strings_cost option_cost
  heap_cost line =
      a.line_size
      + line.meta_capacity * a.pair_size
      + (line.level.capacity
          + line.message.capacity
          + option_cost line.timestamp
          + strings_cost line.meta)

  unfoldable pub new_line : String → String → LogLine
  new_line level message = record {
    level = a.new_string level;
    message = a.new_string message;
    timestamp = none;
    meta = [];
    meta_capacity = 0;
  }

  add_meta : LogLine → String → String → LogLine
  add_meta line key value = record line {
    meta = line.meta ++ (a.new_string key, a.new_string value) ∷ [];
    meta_capacity = a.after_push (length line.meta) line.meta_capacity;
  }

  unfoldable pub with_time : LogLine → ℕ → LogLine
  unfolding add_meta
  with_time line unix_micros = add_meta line "time" (to_string unix_micros)

  stamp_at : LogLine → Bool → Option ℕ → LogLine
  stamp_at line false (some micros) = with_time line micros
  stamp_at line false none = line
  stamp_at line true now = line

  unfoldable pub stamp : LogLine → Option ℕ → LogLine
  unfolding stamp_at
  stamp line now_micros = stamp_at line (has_time line) now_micros
