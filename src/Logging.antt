-- ===== src/Logging.antt =====
-- src/logging.rs: the bounded queue of log lines; and the lines themselves, of src/extensions.rs.
-- What is done under the buffer's lock is one step; `take_stamped` takes the lock twice.
pub mod Lines
pub mod Bounds
pub mod Batches
mod Examples
use nerves_hub_link_esp.Base.{
  ℕ, ◌+◌, ◌-◌, ◌*◌, ◌%◌, ◌^◌, String, Bool, true, false, not, ◌&&◌, ◌||◌, Option, none, some, List,
  [], ◌∷◌, ◌++◌, leb, ltb, ◌==◌, length, to_string, format, if◌then◌else◌,
}
use nerves_hub_link_esp.Logging.Lines.{
  Buffer, LogLine, Allocator, Level, error, warn, info, debug, trace, level_number, heap_cost,
  approximate_json_len, stamp, new_line,
}

abbrev pub default_capacity : ℕ
default_capacity = 64

abbrev pub default_max_bytes : ℕ
default_max_bytes = 8 * 1024

-- `lines` and `bytes` are the backlog's; `poisoned` is its lock's.
pub record LogBuffer : Type 0 where
  pub lines : List LogLine
  pub bytes : ℕ
  pub poisoned : Bool
  pub capacity : ℕ
  pub max_bytes : ℕ
  pub dropped : ℕ
  pub threshold : ℕ

unfoldable pub with_threshold : ℕ → Level → LogBuffer
with_threshold capacity threshold = record {
  lines = [];
  bytes = 0;
  poisoned = false;
  capacity = capacity;
  max_bytes = default_max_bytes;
  dropped = 0;
  threshold = level_number threshold;
}

unfoldable pub level : LogBuffer → Level
level b =
    if b.threshold == 1
    then error
    else if b.threshold == 2
    then warn
    else if b.threshold == 3
    then info
    else if b.threshold == 4
    then debug
    else trace

unfoldable pub set_level : LogBuffer → Level → LogBuffer
set_level b l = record b { threshold = level_number l }

-- The count is a usize, 32 bits wide on the device, and wraps.
drop_one : LogBuffer → LogBuffer
drop_one b = record b { dropped = (b.dropped + 1) % 2 ^ 32 }

module _ (a : Allocator) where
  -- The sums are of heap that is allocated, so they fit in a usize.
  has_space : LogBuffer → ℕ → Bool
  has_space b cost = not (leb b.capacity (length b.lines) || ltb b.max_bytes (b.bytes + cost))

  unfoldable pub push : LogBuffer → LogLine → LogBuffer
  unfolding has_space drop_one
  push b line =
      if b.poisoned
      then drop_one b
      else if has_space b (heap_cost a line)
      then record b { bytes = b.bytes + heap_cost a line; lines = b.lines ++ line ∷ [] }
      else drop_one b

  unfoldable pub has_room : LogBuffer → LogBuffer × Bool
  unfolding drop_one
  has_room b =
      let room =
        not b.poisoned
        && (ltb (length b.lines) b.capacity && leb (b.bytes + a.line_size) b.max_bytes) in
      ((if room then b else drop_one b), room)

  pub dropped_note : ℕ → LogLine
  dropped_note n = new_line a "warning" (
      format (
        to_string n
        ∷ " log lines were dropped: the device logged more than it keeps waiting to send"
        ∷ []))

  -- The backlog is empty.
  pop_note : LogBuffer → LogBuffer × Option LogLine
  unfolding dropped_note
  pop_note b =
      (record b { dropped = 0 }, (if b.dropped == 0 then none else some (dropped_note b.dropped)))

  pop_from : LogBuffer → List LogLine → LogBuffer × Option LogLine
  unfolding pop_note
  pop_from b [] = pop_note b
  pop_from b (line ∷ lines) =
      (record b { lines = lines; bytes = b.bytes - heap_cost a line }, some line)

  unfoldable pub pop : LogBuffer → LogBuffer × Option LogLine
  unfolding pop_from
  pop b = if b.poisoned then (b, none) else pop_from b b.lines

  stamp_option : Option ℕ → Option LogLine → Option LogLine
  stamp_option now none = none
  stamp_option now (some line) = some (stamp a line now)

  unfoldable pub pop_stamped : LogBuffer → Option ℕ → LogBuffer × Option LogLine
  unfolding stamp_option
  pop_stamped b now = let (b', line) = pop b in (b', stamp_option now line)

  -- `now_micros.map(|t| t + batch.len())`
  later : Option ℕ → ℕ → Option ℕ
  later none n = none
  later (some t) n = some ((t + n) % 2 ^ 64)

  -- The backlog left, the batch, and whether the batch is full up to its bytes.
  pub record Taken : Type 0 where
    pub left : List LogLine
    pub left_bytes : ℕ
    pub batch : List LogLine
    pub full : Bool

  take_lines : ℕ → ℕ → Option ℕ → List LogLine → ℕ → List LogLine → ℕ → Taken
  unfolding later
  take_lines max_lines max_bytes now [] held batch size = record {
    left = [];
    left_bytes = held;
    batch = batch;
    full = false;
  }
  take_lines max_lines max_bytes now (line ∷ lines) held batch size =
      let taken =
        take_lines max_lines max_bytes now lines (held - heap_cost a line)
          (batch ++ stamp a line (later now (length batch)) ∷ [])
          (size + approximate_json_len line) in
      let stop : Bool → Taken =
        λ full. record { left = line ∷ lines; left_bytes = held; batch = batch; full = full } in
      if ltb (length batch) max_lines
      then if not (length batch == 0) && ltb max_bytes (size + approximate_json_len line)
        then stop true
        else taken
      else stop false

  add_note : Option ℕ → List LogLine → LogBuffer × Option LogLine → LogBuffer × List LogLine
  unfolding later
  add_note now batch (b, none) = (b, batch)
  add_note now batch (b, some note) = (b, batch ++ stamp a note (later now (length batch)) ∷ [])

  -- What the first lock leaves: the buffer, the batch so far, and whether `pop` is still called.
  unfoldable pub take_backlog : LogBuffer → ℕ → ℕ → Option ℕ → LogBuffer × List LogLine × Bool
  unfolding take_lines
  take_backlog b max_lines max_bytes now =
      if b.poisoned
      then (b, [], false)
      else let t = take_lines max_lines max_bytes now b.lines b.bytes [] 0 in
        (
          record b { lines = t.left; bytes = t.left_bytes },
          t.batch,
          not t.full && ltb (length t.batch) max_lines,
        )

  -- The lock is let go and taken again by `pop`; `meanwhile` is what other tasks do to the buffer
  -- between the two.
  unfoldable pub take_stamped :
      (LogBuffer → LogBuffer) → LogBuffer → ℕ → ℕ → Option ℕ → LogBuffer × List LogLine
  unfolding take_backlog add_note
  take_stamped meanwhile b max_lines max_bytes now =
      let (b, batch, more) = take_backlog b max_lines max_bytes now in
      if more then add_note now batch (pop (meanwhile b)) else (b, batch)

unfoldable pub len : LogBuffer → ℕ
len b = if b.poisoned then 0 else length b.lines

unfoldable pub is_empty : LogBuffer → Bool
unfolding len
is_empty b = len b == 0
