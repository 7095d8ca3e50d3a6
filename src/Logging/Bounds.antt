-- ===== src/Logging/Bounds.antt =====
-- The memory that the held lines of src/logging.rs take.
use nerves_hub_link_esp.Base.{
  ℕ, ◌+◌, ◌-◌, ◌≤◌, ◌≡◌, refl, ap, ◌∙◌, Bool, false, not, ◌&&◌, Option, none, List, [], ◌∷◌, ◌++◌,
  arith, leb, ltb, ◌==◌, length, length-append_one, if_intro,
}
use nerves_hub_link_esp.Logging.Lines.{
  LogLine, Allocator, Level, heap_cost, approximate_json_len, stamp,
}
use nerves_hub_link_esp.Logging.{
  LogBuffer, with_threshold, set_level, drop_one, has_space, push, has_room, pop, pop_note,
  pop_from, Taken, take_lines, take_backlog, later,
}

module _ (a : Allocator) where
  unfoldable pub lines_cost : List LogLine → ℕ
  lines_cost [] = 0
  lines_cost (l ∷ ls) = heap_cost a l + lines_cost ls

  lines_cost-append_one :
      (ls : List LogLine) (l : LogLine) → lines_cost (ls ++ l ∷ []) ≡ lines_cost ls + heap_cost a l
  unfolding lines_cost
  lines_cost-append_one [] l = omega arith
  lines_cost-append_one (m ∷ ls) l = omega (arith, lines_cost-append_one ls l)

  -- The bytes are counted exactly, and neither they nor the lines are past their limits.
  pub record IsValid (b : LogBuffer) : Type 0 where
    pub counted : b.bytes ≡ lines_cost b.lines
    pub few_bytes : b.bytes ≤ b.max_bytes
    pub few_lines : length b.lines ≤ b.capacity

  drop_one-IsValid : (b : LogBuffer) → IsValid b → IsValid (drop_one b)
  unfolding drop_one
  drop_one-IsValid b h = record {
    counted = h.counted;
    few_bytes = h.few_bytes;
    few_lines = h.few_lines;
  }

  push-IsValid : (b : LogBuffer) (line : LogLine) → IsValid b → IsValid (push a b line)
  unfolding push has_space
  push-IsValid b line h =
      if_intro IsValid b.poisoned _ _ (λ p. drop_one-IsValid b h)
        (λ p.
          if_intro IsValid (has_space a b (heap_cost a line)) _ _
            (λ room. record {
              counted = omega (arith, h.counted, lines_cost-append_one b.lines line);
              few_bytes = ground arith;
              few_lines = ground (arith, length-append_one b.lines line);
            })
            (λ full. drop_one-IsValid b h))

  has_room-IsValid : (b : LogBuffer) → IsValid b → IsValid (has_room a b).0
  unfolding has_room
  has_room-IsValid b h =
      if_intro IsValid
        (not b.poisoned
          && (ltb (length b.lines) b.capacity && leb (b.bytes + a.line_size) b.max_bytes))
        _ _ (λ r. h) (λ r. drop_one-IsValid b h)

  pop_from-IsValid :
      (b : LogBuffer) (ls : List LogLine) → b.lines ≡ ls → IsValid b → IsValid (pop_from a b ls).0
  unfolding pop_from pop_note
  pop_from-IsValid b [] e h = record {
    counted = h.counted;
    few_bytes = h.few_bytes;
    few_lines = h.few_lines;
  }
  pop_from-IsValid b (l ∷ ls) e h =
      let cost : lines_cost b.lines ≡ heap_cost a l + lines_cost ls =
        (ap lines_cost e ∙ (unfold lines_cost in refl)) in
      record {
        counted = omega (arith, h.counted, cost);
        few_bytes = omega (arith, h.few_bytes);
        few_lines = omega (arith, h.few_lines, ap length e);
      }

  -- A step's result, with a valid buffer.
  record IsValidPair {B : Type 0} (r : LogBuffer × B) : Type 0 where
    valid : IsValid r.0

  pop-IsValid : (b : LogBuffer) → IsValid b → IsValid (pop a b).0
  unfolding pop
  pop-IsValid b h =
      (if_intro IsValidPair b.poisoned (b, none) (pop_from a b b.lines) (λ p. record { valid = h })
        (λ p. record { valid = pop_from-IsValid b b.lines refl h })).valid

  -- What a batch leaves in the backlog.
  record Leaves (b : LogBuffer) (t : Taken a) : Type 0 where
    valid : IsValid (record b { lines = t.left; bytes = t.left_bytes })

  take_lines-Leaves :
      (b : LogBuffer) (max_lines max_bytes : ℕ) (now : Option ℕ) (ls : List LogLine) (held : ℕ)
      (batch : List LogLine) (size : ℕ)
      → IsValid (record b { lines = ls; bytes = held })
      → Leaves b (take_lines a max_lines max_bytes now ls held batch size)
  unfolding take_lines
  take_lines-Leaves b max_lines max_bytes now [] held batch size h = record { valid = h }
  take_lines-Leaves b max_lines max_bytes now (l ∷ ls) held batch size h =
      let cost : lines_cost (l ∷ ls) ≡ heap_cost a l + lines_cost ls = unfold lines_cost in refl in
      let ih =
        take_lines-Leaves b max_lines max_bytes now ls (held - heap_cost a l)
          (batch ++ stamp a l (later a now (length batch)) ∷ []) (size + approximate_json_len l)
          (record {
            counted = omega (arith, h.counted, cost);
            few_bytes = omega (arith, h.few_bytes);
            few_lines = omega (arith, h.few_lines);
          }) in
      if_intro (Leaves b) (ltb (length batch) max_lines) _ _
        (λ more.
          if_intro (Leaves b)
            (not (length batch == 0) && ltb max_bytes (size + approximate_json_len l)) _ _
            (λ over. record { valid = h }) (λ fits. ih))
        (λ enough. record { valid = h })

  take_backlog-IsValid :
      (b : LogBuffer) (max_lines max_bytes : ℕ) (now : Option ℕ)
      → IsValid b
      → IsValid (take_backlog a b max_lines max_bytes now).0
  unfolding take_backlog
  take_backlog-IsValid b max_lines max_bytes now h =
      let t : Taken a = take_lines a max_lines max_bytes now b.lines b.bytes [] 0 in
      let left =
        take_lines-Leaves b max_lines max_bytes now b.lines b.bytes [] 0
          (record { counted = h.counted; few_bytes = h.few_bytes; few_lines = h.few_lines }) in
      if_intro (λ (r : LogBuffer × List LogLine × Bool). IsValid r.0) b.poisoned (b, [], false) _
        (λ p. h) (λ p. left.valid)

  -- What is done with a buffer under one lock. `take_stamped` takes the lock twice: it `takes`, and then it
  -- may take one more, as `pop` does.
  pub data Use : Type 0 where
    asks_room takes_one : Use
    pushes : LogLine → Use
    takes : ℕ → ℕ → Option ℕ → Use
    sets_level : Level → Use

  unfoldable pub use_one : LogBuffer → Use → LogBuffer
  use_one b asks_room = (has_room a b).0
  use_one b takes_one = (pop a b).0
  use_one b (pushes line) = push a b line
  use_one b (takes max_lines max_bytes now) = (take_backlog a b max_lines max_bytes now).0
  use_one b (sets_level l) = set_level b l

  unfoldable pub use_all : LogBuffer → List Use → LogBuffer
  unfolding use_one
  use_all b [] = b
  use_all b (u ∷ us) = use_all (use_one b u) us

  use_one-IsValid : (b : LogBuffer) (u : Use) → IsValid b → IsValid (use_one b u)
  unfolding use_one set_level
  use_one-IsValid b asks_room h = has_room-IsValid b h
  use_one-IsValid b takes_one h = pop-IsValid b h
  use_one-IsValid b (pushes line) h = push-IsValid b line h
  use_one-IsValid b (takes max_lines max_bytes now) h =
      take_backlog-IsValid b max_lines max_bytes now h
  use_one-IsValid b (sets_level l) h = record {
    counted = h.counted;
    few_bytes = h.few_bytes;
    few_lines = h.few_lines;
  }

  -- From a buffer of which it holds, such as a new one, and whatever the logger and the connection do
  -- with it, in whatever order: its count of bytes is
  -- exactly the heap cost of the lines it holds, at most its limit of bytes, and it holds at most its
  -- capacity of lines.
  pub use_all-IsValid : (b : LogBuffer) (us : List Use) → IsValid b → IsValid (use_all b us)
  unfolding use_all
  use_all-IsValid b [] h = h
  use_all-IsValid b (u ∷ us) h = use_all-IsValid (use_one b u) us (use_one-IsValid b u h)

  -- A new buffer.
  pub with_threshold-IsValid : (capacity : ℕ) (l : Level) → IsValid (with_threshold capacity l)
  unfolding with_threshold lines_cost
  with_threshold-IsValid capacity l = record {
    counted = refl;
    few_bytes = omega arith;
    few_lines = omega arith;
  }

  -- When the logger is told there is no room, and does not build its line, nothing is lost by it: the
  -- buffer is left as if any line had been pushed, refused and counted as dropped.
  has_room-push :
      (b : LogBuffer) (line : LogLine) → (has_room a b).1 ≡ false → (has_room a b).0 ≡ push a b line
  unfolding has_room push has_space heap_cost
  has_room-push b line h = ground arith
