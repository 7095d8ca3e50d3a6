-- ===== src/Logging/Examples.antt =====
-- Runs of the log buffer of src/logging.rs, with sizes like those of a 32-bit target.
use nerves_hub_link_esp.Base.{◌+◌, ◌≡◌, false, some, List, [], ◌∷◌, arith, str_len, max}
use nerves_hub_link_esp.Logging.Lines.{LogLine, Allocator, info, debug, new_line}
use nerves_hub_link_esp.Logging.{LogBuffer, with_threshold, push, take_stamped}
use nerves_hub_link_esp.Logging.Bounds.{
  IsValid, Use, asks_room, takes_one, pushes, takes, sets_level, use_all, use_all-IsValid,
  with_threshold-IsValid,
}
use nerves_hub_link_esp.Logging.Batches.{IsBatch, take_stamped-IsBatch}

abbrev allocator : Allocator
allocator = record {
  line_size = 48;
  pair_size = 24;
  new_string = λ s. record { text = s; capacity = str_len s };
  after_push = λ n capacity. max capacity (n + 1);
}

abbrev hello : LogLine
hello = new_line allocator "info" "hello"

abbrev small : LogBuffer
small = with_threshold 1 info

abbrev uses : List (Use allocator)
uses =
    asks_room
    ∷ pushes hello
    ∷ pushes hello
    ∷ takes 4 4096 (some 1600000000000000)
    ∷ sets_level debug
    ∷ takes_one
    ∷ []

use_all-IsValid_example : IsValid allocator (use_all allocator small uses)
use_all-IsValid_example =
    use_all-IsValid allocator small uses (with_threshold-IsValid allocator 1 info)

abbrev two_held : LogBuffer
two_held = push allocator (push allocator (with_threshold 4 info) hello) hello

not_poisoned : two_held.poisoned ≡ false
unfolding push with_threshold
not_poisoned = ground arith

-- Another task logs a line while the lock is let go.
abbrev logged : LogBuffer → LogBuffer
logged b = push allocator b hello

take_stamped-IsBatch_example :
    IsBatch allocator logged 3 4096
      (some 1600000000000000)
      two_held.lines
      two_held.dropped
      (take_stamped allocator logged two_held 3 4096 (some 1600000000000000))
take_stamped-IsBatch_example =
    take_stamped-IsBatch allocator logged two_held 3 4096 (some 1600000000000000) not_poisoned
