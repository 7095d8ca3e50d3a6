-- ===== src/Extensions/Logs.antt =====
-- Log lines as src/extensions.rs serializes and sends them.
use nerves_hub_link_esp.Base.{
  ℕ, zero, suc, ◌+◌, String, Bool, true, false, not, ◌&&◌, ◌||◌, Option, none, some, List, [], ◌∷◌,
  ◌++◌, length, ltb, ◌==◌, codes, inl, inr, ◌⊎◌, if◌then◌else◌,
}
use nerves_hub_link_esp.Json.{
  Json, Written, text, map, seq, Entries, no_entry, entry, Sequence, no_element, element,
}
use nerves_hub_link_esp.Logging.Lines.{Buffer, LogLine, approximate_json_len}
use nerves_hub_link_esp.Extensions.{
  Extensions, Outgoing, send, logging, is_attached, logging_batched,
}

-- `<` on texts: UTF-8 keeps the order of the code points.
unfoldable pub codes_ltb : List ℕ → List ℕ → Bool
codes_ltb xs [] = false
codes_ltb [] (y ∷ ys) = true
codes_ltb (x ∷ xs) (y ∷ ys) = ltb x y || (x == y && codes_ltb xs ys)

unfoldable pub str_ltb : String → String → Bool
unfolding codes_ltb
str_ltb a b = codes_ltb (codes a) (codes b)

abbrev pub Pair : Type 0
Pair = String × String

unfoldable pub texts : List (Buffer × Buffer) → List Pair
texts [] = []
texts ((key, value) ∷ pairs) = (key.text, value.text) ∷ texts pairs

-- Whether a key is passed over: it is not above the last key written.
unfoldable pub is_done : Option String → String → Bool
unfolding str_ltb
is_done none key = false
is_done (some after) key = not (str_ltb after key)

-- The candidate after a pair. A key equal to the smallest so far is a later value for it.
unfoldable pub smaller : Option Pair → Pair → Option Pair
unfolding str_ltb
smaller none p = some p
smaller (some s) p = if str_ltb s.0 p.0 then some s else some p

unfoldable pub scan : Option String → Option Pair → List Pair → Option Pair
unfolding is_done smaller
scan after next [] = next
scan after next (p ∷ ps) = scan after (if is_done after p.0 then next else smaller next p) ps

-- The smallest key after `after`, with its last value.
unfoldable pub next_after : List Pair → Option String → Option Pair
unfolding scan
next_after pairs after = scan after none pairs

-- A round of the loop of `Meta::serialize`: the entry found is written, and `rest` after it.
unfoldable pub write_next : (Pair → List Pair) → Option Pair → List Pair
write_next rest none = []
write_next rest (some p) = p ∷ rest p

-- Each round writes another key, so as many rounds as pairs are enough.
unfoldable pub write_from : ℕ → List Pair → Option String → List Pair
unfolding next_after write_next
write_from zero pairs after = []
write_from (suc fuel) pairs after =
    write_next (λ p. write_from fuel pairs (some p.0)) (next_after pairs after)

unfoldable pub written_meta : List Pair → List Pair
unfolding write_from
written_meta pairs = write_from (length pairs) pairs none

module _ {Val : Type 0} where
  text_entries : List Pair → Entries Val
  text_entries [] = no_entry
  text_entries ((key, value) ∷ pairs) = entry key (text value) (text_entries pairs)

  timestamp_entry : Option Buffer → Entries Val
  timestamp_entry none = no_entry
  timestamp_entry (some t) = entry "timestamp" (text t.text) no_entry

  meta_entry : List (Buffer × Buffer) → Entries Val → Entries Val
  unfolding text_entries texts written_meta
  meta_entry [] rest = rest
  meta_entry (pair ∷ pairs) rest =
      entry "meta" (map (text_entries (written_meta (texts (pair ∷ pairs))))) rest

  -- `Serialize` of a line: the keys in order, and absent ones left out.
  unfoldable pub written_line : LogLine → Written Val
  unfolding meta_entry timestamp_entry
  written_line line = map (
      entry "level" (text line.level.text) (
        entry "message" (text line.message.text)
          (meta_entry line.meta (timestamp_entry line.timestamp))))

  unfoldable pub written_lines : List LogLine → Sequence Val
  unfolding written_line
  written_lines [] = no_element
  written_lines (line ∷ lines) = element (written_line line) (written_lines lines)

  -- `Serialize` of a batch.
  unfoldable pub written_batch : List LogLine → Written Val
  unfolding written_lines
  written_batch lines = map (entry "lines" (seq (written_lines lines)) no_entry)

unfoldable pub is_empty : List LogLine → Bool
is_empty [] = true
is_empty (line ∷ lines) = false

-- The size to start the buffer at.
unfoldable pub len_estimate : List LogLine → ℕ
unfolding approximate_json_len
len_estimate [] = 16
len_estimate (line ∷ lines) = approximate_json_len line + len_estimate lines

module _ {Val : Type 0} (js : Json Val) where
  -- `unwrap_or(Value::Null)`
  unfoldable pub or_null : String ⊎ Val → Val
  or_null (inl e) = js.null
  or_null (inr v) = v

  unfoldable pub payload : LogLine → Val
  unfolding or_null written_line
  payload line = or_null (js.to_value (written_line line))

  unfoldable pub batch_payload : List LogLine → Val
  unfolding or_null written_batch
  batch_payload lines = or_null (js.to_value (written_batch lines))

  unfoldable pub log : Extensions Val → LogLine → List (Outgoing Val)
  unfolding is_attached payload
  log e line = if not (is_attached e logging) then [] else send "logging:send" (payload line) ∷ []

  unfoldable pub log_each : Extensions Val → List LogLine → List (Outgoing Val)
  unfolding log
  log_each e [] = []
  log_each e (line ∷ lines) = log e line ++ log_each e lines

  unfoldable pub logs : Extensions Val → List LogLine → List (Outgoing Val)
  unfolding is_empty is_attached logging_batched log_each batch_payload
  logs e lines =
      if is_empty lines || not (is_attached e logging)
      then []
      else if not (logging_batched js e)
      then log_each e lines
      else send "logging:send" (batch_payload lines) ∷ []

  -- The lines of the batch.
  unfoldable pub log_batch : Extensions Val → List LogLine → Option (List LogLine)
  unfolding is_empty logging_batched
  log_batch e lines = if not (is_empty lines) && logging_batched js e then some lines else none
