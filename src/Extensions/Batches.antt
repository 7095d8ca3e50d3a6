-- ===== src/Extensions/Batches.antt =====
-- The two ways in which src/extensions.rs sends log lines.
use nerves_hub_link_esp.Base.{
  Bool, true, false, not, ◌&&◌, ◌≡◌, refl, ap, ◌∙◌, ◌⊎◌, inl, inr, Option, none, some, List, [],
  ◌∷◌, String, Bool-cases, if◌then◌else◌,
}
use nerves_hub_link_esp.Extensions.{
  Extensions, Outgoing, send, logging, is_attached, logging_batched, is_version, version,
  logging_batched_version,
}
use nerves_hub_link_esp.Extensions.Logs.{
  is_empty, log, log_each, logs, log_batch, batch_payload, or_null, payload, written_line,
  written_lines, written_batch,
}
use nerves_hub_link_esp.Json.{Json, map, seq, entry, no_entry, Sequence, element, no_element}
use nerves_hub_link_esp.Logging.Lines.{LogLine}

module _ {Val : Type 0} (js : Json Val) where
  -- A message for each line, with the value of the line.
  abbrev pub one_each : List LogLine → List (Outgoing Val)
  one_each [] = []
  one_each (line ∷ lines) = send "logging:send" (payload js line) ∷ one_each lines

  abbrev pub elements_of : List LogLine → Sequence Val
  elements_of [] = no_element
  elements_of (line ∷ lines) = element (written_line line) (elements_of lines)

  abbrev pub value_or_null : String ⊎ Val → Val
  value_or_null (inl e) = js.null
  value_or_null (inr v) = v

  -- What is expected of lines, by whether logging is attached and by the batch that there is: nothing;
  -- or one message of an object whose one key, lines, has the lines; or a message for each line.
  abbrev pub expected : Bool → Option (List LogLine) → List LogLine → List (Outgoing Val)
  expected false batch lines = []
  expected true none lines = one_each lines
  expected true (some batch) lines =
      send "logging:send"
        (value_or_null (js.to_value (map (entry "lines" (seq (elements_of batch)) no_entry))))
      ∷ []

  log_each-one_each :
      (e : Extensions Val) (lines : List LogLine)
      → is_attached e logging ≡ true
      → log_each js e lines ≡ one_each lines
  unfolding log_each log
  log_each-one_each e [] k = refl
  log_each-one_each e (line ∷ lines) k =
      rw k (ap (λ ms. send "logging:send" (payload js line) ∷ ms) (log_each-one_each e lines k))

  written_lines-elements_of : (lines : List LogLine) → written_lines lines ≡ elements_of lines
  unfolding written_lines
  written_lines-elements_of [] = refl
  written_lines-elements_of (line ∷ lines) =
      ap (element (written_line line)) (written_lines-elements_of lines)

  or_null-value_or_null : (x : String ⊎ Val) → or_null js x ≡ value_or_null x
  unfolding or_null
  or_null-value_or_null (inl e) = refl
  or_null-value_or_null (inr v) = refl

  batch_payload-expected :
      (lines : List LogLine)
      → send "logging:send" (batch_payload js lines) ∷ [] ≡ expected true (some lines) lines
  unfolding batch_payload written_batch
  batch_payload-expected lines =
      ap (λ v. send "logging:send" v ∷ [])
        (or_null-value_or_null (js.to_value (written_batch lines))
          ∙ ap (λ s. value_or_null (js.to_value (map (entry "lines" (seq s) no_entry))))
              (written_lines-elements_of lines))

  -- By whether logging is attached, and at a version with batches.
  chosen :
      (lines : List LogLine) (each : List (Outgoing Val)) (attached batched : Bool)
      → (attached ≡ true → each ≡ one_each lines)
      → (if not attached
          then []
          else if not (attached && batched)
          then each
          else send "logging:send" (batch_payload js lines) ∷ [])
        ≡ expected attached (if attached && batched then some lines else none) lines
  chosen lines each true true h = batch_payload-expected lines
  chosen lines each true false h = h refl
  chosen lines each false batched h = refl

  -- Log lines as values are sent as they should be: none at all while logging is not attached; otherwise, where
  -- there is a batch, one message, an object whose one key has the lines in order; and otherwise one
  -- message for each line, in order.
  pub logs-log_batch :
      (e : Extensions Val) (lines : List LogLine)
      → logs js e lines ≡ expected (is_attached e logging) (log_batch js e lines) lines
  unfolding logs log_batch is_empty logging_batched
  logs-log_batch e [] = elim (Bool-cases (is_attached e logging)) [
    | inl k ↦ rw k refl
    | inr k ↦ rw k refl
  ]
  logs-log_batch e (line ∷ lines) =
      chosen (line ∷ lines) (log_each js e (line ∷ lines)) (is_attached e logging)
        (is_version js (version js e logging) logging_batched_version)
        (log_each-one_each e (line ∷ lines))
