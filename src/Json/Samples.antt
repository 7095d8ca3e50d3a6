-- ===== src/Json/Samples.antt =====
-- A concrete instance of serde's interface (src/message.rs), for tests: a tree of values, and a codec
-- of a few frames.
use nerves_hub_link_esp.Base.{
  ℕ, String, Bool, true, false, Option, none, some, List, [], ◌∷◌, ◌⊎◌, inl, inr, str_eq, ◌==◌,
  if◌then◌else◌,
}
use nerves_hub_link_esp.Json.{Json, Written, value, text, map, seq, Parts, lookup}
use nerves_hub_link_esp.Update.{UpdatePayload}

mutual
  pub data Plain : Type 0 where
    nothing : Plain
    flag : Bool → Plain
    count : ℕ → Plain
    words : String → Plain
    items : Plains → Plain
    fields : Fields → Plain

  pub data Plains : Type 0 where
    nil : Plains
    cons : Plain → Plains → Plains

  pub data Fields : Type 0 where
    end : Fields
    field : String → Plain → Fields → Fields

abbrev pub of_list : List Plain → Plains
of_list [] = nil
of_list (v ∷ vs) = cons v (of_list vs)

abbrev pub to_list : Plains → List Plain
to_list nil = []
to_list (cons v vs) = v ∷ to_list vs

abbrev pub of_pairs : List (String × Plain) → Fields
of_pairs [] = end
of_pairs ((k, v) ∷ m) = field k v (of_pairs m)

abbrev pub to_pairs : Fields → List (String × Plain)
to_pairs end = []
to_pairs (field k v fs) = (k, v) ∷ to_pairs fs

abbrev plain_get : Plain → String → Option Plain
plain_get (fields fs) key = lookup (to_pairs fs) key
plain_get _ key = none

abbrev plain_str : Plain → Option String
plain_str (words s) = some s
plain_str _ = none

abbrev plain_array : Plain → Option (List Plain)
plain_array (items vs) = some (to_list vs)
plain_array _ = none

abbrev plain_object : Plain → Option (List (String × Plain))
plain_object (fields fs) = some (to_pairs fs)
plain_object _ = none

abbrev plain_equals : Plain → String → Bool
plain_equals (words s) t = str_eq s t
plain_equals _ t = false

abbrev plain_null : Plain → Bool
plain_null nothing = true
plain_null _ = false

-- What is written, as a value; a batch of lines becomes its number of entries.
abbrev plain_value : Written Plain → String ⊎ Plain
plain_value (value v) = inr v
plain_value (text s) = inr (words s)
plain_value (map es) = inr (count 1)
plain_value (seq vs) = inr (count 2)

abbrev ok_reply : String → Plain → Parts (Option String) Plain
ok_reply reference response = (
  some reference,
  some reference,
  "device",
  "phx_reply",
  fields (of_pairs (("status", words "ok") ∷ ("response", response) ∷ [])),
)

-- The frames that the tests receive.
abbrev reads : ℕ → String ⊎ Parts (Option String) Plain
reads n =
    if n == 1
    then inr (ok_reply "1" (fields end))
    else if n == 2
    then inr (none, some "2", "phoenix", "phx_reply", fields end)
    else if n == 3
    then inr (none, none, "device", "phx_close", fields end)
    else if n == 4
    then inr (
      some "1",
      some "1",
      "device",
      "phx_reply",
      fields (
          of_pairs (
            ("status", words "error")
            ∷ ("response", fields (of_pairs (("reason", words "unauthorized") ∷ [])))
            ∷ [])),
    )
    else if n == 5
    then inr (none, none, "device", "reboot", fields end)
    else if n == 6
    then inr (none, none, "console", "dn", fields (of_pairs (("data", words "reboot\r") ∷ [])))
    else inl "unreadable"

abbrev plain_read : List ℕ → String ⊎ Parts (Option String) Plain
plain_read (n ∷ []) = reads n
plain_read _ = inl "unreadable"

abbrev no_update : UpdatePayload
no_update = record {
  update_available = false;
  firmware_url = none;
  firmware_meta = none;
  size = none;
  checksum = none;
  partials_checksums = none;
  deployment_id = none;
}

abbrev pub plain : Json Plain
plain = record {
  boolean = flag;
  number = count;
  string = words;
  array = λ vs. items (of_list vs);
  object = λ m. fields (of_pairs m);
  null = nothing;
  get = plain_get;
  as_str = plain_str;
  as_array = plain_array;
  as_object = plain_object;
  equals_str = plain_equals;
  is_null = plain_null;
  display = λ v. "value";
  to_value = plain_value;
  write_json = λ parts. inr (123 ∷ []);
  write_msgpack = λ parts. inr (0x95 ∷ []);
  read_json = plain_read;
  read_msgpack = λ bytes. inl "unreadable";
  read_update = λ v. inr no_update;
}
