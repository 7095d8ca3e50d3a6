-- ===== src/Json.antt =====
-- serde's values and codecs, which src/message.rs, src/link.rs and src/extensions.rs call: what the
-- source uses of them is a parameter, with `Val` for `serde_json::Value`.
pub mod Samples
use nerves_hub_link_esp.Base.{
  ℕ, String, Bool, Option, none, some, List, [], ◌∷◌, ◌++◌, ◌⊎◌, inl, inr, str_eq, if◌then◌else◌,
}
use nerves_hub_link_esp.Error.{Error, Result, ok, err, protocol}
use nerves_hub_link_esp.Update.{UpdatePayload}

-- What a `Serialize` implementation writes.
mutual
  pub data Written (Val : Type 0) : Type 0 where
    value : Val → Written Val
    text : String → Written Val
    map : Entries Val → Written Val
    seq : Sequence Val → Written Val

  pub data Entries (Val : Type 0) : Type 0 where
    no_entry : Entries Val
    entry : String → Written Val → Entries Val → Entries Val

  pub data Sequence (Val : Type 0) : Type 0 where
    no_element : Sequence Val
    element : Written Val → Sequence Val → Sequence Val

-- `serde_json::Map`, where a key stands once.
abbrev pub Map : Type 0 → Type 0
Map Val = List (String × Val)

-- `Map::get`.
abbrev pub lookup : {Val : Type 0} → Map Val → String → Option Val
lookup [] key = none
lookup ((k, v) ∷ m) key = if str_eq k key then some v else lookup m key

-- The five elements of a message, its payload last.
abbrev pub Parts : Type 0 → Type 0 → Type 0
Parts Ref P = Ref × Ref × String × String × P

-- `object` collects pairs into a map, where the later value of a key wins; the pairs of `as_object`
-- are in the map's order. An error is the text that it displays.
pub record Json (Val : Type 0) : Type 0 where
  pub boolean : Bool → Val
  pub number : ℕ → Val
  pub string : String → Val
  pub array : List Val → Val
  pub object : List (String × Val) → Val
  pub null : Val
  pub get : Val → String → Option Val
  pub as_str : Val → Option String
  pub as_array : Val → Option (List Val)
  pub as_object : Val → Option (Map Val)
  pub equals_str : Val → String → Bool
  pub is_null : Val → Bool
  pub display : Val → String
  pub to_value : Written Val → String ⊎ Val
  pub write_json : Parts (Option String) (Written Val) → String ⊎ List ℕ
  pub write_msgpack : Parts (Option String) (Written Val) → String ⊎ List ℕ
  pub read_json : List ℕ → String ⊎ Parts (Option String) Val
  pub read_msgpack : List ℕ → String ⊎ Parts Val Val
  pub read_update : Val → String ⊎ UpdatePayload

-- `?` on serde's error, which becomes a protocol error.
abbrev pub or_protocol : {A : Type 0} → String ⊎ A → Result A
or_protocol (inl message) = err (protocol message)
or_protocol (inr a) = ok a
