-- ===== src/Extensions.antt =====
-- src/extensions.rs: the extensions channel as a state machine, the versions it declares, and the
-- payloads of its messages. The log line itself is in Logging/Lines.antt.
pub mod Logs
pub mod Payloads
pub mod Versions
pub mod Grants
pub mod Batches
mod Meta
mod Examples
use nerves_hub_link_esp.Base.{
  ℕ, zero, suc, ◌+◌, String, Bool, true, false, not, ◌&&◌, ◌||◌, Option, none, some, List, [], ◌∷◌,
  ◌++◌, length, any, map, str_eq, ltb, leb, codes, format, inl, inr, ◌⊎◌, if◌then◌else◌,
}
use nerves_hub_link_esp.Json.{
  Json, Written, value, text, seq, Entries, no_entry, entry, Sequence, no_element, element, Map,
  lookup,
}
use nerves_hub_link_esp.Logging.Lines.{Buffer, LogLine, approximate_json_len}
use nerves_hub_link_esp.Message.{RefGenerator, next_ref, Message, new_message}

abbrev pub extensions_topic : String
extensions_topic = "extensions"

abbrev pub extension_version : String
extension_version = "0.0.1"

abbrev pub logging_batched_version : String
logging_batched_version = "0.1.0"

abbrev pub geo : String
geo = "geo"

abbrev pub health : String
health = "health"

abbrev pub logging : String
logging = "logging"

-- Newest first.
unfoldable pub implemented : String → List String
implemented key =
    if str_eq key logging
    then logging_batched_version ∷ extension_version ∷ []
    else extension_version ∷ []

pub record Enabled : Type 0 where
  pub geo_enabled : Bool
  pub health_enabled : Bool
  pub logging_enabled : Bool

abbrev pub none_enabled : Enabled
none_enabled = record { geo_enabled = false; health_enabled = false; logging_enabled = false }

unfoldable pub any_enabled : Enabled → Bool
any_enabled e = (e.geo_enabled || e.health_enabled) || e.logging_enabled

unfoldable pub offered : Enabled → List String
offered e =
    (if e.geo_enabled then geo ∷ [] else [])
    ++ (if e.health_enabled then health ∷ [] else [])
    ++ (if e.logging_enabled then logging ∷ [] else [])

pub data Outgoing (Val : Type 0) : Type 0 where
  send : String → Val → Outgoing Val
  need_location need_health : Outgoing Val

pub record Extensions (Val : Type 0) : Type 0 where
  pub enabled : Enabled
  pub attached : List String
  pub joined : Bool
  pub invited : Bool
  pub advertised : Option (Map Val)

module _ {Val : Type 0} where
  unfoldable pub new : Enabled → Extensions Val
  new enabled = record {
    enabled = enabled;
    attached = [];
    joined = false;
    invited = false;
    advertised = none;
  }

  unfoldable pub is_attached : Extensions Val → String → Bool
  is_attached e key = any (λ k. str_eq k key) e.attached

  unfoldable pub disconnected : Extensions Val → Extensions Val
  disconnected e = record e { attached = []; joined = false; invited = false; advertised = none }

  unfoldable pub on_event : Extensions Val → String → List (Outgoing Val)
  unfolding is_attached
  on_event e event =
      if str_eq event "geo:location:request" && is_attached e geo
      then need_location ∷ []
      else if str_eq event "health:check" && is_attached e health
      then need_health ∷ []
      else []

-- `find`, the first that passes.
unfoldable pub find : (String → Bool) → List String → Option String
find p [] = none
find p (x ∷ xs) = if p x then some x else find p xs

last : List String → Option String
last [] = none
last (x ∷ []) = some x
last (x ∷ y ∷ xs) = last (y ∷ xs)

module _ {Val : Type 0} (js : Json Val) where
  object_at : Option Val → Option (Map Val)
  object_at none = none
  object_at (some v) = js.as_object v

  unfoldable pub on_invitation : Extensions Val → Val → Extensions Val
  unfolding object_at
  on_invitation e payload = record e {
    invited = true;
    advertised = object_at (js.get payload "extensions");
  }

  -- The versions that an entry of the invitation lists.
  unfoldable pub theirs : Option Val → Option (List Val)
  theirs none = none
  theirs (some v) = js.as_array v

  newest_common : List String → Option (List Val) → Option String
  unfolding find
  newest_common ours none = none
  newest_common ours (some vs) = find (λ version. any (λ v. js.equals_str v version) vs) ours

  version_among : Option (Map Val) → String → Option String
  unfolding newest_common theirs last implemented
  version_among (some advertised) key =
      newest_common (implemented key) (theirs (lookup advertised key))
  version_among none key = last (implemented key)

  unfoldable pub version : Extensions Val → String → Option String
  unfolding version_among
  version e key = version_among e.advertised key

  unfoldable pub is_version : Option String → String → Bool
  is_version none v = false
  is_version (some w) v = str_eq w v

  unfoldable pub logging_batched : Extensions Val → Bool
  unfolding is_version version is_attached
  logging_batched e =
      is_attached e logging && is_version (version e logging) logging_batched_version

  declare : Extensions Val → List String → List (String × Val)
  unfolding version
  declare e [] = []
  declare e (key ∷ keys) = with_version key (version e key) (declare e keys)
    where
      with_version : String → Option String → List (String × Val) → List (String × Val)
      with_version key none rest = rest
      with_version key (some v) rest = (key, js.string v) ∷ rest

  unfoldable pub join_params : Extensions Val → Val
  unfolding declare offered
  join_params e = js.object (declare e (offered e.enabled))

  unfoldable pub join_message : Extensions Val → RefGenerator → RefGenerator × String × Message Val
  unfolding next_ref join_params
  join_message e refs =
      let (refs, reference) = next_ref refs in
      (refs, reference, new_message extensions_topic "phx_join" (join_params e))

  keep_str : Option String → List String → List String
  keep_str none rest = rest
  keep_str (some s) rest = s ∷ rest

  unfoldable pub strings : List Val → List String
  unfolding keep_str
  strings [] = []
  strings (v ∷ vs) = keep_str (js.as_str v) (strings vs)

  unfoldable pub strings_or_none : Option (List Val) → List String
  unfolding strings
  strings_or_none none = []
  strings_or_none (some vs) = strings vs

  unfoldable pub confirmations : List String → List (Outgoing Val)
  confirmations keys = map (λ key. send (format (key ∷ ":attached" ∷ [])) (js.object [])) keys

  unfoldable pub on_join_reply : Extensions Val → Val → Extensions Val × List (Outgoing Val)
  unfolding strings_or_none confirmations
  on_join_reply e response =
      let keys = strings_or_none (js.as_array response) in
      (record e { joined = true; attached = keys }, confirmations keys)
