-- ===== src/Extensions/Payloads.antt =====
-- The answers to a request for a location and to a health check, of src/extensions.rs.
use nerves_hub_link_esp.Base.{String, Option, none, some, List, [], ◌∷◌, ◌++◌}
use nerves_hub_link_esp.Json.{Json}
use nerves_hub_link_esp.Extensions.{Outgoing, send}

-- `F` is f64, which these parts only hold and write.
pub record Location (F : Type 0) : Type 0 where
  pub latitude : F
  pub longitude : F
  pub source : String
  pub accuracy : Option F

pub record HealthReport (F : Type 0) : Type 0 where
  pub metrics : List (String × F)
  pub metadata : List (String × String)

module _ {F : Type 0} where
  abbrev pub empty_report : HealthReport F
  empty_report = record { metrics = []; metadata = [] }

  unfoldable pub metric : HealthReport F → String → F → HealthReport F
  metric r name value = record r { metrics = r.metrics ++ (name, value) ∷ [] }

  unfoldable pub meta : HealthReport F → String → String → HealthReport F
  meta r name value = record r { metadata = r.metadata ++ (name, value) ∷ [] }

-- The values of pairs, as JSON.
values : {A Val : Type 0} → (A → Val) → List (String × A) → List (String × Val)
values f [] = []
values f ((key, a) ∷ pairs) = (key, f a) ∷ values f pairs

-- `float` is how `json!` takes an f64.
module _ {Val F : Type 0} (js : Json Val) (float : F → Val) where
  accuracy_entry : Option F → List (String × Val)
  accuracy_entry none = []
  accuracy_entry (some a) = ("accuracy", float a) ∷ []

  unfoldable pub location_payload : Location F → Val
  unfolding accuracy_entry
  location_payload l = js.object (
      ("latitude", float l.latitude)
      ∷ ("longitude", float l.longitude)
      ∷ ("source", js.string l.source)
      ∷ accuracy_entry l.accuracy)

  unfoldable pub health_payload : HealthReport F → Val
  unfolding values
  health_payload r = js.object (
      (
        "value",
        js.object (
            ("metrics", js.object (values float r.metrics))
            ∷ ("metadata", js.object (values js.string r.metadata))
            ∷ []),
      )
      ∷ [])

  -- A device that cannot fix its position sends nothing.
  unfoldable pub location : Option (Location F) → List (Outgoing Val)
  unfolding location_payload
  location none = []
  location (some l) = send "geo:location:update" (location_payload l) ∷ []

  unfoldable pub health_answer : HealthReport F → List (Outgoing Val)
  unfolding health_payload
  health_answer r = send "health:report" (health_payload r) ∷ []
