-- ===== src/Extensions/Examples.antt =====
-- Concrete runs of the extensions of src/extensions.rs.
use nerves_hub_link_esp.Base.{String, true, none, some, List, [], ◌∷◌, ◌≡◌, refl}
use nerves_hub_link_esp.Extensions.{
  Enabled, Extensions, implemented, version, new, is_attached, logging,
}
use nerves_hub_link_esp.Extensions.Batches.{logs-log_batch, expected}
use nerves_hub_link_esp.Extensions.Grants.{
  Event, invitation, join_reply, use_events, granted, Confined, use_events-Confined,
}
use nerves_hub_link_esp.Extensions.Logs.{logs, log_batch}
use nerves_hub_link_esp.Extensions.Versions.{Chosen, version-Chosen}
use nerves_hub_link_esp.Json.Samples.{Plain, words, items, fields, of_list, of_pairs, plain}
use nerves_hub_link_esp.Logging.Lines.{Buffer, LogLine}

abbrev invited : Plain
invited = fields (
    of_pairs (
      (
        "extensions",
        fields (of_pairs (("logging", items (of_list (words "0.1.0" ∷ words "0.0.1" ∷ []))) ∷ [])),
      )
      ∷ []))

abbrev all_enabled : Enabled
all_enabled = record { geo_enabled = true; health_enabled = true; logging_enabled = true }

abbrev attached : Extensions Plain
attached = record {
  enabled = all_enabled;
  attached = "logging" ∷ [];
  joined = true;
  invited = true;
  advertised = some (("logging", items (of_list (words "0.1.0" ∷ words "0.0.1" ∷ []))) ∷ []);
}

abbrev a_text : String → Buffer
a_text s = record { text = s; capacity = 16 }

abbrev a_line : LogLine
a_line = record {
  level = a_text "info";
  message = a_text "up";
  timestamp = none;
  meta = (a_text "time", a_text "1") ∷ [];
  meta_capacity = 4;
}

logging_version : version plain attached "logging" ≡ some "0.1.0"
unfolding version
logging_version = refl

version-Chosen_example :
    Chosen plain "logging"
      (implemented "logging")
      attached.advertised
      (version plain attached "logging")
version-Chosen_example = version-Chosen plain attached "logging"

logs-log_batch_example :
    logs plain attached (a_line ∷ [])
    ≡ expected plain
        (is_attached attached logging)
        (log_batch plain attached (a_line ∷ []))
        (a_line ∷ [])
logs-log_batch_example = logs-log_batch plain attached (a_line ∷ [])

abbrev events : List (Event Plain)
events = invitation invited ∷ join_reply (items (of_list (words "logging" ∷ []))) ∷ []

run_of_events : granted plain [] events ≡ "logging" ∷ []
unfolding granted
run_of_events = refl

use_events-Confined_example :
    Confined plain (granted plain [] events) (use_events plain events (new all_enabled))
use_events-Confined_example = use_events-Confined plain all_enabled events
