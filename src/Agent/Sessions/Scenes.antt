-- ===== src/Agent/Sessions/Scenes.antt =====
-- A scripted session for tests of src/agent.rs.
use nerves_hub_link_esp.Base.{ℕ, zero, suc, Option, none, some, List, [], ◌∷◌}
use nerves_hub_link_esp.Agent.Commands.{with_console}
use nerves_hub_link_esp.Agent.Examples.{exact, ideal, server, flash, bytes_digest, applies, a_pump}
use nerves_hub_link_esp.Agent.Sessions.{Providers, Env}
use nerves_hub_link_esp.Agent.Terminal.{Agent, LevelNames}
use nerves_hub_link_esp.Error.{ok}
use nerves_hub_link_esp.Frame.{Frame}
use nerves_hub_link_esp.Json.Samples.{Plain, count, plain}
use nerves_hub_link_esp.Link.{Transport}
use nerves_hub_link_esp.Logging.Lines.{info, level_name}

-- The join is accepted, and then comes the frame of a number; each receive takes a second.
abbrev pub frames_of : ℕ → ℕ → Option Frame
frames_of next zero = some (Frame.text (1 ∷ []))
frames_of next (suc zero) = some (Frame.text (next ∷ []))
frames_of next (suc (suc w)) = none

abbrev pub scripted : ℕ → Transport ℕ
scripted next = record {
  send_text = λ bytes w. (ok tt, w);
  send_binary = λ bytes w. (ok tt, w);
  recv_frame = λ w. (ok (frames_of next w), suc w);
}

abbrev pub plain_names : LevelNames
plain_names = record {
  from_str = λ text. some info;
  lower_str = λ l. level_name l;
  debug = λ text. text;
}

abbrev pub quiet_providers : Providers ℕ ℕ
quiet_providers = record {
  provide_location = none;
  provide_health = none;
  on_identify = none;
  window = some (record { linger_ms = 1; limit_ms = 60 });
  control = none;
}

abbrev pub env_with : ℕ → Env Plain ℕ (List ℕ) ℕ
env_with next = record {
  config = a_pump.session.link.config;
  metadata = a_pump.session.link.metadata;
  js = plain;
  float = λ n. count n;
  wire = scripted next;
  handler = applies;
  allocator = exact;
  platform = ideal;
  names = plain_names;
  digest = bytes_digest;
  http = server;
  sink = flash;
  providers = quiet_providers;
}

abbrev pub an_agent : Agent Plain ℕ
an_agent = record {
  device = record { pump = a_pump; calls = []; restarts = 0 };
  console = with_console (λ w. (w, w)) [] a_pump.session.link.metadata none;
}
