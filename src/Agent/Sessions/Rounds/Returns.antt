-- ===== src/Agent/Sessions/Rounds/Returns.antt =====
-- The rounds of a session of src/agent.rs are never stuck in an installation.
use nerves_hub_link_esp.Agent.Terminal.{Agent}
use nerves_hub_link_esp.Frame.{Frame}
