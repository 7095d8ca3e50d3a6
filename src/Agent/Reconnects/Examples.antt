-- ===== src/Agent/Reconnects/Examples.antt =====
-- A run of the agent of src/agent.rs: connections refused twice, then a session with a restart.
use nerves_hub_link_esp.Base.{
  ℕ, suc, ◌-◌, ◌≡◌, refl, Option, none, some, List, [], ◌∷◌, arith, ltb, if◌then◌else◌,
}
use nerves_hub_link_esp.Agent.{Platform}
use nerves_hub_link_esp.Agent.Examples.{ideal}
use nerves_hub_link_esp.Agent.Commands.{with_console}
use nerves_hub_link_esp.Agent.Reconnects.{Reconnecting, run}
use nerves_hub_link_esp.Agent.Reconnects.Backoff.{RunOk, run-RunEnds}
use nerves_hub_link_esp.Agent.Sessions.{Stopped, Env}
use nerves_hub_link_esp.Agent.Sessions.Scenes.{env_with, an_agent, frames_of}
use nerves_hub_link_esp.Error.{Result, ok, err, transport}
use nerves_hub_link_esp.Json.Samples.{Plain}

-- No connection before the time of 3 seconds, and the frames come from then on.
abbrev unsteady : Platform ℕ
unsteady = record ideal {
  connect = λ w. ((if ltb w 3000 then err (transport "refused") else ok tt), w);
}

abbrev an_env : Env Plain ℕ (List ℕ) ℕ
an_env = record (env_with 5) {
  platform = unsteady;
  wire = record {
    send_text = λ bytes w. (ok tt, w);
    send_binary = λ bytes w. (ok tt, w);
    recv_frame = λ w. (ok (frames_of 5 (w - 3000)), suc w);
  };
}

abbrev waited : Option (Option (Result Stopped) × Reconnecting Plain ℕ) → List ℕ
waited none = []
waited (some (o, q)) = q.waits

waits_twice : waited (run an_env 5 4 9 an_agent) ≡ 2 ∷ 1 ∷ []
unfolding run with_console
waits_twice = refl

run-RunEnds_example : RunOk an_env 5 0 (run an_env 5 4 9 an_agent)
run-RunEnds_example = run-RunEnds an_env 5 4 9 an_agent (omega arith)
