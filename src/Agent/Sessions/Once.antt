-- ===== src/Agent/Sessions/Once.antt =====
-- The sessions of `run_session` and `run_session_until` in src/agent.rs, which connect once.
use nerves_hub_link_esp.Base.{ℕ, Bool, Option, none, some, [], ◌∷◌, format, if◌then◌else◌}
use nerves_hub_link_esp.Agent.Sessions.{Stopped, Run, Flow, going, ended, Env}
use nerves_hub_link_esp.Agent.Sessions.Rounds.{session_within}
use nerves_hub_link_esp.Agent.Terminal.{Agent, at_world, session_of}
use nerves_hub_link_esp.Error.{Error, Result, ok, err, transport}

module _ {Val F S W : Type 0} (e : Env Val F S W) where
  open e use {platform}

  ended_by_connection : Bool → Error
  ended_by_connection joined = transport (
      format (
        "session ended by the connection (joined: "
        ∷ (if joined then "true" else "false")
        ∷ ")"
        ∷ []))

  -- A session that the connection ended is an error of `run_session`. No outcome while it goes on.
  once_only : Flow × Run Val W → Option (Result Stopped) × Agent Val W
  unfolding ended_by_connection
  once_only (going, r) = (none, r.agent)
  once_only (ended (ok (some stopped)), r) = (some (ok stopped), r.agent)
  once_only (ended (ok none), r) = (some (err (ended_by_connection r.joined)), r.agent)
  once_only (ended (err error), r) = (some (err error), r.agent)

  once_ended : Option (Flow × Run Val W) → Option (Option (Result Stopped) × Agent Val W)
  unfolding once_only
  once_ended none = none
  once_ended (some outcome) = some (once_only outcome)

  -- `run_session` with a window, `run_session_until` with a control.
  unfoldable pub run_session : ℕ → ℕ → Agent Val W → Option (Option (Result Stopped) × Agent Val W)
  unfolding once_ended session_within
  run_session rounds fuel a = connected (platform.connect (session_of a).world)
    where
      connected : Result (Unit {0}) × W → Option (Option (Result Stopped) × Agent Val W)
      connected (ok u, w) = once_ended (session_within e rounds fuel (at_world a w))
      connected (err error, w) = some (some (err error), at_world a w)
