-- ===== src/Agent/Reconnects.antt =====
-- The connections of `run` in src/agent.rs, one after another, and the waits between them.
pub mod Backoff
mod Examples
use nerves_hub_link_esp.Base.{
  ℕ, zero, suc, ◌+◌, ◌-◌, ◌*◌, ◌^◌, min, Bool, true, false, Option, none, some, List, [], ◌∷◌,
  if◌then◌else◌,
}
use nerves_hub_link_esp.Agent.Sessions.{Stopped, Run, Flow, going, ended, Env}
use nerves_hub_link_esp.Agent.Sessions.Rounds.{session_within}
use nerves_hub_link_esp.Agent.Terminal.{Agent, at_world, session_of}
use nerves_hub_link_esp.Config.{backoff_for}
use nerves_hub_link_esp.Error.{Error, Result, ok, err, identity, transport}

-- The agent, the attempt that is next, and for each try so far, the newest first, whether it got as far
-- as a join, and the seconds waited after it.
pub record Reconnecting (Val W : Type 0) : Type 0 where
  pub agent : Agent Val W
  pub attempt : ℕ
  pub tries : List Bool
  pub waits : List ℕ

abbrev pub start_at : {Val W : Type 0} → Agent Val W → Reconnecting Val W
start_at a = record { agent = a; attempt = 0; tries = []; waits = [] }

-- Whether an error ends `run` where connecting gave it, and where a session did.
unfoldable pub is_identity : Error → Bool
is_identity (identity msg) = true
is_identity _ = false

unfoldable pub is_transport : Error → Bool
is_transport (transport msg) = true
is_transport _ = false

-- `saturating_add(1)` on a usize, 32 bits wide on the device.
next_attempt : ℕ → ℕ
next_attempt n = min (n + 1) (2 ^ 32 - 1)

module _ {Val F S W : Type 0} (e : Env Val F S W) where
  open e use {platform, config}

  -- Neither a window nor a control.
  unfoldable pub unbounded : Env Val F S W
  unbounded = record e { providers = record e.providers { window = none; control = none } }

  -- A try that ended: its wait, and the attempt after it.
  unfoldable pub lost : Bool → Reconnecting Val W → Reconnecting Val W
  unfolding next_attempt backoff_for
  lost joined q =
      let attempt = if joined then 0 else q.attempt in
      let secs = backoff_for config attempt in
      record {
        agent = at_world q.agent (platform.sleep_ms (secs * 1000) (session_of q.agent).world);
        attempt = if joined then attempt else next_attempt attempt;
        tries = joined ∷ q.tries;
        waits = secs ∷ q.waits;
      }

  with_agent : Reconnecting Val W → Agent Val W → Reconnecting Val W
  with_agent q a = record q { agent = a }

  unfoldable pub after_session :
      (Reconnecting Val W → Option (Option (Result Stopped) × Reconnecting Val W))
      → Reconnecting Val W
      → Option (Flow × Run Val W)
      → Option (Option (Result Stopped) × Reconnecting Val W)
  unfolding lost with_agent is_transport
  after_session next q none = none
  after_session next q (some (going, r)) = some (none, with_agent q r.agent)
  after_session next q (some (ended (ok (some stopped)), r)) =
      some (some (ok stopped), with_agent q r.agent)
  after_session next q (some (ended (ok none), r)) = next (lost r.joined (with_agent q r.agent))
  after_session next q (some (ended (err error), r)) =
      if is_transport error
      then next (lost r.joined (with_agent q r.agent))
      else some (some (err error), with_agent q r.agent)

  -- A connection that failed is tried again, unless it is for want of an identity.
  unfoldable pub after_connecting :
      ℕ
      → ℕ
      → (Reconnecting Val W → Option (Option (Result Stopped) × Reconnecting Val W))
      → Reconnecting Val W
      → Result (Unit {0}) × W
      → Option (Option (Result Stopped) × Reconnecting Val W)
  unfolding after_session lost with_agent is_identity unbounded session_within
  after_connecting rounds fuel next q (ok u, w) =
      after_session next q (session_within unbounded rounds fuel (at_world q.agent w))
  after_connecting rounds fuel next q (err error, w) =
      if is_identity error
      then some (some (err error), with_agent q (at_world q.agent w))
      else next (lost false (with_agent q (at_world q.agent w)))

  -- Without an outcome while it goes on, after as many tries, or in the last after as many rounds; none
  -- only when an installation's fuel is used up.
  unfoldable pub run_from :
      ℕ → ℕ → ℕ → Reconnecting Val W → Option (Option (Result Stopped) × Reconnecting Val W)
  unfolding after_connecting
  run_from zero rounds fuel q = some (none, q)
  run_from (suc tries) rounds fuel q =
      after_connecting rounds fuel (run_from tries rounds fuel) q
        (platform.connect (session_of q.agent).world)

  unfoldable pub run :
      ℕ → ℕ → ℕ → Agent Val W → Option (Option (Result Stopped) × Reconnecting Val W)
  unfolding run_from
  run tries rounds fuel a = run_from tries rounds fuel (start_at a)
