-- ===== src/Agent/Reconnects/Backoff.antt =====
-- How `run` of src/agent.rs waits between its connections, and how it stops.
use nerves_hub_link_esp.Base.{
  ℕ, zero, suc, ◌+◌, ◌^◌, ◌≤◌, ◌<◌, Bool, true, false, ◌≡◌, refl, ap, ◌∙◌, Option, none, some, List,
  [], ◌∷◌, arith, length, if_intro, subst,
}
use nerves_hub_link_esp.Agent.Reconnects.{
  Reconnecting, start_at, is_identity, is_transport, next_attempt, unbounded, lost, with_agent,
  after_session, after_connecting, run_from, run,
}
use nerves_hub_link_esp.Agent.Sessions.{
  Stopped, rebooting, finished, Run, Flow, going, ended, Env, asked, windowed,
}
use nerves_hub_link_esp.Agent.Sessions.Rounds.Held.{OptionHeld, session_within-Held}
use nerves_hub_link_esp.Agent.Terminal.{Agent, at_world}
use nerves_hub_link_esp.Config.{Config, backoff_for}
use nerves_hub_link_esp.Error.{Error, Result, ok, err, identity, transport}

-- How many tries in a row, the newest first, did not get as far as a join.
unfoldable pub failures : List Bool → ℕ
failures [] = 0
failures (true ∷ tries) = 0
failures (false ∷ tries) = suc (failures tries)

-- The wait after each try, the newest first: the one configured for the failures in a row before it,
-- and the first one after a session that joined.
unfoldable pub waits_of : Config → List Bool → List ℕ
unfolding failures
waits_of config [] = []
waits_of config (true ∷ tries) = backoff_for config 0 ∷ waits_of config tries
waits_of config (false ∷ tries) = backoff_for config (failures tries) ∷ waits_of config tries

-- The attempt that is next is the count of failures, and the waits are those.
pub record Backed {Val W : Type 0} (config : Config) (most restarts : ℕ) (q : Reconnecting Val W)
    : Type 0 where
  pub counted : q.attempt ≡ failures q.tries
  pub waited : q.waits ≡ waits_of config q.tries
  pub within : length q.tries ≤ most
  pub restarted : q.agent.device.restarts ≡ restarts

-- What `run` comes to. It goes on, without a restart; or it returned, with a device that restarted once,
-- or with an error that is not the transport's, and no restart.
pub data RunEnds {Val W : Type 0} (config : Config) (most restarts : ℕ)
    : Option (Result Stopped) × Reconnecting Val W → Type 0 where
  goes_on :
      (q : Reconnecting Val W)
      → Backed config most restarts q
      → RunEnds config most restarts (none, q)
  by_reboot :
      (q : Reconnecting Val W)
      → Backed config most (suc restarts) q
      → RunEnds config most restarts (some (ok rebooting), q)
  by_error :
      (error : Error) (q : Reconnecting Val W)
      → is_transport error ≡ false
      → Backed config most restarts q
      → RunEnds config most restarts (some (err error), q)

failures-le : (tries : List Bool) → failures tries ≤ length tries
unfolding failures
failures-le [] = omega arith
failures-le (true ∷ tries) = omega arith
failures-le (false ∷ tries) = omega (arith, failures-le tries)

identity-not_transport : (error : Error) → is_identity error ≡ true → is_transport error ≡ false
unfolding is_identity is_transport
identity-not_transport (identity msg) h = refl
identity-not_transport (transport msg) h = absurd cc
identity-not_transport _ h = refl

module _ {Val F S W : Type 0} (e : Env Val F S W) where
  open e use {config}

  -- Without a state, an installation's fuel was used up.
  abbrev pub RunOk : ℕ → ℕ → Option (Option (Result Stopped) × Reconnecting Val W) → Type 0
  RunOk most n none = Unit {0}
  RunOk most n (some x) = RunEnds config most n x

  lost-Backed :
      (joined : Bool) (most n : ℕ) (q : Reconnecting Val W)
      → suc (length q.tries) ≤ most
      → most < 2 ^ 32
      → Backed config most n q
      → Backed config most n (lost e joined q)
  unfolding lost next_attempt failures waits_of
  lost-Backed true most n q le small b = record {
    counted = refl;
    waited = ap (λ ws. backoff_for config 0 ∷ ws) b.waited;
    within = le;
    restarted = b.restarted;
  }
  lost-Backed false most n q le small b = record {
    counted = omega (arith, b.counted, failures-le q.tries);
    waited =
        ap (λ k. backoff_for config k ∷ q.waits) b.counted
        ∙ ap (λ ws. backoff_for config (failures q.tries) ∷ ws) b.waited;
    within = le;
    restarted = b.restarted;
  }

  -- The same tries and waits, with the device of a session that did not restart it.
  at_agent :
      (most n : ℕ) (q : Reconnecting Val W) (a : Agent Val W)
      → a.device.restarts ≡ n
      → Backed config most q.agent.device.restarts q
      → Backed config most n (with_agent e q a)
  unfolding with_agent
  at_agent most n q a same b = record {
    counted = b.counted;
    waited = b.waited;
    within = b.within;
    restarted = same;
  }

  -- What the next try comes to, from a state with one try more.
  abbrev NextOk :
      ℕ
      → ℕ
      → ℕ
      → (Reconnecting Val W → Option (Option (Result Stopped) × Reconnecting Val W))
      → Type 0
  NextOk most n tried next =
      (q : Reconnecting Val W)
      → length q.tries ≡ tried
      → Backed config most n q
      → RunOk most n (next q)

  next-lost :
      (joined : Bool) (most n : ℕ) (q : Reconnecting Val W)
      (next : Reconnecting Val W → Option (Option (Result Stopped) × Reconnecting Val W))
      → suc (length q.tries) ≤ most
      → most < 2 ^ 32
      → Backed config most n q
      → NextOk most n (suc (length q.tries)) next
      → RunOk most n (next (lost e joined q))
  next-lost joined most n q next le small b k =
      k (lost e joined q) (unfold lost in refl) (lost-Backed joined most n q le small b)

  module _ (most : ℕ) (small : most < 2 ^ 32) where
    after_session-Ok :
        (q : Reconnecting Val W)
        (next : Reconnecting Val W → Option (Option (Result Stopped) × Reconnecting Val W))
        (o : Option (Flow × Run Val W))
        → suc (length q.tries) ≤ most
        → Backed config most q.agent.device.restarts q
        → OptionHeld e.js (asked (unbounded e)) (windowed (unbounded e)) q.agent.device.restarts o
        → NextOk most q.agent.device.restarts (suc (length q.tries)) next
        → RunOk most q.agent.device.restarts (after_session e next q o)
    unfolding after_session with_agent
    after_session-Ok q next none le b h k = tt
    after_session-Ok q next (some (going, r)) le b h k =
        goes_on _ (at_agent most q.agent.device.restarts q r.agent h.restarted b)
    after_session-Ok q next (some (ended (ok (some rebooting)), r)) le b h k =
        by_reboot _ (at_agent most (suc q.agent.device.restarts) q r.agent h.restarted b)
    after_session-Ok q next (some (ended (ok (some finished)), r)) le b h k =
        absurd (unfold unbounded in no_window (h.after_all refl refl).0)
      where
        no_window : false ≡ true → ⊥
        no_window f = cc
    after_session-Ok q next (some (ended (ok none), r)) le b h k =
        next-lost r.joined most q.agent.device.restarts (with_agent e q r.agent) next le small
          (at_agent most q.agent.device.restarts q r.agent h.restarted b) k
    after_session-Ok q next (some (ended (err error), r)) le b h k =
        if_intro (RunOk most q.agent.device.restarts) (is_transport error) _ _
          (λ _.
            next-lost r.joined most q.agent.device.restarts (with_agent e q r.agent) next le small
              (at_agent most q.agent.device.restarts q r.agent h.restarted b) k)
          (λ other.
            by_error error (with_agent e q r.agent) other
              (at_agent most q.agent.device.restarts q r.agent h.restarted b))

    after_connecting-Ok :
        (rounds fuel : ℕ) (q : Reconnecting Val W)
        (next : Reconnecting Val W → Option (Option (Result Stopped) × Reconnecting Val W))
        (o : Result (Unit {0}) × W)
        → suc (length q.tries) ≤ most
        → Backed config most q.agent.device.restarts q
        → NextOk most q.agent.device.restarts (suc (length q.tries)) next
        → RunOk most q.agent.device.restarts (after_connecting e rounds fuel next q o)
    unfolding after_connecting with_agent
    after_connecting-Ok rounds fuel q next (ok u, w) le b k =
        after_session-Ok q next _ le b
          (session_within-Held (unbounded e) rounds fuel (at_world q.agent w)) k
    after_connecting-Ok rounds fuel q next (err error, w) le b k =
        let a = at_world q.agent w in
        if_intro (RunOk most q.agent.device.restarts) (is_identity error) _ _
          (λ own.
            by_error error (with_agent e q a) (identity-not_transport error own)
              (at_agent most q.agent.device.restarts q a refl b))
          (λ _.
            next-lost false most q.agent.device.restarts (with_agent e q a) next le small
              (at_agent most q.agent.device.restarts q a refl b) k)

    run_from-Ok :
        (tries rounds fuel n : ℕ) (q : Reconnecting Val W)
        → length q.tries + tries ≤ most
        → Backed config most n q
        → RunOk most n (run_from e tries rounds fuel q)
    unfolding run_from
    run_from-Ok zero rounds fuel n q le b = goes_on q b
    run_from-Ok (suc tries) rounds fuel n q le b =
        subst (λ m. RunOk most m (run_from e (suc tries) rounds fuel q)) b.restarted
          (after_connecting-Ok rounds fuel q (run_from e tries rounds fuel) _ (omega arith)
            (at_own b)
            (λ q' tried b'.
              run_from-Ok tries rounds fuel q.agent.device.restarts q' (omega (arith, tried)) b'))
      where
        at_own : Backed config most n q → Backed config most q.agent.device.restarts q
        at_own b = record {
          counted = b.counted;
          waited = b.waited;
          within = b.within;
          restarted = refl;
        }

  -- `run`, after any number of tries below 2^32 and of rounds of its last session, goes on or has returned.
  -- While it goes on it has not restarted the device. It returns in one of two ways: the device was
  -- restarted, once, into an update or by an operator; or there was an error that is not the
  -- transport's, and no restart. A lost connection or session only leads to the next try, and a session
  -- without a window never ends as finished. The waits between the tries so far are those configured:
  -- after a try that did not get as far as a join, the wait for the number of such tries in a row before
  -- it; after one that did, the first. An installation may have any fuel; one that uses it up is left
  -- open.
  pub run-RunEnds :
      (tries rounds fuel : ℕ) (a : Agent Val W)
      → tries < 2 ^ 32
      → RunOk tries a.device.restarts (run e tries rounds fuel a)
  unfolding run
  run-RunEnds tries rounds fuel a small =
      run_from-Ok tries small tries rounds fuel a.device.restarts (start_at a) (omega arith)
        (record {
          counted = unfold failures in refl;
          waited = unfold waits_of in refl;
          within = omega arith;
          restarted = refl;
        })
