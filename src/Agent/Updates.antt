-- ===== src/Agent/Updates.antt =====
-- Applying an update, in src/agent.rs: the installation with the pump as its progress, and the restart.
pub mod Verified
pub mod Quiet
pub mod Returns
use nerves_hub_link_esp.Base.{
  ℕ, suc, ◌+◌, ◌*◌, Bool, true, false, Option, none, some, List, [], ◌∷◌, String, unwrap_or,
}
use nerves_hub_link_esp.Agent.{Platform, Pump, with_world, tick, report, wait}
use nerves_hub_link_esp.Checksum.{Digest}
use nerves_hub_link_esp.Error.{Error, Result, ok, err, status_reason}
use nerves_hub_link_esp.Install
use nerves_hub_link_esp.Install.{
  HttpStream, ImageSink, Progress, Call, World, InstallReport, install,
}
use nerves_hub_link_esp.Json.{Json}
use nerves_hub_link_esp.Link.{
  Transport, UpdateHandler, Session, and_then, with_link, set_downloading, send_progress,
  send_status, send_rebooting,
}
use nerves_hub_link_esp.Logging.Lines.{Allocator}
use nerves_hub_link_esp.Update.{UpdatePayload, actionable, updating}

-- The agent while it applies an update, the calls of the installation's traits, the newest first, and
-- how often the platform was told to restart.
pub record Device (Val W : Type 0) : Type 0 where
  pub pump : Pump Val W
  pub calls : List Call
  pub restarts : ℕ

module _ {Val W : Type 0} where
  abbrev pub on_world : Pump Val W → W → Pump Val W
  on_world p w = record p { session = with_world p.session w }

  abbrev pub on_session : Device Val W → Session Val W → Device Val W
  on_session d s = record d { pump = record d.pump { session = s } }

  -- The platform's HTTP client and image sink, in the pump's world.
  abbrev pub http_of : HttpStream W → HttpStream (Pump Val W)
  http_of http = record {
    open_url = λ url p. let (r, w) = http.open_url url p.session.world in (r, on_world p w);
    read_into = λ n p. let (r, w) = http.read_into n p.session.world in (r, on_world p w);
  }

  abbrev pub sink_of : ImageSink W → ImageSink (Pump Val W)
  sink_of sink = record {
    write_chunk =
        λ bytes p. let (r, w) = sink.write_chunk bytes p.session.world in (r, on_world p w);
    commit_image = λ p. let (r, w) = sink.commit_image p.session.world in (r, on_world p w);
    abort_image = λ p. on_world p (sink.abort_image p.session.world);
  }

  unfoldable pub stay_after :
      Device Val W → Result (Unit {0}) × Session Val W → Result Bool × Device Val W
  stay_after d (ok u, s) = (ok false, on_session d s)
  stay_after d (err e, s) = (err e, on_session d s)

  abbrev pub at_downloading : Option String → Device Val W → Device Val W
  at_downloading uuid d =
      on_session d (with_link d.pump.session (set_downloading uuid d.pump.session.link))

  note_downloading : Option (String × String) → Device Val W → Device Val W
  unfolding set_downloading
  note_downloading none d = d
  note_downloading (some (url, uuid)) d = at_downloading (some uuid) d

module _ {Val W : Type 0} (js : Json Val) (t : Transport W) where
  -- The messages after an installation.
  unfoldable pub announce : Session Val W → Result (Unit {0}) × Session Val W
  unfolding send_progress send_status send_rebooting and_then
  announce s = and_then (send_progress js t updating 100 s) (λ _ s.
      and_then (send_status js t "completed" (js.object []) s) (λ _ s. send_rebooting js t s))

module _ {Val W : Type 0} (pf : Platform W) where
  unfoldable pub restart_after :
      Device Val W → Result (Unit {0}) × Session Val W → Result Bool × Device Val W
  restart_after d (ok u, s) = (
    ok true,
    record (on_session d (with_world s (pf.restart (pf.sleep_ms 250 s.world)))) {
      restarts = suc d.restarts;
    },
  )
  restart_after d (err e, s) = (err e, on_session d s)

module _ {Val W : Type 0} (js : Json Val) (t : Transport W) (h : UpdateHandler W) (a : Allocator)
    (pf : Platform W) where
  heartbeat_ms_of : Pump Val W → ℕ
  heartbeat_ms_of p = p.session.link.config.heartbeat_interval_secs * 1000

  -- The pump as the installation's progress. Its waits are given in seconds, and return where the
  -- clock does not turn back (Agent/Waits.antt).
  unfoldable pub progress_of : Progress (Pump Val W)
  unfolding tick report wait heartbeat_ms_of
  progress_of = record {
    on_tick = λ p. tick js t a pf (heartbeat_ms_of p) p;
    on_report = λ stage percent p. report js t a pf h stage percent p;
    on_wait = λ secs p. unwrap_or (wait js t a pf (heartbeat_ms_of p) (secs * 1000) p) (ok tt, p);
  }

module _ {Val W S : Type 0} (js : Json Val) (t : Transport W) (h : UpdateHandler W) (a : Allocator)
    (pf : Platform W) (digest : Digest S) (http : HttpStream W) (sink : ImageSink W) where
  -- The pump's own times are gone with it.
  landed :
      Device Val W
      → Option (Result InstallReport × World (Pump Val W))
      → Option (Result InstallReport × Device Val W)
  landed d none = none
  landed d (some (r, w)) = some (
    r,
    record d {
      pump = record d.pump { session = w.env.session; logs = w.env.logs };
      calls = w.calls;
    },
  )

  unfoldable pub run_install :
      ℕ → UpdatePayload → Device Val W → Option (Result InstallReport × Device Val W)
  unfolding landed install
  run_install fuel update d =
      let (now, world) = pf.now_ms d.pump.session.world in
      let pump = record (on_world d.pump world) { last_heartbeat = now; last_log = now } in
      landed d (
        install digest (http_of http) (sink_of sink) (progress_of js t h a pf) fuel update
          d.pump.session.link.config.progress_step_percent (record { env = pump; calls = d.calls }))

  -- The sink is asked for once there is an HTTP client.
  opened_sink :
      ℕ
      → UpdatePayload
      → Device Val W
      → Result (Unit {0}) × W
      → Option (Result InstallReport × Device Val W)
  unfolding run_install
  opened_sink fuel update d (ok u, w) =
      run_install fuel update (record d { pump = on_world d.pump w })
  opened_sink fuel update d (err e, w) = some (err e, record d { pump = on_world d.pump w })

  opened_http :
      ℕ
      → UpdatePayload
      → Device Val W
      → Result (Unit {0}) × W
      → Option (Result InstallReport × Device Val W)
  unfolding opened_sink
  opened_http fuel update d (ok u, w) =
      opened_sink fuel update (record d { pump = on_world d.pump w }) (pf.begin_update w)
  opened_http fuel update d (err e, w) = some (err e, record d { pump = on_world d.pump w })

  unfoldable pub download :
      ℕ → UpdatePayload → Device Val W → Option (Result InstallReport × Device Val W)
  unfolding opened_http
  download fuel update d = opened_http fuel update d (pf.start_http d.pump.session.world)

  unfoldable pub conclude_with : Result InstallReport → Device Val W → Result Bool × Device Val W
  unfolding announce restart_after stay_after send_status status_reason
  conclude_with (ok installed) d = restart_after pf d (announce js t d.pump.session)
  conclude_with (err e) d = stay_after d (
      send_status js t "failed" (js.object (("reason", js.string (status_reason e)) ∷ []))
        d.pump.session)

  unfoldable pub conclude :
      Option (Result InstallReport × Device Val W) → Option (Result Bool × Device Val W)
  unfolding conclude_with set_downloading
  conclude none = none
  conclude (some (r, d)) = some (conclude_with r (at_downloading none d))

  -- True if the device is now rebooting; none only when the installation's fuel is used up.
  unfoldable pub apply : ℕ → UpdatePayload → Device Val W → Option (Result Bool × Device Val W)
  unfolding conclude download note_downloading actionable
  apply fuel update d = conclude (download fuel update (note_downloading (actionable update) d))
