-- ===== src/Agent/Updates/Quiet.antt =====
-- An update applied by src/agent.rs leaves the join as it is, and restarts the device at most once.
use nerves_hub_link_esp.Base.{
  ℕ, suc, ◌*◌, Bool, true, false, ◌≡◌, refl, Option, none, some, String, subst, arith,
}
use nerves_hub_link_esp.Agent.{Platform, Pump, report}
use nerves_hub_link_esp.Agent.Quiet.{pump_link, tick-SameJoin, wait-SameJoin}
use nerves_hub_link_esp.Agent.Updates.{
  Device, on_world, at_downloading, http_of, sink_of, progress_of, heartbeat_ms_of, landed,
  run_install, opened_sink, opened_http, download, restart_after, stay_after, conclude_with,
  conclude, note_downloading, apply,
}
use nerves_hub_link_esp.Agent.Updates.Verified.{announce-Sends}
use nerves_hub_link_esp.Checksum.{Digest}
use nerves_hub_link_esp.Error.{Result, ok, err}
use nerves_hub_link_esp.Install.{HttpStream, ImageSink, World, InstallReport}
use nerves_hub_link_esp.Install.Keeps.{KeptBy, Keeping, install-Keeping}
use nerves_hub_link_esp.Json.{Json}
use nerves_hub_link_esp.Link.{Transport, UpdateHandler, Link, Session, set_downloading}
use nerves_hub_link_esp.Link.Quiet.{SameJoin, SameJoin-refl, SameJoin-trans, Sends-SameJoin}
use nerves_hub_link_esp.Link.Sends.{send_progress-Sends, send_status-Sends}
use nerves_hub_link_esp.Logging.Lines.{Allocator}
use nerves_hub_link_esp.Update.{UpdatePayload, actionable}

-- The restarts after an operation that says whether the device is rebooting.
abbrev pub restarts_after : Result Bool → ℕ → ℕ
restarts_after (ok true) n = suc n
restarts_after (ok false) n = n
restarts_after (err e) n = n

module _ {Val W : Type 0} where
  -- The join is as it was, and the device restarted `n` times in all.
  pub record SameDevice (l : Link Val) (n : ℕ) (d : Device Val W) : Type 0 where
    pub link : SameJoin l d.pump.session.link
    pub count : d.restarts ≡ n

  abbrev pub SameDownload : Link Val → ℕ → Option (Result InstallReport × Device Val W) → Type 0
  SameDownload l n none = Unit {0}
  SameDownload l n (some (r, d)) = SameDevice l n d

  abbrev pub SameUpdate : Link Val → ℕ → Option (Result Bool × Device Val W) → Type 0
  SameUpdate l n none = Unit {0}
  SameUpdate l n (some (r, d)) = SameDevice l (restarts_after r n) d

  pub restart_after-SameDevice :
      (pf : Platform W) (l : Link Val) (n : ℕ) (d : Device Val W)
      (r : Result (Unit {0}) × Session Val W)
      → SameJoin l r.1.link
      → d.restarts ≡ n
      → SameDevice l (restarts_after (restart_after pf d r).0 n) (restart_after pf d r).1
  unfolding restart_after
  restart_after-SameDevice pf l n d (ok u, s) k e = record {
    link = record { same_ref = k.same_ref; same_joined = k.same_joined };
    count = ground (arith, e);
  }
  restart_after-SameDevice pf l n d (err error, s) k e = record {
    link = record { same_ref = k.same_ref; same_joined = k.same_joined };
    count = e;
  }

  stay_after-SameDevice :
      (l : Link Val) (n : ℕ) (d : Device Val W) (r : Result (Unit {0}) × Session Val W)
      → SameJoin l r.1.link
      → d.restarts ≡ n
      → SameDevice l (restarts_after (stay_after d r).0 n) (stay_after d r).1
  unfolding stay_after
  stay_after-SameDevice l n d (ok u, s) k e = record {
    link = record { same_ref = k.same_ref; same_joined = k.same_joined };
    count = e;
  }
  stay_after-SameDevice l n d (err error, s) k e = record {
    link = record { same_ref = k.same_ref; same_joined = k.same_joined };
    count = e;
  }

module _ {Val W S : Type 0} (js : Json Val) (t : Transport W) (h : UpdateHandler W) (a : Allocator)
    (pf : Platform W) (digest : Digest S) (http : HttpStream W) (sink : ImageSink W) where
  update_kept :
      (l : Link Val)
      → KeptBy
          (http_of http)
          (sink_of sink)
          (progress_of js t h a pf)
          (λ p. SameJoin l (pump_link p))
  unfolding progress_of report
  update_kept l = record {
    by_open = λ url p k. k;
    by_read = λ size p k. k;
    by_write = λ chunk p k. k;
    by_commit = λ p k. k;
    by_abort = λ p k. k;
    by_tick = λ p k. SameJoin-trans k (tick-SameJoin js t h a pf (heartbeat_ms_of js t h a pf p) p);
    by_report = λ stage percent p k.
        SameJoin-trans k (Sends-SameJoin (send_progress-Sends js t stage percent _));
    by_wait =
        λ secs p k. wait-SameJoin js t h a pf (heartbeat_ms_of js t h a pf p) (secs * 1000) l p k;
  }

  landed-SameDownload :
      (l : Link Val) (d : Device Val W) (o : Option (Result InstallReport × World (Pump Val W)))
      → Keeping (λ p. SameJoin l (pump_link p)) o
      → SameDownload l d.restarts (landed js t h a pf digest http sink d o)
  unfolding landed
  landed-SameDownload l d none k = tt
  landed-SameDownload l d (some (ok report, w)) k = record { link = k.holds; count = refl }
  landed-SameDownload l d (some (err e, w)) k = record { link = k.holds; count = refl }

  run_install-SameDownload :
      (fuel : ℕ) (update : UpdatePayload) (l : Link Val) (d : Device Val W)
      → SameJoin l (pump_link d.pump)
      → SameDownload l d.restarts (run_install js t h a pf digest http sink fuel update d)
  unfolding run_install
  run_install-SameDownload fuel update l d k = landed-SameDownload l d _ (
      install-Keeping digest (http_of http) (sink_of sink) (progress_of js t h a pf)
        (λ p. SameJoin l (pump_link p)) (update_kept l) fuel update _ _ k)

  opened_sink-SameDownload :
      (fuel : ℕ) (update : UpdatePayload) (l : Link Val) (d : Device Val W)
      (r : Result (Unit {0}) × W)
      → SameJoin l (pump_link d.pump)
      → SameDownload l d.restarts (opened_sink js t h a pf digest http sink fuel update d r)
  unfolding opened_sink
  opened_sink-SameDownload fuel update l d (ok u, w) k = run_install-SameDownload fuel update l _ k
  opened_sink-SameDownload fuel update l d (err e, w) k = record { link = k; count = refl }

  opened_http-SameDownload :
      (fuel : ℕ) (update : UpdatePayload) (l : Link Val) (d : Device Val W)
      (r : Result (Unit {0}) × W)
      → SameJoin l (pump_link d.pump)
      → SameDownload l d.restarts (opened_http js t h a pf digest http sink fuel update d r)
  unfolding opened_http
  opened_http-SameDownload fuel update l d (ok u, w) k =
      opened_sink-SameDownload fuel update l (record d { pump = on_world d.pump w })
        (pf.begin_update w) k
  opened_http-SameDownload fuel update l d (err e, w) k = record { link = k; count = refl }

  conclude_with-SameDevice :
      (l : Link Val) (r : Result InstallReport) (d : Device Val W)
      → SameJoin l (pump_link d.pump)
      → SameDevice l
          (restarts_after (conclude_with js t h a pf digest http sink r d).0 d.restarts)
          (conclude_with js t h a pf digest http sink r d).1
  unfolding conclude_with
  conclude_with-SameDevice l (ok installed) d k =
      restart_after-SameDevice pf l d.restarts d _
        (SameJoin-trans k
          (Sends-SameJoin (announce-Sends js t h a pf digest http sink d.pump.session)))
        refl
  conclude_with-SameDevice l (err e) d k =
      stay_after-SameDevice l d.restarts d _
        (SameJoin-trans k (Sends-SameJoin (send_status-Sends js t "failed" _ d.pump.session))) refl

  at_downloading-SameJoin :
      (l : Link Val) (uuid : Option String) (d : Device Val W)
      → SameJoin l (pump_link d.pump)
      → SameJoin l (pump_link (at_downloading uuid d).pump)
  unfolding set_downloading
  at_downloading-SameJoin l uuid d k = record { same_ref = k.same_ref; same_joined = k.same_joined }

  conclude-SameUpdate :
      (l : Link Val) (n : ℕ) (o : Option (Result InstallReport × Device Val W))
      → SameDownload l n o
      → SameUpdate l n (conclude js t h a pf digest http sink o)
  unfolding conclude
  conclude-SameUpdate l n none k = tt
  conclude-SameUpdate l n (some (r, d)) k =
      subst (λ m. SameDevice l (restarts_after (concluded r d).0 m) (concluded r d).1) k.count
        (conclude_with-SameDevice l r _ (at_downloading-SameJoin l none d k.link))
    where
      concluded : Result InstallReport → Device Val W → Result Bool × Device Val W
      concluded r d = conclude_with js t h a pf digest http sink r (at_downloading none d)

  noted-SameDevice :
      (l : Link Val) (target : Option (String × String)) (d : Device Val W)
      → SameJoin l (pump_link d.pump)
      → SameDevice l d.restarts (note_downloading target d)
  unfolding note_downloading
  noted-SameDevice l none d k = record { link = k; count = refl }
  noted-SameDevice l (some (url, uuid)) d k = record {
    link = at_downloading-SameJoin l (some uuid) d k;
    count = refl;
  }

  -- The join is as it was, and the device restarted once more exactly if the result says so.
  pub apply-SameUpdate :
      (fuel : ℕ) (update : UpdatePayload) (d : Device Val W)
      → SameUpdate (pump_link d.pump) d.restarts (apply js t h a pf digest http sink fuel update d)
  unfolding apply download
  apply-SameUpdate fuel update d =
      let l = pump_link d.pump in
      let d1 = note_downloading (actionable update) d in
      let k = noted-SameDevice l (actionable update) d (SameJoin-refl l) in
      conclude-SameUpdate l d.restarts _ (
        subst
          (λ n. SameDownload l n (
            opened_http js t h a pf digest http sink fuel update d1
              (pf.start_http d1.pump.session.world)))
          k.count (opened_http-SameDownload fuel update l d1 _ k.link))
