-- ===== src/Agent/Updates/Verified.antt =====
-- What is left after src/agent.rs applied an update: the restart, and the record of the download.
use nerves_hub_link_esp.Base.{
  ℕ, suc, ◌+◌, ◌<◌, Bool, true, false, ◌≡◌, refl, ap, ◌∙◌, ◌⊎◌, inl, inr, Option, none, some, List,
  [], String,
}
use nerves_hub_link_esp.Agent.{Platform, Pump}
use nerves_hub_link_esp.Agent.Updates.{
  Device, on_world, at_downloading, http_of, sink_of, progress_of, landed, run_install, opened_sink,
  opened_http, download, announce, restart_after, stay_after, conclude_with, conclude,
  note_downloading, apply,
}
use nerves_hub_link_esp.Checksum.{Digest}
use nerves_hub_link_esp.Error.{Error, Result, ok, err}
use nerves_hub_link_esp.Install.{
  HttpStream, ImageSink, Call, World, InstallReport, chunk_size, u64_mod, Post,
}
use nerves_hub_link_esp.Install.Terminates.{IsBounded, Returns, install-Returns}
use nerves_hub_link_esp.Install.Verified.{Installed, Failed, install-Ensures}
use nerves_hub_link_esp.Json.{Json}
use nerves_hub_link_esp.Link.{
  Transport, UpdateHandler, Link, Session, set_downloading, send_progress, send_status,
}
use nerves_hub_link_esp.Link.Sends.{
  Sends, and_then-Sends, send_progress-Sends, send_status-Sends, send_rebooting-Sends,
}
use nerves_hub_link_esp.Logging.Lines.{Allocator}
use nerves_hub_link_esp.Update.{UpdatePayload, actionable, updating}

-- Before an update: nothing was called, and nothing restarted.
abbrev pub fresh_device : {Val W : Type 0} → Pump Val W → Device Val W
fresh_device p = record { pump = p; calls = []; restarts = 0 }

unfoldable pub says_rebooting : Result Bool → Bool
says_rebooting (ok b) = b
says_rebooting (err e) = false

module _ {Val W S : Type 0} (js : Json Val) (t : Transport W) (h : UpdateHandler W) (a : Allocator)
    (pf : Platform W) (digest : Digest S) (http : HttpStream W) (sink : ImageSink W) where
  abbrev WasInstalled : UpdatePayload → List Call → InstallReport → Type 0
  WasInstalled =
      Installed digest (http_of {Val = Val} http) (sink_of sink) (progress_of js t h a pf)

  abbrev WasLost : UpdatePayload → List Call → Type 0
  WasLost update calls =
      Failed digest (http_of {Val = Val} http) (sink_of sink) (progress_of js t h a pf) update calls
      ⊎ (calls ≡ [])

  -- The installation returned, and nothing was restarted.
  data Downloaded (update : UpdatePayload)
      : Option (Result InstallReport × Device Val W) → Type 0 where
    got :
        (report : InstallReport) (d : Device Val W)
        → WasInstalled update d.calls report
        → d.restarts ≡ 0
        → Downloaded update (some (ok report, d))
    lost :
        (e : Error) (d : Device Val W)
        → WasLost update d.calls
        → d.restarts ≡ 0
        → Downloaded update (some (err e, d))

  -- A device that restarted once, into an image that was verified and committed; or an installed image
  -- that could not be announced; or a device that stays up, with an installation that failed or was
  -- not begun. In each case no download is on record any more.
  pub data Concluded (update : UpdatePayload) : Option (Result Bool × Device Val W) → Type 0 where
    rebooting :
        (d : Device Val W) (report : InstallReport)
        → WasInstalled update d.calls report
        → d.restarts ≡ 1
        → d.pump.session.link.downloading ≡ none
        → Concluded update (some (ok true, d))
    unannounced :
        (e : Error) (d : Device Val W) (report : InstallReport)
        → WasInstalled update d.calls report
        → d.restarts ≡ 0
        → d.pump.session.link.downloading ≡ none
        → Concluded update (some (err e, d))
    staying :
        (r : Result Bool) (d : Device Val W)
        → says_rebooting r ≡ false
        → WasLost update d.calls
        → d.restarts ≡ 0
        → d.pump.session.link.downloading ≡ none
        → Concluded update (some (r, d))

  landed-Downloaded :
      (update : UpdatePayload) (p : Pump Val W)
      (o : Option (Result InstallReport × World (Pump Val W)))
      → Post
          (λ report w. WasInstalled update w.calls report)
          (λ _ w.
            Failed digest (http_of http) (sink_of sink) (progress_of js t h a pf) update w.calls)
          o
      → Returns o
      → Downloaded update (landed js t h a pf digest http sink (fresh_device p) o)
  unfolding landed
  landed-Downloaded update p none post returns = absurd returns.ends
  landed-Downloaded update p (some (ok report, w)) post returns = got report _ post refl
  landed-Downloaded update p (some (err e, w)) post returns = lost e _ (inl post) refl

  http_of-IsBounded : IsBounded http → IsBounded (http_of {Val = Val} http)
  http_of-IsBounded bounded = record {
    within = λ size p chunk e. bounded.within size p.session.world chunk e;
  }

  module _ (bounded : IsBounded http) (update : UpdatePayload) (total fuel : ℕ)
      (sized : update.size ≡ some total) (fits : total + chunk_size < u64_mod)
      (enough : total < fuel) where
    run_install-Downloaded :
        (p : Pump Val W)
        → Downloaded update (run_install js t h a pf digest http sink fuel update (fresh_device p))
    unfolding run_install
    run_install-Downloaded p =
        landed-Downloaded update p _
          (install-Ensures digest (http_of http) (sink_of sink) (progress_of js t h a pf) fuel
            update _ _)
          (install-Returns digest (http_of http) (sink_of sink) (progress_of js t h a pf)
            (http_of-IsBounded bounded) update total fuel _ _ sized fits enough)

    opened_sink-Downloaded :
        (p : Pump Val W) (r : Result (Unit {0}) × W)
        → Downloaded update
            (opened_sink js t h a pf digest http sink fuel update (fresh_device p) r)
    unfolding opened_sink
    opened_sink-Downloaded p (ok u, w) = run_install-Downloaded (on_world p w)
    opened_sink-Downloaded p (err e, w) = lost e _ (inr refl) refl

    opened_http-Downloaded :
        (p : Pump Val W) (r : Result (Unit {0}) × W)
        → Downloaded update
            (opened_http js t h a pf digest http sink fuel update (fresh_device p) r)
    unfolding opened_http
    opened_http-Downloaded p (ok u, w) = opened_sink-Downloaded (on_world p w) (pf.begin_update w)
    opened_http-Downloaded p (err e, w) = lost e _ (inr refl) refl

    download-Downloaded :
        (p : Pump Val W)
        → Downloaded update (download js t h a pf digest http sink fuel update (fresh_device p))
    unfolding download
    download-Downloaded p = opened_http-Downloaded p (pf.start_http p.session.world)

  pub announce-Sends : (s : Session Val W) → Sends s (announce js t s).1
  unfolding announce
  announce-Sends s =
      and_then-Sends (send_progress js t updating 100 s) _ (send_progress-Sends js t updating 100 s)
        (λ _ s'.
          and_then-Sends (send_status js t "completed" (js.object []) s') _
            (send_status-Sends js t "completed" (js.object []) s')
            (λ _ s''. send_rebooting-Sends js t s''))

  -- What was sent left the record of the download as it was.
  still_idle :
      (s s' : Session Val W) → Sends s s' → s.link.downloading ≡ none → s'.link.downloading ≡ none
  still_idle s s' k idle = ap {A = Link Val} (λ l. l.downloading) k.kept ∙ idle

  restart_after-Concluded :
      (update : UpdatePayload) (d : Device Val W) (report : InstallReport)
      (r : Result (Unit {0}) × Session Val W)
      → WasInstalled update d.calls report
      → d.restarts ≡ 0
      → r.1.link.downloading ≡ none
      → Concluded update (some (restart_after pf d r))
  unfolding restart_after
  restart_after-Concluded update d report (ok u, s) was up idle =
      rebooting _ report was (ap suc up) idle
  restart_after-Concluded update d report (err e, s) was up idle =
      unannounced e _ report was up idle

  stay_after-Concluded :
      (update : UpdatePayload) (d : Device Val W) (r : Result (Unit {0}) × Session Val W)
      → WasLost update d.calls
      → d.restarts ≡ 0
      → r.1.link.downloading ≡ none
      → Concluded update (some (stay_after d r))
  unfolding stay_after says_rebooting
  stay_after-Concluded update d (ok u, s) was up idle = staying (ok false) _ refl was up idle
  stay_after-Concluded update d (err e, s) was up idle = staying (err e) _ refl was up idle

  conclude-Concluded :
      (update : UpdatePayload) (o : Option (Result InstallReport × Device Val W))
      → Downloaded update o
      → Concluded update (conclude js t h a pf digest http sink o)
  unfolding conclude conclude_with set_downloading
  conclude-Concluded update _ (got report d was up) =
      restart_after-Concluded update (at_downloading none d) report _ was up
        (still_idle _ _ (announce-Sends (at_downloading none d).pump.session) refl)
  conclude-Concluded update _ (lost e d was up) =
      stay_after-Concluded update (at_downloading none d) _ was up (
        still_idle (at_downloading none d).pump.session _ (send_status-Sends js t "failed" _ _)
          refl)

  note_downloading-Downloaded :
      (update : UpdatePayload) (target : Option (String × String)) (fuel : ℕ) (p : Pump Val W)
      → ((q : Pump Val W)
          → Downloaded update (download js t h a pf digest http sink fuel update (fresh_device q)))
      → Downloaded update (
          download js t h a pf digest http sink fuel update
            (note_downloading target (fresh_device p)))
  unfolding note_downloading
  note_downloading-Downloaded update none fuel p k = k p
  note_downloading-Downloaded update (some (url, uuid)) fuel p k = k _

  -- Applying an update whose size is known ends, with more fuel than bytes, and leaves one of three
  -- states: the device was restarted, once, and then the image was verified and committed; or such an
  -- image is committed but a message about it could not be sent, and there was no restart; or the
  -- installation failed or could not be started, there was no restart, and the result does not say
  -- that the device is rebooting. No download is left on record. The reads of the HTTP stream fit
  -- their buffer, and the size leaves room for a last chunk in a u64.
  pub apply-Concluded :
      IsBounded http
      → (update : UpdatePayload) (total fuel : ℕ) (p : Pump Val W) → update.size ≡ some total
      → total + chunk_size < u64_mod
      → total < fuel
      → Concluded update (apply js t h a pf digest http sink fuel update (fresh_device p))
  unfolding apply
  apply-Concluded bounded update total fuel p sized fits enough = conclude-Concluded update _ (
      note_downloading-Downloaded update (actionable update) fuel p
        (download-Downloaded bounded update total fuel sized fits enough))
