-- ===== src/Agent/Updates/Returns.antt =====
-- Applying an update, in src/agent.rs, comes to an end.
use nerves_hub_link_esp.Base.{ℕ, ◌+◌, ◌<◌, true, ◌≡◌, refl, Option, none, some, is_some}
use nerves_hub_link_esp.Agent.{Platform}
use nerves_hub_link_esp.Agent.Updates.{
  Device, on_world, http_of, sink_of, progress_of, note_downloading, landed, run_install,
  opened_sink, opened_http, download, conclude, apply,
}
use nerves_hub_link_esp.Checksum.{Digest}
use nerves_hub_link_esp.Error.{Result, ok, err}
use nerves_hub_link_esp.Install.{HttpStream, ImageSink, World, InstallReport, u64_mod, chunk_size}
use nerves_hub_link_esp.Install.Terminates.{IsBounded, Returns, install-Returns}
use nerves_hub_link_esp.Json.{Json}
use nerves_hub_link_esp.Link.{Transport, UpdateHandler}
use nerves_hub_link_esp.Logging.Lines.{Allocator}
use nerves_hub_link_esp.Agent.{Pump}
use nerves_hub_link_esp.Update.{UpdatePayload, actionable}

-- An update that names its size, which leaves room for a last chunk in a u64; the fuel is more.
pub record Fits (fuel : ℕ) (u : UpdatePayload) : Type 0 where
  pub total : ℕ
  pub sized : u.size ≡ some total
  pub in_u64 : total + chunk_size < u64_mod
  pub enough : total < fuel

http_of-IsBounded :
    {Val W : Type 0} (http : HttpStream W) → IsBounded http → IsBounded (http_of {Val = Val} http)
http_of-IsBounded http bounded = record {
  within = λ size p chunk e. bounded.within size p.session.world chunk e;
}

module _ {Val W S : Type 0} (js : Json Val) (t : Transport W) (h : UpdateHandler W) (a : Allocator)
    (pf : Platform W) (digest : Digest S) (http : HttpStream W) (sink : ImageSink W) where
  landed-some :
      (d : Device Val W) (r : Option (Result InstallReport × World (Pump Val W)))
      → Returns r
      → is_some (landed js t h a pf digest http sink d r) ≡ true
  unfolding landed
  landed-some d none k = absurd k.ends
  landed-some d (some (r, w)) k = refl

  conclude-some :
      (r : Option (Result InstallReport × Device Val W))
      → is_some r ≡ true
      → is_some (conclude js t h a pf digest http sink r) ≡ true
  unfolding conclude
  conclude-some none e = e
  conclude-some (some (r, d)) e = refl

  module _ (bounded : IsBounded http) (fuel : ℕ) (u : UpdatePayload) (fits : Fits fuel u) where
    opened_sink-some :
        (d : Device Val W) (r : Result (Unit {0}) × W)
        → is_some (opened_sink js t h a pf digest http sink fuel u d r) ≡ true
    unfolding opened_sink run_install
    opened_sink-some d (ok x, w) =
        landed-some (record d { pump = on_world d.pump w }) _
          (install-Returns digest (http_of http) (sink_of sink) (progress_of js t h a pf)
            (http_of-IsBounded http bounded) u fits.total fuel _ _ fits.sized fits.in_u64
            fits.enough)
    opened_sink-some d (err e, w) = refl

    opened_http-some :
        (d : Device Val W) (r : Result (Unit {0}) × W)
        → is_some (opened_http js t h a pf digest http sink fuel u d r) ≡ true
    unfolding opened_http
    opened_http-some d (ok x, w) =
        opened_sink-some (record d { pump = on_world d.pump w }) (pf.begin_update w)
    opened_http-some d (err e, w) = refl

    -- An update that names its size is applied or refused in the end.
    pub apply-some :
        (d : Device Val W) → is_some (apply js t h a pf digest http sink fuel u d) ≡ true
    unfolding apply download
    apply-some d = conclude-some _ (opened_http-some (note_downloading (actionable u) d) _)
