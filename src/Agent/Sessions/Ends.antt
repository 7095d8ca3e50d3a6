-- ===== src/Agent/Sessions/Ends.antt =====
-- What a session of src/agent.rs comes to: when the running image was confirmed, and when the device was
-- restarted.
use nerves_hub_link_esp.Base.{ℕ, Bool, true, false, ◌≡◌, refl, Option, none, some}
use nerves_hub_link_esp.Agent.Sessions.{
  rebooting, finished, Run, Flow, going, ended, link_of, Env, asked, windowed,
}
use nerves_hub_link_esp.Agent.Sessions.Held.{RunWell, FlowHeld, restarts_after}
use nerves_hub_link_esp.Agent.Sessions.Rounds.{session_within}
use nerves_hub_link_esp.Agent.Sessions.Rounds.Held.{OptionHeld, session_within-Held}
use nerves_hub_link_esp.Agent.Terminal.{Agent}
use nerves_hub_link_esp.Error.{ok, err}
use nerves_hub_link_esp.Json.{Json}
use nerves_hub_link_esp.Link.Joining.{IsAccepted}

module _ {Val W : Type 0} where
  -- What holds of a session after its rounds; without one, an installation's fuel was used up.
  abbrev pub Then : (Flow → Run Val W → Type 0) → Option (Flow × Run Val W) → Type 0
  Then P none = Unit {0}
  Then P (some (f, r)) = P f r

  -- A session that says it is finished had a window, and its join had been accepted.
  abbrev pub FinishedWell : Json Val → Bool → Flow → Run Val W → Type 0
  FinishedWell js window (ended (ok (some finished))) r =
      (window ≡ true) × IsAccepted js (link_of r) r.heard
  FinishedWell js window (ended (ok (some rebooting))) r = Unit {0}
  FinishedWell js window (ended (ok none)) r = Unit {0}
  FinishedWell js window (ended (err e)) r = Unit {0}
  FinishedWell js window going r = Unit {0}

module _ {Val F S W : Type 0} (e : Env Val F S W) where
  -- What follows from the invariant holds of a session.
  held-Then :
      (P : Flow → Run Val W → Type 0) (n : ℕ) (x : Option (Flow × Run Val W))
      → ((f : Flow) (r : Run Val W) → FlowHeld e.js (asked e) (windowed e) n (f, r) → P f r)
      → OptionHeld e.js (asked e) (windowed e) n x
      → Then P x
  held-Then P n none k h = tt
  held-Then P n (some (f, r)) k h = k f r h

  -- At every point of a session, after any number of its rounds, and at its end: it confirmed the
  -- running image, by which a rollback is cancelled, at most once, and only when among the frames that it
  -- received was a reply with its join's reference and the status ok. It counts as joined only if it
  -- came to confirm the image. An installation may have any fuel; one that uses it up is left open.
  pub session_within-ConfirmedWell :
      (rounds fuel : ℕ) (a : Agent Val W)
      → Then (λ _ r. RunWell e.js r) (session_within e rounds fuel a)
  session_within-ConfirmedWell rounds fuel a =
      held-Then _ a.device.restarts _ well (session_within-Held e rounds fuel a)
    where
      well :
          (f : Flow) (r : Run Val W)
          → FlowHeld e.js (asked e) (windowed e) a.device.restarts (f, r)
          → RunWell e.js r
      well going r h = h.well
      well (ended o) r h = h.well

  -- While a session goes on, after any number of its rounds, it has not restarted the device. When it has
  -- ended: if it says that the device is rebooting, the device was restarted once in it, be it for an
  -- update, by an operator or from the terminal; otherwise it was not restarted. An installation may
  -- have any fuel; one that uses it up is left open.
  pub session_within-restarts_after :
      (rounds fuel : ℕ) (a : Agent Val W)
      → Then
          (λ f r. r.agent.device.restarts ≡ restarts_after f a.device.restarts)
          (session_within e rounds fuel a)
  session_within-restarts_after rounds fuel a =
      held-Then _ a.device.restarts _ restarted (session_within-Held e rounds fuel a)
    where
      restarted :
          (f : Flow) (r : Run Val W)
          → FlowHeld e.js (asked e) (windowed e) a.device.restarts (f, r)
          → r.agent.device.restarts ≡ restarts_after f a.device.restarts
      restarted going r h = h.restarted
      restarted (ended o) r h = h.restarted

  -- A session that its caller cannot ask to end says that it is finished only if it has a window and
  -- its join was accepted: among the frames that it received is a reply with its join's reference and
  -- the status ok.
  pub session_within-FinishedWell :
      (rounds fuel : ℕ) (a : Agent Val W)
      → asked e ≡ false
      → Then (FinishedWell e.js (windowed e)) (session_within e rounds fuel a)
  session_within-FinishedWell rounds fuel a unasked =
      held-Then _ a.device.restarts _ finish (session_within-Held e rounds fuel a)
    where
      finish :
          (f : Flow) (r : Run Val W)
          → FlowHeld e.js (asked e) (windowed e) a.device.restarts (f, r)
          → FinishedWell e.js (windowed e) f r
      finish going r h = tt
      finish (ended (ok (some finished))) r h = h.after_all refl unasked
      finish (ended (ok (some rebooting))) r h = tt
      finish (ended (ok none)) r h = tt
      finish (ended (err error)) r h = tt
