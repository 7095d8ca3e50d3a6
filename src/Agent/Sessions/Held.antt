-- ===== src/Agent/Sessions/Held.antt =====
-- What a session of src/agent.rs keeps true from round to round: when it has confirmed the running
-- image, and how often it has restarted the device.
use nerves_hub_link_esp.Base.{
  ℕ, suc, ◌≤◌, ◌<◌, Bool, true, false, ◌≡◌, refl, sym, ◌∙◌, is_some, Option, some, List,
}
use nerves_hub_link_esp.Agent.Sessions.{
  Stopped, rebooting, finished, Run, Flow, going, ended, link_of, in_session, and_part, sending,
}
use nerves_hub_link_esp.Error.{Result, ok, err}
use nerves_hub_link_esp.Frame.{Frame}
use nerves_hub_link_esp.Json.{Json}
use nerves_hub_link_esp.Link.{Link, Session}
use nerves_hub_link_esp.Link.Joining.{IsAccepted, at_same}
use nerves_hub_link_esp.Link.Quiet.{SameJoin}

-- How a session ended, and what that says of the restarts.
abbrev pub restarts_by : Result (Option Stopped) → ℕ → ℕ
restarts_by (ok (some rebooting)) n = suc n
restarts_by _ n = n

-- The same of a session that may go on.
abbrev pub restarts_after : Flow → ℕ → ℕ
restarts_after going n = n
restarts_after (ended o) n = restarts_by o n

module _ {Val : Type 0} (js : Json Val) where
  -- The running image was confirmed once at most, and then the join had been accepted; the session
  -- counts as joined only if it was.
  pub record ConfirmedWell (count : ℕ) (counted : Bool) (l : Link Val) (heard : List Frame)
      : Type 0 where
    pub once : count ≤ 1
    pub after_join : 0 < count → IsAccepted js l heard
    pub joined_too : counted ≡ true → 0 < count

  -- While a session goes on.
  pub record HeldBy (n restarts count : ℕ) (at : Option ℕ) (counted confirmed : Bool) (l : Link Val)
      (heard : List Frame) : Type 0 where
    pub restarted : restarts ≡ n
    pub accepted : l.joined ≡ true → IsAccepted js l heard
    pub not_yet : confirmed ≡ false → count ≡ 0
    pub timed : is_some at ≡ true → 0 < count
    pub well : ConfirmedWell count counted l heard

  -- With the same join.
  pub ConfirmedWell-in :
      {count : ℕ} {counted : Bool} {l l' : Link Val} {heard : List Frame}
      → SameJoin l l'
      → ConfirmedWell count counted l heard
      → ConfirmedWell count counted l' heard
  ConfirmedWell-in k w = record {
    once = w.once;
    after_join = λ c. at_same js k.same_ref (w.after_join c);
    joined_too = w.joined_too;
  }

module _ {Val W : Type 0} (js : Json Val) where
  abbrev pub RunWell : Run Val W → Type 0
  RunWell r = ConfirmedWell js r.confirmations r.joined (link_of r) r.heard

  abbrev pub Held : ℕ → Run Val W → Type 0
  Held n r =
      HeldBy js n r.agent.device.restarts r.confirmations r.joined_at r.joined r.confirmed
        (link_of r) r.heard

  pub Held-in :
      (n : ℕ) (r : Run Val W) (s : Session Val W)
      → SameJoin (link_of r) s.link
      → Held n r
      → Held n (in_session r s)
  Held-in n r s k h = record {
    restarted = h.restarted;
    accepted = λ j. at_same js k.same_ref (h.accepted (sym k.same_joined ∙ j));
    not_yet = h.not_yet;
    timed = h.timed;
    well = ConfirmedWell-in js k h.well;
  }

-- `asked` if the session's caller can ask it to end, `windowed` if it has a window.
module _ {Val W : Type 0} (js : Json Val) (asked windowed : Bool) where
  pub record HeldEnd (n : ℕ) (o : Result (Option Stopped)) (r : Run Val W) : Type 0 where
    pub restarted : r.agent.device.restarts ≡ restarts_by o n
    pub well : RunWell js r
    pub after_all :
        o ≡ ok (some finished)
        → asked ≡ false
        → (windowed ≡ true) × IsAccepted js (link_of r) r.heard

  abbrev pub FlowHeld : ℕ → Flow × Run Val W → Type 0
  FlowHeld n (going, r) = Held js n r
  FlowHeld n (ended o, r) = HeldEnd n o r

  -- An end that is not a restart.
  pub Held-end :
      (n : ℕ) (r : Run Val W) (o : Result (Option Stopped))
      → restarts_by o n ≡ n
      → (o ≡ ok (some finished)
          → asked ≡ false
          → (windowed ≡ true) × IsAccepted js (link_of r) r.heard)
      → Held js n r
      → HeldEnd n o r
  Held-end n r o e a h = record { restarted = h.restarted ∙ sym e; well = h.well; after_all = a }

  pub and_part-Held :
      (n : ℕ) (x : Flow × Run Val W) (f : Run Val W → Flow × Run Val W)
      → FlowHeld n x
      → ((r : Run Val W) → Held js n r → FlowHeld n (f r))
      → FlowHeld n (and_part x f)
  unfolding and_part
  and_part-Held n (going, r) f h k = k r h
  and_part-Held n (ended o, r) f h k = h

  pub sending-Held :
      (n : ℕ) (r : Run Val W) (x : Result (Unit {0}) × Session Val W) (f : Run Val W → Run Val W)
      → SameJoin (link_of r) x.1.link
      → Held js n r
      → ((q : Run Val W) → Held js n q → Held js n (f q))
      → FlowHeld n (sending r x f)
  unfolding sending
  sending-Held n r (ok u, s) f k h g = g (in_session r s) (Held-in js n r s k h)
  sending-Held n r (err e, s) f k h g =
      Held-end n (in_session r s) (err e) refl (λ f. absurd cc) (Held-in js n r s k h)
