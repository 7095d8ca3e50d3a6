-- ===== src/Agent/Sessions/Examples.antt =====
-- Sessions of src/agent.rs: one up to an operator's restart, one that lingers, and one with an update.
use nerves_hub_link_esp.Base.{
  ℕ, ◌≡◌, refl, Bool, true, false, Option, none, some, List, [], ◌∷◌, String, ◌⊎◌, inl, inr, zero,
  suc, subst, arith, sym, ap, ◌∙◌,
}
use nerves_hub_link_esp.Agent.Examples.{applies, an_update}
use nerves_hub_link_esp.Agent.Updates.Returns.{Fits}
use nerves_hub_link_esp.Agent.Terminal.{session_of}
use nerves_hub_link_esp.Frame.{Frame}
use nerves_hub_link_esp.Link.Handling.{handle}
use nerves_hub_link_esp.Link.Offers.{Carries, Allowed, handle-Allowed}
use nerves_hub_link_esp.Message.{Message, decode_frame}
use nerves_hub_link_esp.Update.{UpdatePayload}
use nerves_hub_link_esp.Agent.Commands.{with_console}
use nerves_hub_link_esp.Agent.Sessions.Scenes.{env_with, an_agent}
use nerves_hub_link_esp.Agent.Sessions.{finished, Run, Flow, ended, Env}
use nerves_hub_link_esp.Agent.Sessions.Ends.{
  Then, FinishedWell, session_within-ConfirmedWell, session_within-restarts_after,
  session_within-FinishedWell,
}
use nerves_hub_link_esp.Agent.Sessions.Held.{RunWell, restarts_after}
use nerves_hub_link_esp.Agent.Sessions.Rounds.{session_within}
use nerves_hub_link_esp.Error.{Result, ok, err}
use nerves_hub_link_esp.Json.Samples.{
  Plain, nothing, flag, count, words, items, fields, end, field, plain,
}

abbrev final : Option (Flow × Run Plain ℕ) → Run Plain ℕ → Run Plain ℕ
final none r = r
final (some (f, r)) d = r

abbrev a_run : Run Plain ℕ
a_run = record {
  agent = an_agent;
  joined = false;
  confirmed = false;
  extensions_joined = false;
  console_joined = false;
  health_answered = false;
  joined_at = none;
  started = 0;
  heard = [];
  confirmations = 0;
}

-- An operator's restart, which is the second frame.
abbrev rebooted_run : Run Plain ℕ
rebooted_run = final (session_within (env_with 5) 3 9 an_agent) a_run

restarted_once : rebooted_run.agent.device.restarts ≡ 1
unfolding session_within with_console
restarted_once = refl

confirmed_once : rebooted_run.confirmations ≡ 1
unfolding session_within with_console
confirmed_once = refl

session_within-restarts_after_example :
    Then
      (λ f r. r.agent.device.restarts ≡ restarts_after f 0)
      (session_within (env_with 5) 3 9 an_agent)
session_within-restarts_after_example = session_within-restarts_after (env_with 5) 3 9 an_agent

session_within-ConfirmedWell_example :
    Then (λ _ r. RunWell plain r) (session_within (env_with 5) 3 9 an_agent)
session_within-ConfirmedWell_example = session_within-ConfirmedWell (env_with 5) 3 9 an_agent

-- With nothing else to do, the session lingers and ends.
is_finished : Option (Flow × Run Plain ℕ) → Bool
is_finished (some (ended (ok (some finished)), r)) = true
is_finished _ = false

finishes : is_finished (session_within (env_with 2) 9 9 an_agent) ≡ true
unfolding is_finished session_within with_console
finishes = refl

session_within-FinishedWell_example :
    Then (FinishedWell plain true) (session_within (env_with 2) 9 9 an_agent)
session_within-FinishedWell_example = session_within-FinishedWell (env_with 2) 9 9 an_agent refl

-- The platform's answer to the join offers an update. A payload that is null would be one of unknown size,
-- and no frame carries it.
abbrev read_offer : Plain → String ⊎ UpdatePayload
read_offer (fields end) = inr an_update
read_offer nothing = inr (record an_update { size = none })
read_offer _ = inl "not an update"

abbrev offering : Env Plain ℕ (List ℕ) ℕ
offering = record (env_with 2) { js = record plain { read_update = read_offer } }

an_update-Fits :
    (u : UpdatePayload) → ◌≡◌ {A = String ⊎ UpdatePayload} (inr an_update) (inr u) → Fits 9 u
an_update-Fits u e = subst (Fits 9) same fits
  where
    same : an_update ≡ u
    same = cc

    fits : Fits 9 an_update
    fits = record { total = 3; sized = refl; in_u64 = omega arith; enough = omega arith }

-- A payload that is not null, and read as an update, is the one offered.
read_offer-Fits :
    (v : Plain) (u : UpdatePayload) → (v ≡ nothing → ⊥) → read_offer v ≡ inr u → Fits 9 u
read_offer-Fits (fields end) u k e = an_update-Fits u e
read_offer-Fits (fields (field key v fs)) u k e = absurd cc
read_offer-Fits nothing u k e = absurd (k refl)
read_offer-Fits (flag b) u k e = absurd cc
read_offer-Fits (count n) u k e = absurd cc
read_offer-Fits (words t) u k e = absurd cc
read_offer-Fits (items vs) u k e = absurd cc

abbrev is_null : Plain → Bool
is_null nothing = true
is_null _ = false

abbrev null_response : Option Plain → Bool
null_response none = false
null_response (some v) = is_null v

abbrev payload_of : Result (Message Plain) → Plain
payload_of (ok m) = m.payload
payload_of (err e) = nothing

-- No frame whose payload is not null, nor its response, carries null.
carried-not_null :
    (f : Frame) (v : Plain)
    → is_null (payload_of (decode_frame offering.js f)) ≡ false
    → null_response (plain.get (payload_of (decode_frame offering.js f)) "response") ≡ false
    → Carries offering.js offering.wire applies f v
    → v ≡ nothing
    → ⊥
carried-not_null f v first second k n = elim k.within [
  | inl q ↦
      let e : false ≡ true =
        sym first ∙ ap (λ r. is_null (payload_of r)) k.decoded ∙ ap is_null (q ∙ n) in
      cc
  | inr q ↦
      let e : false ≡ true =
        sym second
        ∙ ap (λ r. null_response (plain.get (payload_of r) "response")) k.decoded
        ∙ ap null_response q
        ∙ ap is_null n in
      cc
]

sizes :
    (w : ℕ) (f : Frame) (v : Plain) (u : UpdatePayload)
    → (offering.wire.recv_frame w).0 ≡ ok (some f)
    → Carries offering.js offering.wire applies f v
    → read_offer v ≡ inr u
    → Fits 9 u
unfolding decode_frame
sizes zero f v u came k e =
    read_offer-Fits v u (carried-not_null (Frame.text (1 ∷ [])) v test1 test2 (same k)) e
  where
    test1 : is_null (payload_of (decode_frame offering.js (Frame.text (1 ∷ [])))) ≡ false
    test1 = refl

    test2 :
        null_response
          (plain.get (payload_of (decode_frame offering.js (Frame.text (1 ∷ [])))) "response")
        ≡ false
    test2 = refl

    frame_of : Frame.text (1 ∷ []) ≡ f
    frame_of = cc

    same :
        Carries offering.js offering.wire applies f v
        → Carries offering.js offering.wire applies (Frame.text (1 ∷ [])) v
    same k = subst (λ g. Carries offering.js offering.wire applies g v) (sym frame_of) k
sizes (suc zero) f v u came k e =
    read_offer-Fits v u (carried-not_null (Frame.text (2 ∷ [])) v test1 test2 (same k)) e
  where
    test1 : is_null (payload_of (decode_frame offering.js (Frame.text (2 ∷ [])))) ≡ false
    test1 = refl

    test2 :
        null_response
          (plain.get (payload_of (decode_frame offering.js (Frame.text (2 ∷ [])))) "response")
        ≡ false
    test2 = refl

    frame_of : Frame.text (2 ∷ []) ≡ f
    frame_of = cc

    same :
        Carries offering.js offering.wire applies f v
        → Carries offering.js offering.wire applies (Frame.text (2 ∷ [])) v
    same k = subst (λ g. Carries offering.js offering.wire applies g v) (sym frame_of) k
sizes (suc (suc w)) f v u came k e = absurd cc

handle-Allowed_example :
    Allowed offering.js offering.wire applies
      (Frame.text (1 ∷ []))
      (handle offering.js offering.wire applies (Frame.text (1 ∷ [])) (session_of an_agent))
handle-Allowed_example =
    handle-Allowed offering.js offering.wire applies (Frame.text (1 ∷ [])) (session_of an_agent)
