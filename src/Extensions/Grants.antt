-- ===== src/Extensions/Grants.antt =====
-- What src/extensions.rs does for an extension, it does only while the platform has it attached.
use nerves_hub_link_esp.Base.{
  String, Bool, true, false, ◌&&◌, ◌≡◌, refl, sym, ap, ◌∙◌, none, List, [], ◌∷◌, any, str_eq,
  and_true, if_intro,
}
use nerves_hub_link_esp.Extensions.{
  Enabled, Outgoing, need_location, need_health, Extensions, geo, health, logging, new, is_attached,
  disconnected, on_event, on_invitation, strings_or_none, on_join_reply, logging_batched,
}
use nerves_hub_link_esp.Extensions.Logs.{is_empty, logs, log_batch}
use nerves_hub_link_esp.Json.{Json}
use nerves_hub_link_esp.Logging.Lines.{LogLine}

-- What the link makes the channel go through.
pub data Event (Val : Type 0) : Type 0 where
  invitation : Val → Event Val
  join_reply : Val → Event Val
  lost : Event Val

unfoldable pub has : List String → String → Bool
has keys key = any (λ k. str_eq k key) keys

unfoldable pub is_location : {Val : Type 0} → Outgoing Val → Bool
is_location need_location = true
is_location _ = false

unfoldable pub is_health : {Val : Type 0} → Outgoing Val → Bool
is_health need_health = true
is_health _ = false

module _ {Val : Type 0} (js : Json Val) where
  unfoldable pub use_event : Event Val → Extensions Val → Extensions Val
  unfolding on_invitation on_join_reply disconnected
  use_event (invitation payload) e = on_invitation js e payload
  use_event (join_reply response) e = (on_join_reply js e response).0
  use_event lost e = disconnected e

  unfoldable pub use_events : List (Event Val) → Extensions Val → Extensions Val
  unfolding use_event
  use_events [] e = e
  use_events (v ∷ vs) e = use_events vs (use_event v e)

  -- The texts listed by the last reply to a join, if the channel was not lost since.
  unfoldable pub granted : List String → List (Event Val) → List String
  unfolding strings_or_none
  granted keys [] = keys
  granted keys (invitation payload ∷ vs) = granted keys vs
  granted keys (join_reply response ∷ vs) = granted (strings_or_none js (js.as_array response)) vs
  granted keys (lost ∷ vs) = granted [] vs

  -- Nothing is done for an extension that is not among the granted.
  pub record Confined (keys : List String) (e : Extensions Val) : Type 0 where
    pub attached : e.attached ≡ keys
    pub locations :
        (event : String) → any is_location (on_event e event) ≡ true → has keys geo ≡ true
    pub reports :
        (event : String) → any is_health (on_event e event) ≡ true → has keys health ≡ true
    pub lines : (ls : List LogLine) → has keys logging ≡ false → logs js e ls ≡ []
    pub batches : (ls : List LogLine) → has keys logging ≡ false → log_batch js e ls ≡ none

  use_events-attached :
      (vs : List (Event Val)) (e : Extensions Val)
      → (use_events vs e).attached ≡ granted e.attached vs
  unfolding use_events use_event granted on_invitation on_join_reply disconnected
  use_events-attached [] e = refl
  use_events-attached (invitation payload ∷ vs) e = use_events-attached vs _
  use_events-attached (join_reply response ∷ vs) e = use_events-attached vs _
  use_events-attached (lost ∷ vs) e = use_events-attached vs _

  locations_asked :
      (e : Extensions Val) (event : String)
      → any is_location (on_event e event) ≡ true
      → is_attached e geo ≡ true
  unfolding on_event is_location
  locations_asked e event =
      if_intro {A = List (Outgoing Val)}
        (λ out. any is_location out ≡ true → is_attached e geo ≡ true)
        (str_eq event "geo:location:request" && is_attached e geo) _ _
        (λ asked _. (and_true _ _ asked).1)
        (λ _.
          if_intro {A = List (Outgoing Val)}
            (λ out. any is_location out ≡ true → is_attached e geo ≡ true)
            (str_eq event "health:check" && is_attached e health) _ _ (λ _ k. absurd cc)
            (λ _ k. absurd cc))

  reports_asked :
      (e : Extensions Val) (event : String)
      → any is_health (on_event e event) ≡ true
      → is_attached e health ≡ true
  unfolding on_event is_health
  reports_asked e event =
      if_intro {A = List (Outgoing Val)}
        (λ out. any is_health out ≡ true → is_attached e health ≡ true)
        (str_eq event "geo:location:request" && is_attached e geo) _ _ (λ _ k. absurd cc)
        (λ _.
          if_intro {A = List (Outgoing Val)}
            (λ out. any is_health out ≡ true → is_attached e health ≡ true)
            (str_eq event "health:check" && is_attached e health) _ _
            (λ asked _. (and_true _ _ asked).1) (λ _ k. absurd cc))

  lines_sent :
      (e : Extensions Val) (ls : List LogLine) → is_attached e logging ≡ false → logs js e ls ≡ []
  unfolding logs is_empty
  lines_sent e [] k = refl
  lines_sent e (l ∷ ls) k = rw k refl

  batches_sent :
      (e : Extensions Val) (ls : List LogLine)
      → is_attached e logging ≡ false
      → log_batch js e ls ≡ none
  unfolding log_batch is_empty logging_batched
  batches_sent e [] k = refl
  batches_sent e (l ∷ ls) k = rw k refl

  attached-Confined :
      (keys : List String) (e : Extensions Val) → e.attached ≡ keys → Confined keys e
  unfolding has is_attached
  attached-Confined keys e same =
      let at : (key : String) → has keys key ≡ is_attached e key =
        λ key. ap (λ ks. any (λ k. str_eq k key) ks) (sym same) in
      record {
        attached = same;
        locations = λ event k. at geo ∙ locations_asked e event k;
        reports = λ event k. at health ∙ reports_asked e event k;
        lines = λ ls k. lines_sent e ls (sym (at logging) ∙ k);
        batches = λ ls k. batches_sent e ls (sym (at logging) ∙ k);
      }

  -- After any invitations, replies and losses of the channel, what is attached is what the last reply
  -- listed if the channel was not lost since, and nothing otherwise: no location is looked up, no
  -- health reported and no log line sent for an extension that is not in it, whatever the device
  -- offered.
  pub use_events-Confined :
      (enabled : Enabled) (vs : List (Event Val))
      → Confined (granted [] vs) (use_events vs (new enabled))
  unfolding new
  use_events-Confined enabled vs = attached-Confined _ _ (use_events-attached vs (new enabled))
