-- ===== src/Link/Serializers.antt =====
-- Whatever a link does (src/link.rs), it writes in the serializer that the socket's URL asked for.
use nerves_hub_link_esp.Base.{
  ◌≡◌, refl, sym, ap, subst, ◌∙◌, List, [], ◌∷◌, ◌++◌, append_assoc, append_nil,
}
use nerves_hub_link_esp.Frame.{Frame}
use nerves_hub_link_esp.Json.{Json}
use nerves_hub_link_esp.Link.{
  Transport, UpdateHandler, Link, Session, set_downloading, want_console,
}
use nerves_hub_link_esp.Link.Changes.{Change, own, by_message, own_change, Moved, move-Moved}
use nerves_hub_link_esp.Link.Handling.{invite, close}
use nerves_hub_link_esp.Link.Moves.{
  Move, join, heartbeat, join_console, join_extensions, wants_console, downloads, use_all,
}
use nerves_hub_link_esp.Link.Turns.{Turn, idle, accepted, attached, answered, invited, closed}
use nerves_hub_link_esp.Message.Frames.{Carried, Carried-append}

-- The configuration is kept, and what was sent is followed by frames of its serializer.
pub record Serialized {Val W : Type 0} (s s' : Session Val W) : Type 0 where
  pub config_kept : s'.link.config ≡ s.link.config
  pub frames : List Frame
  pub appended : s'.sent ≡ s.sent ++ frames
  pub in_kind : Carried s.link.config.serializer frames

module _ {Val : Type 0} (js : Json Val) where
  Turn-config : {m : _} {l l' : Link Val} → Turn js m l l' → l'.config ≡ l.config
  unfolding invite close
  Turn-config idle = refl
  Turn-config (accepted _ _ _) = refl
  Turn-config (attached _) = refl
  Turn-config (answered _ _) = refl
  Turn-config invited = refl
  Turn-config closed = refl

own-config : {Val : Type 0} (mv : Move Val) (l : Link Val) → (own_change mv l).config ≡ l.config
unfolding own_change set_downloading want_console
own-config (join _) l = refl
own-config heartbeat l = refl
own-config join_console l = refl
own-config join_extensions l = refl
own-config wants_console l = refl
own-config (downloads _) l = refl
own-config _ l = refl

module _ {Val : Type 0} (js : Json Val) where
  Change-config : {mv : Move Val} {l l' : Link Val} → Change js mv l l' → l'.config ≡ l.config
  Change-config (own {mv} {l}) = own-config mv l
  Change-config (by_message _ _ turn) = Turn-config js turn

module _ {Val W : Type 0} (js : Json Val) where
  Moved-Serialized : {mv : Move Val} {s s' : Session Val W} → Moved js mv s s' → Serialized s s'
  Moved-Serialized {s} k =
      let same = Change-config js k.change in
      record {
        config_kept = ap {A = Link Val} (λ l. l.config) k.sends.kept ∙ same;
        frames = k.sends.frames;
        appended = k.sends.appended;
        in_kind = subst (λ c. Carried c.serializer k.sends.frames) same k.sends.in_kind;
      }

Serialized-refl : {Val W : Type 0} (s : Session Val W) → Serialized s s
unfolding Carried
Serialized-refl s = record {
  config_kept = refl;
  frames = [];
  appended = sym (append_nil s.sent);
  in_kind = tt;
}

Serialized-trans :
    {Val W : Type 0} {s s' s'' : Session Val W}
    → Serialized s s'
    → Serialized s' s''
    → Serialized s s''
Serialized-trans {s} h k = record {
  config_kept = k.config_kept ∙ h.config_kept;
  frames = h.frames ++ k.frames;
  appended =
      k.appended ∙ ap (λ fs. fs ++ k.frames) h.appended ∙ append_assoc s.sent h.frames k.frames;
  in_kind =
      Carried-append _ h.frames k.frames h.in_kind
        (subst (λ c. Carried c.serializer k.frames) h.config_kept k.in_kind);
}

module _ {Val W : Type 0} (js : Json Val) (t : Transport W) (h : UpdateHandler W) where
  -- Whatever a link does, in any order and with any failures of the transport and the codecs: the
  -- configuration stays, no frame that was sent is taken back, and every frame sent after is of the
  -- kind of the configured serializer, text for JSON and binary for msgpack.
  pub use_all-Serialized :
      (ms : List (Move Val)) (s : Session Val W) → Serialized s (use_all js t h ms s)
  unfolding use_all
  use_all-Serialized [] s = Serialized-refl s
  use_all-Serialized (m ∷ ms) s =
      Serialized-trans (Moved-Serialized js (move-Moved js t h m s)) (use_all-Serialized ms _)
