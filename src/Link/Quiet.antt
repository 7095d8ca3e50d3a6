-- ===== src/Link/Quiet.antt =====
-- The operations of src/link.rs that neither join nor receive leave the join as it is.
use nerves_hub_link_esp.Base.{Bool, true, false, ◌≡◌, refl, ap, ◌∙◌}
use nerves_hub_link_esp.Frame.{Frame}
use nerves_hub_link_esp.Json.{Json}
use nerves_hub_link_esp.Link.{
  Transport, UpdateHandler, Link, Session, set_downloading, want_console, send_heartbeat,
  send_console_join, send_extensions_join, send_join,
}
use nerves_hub_link_esp.Link.Changes.{Change, own, by_message, own_change, Moved, move-Moved}
use nerves_hub_link_esp.Link.Handling.{invite, close}
use nerves_hub_link_esp.Link.Moves.{
  Move, join, heartbeat, join_console, join_extensions, wants_console, downloads, receive, move,
}
use nerves_hub_link_esp.Link.Sends.{Sends}
use nerves_hub_link_esp.Link.Turns.{Turn, idle, accepted, attached, answered, invited, closed}
use nerves_hub_link_esp.Message.{Message}
use nerves_hub_link_esp.Metadata.{BootReport}

pub record SameJoin {Val : Type 0} (l l' : Link Val) : Type 0 where
  pub same_ref : l'.join_ref ≡ l.join_ref
  pub same_joined : l'.joined ≡ l.joined

is_quiet : {Val : Type 0} → Move Val → Bool
is_quiet (join boot) = false
is_quiet (receive f) = false
is_quiet _ = true

module _ {Val : Type 0} where
  pub SameJoin-refl : (l : Link Val) → SameJoin l l
  SameJoin-refl l = record { same_ref = refl; same_joined = refl }

  pub SameJoin-trans : {k l m : Link Val} → SameJoin k l → SameJoin l m → SameJoin k m
  SameJoin-trans h k = record {
    same_ref = k.same_ref ∙ h.same_ref;
    same_joined = k.same_joined ∙ h.same_joined;
  }

  own-SameJoin : (mv : Move Val) (l : Link Val) → is_quiet mv ≡ true → SameJoin l (own_change mv l)
  unfolding own_change is_quiet set_downloading want_console
  own-SameJoin (join boot) l q = absurd cc
  own-SameJoin (receive f) l q = absurd cc
  own-SameJoin heartbeat l q = record { same_ref = refl; same_joined = refl }
  own-SameJoin join_console l q = record { same_ref = refl; same_joined = refl }
  own-SameJoin join_extensions l q = record { same_ref = refl; same_joined = refl }
  own-SameJoin wants_console l q = record { same_ref = refl; same_joined = refl }
  own-SameJoin (downloads uuid) l q = record { same_ref = refl; same_joined = refl }
  own-SameJoin _ l q = SameJoin-refl l

module _ {Val : Type 0} (js : Json Val) where
  Change-SameJoin :
      {mv : Move Val} {l l' : Link Val} → Change js mv l l' → is_quiet mv ≡ true → SameJoin l l'
  unfolding is_quiet
  Change-SameJoin (own {mv} {l}) q = own-SameJoin mv l q
  Change-SameJoin (by_message m e turn) q = absurd cc

  Turn-join_ref : {m : Message Val} {l l' : Link Val} → Turn js m l l' → l'.join_ref ≡ l.join_ref
  unfolding invite close
  Turn-join_ref idle = refl
  Turn-join_ref (accepted _ _ _) = refl
  Turn-join_ref (attached _) = refl
  Turn-join_ref (answered _ _) = refl
  Turn-join_ref invited = refl
  Turn-join_ref closed = refl

  Change-join_ref :
      {mv : Move Val} {l l' : Link Val} (f : Frame)
      → Change js mv l l'
      → mv ≡ receive f
      → l'.join_ref ≡ l.join_ref
  unfolding own_change
  Change-join_ref f (own {mv} {l}) e = ap (λ mv. (own_change mv l).join_ref) e
  Change-join_ref f (by_message m _ turn) e = Turn-join_ref turn

module _ {Val W : Type 0} where
  pub Sends-SameJoin : {s s' : Session Val W} → Sends s s' → SameJoin s.link s'.link
  Sends-SameJoin k = record {
    same_ref = ap {A = Link Val} (λ l. l.join_ref) k.kept;
    same_joined = ap {A = Link Val} (λ l. l.joined) k.kept;
  }

  Moved-SameJoin :
      (js : Json Val) (mv : Move Val) {s s' : Session Val W}
      → is_quiet mv ≡ true
      → Moved js mv s s'
      → SameJoin s.link s'.link
  Moved-SameJoin js mv q moved =
      let k = Sends-SameJoin moved.sends in
      let c = Change-SameJoin js moved.change q in
      record { same_ref = k.same_ref ∙ c.same_ref; same_joined = k.same_joined ∙ c.same_joined }

module _ {Val W : Type 0} (js : Json Val) (t : Transport W) (h : UpdateHandler W) where
  pub send_heartbeat-SameJoin : (s : Session Val W) → SameJoin s.link (send_heartbeat js t s).1.link
  send_heartbeat-SameJoin s =
      unfold move is_quiet in Moved-SameJoin js heartbeat refl (move-Moved js t h heartbeat s)

  pub send_console_join-SameJoin :
      (s : Session Val W) → SameJoin s.link (send_console_join js t s).1.link
  send_console_join-SameJoin s =
      unfold move is_quiet in Moved-SameJoin js join_console refl (move-Moved js t h join_console s)

  pub send_extensions_join-SameJoin :
      (s : Session Val W) → SameJoin s.link (send_extensions_join js t s).1.link
  send_extensions_join-SameJoin s =
      unfold move is_quiet in
      Moved-SameJoin js join_extensions refl (move-Moved js t h join_extensions s)

  pub receive-join_ref :
      (f : Frame) (s : Session Val W) → (move js t h (receive f) s).link.join_ref ≡ s.link.join_ref
  receive-join_ref f s =
      let moved = move-Moved js t h (receive f) s in
      (Sends-SameJoin moved.sends).same_ref ∙ Change-join_ref js f moved.change refl

  -- A link that has sent its join is not joined yet.
  pub send_join-joined :
      (boot : BootReport) (s : Session Val W) → (send_join js t boot s).1.link.joined ≡ false
  send_join-joined boot s = unfold move in joined_after (move-Moved js t h (join boot) s)
    where
      changed-joined :
          {mv : Move Val} {l l' : Link Val} → Change js mv l l' → mv ≡ join boot → l'.joined ≡ false
      changed-joined (own {mv} {l}) e =
          ap (λ mv. (own_change mv l).joined) e ∙ (unfold own_change in refl)
      changed-joined (by_message m _ turn) e = absurd cc

      joined_after : {s' : Session Val W} → Moved js (join boot) s s' → s'.link.joined ≡ false
      joined_after moved =
          (Sends-SameJoin moved.sends).same_joined ∙ changed-joined moved.change refl
