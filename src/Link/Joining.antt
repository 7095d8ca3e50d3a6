-- ===== src/Link/Joining.antt =====
-- When a link of src/link.rs takes itself to be joined.
use nerves_hub_link_esp.Base.{
  String, true, false, ◌≡◌, refl, sym, ap, ◌∙◌, Option, none, some, List, [], ◌∷◌, str_eq,
  unwrap_or, and_true, eq_iff,
}
use nerves_hub_link_esp.Error.{ok}
use nerves_hub_link_esp.Frame.{Frame}
use nerves_hub_link_esp.Json.{Json}
use nerves_hub_link_esp.Link.{
  Transport, UpdateHandler, Link, Session, set_downloading, want_console,
}
use nerves_hub_link_esp.Link.Changes.{Change, own, by_message, own_change, Moved, move-Moved}
use nerves_hub_link_esp.Link.Handling.{invite, close}
use nerves_hub_link_esp.Link.Moves.{
  Move, join, heartbeat, join_console, join_extensions, wants_console, downloads, receive, use_all,
}
use nerves_hub_link_esp.Link.Turns.{Turn, idle, accepted, attached, answered, invited, closed}
use nerves_hub_link_esp.Message.{Message, decode_frame, same_ref, is_ok_reply_to, str_at}
use nerves_hub_link_esp.Message.References.{same_ref-same}

module _ {Val : Type 0} (js : Json Val) where
  -- Among frames, the newest first, is a reply with a reference whose status is ok.
  pub data Accepted (reference : String) : List Frame → Type 0 where
    now :
        {f : Frame} {fs : List Frame} (m : Message Val)
        → decode_frame js f ≡ ok m
        → m.event ≡ "phx_reply"
        → m.reference ≡ some reference
        → str_at js m.payload "status" ≡ some "ok"
        → Accepted reference (f ∷ fs)
    before : {f : Frame} {fs : List Frame} → Accepted reference fs → Accepted reference (f ∷ fs)

-- The frames received since the last join, the newest first, after one more operation.
unfoldable pub hear : {Val : Type 0} → List Frame → Move Val → List Frame
hear fs (join boot) = []
hear fs (receive f) = f ∷ fs
hear fs _ = fs

unfoldable pub heard : {Val : Type 0} → List Frame → List (Move Val) → List Frame
unfolding hear
heard fs [] = fs
heard fs (m ∷ ms) = heard (hear fs m) ms

module _ {Val : Type 0} (js : Json Val) where
  -- A joined link has the reference of its join, and an ok reply to it was heard.
  pub data IsAccepted (l : Link Val) (fs : List Frame) : Type 0 where
    accepted_by :
        (reference : String)
        → l.join_ref ≡ some reference
        → Accepted js reference fs
        → IsAccepted l fs

  -- With a frame heard since, and the same join.
  pub later :
      {f : Frame} {fs : List Frame} {l l' : Link Val}
      → l'.join_ref ≡ l.join_ref
      → IsAccepted l fs
      → IsAccepted l' (f ∷ fs)
  later same (accepted_by r e a) = accepted_by r (same ∙ e) (before a)

  pub at_same :
      {fs : List Frame} {l l' : Link Val}
      → l'.join_ref ≡ l.join_ref
      → IsAccepted l fs
      → IsAccepted l' fs
  at_same same (accepted_by r e a) = accepted_by r (same ∙ e) a

  -- The reply that is taken for an accepted join.
  reply-IsAccepted :
      {f : Frame} {fs : List Frame} (m : Message Val) (join_ref : Option String) (l : Link Val)
      → l.join_ref ≡ join_ref
      → decode_frame js f ≡ ok m
      → str_eq m.event "phx_reply" ≡ true
      → same_ref join_ref m.reference ≡ true
      → is_ok_reply_to js m (unwrap_or join_ref "") ≡ true
      → IsAccepted l (f ∷ fs)
  unfolding is_ok_reply_to
  reply-IsAccepted m (some r) l at_join e reply same well =
      let (_, status_ok) = and_true _ _ well in
      accepted_by r at_join (
        now m e ((eq_iff _ _).0 reply) (sym (same_ref-same _ _ same)) (same_ref-same _ _ status_ok))
  reply-IsAccepted m none l at_join e reply same well =
      let (both, _) = and_true _ _ well in
      let (_, to_empty) = and_true _ _ both in
      absurd (no_reference (same_ref-same _ _ same) (same_ref-same _ _ to_empty))
    where
      no_reference : {r : Option String} → none ≡ r → r ≡ some "" → ⊥
      no_reference e k = cc

  Turn-IsAccepted :
      {f : Frame} {fs : List Frame} {m : Message Val} {l l' : Link Val}
      → decode_frame js f ≡ ok m
      → (l.joined ≡ true → IsAccepted l fs)
      → Turn js m l l'
      → l'.joined ≡ true
      → IsAccepted l' (f ∷ fs)
  unfolding invite close
  Turn-IsAccepted e k idle j = later refl (k j)
  Turn-IsAccepted {m} {l} e k (accepted reply same well) j =
      reply-IsAccepted m l.join_ref _ refl e reply same well
  Turn-IsAccepted e k (attached _) j = later refl (k j)
  Turn-IsAccepted e k (answered _ _) j = later refl (k j)
  Turn-IsAccepted e k invited j = later refl (k j)
  Turn-IsAccepted e k closed j = absurd cc

  own-IsAccepted :
      {fs : List Frame} (mv : Move Val) (l : Link Val)
      → (l.joined ≡ true → IsAccepted l fs)
      → (own_change mv l).joined ≡ true
      → IsAccepted (own_change mv l) (hear fs mv)
  unfolding own_change hear set_downloading want_console
  own-IsAccepted (join _) l k j = absurd cc
  own-IsAccepted (receive _) l k j = later refl (k j)
  own-IsAccepted heartbeat l k j = at_same refl (k j)
  own-IsAccepted join_console l k j = at_same refl (k j)
  own-IsAccepted join_extensions l k j = at_same refl (k j)
  own-IsAccepted wants_console l k j = at_same refl (k j)
  own-IsAccepted (downloads _) l k j = at_same refl (k j)
  own-IsAccepted _ l k j = k j

  Change-IsAccepted :
      {fs : List Frame} {mv : Move Val} {l l' : Link Val}
      → Change js mv l l'
      → (l.joined ≡ true → IsAccepted l fs)
      → l'.joined ≡ true
      → IsAccepted l' (hear fs mv)
  unfolding hear
  Change-IsAccepted (own {mv} {l}) k j = own-IsAccepted mv l k j
  Change-IsAccepted (by_message m e turn) k j = Turn-IsAccepted e k turn j

module _ {Val W : Type 0} (js : Json Val) where
  pub Moved-IsAccepted :
      {fs : List Frame} {mv : Move Val} {s s' : Session Val W}
      → Moved js mv s s'
      → (s.link.joined ≡ true → IsAccepted js s.link fs)
      → s'.link.joined ≡ true
      → IsAccepted js s'.link (hear fs mv)
  Moved-IsAccepted moved k j =
      let kept = moved.sends.kept in
      at_same js (ap {A = Link Val} (λ l. l.join_ref) kept)
        (Change-IsAccepted js moved.change k (sym (ap {A = Link Val} (λ l. l.joined) kept) ∙ j))

module _ {Val W : Type 0} (js : Json Val) (t : Transport W) (h : UpdateHandler W) where
  heard-IsAccepted :
      (ms : List (Move Val)) {fs : List Frame} (s : Session Val W)
      → (s.link.joined ≡ true → IsAccepted js s.link fs)
      → (use_all js t h ms s).link.joined ≡ true
      → IsAccepted js (use_all js t h ms s).link (heard fs ms)
  unfolding use_all heard
  heard-IsAccepted [] s k j = k j
  heard-IsAccepted (m ∷ ms) s k j =
      heard-IsAccepted ms _ (Moved-IsAccepted js (move-Moved js t h m s) k) j

  -- A link that starts unjoined and is joined after any operations, in any order, has the reference
  -- of its last join, and among the frames received since that join is a reply with that reference
  -- and the status ok.
  pub use_all-IsAccepted :
      (ms : List (Move Val)) (s : Session Val W)
      → s.link.joined ≡ false
      → (use_all js t h ms s).link.joined ≡ true
      → IsAccepted js (use_all js t h ms s).link (heard [] ms)
  use_all-IsAccepted ms s out j = heard-IsAccepted ms s (λ joined. absurd cc) j
