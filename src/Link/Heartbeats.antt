-- ===== src/Link/Heartbeats.antt =====
-- When a heartbeat of src/link.rs counts as answered.
use nerves_hub_link_esp.Base.{
  String, Bool, true, false, not, ◌&&◌, ◌||◌, ◌≡◌, refl, ap, ◌∙◌, Option, none, some, List, [], ◌∷◌,
  any, is_some, str_eq, eq_iff, inl, inr, or_false, Bool-cases, if◌then◌else◌,
}
use nerves_hub_link_esp.Error.{Result, ok, err}
use nerves_hub_link_esp.Extensions.{extensions_topic}
use nerves_hub_link_esp.Json.{Json}
use nerves_hub_link_esp.Link.{
  Transport, UpdateHandler, Link, Session, and_then, with_link, set_downloading, want_console,
  heartbeat_unanswered, send_heartbeat, fresh,
}
use nerves_hub_link_esp.Link.Changes.{Change, own, by_message, own_change, Moved, move-Moved}
use nerves_hub_link_esp.Link.Handling.{
  invite, close, answers_heartbeat, handle_control_frame, handle_message, handle,
}
use nerves_hub_link_esp.Link.Moves.{Move, heartbeat, receive, move, use_all}
use nerves_hub_link_esp.Link.Sends.{write-Sends}
use nerves_hub_link_esp.Link.Turns.{
  Turn, handle_message-Turned, idle, accepted, attached, answered, invited, closed,
}
use nerves_hub_link_esp.Message.{
  Message, next_ref, decode_frame, same_ref, control_topic, console_topic,
}

unfoldable pub is_heartbeat : {Val : Type 0} → Move Val → Bool
is_heartbeat heartbeat = true
is_heartbeat _ = false

is_receive : {Val : Type 0} → Move Val → Bool
is_receive (receive f) = true
is_receive _ = false

module _ {Val : Type 0} where
  -- A reply on Phoenix's own topic, with a given reference.
  unfoldable pub is_reply_to : Option String → Message Val → Bool
  is_reply_to reference m =
      str_eq m.topic control_topic
      && ((str_eq m.event "phx_reply" && is_some m.reference) && same_ref m.reference reference)

  reads_reply_to : Option String → Result (Message Val) → Bool
  unfolding is_reply_to
  reads_reply_to reference (ok m) = is_reply_to reference m
  reads_reply_to reference (err e) = false

module _ {Val : Type 0} (js : Json Val) where
  unfoldable pub is_answer : Option String → Move Val → Bool
  unfolding reads_reply_to
  is_answer reference (receive f) = reads_reply_to reference (decode_frame js f)
  is_answer reference _ = false

  -- Only a message of that topic touches the heartbeat's reference.
  Turn-heartbeat_ref :
      {m : Message Val} {l l' : Link Val}
      → str_eq m.topic control_topic ≡ false
      → Turn js m l l'
      → l'.heartbeat_ref ≡ l.heartbeat_ref
  unfolding invite close
  Turn-heartbeat_ref e idle = refl
  Turn-heartbeat_ref e (accepted _ _ _) = refl
  Turn-heartbeat_ref e (attached _) = refl
  Turn-heartbeat_ref e (answered k _) = absurd cc
  Turn-heartbeat_ref e invited = refl
  Turn-heartbeat_ref e closed = refl

  own-heartbeat_ref :
      (mv : Move Val) (l : Link Val)
      → is_heartbeat mv ≡ false
      → (own_change mv l).heartbeat_ref ≡ l.heartbeat_ref
  unfolding own_change is_heartbeat set_downloading want_console
  own-heartbeat_ref heartbeat l e = absurd cc
  own-heartbeat_ref mv l e = refl

  Change-heartbeat_ref :
      {mv : Move Val} {l l' : Link Val}
      → is_receive mv ≡ false
      → is_heartbeat mv ≡ false
      → Change js mv l l'
      → l'.heartbeat_ref ≡ l.heartbeat_ref
  unfolding is_receive
  Change-heartbeat_ref k e (own {mv} {l}) = own-heartbeat_ref mv l e
  Change-heartbeat_ref k e (by_message _ _ _) = absurd cc

module _ {Val W : Type 0} (js : Json Val) where
  others :
      {mv : Move Val} {s s' : Session Val W}
      → is_receive mv ≡ false
      → is_heartbeat mv ≡ false
      → Moved js mv s s'
      → s'.link.heartbeat_ref ≡ s.link.heartbeat_ref
  others k e moved =
      ap {A = Link Val} (λ l. l.heartbeat_ref) moved.sends.kept
      ∙ Change-heartbeat_ref js k e moved.change

abbrev left : Option String → Bool → Option String
left reference found = if found then none else reference

left_none : (b : Bool) → left none b ≡ none
left_none true = refl
left_none false = refl

is_some-left : (r : String) (b : Bool) → is_some (left (some r) b) ≡ not b
is_some-left r true = refl
is_some-left r false = refl

left_twice :
    {Val : Type 0} (js : Json Val) (r : Option String) (ms : List (Move Val)) (b : Bool)
    → left (left r b) (any (is_answer js (left r b)) ms) ≡ left r (b || any (is_answer js r) ms)
left_twice js r ms true = left_none (any (is_answer js none) ms)
left_twice js r ms false = refl

module _ {Val W : Type 0} where
  cleared :
      (b : Bool) (s : Session Val W)
      → (if b then with_link s (record s.link { heartbeat_ref = none }) else s).link.heartbeat_ref
        ≡ left s.link.heartbeat_ref b
  cleared true s = refl
  cleared false s = refl

module _ {Val W : Type 0} (js : Json Val) (t : Transport W) (h : UpdateHandler W) where
  on_control :
      (m : Message Val) (s : Session Val W)
      → str_eq m.topic control_topic ≡ true
      → (handle_message js t h m s).1.link.heartbeat_ref
        ≡ left s.link.heartbeat_ref (is_reply_to s.link.heartbeat_ref m)
  unfolding handle_message handle_control_frame answers_heartbeat is_reply_to
  on_control m s e =
      let topic = (eq_iff _ _).0 e in
      let not_extensions : str_eq m.topic extensions_topic ≡ false =
        ap (λ k. str_eq k extensions_topic) topic in
      let not_console : str_eq m.topic console_topic ≡ false =
        ap (λ k. str_eq k console_topic) topic in
      rw not_extensions (rw not_console (rw e (cleared (answers_heartbeat s.link m) s)))

  off_control :
      (m : Message Val) (s : Session Val W)
      → str_eq m.topic control_topic ≡ false
      → (handle_message js t h m s).1.link.heartbeat_ref
        ≡ left s.link.heartbeat_ref (is_reply_to s.link.heartbeat_ref m)
  unfolding is_reply_to
  off_control m s e =
      let k = handle_message-Turned js t h m s in
      ap {A = Link Val} (λ l. l.heartbeat_ref) k.sends.kept
      ∙ Turn-heartbeat_ref js e k.turn
      ∙ rw e refl

  handled :
      (m : Message Val) (s : Session Val W)
      → (handle_message js t h m s).1.link.heartbeat_ref
        ≡ left s.link.heartbeat_ref (is_reply_to s.link.heartbeat_ref m)
  handled m s = elim (Bool-cases (str_eq m.topic control_topic)) [
    | inl e ↦ on_control m s e
    | inr e ↦ off_control m s e
  ]

  received :
      (r : Result (Message Val)) (s : Session Val W)
      → (and_then (r, s) (handle_message js t h)).1.link.heartbeat_ref
        ≡ left s.link.heartbeat_ref (reads_reply_to s.link.heartbeat_ref r)
  unfolding and_then reads_reply_to
  received (ok m) s = handled m s
  received (err e) s = refl

  moved :
      (mv : Move Val) (s : Session Val W)
      → is_heartbeat mv ≡ false
      → (move js t h mv s).link.heartbeat_ref
        ≡ left s.link.heartbeat_ref (is_answer js s.link.heartbeat_ref mv)
  unfolding move handle is_answer is_heartbeat is_receive
  moved (receive f) s e = received (decode_frame js f) s
  moved heartbeat s e = absurd cc
  moved mv s e = others js refl e (move-Moved js t h mv s)

  follow :
      (ms : List (Move Val)) (s : Session Val W)
      → any is_heartbeat ms ≡ false
      → (use_all js t h ms s).link.heartbeat_ref
        ≡ left s.link.heartbeat_ref (any (is_answer js s.link.heartbeat_ref) ms)
  unfolding use_all
  follow [] s e = refl
  follow (mv ∷ ms) s e =
      let (first, rest) = or_false _ _ e in
      follow ms _ rest
      ∙ ap (λ r. left r (any (is_answer js r) ms)) (moved mv s first)
      ∙ left_twice js s.link.heartbeat_ref ms (is_answer js s.link.heartbeat_ref mv)

  sent_heartbeat :
      (s : Session Val W)
      → (move js t h heartbeat s).link.heartbeat_ref ≡ some (next_ref s.link.refs).1
  unfolding move send_heartbeat fresh
  sent_heartbeat s = ap {A = Link Val} (λ l. l.heartbeat_ref) (write-Sends js t _ _).kept

  -- After a heartbeat is written, and any operations but another heartbeat: it is unanswered exactly
  -- if none of the frames received since is a reply with its reference on Phoenix's own topic. The
  -- status of that reply does not matter, and no other message clears it.
  pub heartbeat_unanswered-answered :
      (ms : List (Move Val)) (s : Session Val W)
      → any is_heartbeat ms ≡ false
      → heartbeat_unanswered (use_all js t h (heartbeat ∷ ms) s).link
        ≡ not (any (is_answer js (some (next_ref s.link.refs).1)) ms)
  unfolding heartbeat_unanswered use_all
  heartbeat_unanswered-answered ms s e =
      let waiting : (move js t h heartbeat s).link.heartbeat_ref ≡ some (next_ref s.link.refs).1 =
        sent_heartbeat s in
      ap is_some (follow ms _ e ∙ ap (λ r. left r (any (is_answer js r) ms)) waiting)
      ∙ is_some-left _ (any (is_answer js (some (next_ref s.link.refs).1)) ms)
