-- ===== src/Ota/Handles.antt =====
-- The handles that the writer of src/ota.rs opens and gives up.
use nerves_hub_link_esp.Base.{
  ℕ, ◌≡◌, ◌⊎◌, refl, ap, ◌∙◌, true, Option, none, some, List, [], ◌∷◌, ◌==◌, ==_iff, if_intro,
  if◌then◌else◌,
}
use nerves_hub_link_esp.Error.{Result, ok, err}
use nerves_hub_link_esp.Ota.{
  Slot, unopened, open_slot, finished, Mode, undecided, image, patch, OtaWriter, OtaCall,
  begin_failed, patch_init_failed, began, wrote_to, aborted_slot, patch_started, patch_fed,
  patch_finalized, patch_released, ended, boot_set, EspOta, Device, Step, resume, then_do,
  open_with, as_payload, Payload, open_first, open_if_unopened, patch_with, begin_patch, decide,
  classify, whole_image, a_patch,
}

-- What the calls so far allow: no handle yet; the slot's handle; that and a patch's, before and after
-- it is finalized; an image that ended well; nothing more.
pub data Phase : Type 0 where
  untouched ended_well over : Phase
  writing : ℕ → Phase
  patching finalized : ℕ → ℕ → Phase

-- The use that ESP-IDF's documentation allows: a handle is written to and fed only between the call
-- that gave it and the one call that takes it back, a patch's handle is taken back before its slot's,
-- and the boot partition is set only after an image that ended well.
unfoldable pub follow : Phase → OtaCall → Option Phase
follow untouched begin_failed = some untouched
follow untouched (began h) = some (writing h)
follow (writing h) (wrote_to k) = if h == k then some (writing h) else none
follow (writing h) (ended k well) =
    if h == k then some (if well then ended_well else over) else none
follow (writing h) (aborted_slot k) = if h == k then some over else none
follow (writing h) patch_init_failed = some (writing h)
follow (writing h) (patch_started p) = some (patching h p)
follow (patching h p) (patch_fed q) = if p == q then some (patching h p) else none
follow (patching h p) (patch_finalized q) = if p == q then some (finalized h p) else none
follow (patching h p) (patch_released q) = if p == q then some (writing h) else none
follow (finalized h p) (patch_released q) = if p == q then some (writing h) else none
follow ended_well boot_set = some over
follow _ _ = none

next : Option Phase → OtaCall → Option Phase
next none c = none
next (some p) c = follow p c

-- The phase after calls, the newest first, if each of them was allowed.
unfoldable pub replay : List OtaCall → Option Phase
unfolding next
replay [] = some untouched
replay (c ∷ cs) = next (replay cs) c

-- The phase that a writer takes itself to be in.
unfoldable pub phase_of : Slot → Mode → Phase
phase_of unopened mode = untouched
phase_of (open_slot h) (patch p n) = patching h p
phase_of (open_slot h) undecided = writing h
phase_of (open_slot h) image = writing h
phase_of finished mode = over

-- Nothing was ever opened for a writer that was given up before its first chunk.
unfoldable pub Allowed : Slot → Mode → Option Phase → Type 0
unfolding phase_of
Allowed finished mode now = (now ≡ some over) ⊎ (now ≡ some untouched)
Allowed unopened mode now = now ≡ some untouched
Allowed (open_slot h) mode now = now ≡ some (phase_of (open_slot h) mode)

-- A patch has a slot to be written to.
unfoldable pub Settled : Slot → Mode → Type 0
Settled (open_slot h) mode = Unit {0}
Settled slot undecided = Unit {0}
Settled slot image = Unit {0}
Settled slot (patch p n) = ⊥

-- A writer and the calls made so far.
pub record Agrees (w : OtaWriter) (cs : List OtaCall) : Type 0 where
  pub allowed : Allowed w.slot w.mode (replay cs)
  pub settled : Settled w.slot w.mode

==-refl : (n : ℕ) → (n == n) ≡ true
==-refl n = (==_iff n n).1 refl

pub same_phase : (h : ℕ) (p : Phase) → (if h == h then some p else none) ≡ some p
same_phase h p = rw (==-refl h) refl

module _ {W : Type 0} where
  pub record Good (s : Step W) : Type 0 where
    pub agrees : Agrees s.writer s.device.calls

abbrev pub writer_of : Slot → ℕ → Mode → OtaWriter
writer_of slot written mode = record { slot = slot; written = written; mode = mode }

-- One more call.
pub called :
    {p q : Phase} (cs : List OtaCall) (c : OtaCall)
    → replay cs ≡ some p
    → follow p c ≡ some q
    → replay (c ∷ cs) ≡ some q
unfolding replay next
called cs c e f = ap (λ r. next r c) e ∙ f

module _ {W : Type 0} (esp : EspOta W) where
  resume-Good :
      (r : Result (Unit {0})) (w : OtaWriter) (d : Device W) (f : OtaWriter → Device W → Step W)
      → Agrees w d.calls
      → ((w : OtaWriter) (d : Device W) → Agrees w d.calls → Good (f w d))
      → Good (resume esp r w d f)
  unfolding resume
  resume-Good (ok _) w d f a k = k w d a
  resume-Good (err e) w d f a k = record { agrees = a }

  pub then_do-Good :
      (s : Step W) (f : OtaWriter → Device W → Step W)
      → Good s
      → ((w : OtaWriter) (d : Device W) → Agrees w d.calls → Good (f w d))
      → Good (then_do esp s f)
  unfolding then_do
  then_do-Good s f g k = resume-Good s.result s.writer s.device f g.agrees k

  open_with-Good :
      (n : ℕ) (mode : Mode) (cs : List OtaCall) (r : ℕ × ℕ × W)
      → Agrees (writer_of unopened n mode) cs
      → Good (open_with esp (writer_of unopened n mode) cs r)
  unfolding open_with phase_of Allowed Settled
  open_with-Good n undecided cs (status, handle, env) a =
      if_intro Good (status == 0) _ _
        (λ e. record {
          agrees = record {
            allowed = called cs (began handle) a.allowed (unfold follow in refl);
            settled = tt;
          };
        })
        (λ e. record {
          agrees = record {
            allowed = called cs begin_failed a.allowed (unfold follow in refl);
            settled = tt;
          };
        })
  open_with-Good n image cs (status, handle, env) a =
      if_intro Good (status == 0) _ _
        (λ e. record {
          agrees = record {
            allowed = called cs (began handle) a.allowed (unfold follow in refl);
            settled = tt;
          };
        })
        (λ e. record {
          agrees = record {
            allowed = called cs begin_failed a.allowed (unfold follow in refl);
            settled = tt;
          };
        })
  open_with-Good n (patch p m) cs r a = absurd a.settled

  pub open_if_unopened-Good :
      (slot : Slot) (n : ℕ) (mode : Mode) (d : Device W)
      → Agrees (writer_of slot n mode) d.calls
      → Good (open_if_unopened esp (writer_of slot n mode) slot d)
  unfolding open_if_unopened open_first
  open_if_unopened-Good unopened n mode d a = open_with-Good n mode d.calls (esp.ota_begin d.env) a
  open_if_unopened-Good (open_slot h) n mode d a = record { agrees = a }
  open_if_unopened-Good finished n mode d a = record { agrees = a }

  patch_with-Good :
      (h n : ℕ) (cs : List OtaCall) (r : Option ℕ × W)
      → Agrees (writer_of (open_slot h) n undecided) cs
      → Good (patch_with esp (writer_of (open_slot h) n undecided) cs r)
  unfolding patch_with phase_of Allowed Settled
  patch_with-Good h n cs (none, env) a = record {
    agrees = record {
      allowed = called cs patch_init_failed a.allowed (unfold follow in refl);
      settled = tt;
    };
  }
  patch_with-Good h n cs (some p, env) a = record {
    agrees = record {
      allowed = called cs (patch_started p) a.allowed (unfold follow in refl);
      settled = tt;
    };
  }

  begin_patch-Good :
      (slot : Slot) (n : ℕ) (d : Device W)
      → Agrees (writer_of slot n undecided) d.calls
      → Good (begin_patch esp (writer_of slot n undecided) slot d)
  unfolding begin_patch
  begin_patch-Good unopened n d a = record { agrees = a }
  begin_patch-Good (open_slot h) n d a =
      if_intro Good (esp.has_running_partition d.env) _ _
        (λ e. patch_with-Good h n d.calls (esp.delta_init d.env) a) (λ e. record { agrees = a })
  begin_patch-Good finished n d a = record { agrees = a }

  image-Agrees :
      (slot : Slot) (n : ℕ) (cs : List OtaCall)
      → Agrees (writer_of slot n undecided) cs
      → Agrees (writer_of slot n image) cs
  unfolding phase_of Allowed Settled
  image-Agrees unopened n cs a = record { allowed = a.allowed; settled = tt }
  image-Agrees (open_slot h) n cs a = record { allowed = a.allowed; settled = tt }
  image-Agrees finished n cs a = record { allowed = a.allowed; settled = tt }

  as_payload-Good :
      (slot : Slot) (n : ℕ) (p : Payload) (d : Device W)
      → Agrees (writer_of slot n undecided) d.calls
      → Good (as_payload esp (writer_of slot n undecided) p d)
  unfolding as_payload
  as_payload-Good slot n whole_image d a = record { agrees = image-Agrees slot n d.calls a }
  as_payload-Good slot n a_patch d a = begin_patch-Good slot n d a

  pub decide-Good :
      (slot : Slot) (n : ℕ) (mode : Mode) (b : ℕ) (d : Device W)
      → Agrees (writer_of slot n mode) d.calls
      → Good (decide esp (writer_of slot n mode) mode b d)
  unfolding decide
  decide-Good slot n undecided b d a = as_payload-Good slot n (classify b) d a
  decide-Good slot n image b d a = record { agrees = a }
  decide-Good slot n (patch p m) b d a = record { agrees = a }
