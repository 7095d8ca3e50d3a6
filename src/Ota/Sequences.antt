-- ===== src/Ota/Sequences.antt =====
-- Whatever is done with the writer of src/ota.rs, ESP-IDF's calls are made in an allowed order.
use nerves_hub_link_esp.Base.{
  ℕ, ◌≡◌, refl, Bool, true, false, some, List, [], ◌∷◌, ◌==◌, if◌then◌else◌, inl, inr, arith,
}
use nerves_hub_link_esp.Error.{Result, ok, err}
use nerves_hub_link_esp.Ota.{
  Slot, unopened, open_slot, finished, Mode, undecided, image, patch, OtaWriter, OtaCall, boot_set,
  wrote_to, aborted_slot, patch_fed, patch_finalized, patch_released, ended, EspOta, Device, Step,
  check, resume, then_do, count_chunk, feed_chunk, write, finalize, set_boot, boot_with, end_slot,
  commit, drop_patch, drop_slot, abort,
}
use nerves_hub_link_esp.Ota.Handles.{
  writing, patching, finalized, over, ended_well, follow, replay, phase_of, Allowed, Settled,
  Agrees, Good, writer_of, called, same_phase, then_do-Good, open_if_unopened-Good, decide-Good,
}

module _ {W : Type 0} (esp : EspOta W) where
  feed_chunk-Good :
      (slot : Slot) (n : ℕ) (mode : Mode) (chunk : List ℕ) (d : Device W)
      → Agrees (writer_of slot n mode) d.calls
      → Good (feed_chunk esp (writer_of slot n mode) mode slot chunk d)
  unfolding feed_chunk count_chunk phase_of Allowed Settled
  feed_chunk-Good (open_slot h) n (patch p m) chunk d a = record {
    agrees = record {
      allowed =
          called d.calls (patch_fed p) a.allowed (unfold follow in same_phase p (patching h p));
      settled = tt;
    };
  }
  feed_chunk-Good (open_slot h) n undecided chunk d a = record {
    agrees = record {
      allowed = called d.calls (wrote_to h) a.allowed (unfold follow in same_phase h (writing h));
      settled = tt;
    };
  }
  feed_chunk-Good (open_slot h) n image chunk d a = record {
    agrees = record {
      allowed = called d.calls (wrote_to h) a.allowed (unfold follow in same_phase h (writing h));
      settled = tt;
    };
  }
  feed_chunk-Good unopened n (patch p m) chunk d a = absurd a.settled
  feed_chunk-Good unopened n undecided chunk d a = record { agrees = a }
  feed_chunk-Good unopened n image chunk d a = record { agrees = a }
  feed_chunk-Good finished n (patch p m) chunk d a = absurd a.settled
  feed_chunk-Good finished n undecided chunk d a = record { agrees = a }
  feed_chunk-Good finished n image chunk d a = record { agrees = a }

  write-Good :
      (w : OtaWriter) (chunk : List ℕ) (d : Device W)
      → Agrees w d.calls
      → Good (write esp w chunk d)
  unfolding write
  write-Good w [] d a = record { agrees = a }
  write-Good w (b ∷ bs) d a =
      then_do-Good esp _ _
        (then_do-Good esp _ _ (open_if_unopened-Good esp w.slot w.written w.mode d a)
          (λ w1 d1 a1. decide-Good esp w1.slot w1.written w1.mode b d1 a1))
        (λ w2 d2 a2. feed_chunk-Good w2.slot w2.written w2.mode (b ∷ bs) d2 a2)

  finalize-Good :
      (slot : Slot) (n : ℕ) (mode : Mode) (d : Device W)
      → Agrees (writer_of slot n mode) d.calls
      → Good (finalize esp (writer_of slot n mode) mode d)
  unfolding finalize phase_of Allowed Settled
  finalize-Good (open_slot h) n (patch p m) d a = record {
    agrees = record {
      allowed =
          called {p = finalized h p} {q = writing h} (patch_finalized p ∷ d.calls)
            (patch_released p)
            (called {p = patching h p} {q = finalized h p} d.calls (patch_finalized p) a.allowed
              (unfold follow in same_phase p (finalized h p)))
            (unfold follow in same_phase p (writing h));
      settled = tt;
    };
  }
  finalize-Good unopened n (patch p m) d a = absurd a.settled
  finalize-Good finished n (patch p m) d a = absurd a.settled
  finalize-Good slot n undecided d a = record { agrees = a }
  finalize-Good slot n image d a = record { agrees = a }

  ended-Good :
      (h n status : ℕ) (well : Bool) (mode : Mode) (cs : List OtaCall) (env : W)
      → replay cs ≡ some (writing h)
      → Settled finished mode
      → Good (
          if well
          then boot_with esp
              (writer_of finished n mode)
              (ended h well ∷ cs)
              (esp.set_boot_partition env)
          else record {
            result = check esp status "esp_ota_end";
            writer = writer_of finished n mode;
            device = record { env = env; calls = ended h well ∷ cs };
          })
  unfolding boot_with Allowed
  ended-Good h n status true mode cs env e s = record {
    agrees = record {
      allowed = inl (
          called {p = ended_well} {q = over} (ended h true ∷ cs) boot_set
            (called {p = writing h} {q = ended_well} cs (ended h true) e
              (unfold follow in same_phase h ended_well))
            (unfold follow in refl));
      settled = s;
    };
  }
  ended-Good h n status false mode cs env e s = record {
    agrees = record {
      allowed = inl (
          called {p = writing h} {q = over} cs (ended h false) e
            (unfold follow in same_phase h over));
      settled = s;
    };
  }

  end_slot-Good :
      (slot : Slot) (n : ℕ) (mode : Mode) (d : Device W)
      → Agrees (writer_of slot n mode) d.calls
      → ((p m : ℕ) → mode ≡ patch p m → ⊥)
      → Good (end_slot esp (writer_of slot n mode) slot d)
  unfolding end_slot set_boot phase_of Allowed Settled
  end_slot-Good (open_slot h) n undecided d a no_patch =
      let (status, env) = esp.ota_end h d.env in
      ended-Good h n status (status == 0) undecided d.calls env a.allowed (unfold Settled in tt)
  end_slot-Good (open_slot h) n image d a no_patch =
      let (status, env) = esp.ota_end h d.env in
      ended-Good h n status (status == 0) image d.calls env a.allowed (unfold Settled in tt)
  end_slot-Good slot n (patch p m) d a no_patch = absurd (no_patch p m refl)
  end_slot-Good unopened n undecided d a no_patch = record {
    agrees = record { allowed = inr a.allowed; settled = tt };
  }
  end_slot-Good unopened n image d a no_patch = record {
    agrees = record { allowed = inr a.allowed; settled = tt };
  }
  end_slot-Good finished n mode d a no_patch = record { agrees = a }

  resume_at :
      (r : Result (Unit {0})) (w : OtaWriter) (d : Device W) (f : OtaWriter → Device W → Step W)
      → Agrees w d.calls
      → Good (f w d)
      → Good (resume esp r w d f)
  unfolding resume
  resume_at (ok _) w d f a g = g
  resume_at (err e) w d f a g = record { agrees = a }

  -- Once it has been finalized there is no patch.
  commit_mode-Good :
      (slot : Slot) (n : ℕ) (mode : Mode) (d : Device W)
      → Good (finalize esp (writer_of slot n mode) mode d)
      → Good (
          then_do esp
            (finalize esp (writer_of slot n mode) mode d)
            (λ w1 d1. end_slot esp w1 w1.slot d1))
  unfolding finalize then_do
  commit_mode-Good slot n (patch p m) d g =
      resume_at (check esp (esp.delta_finalize p d.env).0 "esp_delta_ota_finalize")
        (writer_of slot n image)
        (record {
          env = esp.delta_deinit p (esp.delta_finalize p d.env).1;
          calls = patch_released p ∷ patch_finalized p ∷ d.calls;
        })
        (λ w1 d1. end_slot esp w1 w1.slot d1) g.agrees
        (end_slot-Good slot n image _ g.agrees image_lem)
    where
      image_lem : (p m : ℕ) → image ≡ patch p m → ⊥
      image_lem p m e = ground arith
  commit_mode-Good slot n undecided d g =
      resume_at (ok tt) (writer_of slot n undecided) d (λ w1 d1. end_slot esp w1 w1.slot d1)
        g.agrees (end_slot-Good slot n undecided d g.agrees undecided_lem)
    where
      undecided_lem : (p m : ℕ) → undecided ≡ patch p m → ⊥
      undecided_lem p m e = ground arith
  commit_mode-Good slot n image d g =
      resume_at (ok tt) (writer_of slot n image) d (λ w1 d1. end_slot esp w1 w1.slot d1) g.agrees
        (end_slot-Good slot n image d g.agrees image_lem)
    where
      image_lem : (p m : ℕ) → image ≡ patch p m → ⊥
      image_lem p m e = ground arith

  commit-Good : (w : OtaWriter) (d : Device W) → Agrees w d.calls → Good (commit esp w d)
  unfolding commit
  commit-Good w d a =
      commit_mode-Good w.slot w.written w.mode d (finalize-Good w.slot w.written w.mode d a)

  drop_slot-Good :
      (slot : Slot) (n : ℕ) (mode : Mode) (d : Device W)
      → Agrees (writer_of slot n mode) d.calls
      → ((p m : ℕ) → mode ≡ patch p m → ⊥)
      → Good (drop_slot esp (writer_of slot n mode) slot d)
  unfolding drop_slot phase_of Allowed Settled
  drop_slot-Good slot n (patch p m) d a no_patch = absurd (no_patch p m refl)
  drop_slot-Good (open_slot h) n undecided d a no_patch = record {
    agrees = record {
      allowed = inl (
          called {p = writing h} {q = over} d.calls (aborted_slot h) a.allowed
            (unfold follow in same_phase h over));
      settled = tt;
    };
  }
  drop_slot-Good (open_slot h) n image d a no_patch = record {
    agrees = record {
      allowed = inl (
          called {p = writing h} {q = over} d.calls (aborted_slot h) a.allowed
            (unfold follow in same_phase h over));
      settled = tt;
    };
  }
  drop_slot-Good unopened n undecided d a no_patch = record {
    agrees = record { allowed = inr a.allowed; settled = tt };
  }
  drop_slot-Good unopened n image d a no_patch = record {
    agrees = record { allowed = inr a.allowed; settled = tt };
  }
  drop_slot-Good finished n undecided d a no_patch = record { agrees = a }
  drop_slot-Good finished n image d a no_patch = record { agrees = a }

  abort_mode-Good :
      (slot : Slot) (n : ℕ) (mode : Mode) (d : Device W)
      → Agrees (writer_of slot n mode) d.calls
      → Good (abort esp (writer_of slot n mode) d)
  unfolding abort drop_patch
  abort_mode-Good slot n undecided d a =
      drop_slot-Good slot n undecided d a (λ p m e. absurd (ground arith))
  abort_mode-Good slot n image d a =
      drop_slot-Good slot n image d a (λ p m e. absurd (ground arith))
  abort_mode-Good (open_slot h) n (patch p m) d a =
      drop_slot-Good (open_slot h) n image _
        (record {
          allowed =
              unfold Allowed phase_of in
              called {p = patching h p} {q = writing h} d.calls (patch_released p) a.allowed
                (unfold follow in same_phase p (writing h));
          settled = unfold Settled in tt;
        })
        (λ q k e. absurd (ground arith))
  abort_mode-Good unopened n (patch p m) d a = absurd (unfold Settled in a.settled)
  abort_mode-Good finished n (patch p m) d a = absurd (unfold Settled in a.settled)

  -- What is done with a writer.
  pub data Use : Type 0 where
    writes : List ℕ → Use
    commits aborts : Use

  unfoldable pub use_one : OtaWriter → Device W → Use → Step W
  use_one w d (writes chunk) = write esp w chunk d
  use_one w d commits = commit esp w d
  use_one w d aborts = abort esp w d

  -- One after another, whatever each gives.
  unfoldable pub use_all : OtaWriter → Device W → List Use → OtaWriter × Device W
  unfolding use_one
  use_all w d [] = (w, d)
  use_all w d (u ∷ us) = let s = use_one w d u in use_all s.writer s.device us

  use_one-Good : (w : OtaWriter) (d : Device W) (u : Use) → Agrees w d.calls → Good (use_one w d u)
  unfolding use_one
  use_one-Good w d (writes chunk) a = write-Good w chunk d a
  use_one-Good w d commits a = commit-Good w d a
  use_one-Good w d aborts a = abort_mode-Good w.slot w.written w.mode d a

  -- Whatever chunks are written to a writer and however often it is committed and aborted, in any order
  -- and whatever each of ESP-IDF's calls answers, those calls are used as they are meant to be, if they
  -- were so far (as for a new writer): a handle is used only between the call that gave it and the one
  -- that takes it back, a patch's handle goes before its slot's, the slot is opened at most once, and
  -- the boot partition is set only right after an image that ended well.
  pub use_all-Agrees :
      (w : OtaWriter) (d : Device W) (us : List Use)
      → Agrees w d.calls
      → Agrees (use_all w d us).0 (use_all w d us).1.calls
  unfolding use_all
  use_all-Agrees w d [] a = a
  use_all-Agrees w d (u ∷ us) a =
      use_all-Agrees (use_one w d u).writer (use_one w d u).device us (use_one-Good w d u a).agrees
