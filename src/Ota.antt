-- ===== src/Ota.antt =====
-- src/ota.rs: the writer of the inactive slot. ESP-IDF's calls are parameters over a world of any type;
-- they are noted, newest first. A status of 0 is ESP_OK.
pub mod Handles
pub mod Sequences
mod Examples
use nerves_hub_link_esp.Base.{
  ℕ, ◌+◌, ◌%◌, ◌^◌, String, Bool, true, false, Option, none, some, List, [], ◌∷◌, ◌==◌, length,
  format, if◌then◌else◌,
}
use nerves_hub_link_esp.Error.{Error, Result, ok, err, ota}

abbrev pub esp_image_magic : ℕ
esp_image_magic = 0xE9

pub data Payload : Type 0 where
  whole_image a_patch : Payload

unfoldable pub classify : ℕ → Payload
classify first_byte = if first_byte == esp_image_magic then whole_image else a_patch

pub data Slot : Type 0 where
  unopened : Slot
  open_slot : ℕ → Slot
  finished : Slot

-- A patch's handle, and the bytes of the image rebuilt so far, which its context counts.
pub data Mode : Type 0 where
  undecided image : Mode
  patch : ℕ → ℕ → Mode

pub record OtaWriter : Type 0 where
  pub slot : Slot
  pub written : ℕ
  pub mode : Mode

abbrev pub fresh : OtaWriter
fresh = record { slot = unopened; written = 0; mode = undecided }

pub data OtaCall : Type 0 where
  begin_failed patch_init_failed : OtaCall
  began wrote_to aborted_slot patch_started patch_fed patch_finalized patch_released : ℕ → OtaCall
  ended : ℕ → Bool → OtaCall
  boot_set : OtaCall

-- Each gives a status, and what else it gives: a handle, or the bytes of the image that it rebuilt.
pub record EspOta (W : Type 0) : Type 0 where
  pub ota_begin : W → ℕ × ℕ × W
  pub ota_write : ℕ → List ℕ → W → ℕ × W
  pub ota_end : ℕ → W → ℕ × W
  pub ota_abort : ℕ → W → W
  pub set_boot_partition : W → ℕ × W
  pub has_running_partition : W → Bool
  pub delta_init : W → Option ℕ × W
  pub delta_feed : ℕ → List ℕ → W → ℕ × ℕ × W
  pub delta_finalize : ℕ → W → ℕ × W
  pub delta_deinit : ℕ → W → W
  pub error_name : ℕ → String

pub record Device (W : Type 0) : Type 0 where
  pub env : W
  pub calls : List OtaCall

pub record Step (W : Type 0) : Type 0 where
  pub result : Result (Unit {0})
  pub writer : OtaWriter
  pub device : Device W

module _ {W : Type 0} (esp : EspOta W) where
  check : ℕ → String → Result (Unit {0})
  check status what =
      if status == 0
      then ok tt
      else err (ota (format (what ∷ " failed: " ∷ esp.error_name status ∷ [])))

  resume : Result (Unit {0}) → OtaWriter → Device W → (OtaWriter → Device W → Step W) → Step W
  resume (ok _) w d f = f w d
  resume (err e) w d f = record { result = err e; writer = w; device = d }

  -- `?`
  pub then_do : Step W → (OtaWriter → Device W → Step W) → Step W
  unfolding resume
  then_do s f = resume s.result s.writer s.device f

  open_with : OtaWriter → List OtaCall → ℕ × ℕ × W → Step W
  unfolding check
  open_with w calls (status, handle, env) =
      if status == 0
      then record {
        result = ok tt;
        writer = record w { slot = open_slot handle };
        device = record { env = env; calls = began handle ∷ calls };
      }
      else record {
        result = check status "esp_ota_begin";
        writer = w;
        device = record { env = env; calls = begin_failed ∷ calls };
      }

  open_first : OtaWriter → Device W → Step W
  unfolding open_with
  open_first w d = open_with w d.calls (esp.ota_begin d.env)

  pub open_if_unopened : OtaWriter → Slot → Device W → Step W
  unfolding open_first
  open_if_unopened w unopened d = open_first w d
  open_if_unopened w _ d = record { result = ok tt; writer = w; device = d }

  patch_with : OtaWriter → List OtaCall → Option ℕ × W → Step W
  patch_with w calls (none, env) = record {
    result = err (ota "esp_delta_ota_init failed");
    writer = w;
    device = record { env = env; calls = patch_init_failed ∷ calls };
  }
  patch_with w calls (some handle, env) = record {
    result = ok tt;
    writer = record w { mode = patch handle 0 };
    device = record { env = env; calls = patch_started handle ∷ calls };
  }

  begin_patch : OtaWriter → Slot → Device W → Step W
  unfolding patch_with
  begin_patch w (open_slot handle) d =
      if esp.has_running_partition d.env
      then patch_with w d.calls (esp.delta_init d.env)
      else record {
        result = err (ota "no running partition to patch against");
        writer = w;
        device = d;
      }
  begin_patch w _ d = record {
    result = err (ota "patch started after the update was finished");
    writer = w;
    device = d;
  }

  as_payload : OtaWriter → Payload → Device W → Step W
  unfolding begin_patch
  as_payload w whole_image d = record {
    result = ok tt;
    writer = record w { mode = image };
    device = d;
  }
  as_payload w a_patch d = begin_patch w w.slot d

  -- The first byte of the whole download decides.
  pub decide : OtaWriter → Mode → ℕ → Device W → Step W
  unfolding as_payload classify
  decide w undecided b d = as_payload w (classify b) d
  decide w _ b d = record { result = ok tt; writer = w; device = d }

  count_chunk : OtaWriter → ℕ → ℕ → OtaWriter
  count_chunk w status n = record w {
    written = if status == 0 then (w.written + n) % 2 ^ 64 else w.written;
  }

  feed_chunk : OtaWriter → Mode → Slot → List ℕ → Device W → Step W
  unfolding check count_chunk
  feed_chunk w (patch handle n) slot chunk d =
      let (status, rebuilt, env) = esp.delta_feed handle chunk d.env in
      record {
        result = check status "esp_delta_ota_feed_patch";
        writer = record (count_chunk w status (length chunk)) {
          mode = patch handle ((n + rebuilt) % 2 ^ 64);
        };
        device = record { env = env; calls = patch_fed handle ∷ d.calls };
      }
  feed_chunk w _ (open_slot handle) chunk d =
      let (status, env) = esp.ota_write handle chunk d.env in
      record {
        result = check status "esp_ota_write";
        writer = count_chunk w status (length chunk);
        device = record { env = env; calls = wrote_to handle ∷ d.calls };
      }
  feed_chunk w _ _ chunk d = record {
    result = err (ota "write after the update was finished");
    writer = w;
    device = d;
  }

  unfoldable pub write : OtaWriter → List ℕ → Device W → Step W
  unfolding then_do open_if_unopened decide feed_chunk
  write w [] d = record { result = ok tt; writer = w; device = d }
  write w (b ∷ bs) d =
      then_do (then_do (open_if_unopened w w.slot d) (λ w1 d1. decide w1 w1.mode b d1))
        (λ w2 d2. feed_chunk w2 w2.mode w2.slot (b ∷ bs) d2)

  finalize : OtaWriter → Mode → Device W → Step W
  unfolding check
  finalize w (patch handle n) d =
      let (status, env) = esp.delta_finalize handle d.env in
      record {
        result = check status "esp_delta_ota_finalize";
        writer = record w { mode = image };
        device = record {
          env = esp.delta_deinit handle env;
          calls = patch_released handle ∷ patch_finalized handle ∷ d.calls;
        };
      }
  finalize w _ d = record { result = ok tt; writer = w; device = d }

  boot_with : OtaWriter → List OtaCall → ℕ × W → Step W
  unfolding check
  boot_with w calls (status, env) = record {
    result = check status "esp_ota_set_boot_partition";
    writer = w;
    device = record { env = env; calls = boot_set ∷ calls };
  }

  set_boot : OtaWriter → ℕ → Device W → Step W
  unfolding check boot_with
  set_boot w status d =
      if status == 0
      then boot_with w d.calls (esp.set_boot_partition d.env)
      else record { result = check status "esp_ota_end"; writer = w; device = d }

  end_slot : OtaWriter → Slot → Device W → Step W
  unfolding set_boot
  end_slot w (open_slot handle) d =
      let (status, env) = esp.ota_end handle d.env in
      set_boot (record w { slot = finished }) status
        (record { env = env; calls = ended handle (status == 0) ∷ d.calls })
  end_slot w unopened d = record {
    result = err (ota "commit with nothing written");
    writer = record w { slot = finished };
    device = d;
  }
  end_slot w finished d = record {
    result = err (ota "commit after the update was finished");
    writer = w;
    device = d;
  }

  unfoldable pub commit : OtaWriter → Device W → Step W
  unfolding then_do finalize end_slot
  commit w d = then_do (finalize w w.mode d) (λ w1 d1. end_slot w1 w1.slot d1)

  drop_patch : OtaWriter → Mode → Device W → Step W
  drop_patch w (patch handle n) d = record {
    result = ok tt;
    writer = record w { mode = image };
    device = record {
      env = esp.delta_deinit handle d.env;
      calls = patch_released handle ∷ d.calls;
    };
  }
  drop_patch w _ d = record { result = ok tt; writer = w; device = d }

  drop_slot : OtaWriter → Slot → Device W → Step W
  drop_slot w (open_slot handle) d = record {
    result = ok tt;
    writer = record w { slot = finished };
    device = record { env = esp.ota_abort handle d.env; calls = aborted_slot handle ∷ d.calls };
  }
  drop_slot w _ d = record { result = ok tt; writer = record w { slot = finished }; device = d }

  unfoldable pub abort : OtaWriter → Device W → Step W
  unfolding drop_patch drop_slot
  abort w d = let s = drop_patch w w.mode d in drop_slot s.writer s.writer.slot s.device
