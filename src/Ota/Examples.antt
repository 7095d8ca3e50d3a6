-- ===== src/Ota/Examples.antt =====
-- Runs of the writer of src/ota.rs, with calls that all succeed.
use nerves_hub_link_esp.Base.{◌≡◌, refl, true, some, List, [], ◌∷◌}
use nerves_hub_link_esp.Ota.{
  fresh, began, patch_started, patch_fed, patch_finalized, patch_released, ended, boot_set, EspOta,
  Device, write, commit, abort,
}
use nerves_hub_link_esp.Ota.Handles.{Agrees, replay, Settled, Allowed}
use nerves_hub_link_esp.Ota.Sequences.{Use, writes, commits, aborts, use_all, use_all-Agrees}

abbrev willing : EspOta (Unit {0})
willing = record {
  ota_begin = λ e. (0, 7, e);
  ota_write = λ handle chunk e. (0, e);
  ota_end = λ handle e. (0, e);
  ota_abort = λ handle e. e;
  set_boot_partition = λ e. (0, e);
  has_running_partition = λ e. true;
  delta_init = λ e. (some 9, e);
  delta_feed = λ handle chunk e. (0, 10, e);
  delta_finalize = λ handle e. (0, e);
  delta_deinit = λ handle e. e;
  error_name = λ status. "ESP_FAIL";
}

abbrev device : Device (Unit {0})
device = record { env = tt; calls = [] }

-- A patch in two chunks, committed, and aborted for nothing.
abbrev uses : List (Use willing)
uses = writes (1 ∷ 2 ∷ []) ∷ writes (3 ∷ []) ∷ commits ∷ aborts ∷ []

patch_test :
    (use_all willing fresh device uses).1.calls
    ≡ boot_set
      ∷ ended 7 true
      ∷ patch_released 9
      ∷ patch_finalized 9
      ∷ patch_fed 9
      ∷ patch_fed 9
      ∷ patch_started 9
      ∷ began 7
      ∷ []
unfolding use_all write commit abort
patch_test = refl

fresh-Agrees : Agrees fresh device.calls
fresh-Agrees = record {
  allowed = (unfold Allowed replay in refl);
  settled = (unfold Settled in tt);
}

use_all-Agrees_example :
    Agrees (use_all willing fresh device uses).0 (use_all willing fresh device uses).1.calls
use_all-Agrees_example = use_all-Agrees willing fresh device uses fresh-Agrees
