-- ===== src/Install/Examples.antt =====
-- Runs of an installation (src/install.rs) from a server that sends three bytes in two chunks, by a
-- hash that is the bytes themselves.
use nerves_hub_link_esp.Base.{
  ℕ, ◌≤◌, ◌≡◌, refl, true, Option, none, some, List, [], ◌∷◌, ◌++◌, take, length, length-take,
  append_assoc, append_nil, arith,
}
use nerves_hub_link_esp.Error.{Result, ok, err, download_status}
use nerves_hub_link_esp.Checksum.{Digest, matches, finalize_hex_upper}
use nerves_hub_link_esp.Update
use nerves_hub_link_esp.Update.{UpdatePayload, FirmwareMeta, actionable}
use nerves_hub_link_esp.Install.{
  World, HttpStream, ImageSink, Progress, Post, install, open_image, retry_waits, InstallReport,
  download_image, http_open, copy, http_read, sink_write, tick, report, sink_commit,
}
use nerves_hub_link_esp.Install.Verified.{Installed, Failed, install-Ensures}
use nerves_hub_link_esp.Install.Terminates.{IsBounded, Returns, install-Returns}
use nerves_hub_link_esp.Install.Retry.{Tried, GaveUp, open_image-Tried}

-- The chunks that are still to come.
abbrev Chunks : Type 0
Chunks = List (List ℕ)

abbrev read_chunk : ℕ → Chunks → Result (List ℕ) × Chunks
read_chunk size [] = (ok [], [])
read_chunk size (c ∷ cs) = (ok (take size c), cs)

abbrev server : HttpStream Chunks
server = record { open_url = λ url cs. (ok (some 3), cs); read_into = read_chunk }

abbrev busy_server : HttpStream Chunks
busy_server = record {
  open_url = λ url cs. (err (download_status 503 (some 7)), cs);
  read_into = read_chunk;
}

abbrev flash : ImageSink Chunks
flash = record {
  write_chunk = λ chunk cs. (ok tt, cs);
  commit_image = λ cs. (ok tt, cs);
  abort_image = λ cs. cs;
}

abbrev silent : Progress Chunks
silent = record {
  on_tick = λ cs. (ok tt, cs);
  on_report = λ stage percent cs. (ok tt, cs);
  on_wait = λ secs cs. (ok tt, cs);
}

abbrev bytes_digest : Digest (List ℕ)
bytes_digest = record {
  new = [];
  update = λ s xs. s ++ xs;
  finalize = λ s. s;
  update-nil = append_nil;
  update-append = append_assoc;
}

abbrev meta : FirmwareMeta
meta = record { uuid = "u1"; version = none; product = none; platform = none; architecture = none }

abbrev update : UpdatePayload
update = record {
  update_available = true;
  firmware_url = some "https://hub/fw";
  firmware_meta = some meta;
  size = some 3;
  checksum = some "0a0b0c";
  partials_checksums = none;
  deployment_id = none;
}

abbrev chunks : Chunks
chunks = (10 ∷ 11 ∷ []) ∷ (12 ∷ []) ∷ []

abbrev start : World Chunks
start = record { env = chunks; calls = [] }

report_of : Option (Result InstallReport × World Chunks) → Option InstallReport
report_of (some (ok report, w)) = some report
report_of _ = none

install_test :
    report_of (install bytes_digest server flash silent 9 update 5 start)
    ≡ some (record { bytes = 3; checksum = "0A0B0C" })
unfolding report_of install actionable download_image open_image http_open copy http_read sink_write
    tick Update.take Update.new report matches finalize_hex_upper sink_commit
install_test = refl

server-IsBounded : IsBounded server
server-IsBounded = record { within = λ size cs chunk e. within_lem size cs chunk e }
  where
    within_lem :
        (size : ℕ) (cs : Chunks) (chunk : List ℕ)
        → (read_chunk size cs).0 ≡ ok chunk
        → length chunk ≤ size
    within_lem size [] chunk e = ground arith
    within_lem size (c ∷ cs) chunk e = ground (arith, length-take size c)

install-Ensures_example :
    Post
      (λ report w'. Installed bytes_digest server flash silent update w'.calls report)
      (λ _ w'. Failed bytes_digest server flash silent update w'.calls)
      (install bytes_digest server flash silent 9 update 5 (record { env = chunks; calls = [] }))
install-Ensures_example = install-Ensures bytes_digest server flash silent 9 update 5 chunks

install-Returns_example : Returns (install bytes_digest server flash silent 9 update 5 start)
install-Returns_example =
    install-Returns bytes_digest server flash silent server-IsBounded update 3 9 5 start refl
      (omega arith) (omega arith)

open_image-Tried_example :
    Post
      (λ _ w'. Tried retry_waits [] w'.calls)
      (λ e w'. Tried retry_waits [] w'.calls × GaveUp silent retry_waits [] e w'.env w'.calls)
      (open_image busy_server silent "https://hub/fw" start)
open_image-Tried_example = open_image-Tried busy_server silent "https://hub/fw" start
