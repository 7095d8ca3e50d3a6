-- ===== src/Agent/Examples.antt =====
-- A concrete agent of src/agent.rs, with log lines waiting.
use nerves_hub_link_esp.Base.{
  ℕ, zero, suc, ◌*◌, ◌-◌, ◌+◌, ◌≤◌, ◌≡◌, refl, String, true, false, none, some, List, [], ◌∷◌, ◌++◌,
  str_len, take, length, length-take, append_nil, append_assoc, arith,
}
use nerves_hub_link_esp.Agent.{Platform, Pump, no_pending, log_send_interval_ms, wait}
use nerves_hub_link_esp.Agent.Pace.Turns.{
  Turn, looped, downloaded, InOrder, downloads, sent_in, sent_in-log_send_interval_ms,
}
use nerves_hub_link_esp.Agent.Pace.{LogCall, Until, messages}
use nerves_hub_link_esp.Agent.Waits.{Clock, Returned, wait-Returned}
use nerves_hub_link_esp.Agent.Updates.{apply}
use nerves_hub_link_esp.Agent.Updates.Verified.{Concluded, fresh_device, apply-Concluded}
use nerves_hub_link_esp.Checksum.{Digest}
use nerves_hub_link_esp.Install.{HttpStream, ImageSink}
use nerves_hub_link_esp.Install.Terminates.{IsBounded}
use nerves_hub_link_esp.Update.{UpdatePayload, UpdateDecision}
use nerves_hub_link_esp.Config
use nerves_hub_link_esp.Config.{shared_secret}
use nerves_hub_link_esp.Error.{Result, ok}
use nerves_hub_link_esp.Json.Samples.{Plain, plain}
use nerves_hub_link_esp.Link
use nerves_hub_link_esp.Link.{Transport, UpdateHandler, Link, Session}
use nerves_hub_link_esp.Logging.{LogBuffer}
use nerves_hub_link_esp.Logging.Lines.{Buffer, LogLine, Allocator}
use nerves_hub_link_esp.Message.{new_generator}

abbrev pub exact : Allocator
exact = record {
  line_size = 72;
  pair_size = 24;
  new_string = λ s. record { text = s; capacity = str_len s };
  after_push = λ len capacity. 4;
}

abbrev pub ideal : Platform ℕ
ideal = record {
  now_ms = λ w. (w, w);
  sleep_ms = λ ms w. w + ms;
  restart = λ w. w;
  start_http = λ w. (ok tt, w);
  begin_update = λ w. (ok tt, w);
  connect = λ w. (ok tt, w);
  auto_revert_detected = λ w. (false, w);
  pending_verify = λ w. (no_pending, w);
  mark_valid = λ w. (ok tt, w);
  unix_micros = λ w. (none, w);
  meanwhile = λ b. b;
}

abbrev pub silent : Transport ℕ
silent = record {
  send_text = λ bytes w. (ok tt, w);
  send_binary = λ bytes w. (ok tt, w);
  recv_frame = λ w. (ok none, w);
}

-- Joined, with logging attached at its oldest version.
abbrev pub joined : Session Plain ℕ
joined = record {
  link = record {
    config =
        Config.new "devices.nerves-hub.org"
          (shared_secret "esp-1" (record { key = 107 ∷ []; secret = 115 ∷ [] }));
    metadata = record {
      project_name = "my_app";
      version = "1.2.3";
      app_elf_sha256 = "abab";
      idf_ver = "v5.2.1";
      chip_id = 9;
    };
    refs = new_generator;
    join_ref = some "1";
    extensions = record {
      enabled = record { geo_enabled = false; health_enabled = false; logging_enabled = true };
      attached = "logging" ∷ [];
      joined = true;
      invited = false;
      advertised = none;
    };
    extensions_join_ref = some "2";
    console_join_ref = none;
    console_wanted = false;
    joined = true;
    downloading = none;
    heartbeat_ref = none;
  };
  world = 0;
  sent = [];
}

abbrev a_text : String → Buffer
a_text s = record { text = s; capacity = 16 }

abbrev a_line : LogLine
a_line = record {
  level = a_text "info";
  message = a_text "up";
  timestamp = none;
  meta = [];
  meta_capacity = 0;
}

abbrev pub waiting : LogBuffer
waiting = record {
  lines = a_line ∷ a_line ∷ [];
  bytes = 208;
  poisoned = false;
  capacity = 64;
  max_bytes = 8192;
  dropped = 0;
  threshold = 3;
}

abbrev a_call : ℕ → LogCall Plain ℕ
a_call at = record { at = at; found = joined; buffer = some waiting }

abbrev calls : List (LogCall Plain ℕ)
calls = a_call 250 ∷ a_call 400 ∷ a_call 500 ∷ []

-- The second call comes too soon.
messages_two : messages plain silent exact ideal calls 0 ≡ 2
unfolding messages Link.send_logs
messages_two = refl

-- Two in the loop, with a download between them in which another is sent.
abbrev turns : List (Turn Plain ℕ)
turns = looped (a_call 250) ∷ downloaded 300 600 (a_call 550 ∷ []) ∷ looped (a_call 600) ∷ []

-- The last comes too soon after the download's, on the session's clock.
sent_three : sent_in plain silent exact ideal turns 0 ≡ 3
unfolding sent_in messages Link.send_logs
sent_three = refl

sent_in-log_send_interval_ms_example :
    sent_in plain silent exact ideal turns 0 * log_send_interval_ms
    ≤ (600 - 0) + downloads turns * log_send_interval_ms
unfolding InOrder Until
sent_in-log_send_interval_ms_example =
    sent_in-log_send_interval_ms plain silent exact ideal turns 0 600
      (omega arith, (omega arith, omega arith, (omega arith, tt), (omega arith, omega arith)))

-- The world is the time.
abbrev exact_clock : Clock ideal silent
exact_clock = record {
  Past = λ n w. n ≤ w;
  reads = λ w. omega arith;
  goes_on = λ n w h. h;
  sleeps = λ n ms w h. omega (arith, h);
  stamps = λ n w h. h;
  sends = λ n. record { by_text = λ bytes w h. h; by_binary = λ bytes w h. h };
}

abbrev pub a_pump : Pump Plain ℕ
a_pump = record { session = joined; logs = some waiting; last_heartbeat = 0; last_log = 0 }

wait-Returned_example :
    Returned plain exact ideal exact_clock 15000 (wait plain silent exact ideal 30000 15000 a_pump)
wait-Returned_example = wait-Returned plain exact ideal exact_clock 30000 15000 a_pump

abbrev image : List ℕ
image = 1 ∷ 2 ∷ 3 ∷ []

-- The image is there at time 0, and read at once.
abbrev read_image : ℕ → ℕ → Result (List ℕ) × ℕ
read_image size zero = (ok (take size image), 1)
read_image size (suc w) = (ok [], suc w)

abbrev pub server : HttpStream ℕ
server = record { open_url = λ url w. (ok (some 3), w); read_into = read_image }

abbrev pub server-IsBounded : IsBounded server
server-IsBounded = record { within = within_lem }
  where
    within_lem :
        (size env : ℕ) (chunk : List ℕ) → (read_image size env).0 ≡ ok chunk → length chunk ≤ size
    within_lem size zero chunk e = ground (arith, length-take size image)
    within_lem size (suc w) chunk e = ground arith

abbrev pub flash : ImageSink ℕ
flash = record {
  write_chunk = λ chunk w. (ok tt, w);
  commit_image = λ w. (ok tt, w);
  abort_image = λ w. w;
}

abbrev pub bytes_digest : Digest (List ℕ)
bytes_digest = record {
  new = [];
  update = λ s xs. s ++ xs;
  finalize = λ s. s;
  update-nil = append_nil;
  update-append = append_assoc;
}

abbrev pub an_update : UpdatePayload
an_update = record {
  update_available = true;
  firmware_url = some "https://hub/fw";
  firmware_meta = some (record {
    uuid = "u1";
    version = none;
    product = none;
    platform = none;
    architecture = none;
  });
  size = some 3;
  checksum = none;
  partials_checksums = none;
  deployment_id = none;
}

abbrev pub applies : UpdateHandler ℕ
applies = record {
  update_available = λ u w. (UpdateDecision.apply, w);
  progress = λ stage percent w. w;
}

apply-Concluded_example :
    Concluded plain silent applies exact ideal bytes_digest server flash an_update (
      apply plain silent applies exact ideal bytes_digest server flash 9 an_update
        (fresh_device a_pump))
apply-Concluded_example =
    apply-Concluded plain silent applies exact ideal bytes_digest server flash server-IsBounded
      an_update 3 9 a_pump refl (omega arith) (omega arith)
