-- ===== src/Install.antt =====
-- src/install.rs: downloading an image and writing it to the inactive slot, with the retries of the
-- download's start. The definitions; the proofs are in the modules below.
mod Traits
pub mod Retry
pub mod Copy
pub mod Verified
pub mod Terminates
pub mod Keeps
mod Examples
pub use Traits.{
  World, Run, Call, opened, read_some, wrote, committed, aborted, ticked, reported, waited,
}
pub use Traits.{HttpStream, ImageSink, Progress}
unfoldable pub use Traits.{
  http_open, http_read, sink_write, sink_commit, sink_abort, tick, report, wait,
}
pub use Traits.{
  pure, fail, after, ◌>>=◌, ◌>>◌, Post, Post-after, Post-mono, EndsIn, EndsIn-bind, EndsIn-answer,
  Calls, Ensures, Ensures-call, Ensures-bind, Calls-Ensures,
}
pub use Traits.{
  http_open-Calls, http_read-Calls, sink_write-Calls, sink_commit-Calls, tick-Calls, report-Calls,
  wait-Calls,
}
use nerves_hub_link_esp.Base.{
  ℕ, zero, suc, ◌+◌, ◌%◌, ◌^◌, min, max, String, Bool, true, false, not, ◌&&◌, ◌||◌, Option, none,
  some, List, [], ◌∷◌, leb, ltb, ◌==◌, if◌then◌else◌, length, format, to_string, or_else,
}
use nerves_hub_link_esp.Error.{
  Error, Result, ok, err, transport, protocol, join_refused, metadata, identity, download,
  download_status, ota, checksum_mismatch, console,
}
use nerves_hub_link_esp.Checksum.{Digest, finalize_hex_upper, matches}
use nerves_hub_link_esp.Update
use nerves_hub_link_esp.Update.{UpdatePayload, ProgressThrottle, actionable, Stage, downloading}

abbrev pub chunk_size : ℕ
chunk_size = 4096

-- In seconds.
abbrev pub retry_waits : List ℕ
retry_waits = 5 ∷ 15 ∷ 45 ∷ []

abbrev pub retry_after_max : ℕ
retry_after_max = 120

abbrev pub u64_mod : ℕ
u64_mod = 2 ^ 64

pub record InstallReport : Type 0 where
  pub bytes : ℕ
  pub checksum : String

-- Whether a download that could not start may start if tried again.
unfoldable pub worth_retrying : Error → Bool
worth_retrying (download msg) = true
worth_retrying (download_status status retry_after) =
    status == 408 || (status == 429 || (leb 500 status && leb status 599))
worth_retrying _ = false

-- The server's word is a minimum, up to the cap; the backoff holds otherwise.
unfoldable pub wait_for : Error → ℕ → ℕ
wait_for (download_status status (some secs)) backoff = max backoff (min secs retry_after_max)
wait_for _ backoff = backoff

module _ {W : Type 0} (http : HttpStream W) (progress : Progress W) where
  -- What follows an attempt: its value, or its error, or a wait and the `next` attempt.
  try_again :
      ℕ
      → Run W (Option ℕ)
      → Option (Result (Option ℕ) × World W)
      → Option (Result (Option ℕ) × World W)
  try_again backoff next none = none
  try_again backoff next (some (ok content_length, w)) = some (ok content_length, w)
  try_again backoff next (some (err e, w)) =
      if worth_retrying e then (wait progress (wait_for e backoff) >> next) w else some (err e, w)

  -- The loop, over the waits that are left.
  unfoldable pub open_from : List ℕ → String → Run W (Option ℕ)
  unfolding try_again
  open_from [] url w = http_open http url w
  open_from (backoff ∷ rest) url w = try_again backoff (open_from rest url) (http_open http url w)

  unfoldable pub open_image : String → Run W (Option ℕ)
  unfolding open_from
  open_image url = open_from retry_waits url

-- What the loop of `copy` keeps between chunks: the throttle, the hasher and the count of bytes.
pub record Copying (S : Type 0) : Type 0 where
  pub throttle : ProgressThrottle
  pub hasher : S
  pub written : ℕ

too_long : ℕ → Error
too_long total =
    download (format ("image is longer than the expected " ∷ to_string total ∷ " bytes" ∷ []))

module _ {W S : Type 0} (digest : Digest S) (http : HttpStream W) (sink : ImageSink W)
    (progress : Progress W) where
  -- Nothing is reported where the throttle stays quiet.
  report_percent : Option ℕ → Run W (Unit {0})
  report_percent none = pure tt
  report_percent (some percent) = report progress downloading percent

  -- After a chunk: the size is checked and the progress reported, where the size is known.
  check_progress : Option ℕ → Copying S → Run W (Copying S)
  unfolding report_percent too_long
  check_progress none s = pure s
  check_progress (some total) s =
      if ltb total s.written
      then fail (too_long total)
      else let (throttle, percent) = Update.take s.throttle s.written total in
        report_percent percent >> pure (record s { throttle = throttle })

  copy_chunk : Option ℕ → List ℕ → Copying S → Run W (Copying S)
  unfolding check_progress
  copy_chunk expected chunk s = do
    sink_write sink chunk
    tick progress
    check_progress expected (record s {
      hasher = digest.update s.hasher chunk;
      written = (s.written + length chunk) % u64_mod;
    })

  -- An empty read ends the loop; anything else is a chunk, and the loop goes on as `rest`.
  got : (Copying S → Run W (Copying S)) → Option ℕ → Copying S → List ℕ → Run W (Copying S)
  unfolding copy_chunk
  got rest expected s [] w = pure s w
  got rest expected s (b ∷ bs) w = after (copy_chunk expected (b ∷ bs) s w) rest

  -- The loop of `copy`.
  unfoldable pub copy_loop : ℕ → Option ℕ → Copying S → Run W (Copying S)
  unfolding got
  copy_loop zero expected s w = none
  copy_loop (suc fuel) expected s w =
      after (http_read http chunk_size w) (got (copy_loop fuel expected) expected s)

  start_copy : ℕ → Copying S
  start_copy step = record { throttle = Update.new step; hasher = digest.new; written = 0 }

  -- The bytes written and their checksum.
  unfoldable pub copy : ℕ → Option ℕ → ℕ → Run W (ℕ × String)
  unfolding copy_loop start_copy
  copy fuel expected step = do
    s ← copy_loop fuel expected (start_copy step)
    pure (s.written, finalize_hex_upper digest s.hasher)

  check_size : Option ℕ → ℕ → Run W (Unit {0})
  check_size none written = pure tt
  check_size (some total) written =
      if written == total
      then pure tt
      else fail (
          download
            (format ("expected " ∷ to_string total ∷ " bytes, received " ∷ to_string written ∷ [])))

  check_nonempty : ℕ → Run W (Unit {0})
  check_nonempty written = if written == 0 then fail (download "image was empty") else pure tt

  check_checksum : Option String → String → Run W (Unit {0})
  check_checksum none actual = pure tt
  check_checksum (some expected) actual =
      if matches expected actual then pure tt else fail (checksum_mismatch expected actual)

  -- The checks on what was copied, in the order of the source.
  verify : UpdatePayload → Option ℕ → ℕ × String → Run W InstallReport
  unfolding check_size check_nonempty check_checksum
  verify update expected (written, actual) = do
    check_size expected written
    check_nonempty written
    check_checksum update.checksum actual
    pure (record { bytes = written; checksum = actual })

  unfoldable pub download_image : ℕ → UpdatePayload → String → ℕ → Run W InstallReport
  unfolding verify
  download_image fuel update url step = do
    content_length ← open_image http progress url
    let expected = or_else update.size content_length
    copied ← copy fuel expected step
    verify update expected copied

  -- Committed last, and only after the download's checks; aborted on any error of the download.
  finish : Option (Result InstallReport × World W) → Option (Result InstallReport × World W)
  finish none = none
  finish (some (ok report, w)) = (sink_commit sink >> pure report) w
  finish (some (err e, w)) = some (err e, sink_abort sink w)

  install_from : ℕ → UpdatePayload → Option (String × String) → ℕ → Run W InstallReport
  unfolding finish
  install_from fuel update none step w = fail (download "update has no firmware url") w
  install_from fuel update (some (url, uuid)) step w =
      finish (download_image fuel update url step w)

  unfoldable pub install : ℕ → UpdatePayload → ℕ → Run W InstallReport
  unfolding install_from
  install fuel update step = install_from fuel update (actionable update) step
