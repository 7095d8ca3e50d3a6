-- ===== src/Install/Keeps.antt =====
-- What the traits' calls keep of their world, `install` of src/install.rs keeps.
use nerves_hub_link_esp.Base.{
  ℕ, zero, suc, String, inl, inr, Option, none, some, List, [], ◌∷◌, Bool-cases, ltb, ◌==◌, or_else,
}
use nerves_hub_link_esp.Error.{Result, ok, err}
use nerves_hub_link_esp.Checksum.{Digest, matches}
use nerves_hub_link_esp.Update
use nerves_hub_link_esp.Update.{UpdatePayload, actionable, Stage, downloading}
use nerves_hub_link_esp.Install.{
  World, Run, HttpStream, ImageSink, Progress, Ensures, Ensures-bind, http_open, http_read,
  sink_write, sink_commit, sink_abort, tick, report, wait, worth_retrying, wait_for, try_again,
  open_from, open_image, retry_waits, Copying, report_percent, check_progress, copy_chunk, got,
  copy_loop, copy, check_size, check_nonempty, check_checksum, verify, InstallReport,
  download_image, finish, install_from, install, chunk_size,
}

-- Each of the traits' calls keeps `P`.
pub record KeptBy {W : Type 0} (http : HttpStream W) (sink : ImageSink W) (progress : Progress W)
    (P : W → Type 0) : Type 0 where
  pub by_open : (url : String) (w : W) → P w → P (http.open_url url w).1
  pub by_read : (size : ℕ) (w : W) → P w → P (http.read_into size w).1
  pub by_write : (chunk : List ℕ) (w : W) → P w → P (sink.write_chunk chunk w).1
  pub by_commit : (w : W) → P w → P (sink.commit_image w).1
  pub by_abort : (w : W) → P w → P (sink.abort_image w)
  pub by_tick : (w : W) → P w → P (progress.on_tick w).1
  pub by_report :
      (stage : Stage) (percent : ℕ) (w : W) → P w → P (progress.on_report stage percent w).1
  pub by_wait : (secs : ℕ) (w : W) → P w → P (progress.on_wait secs w).1

-- Wherever a run ended, `P` holds.
abbrev pub Keeping : {W A : Type 0} → (W → Type 0) → Option (Result A × World W) → Type 0
Keeping P = Ensures (λ _ w. P w.env) (λ _ w. P w.env)

called :
    {W A : Type 0} (P : W → Type 0) (r : Result A) (w : World W)
    → P w.env
    → Keeping {A = A} P (some (r, w))
called P (ok a) w h = record { holds = h }
called P (err e) w h = record { holds = h }

module _ {W S : Type 0} (digest : Digest S) (http : HttpStream W) (sink : ImageSink W)
    (progress : Progress W) (P : W → Type 0) (kept : KeptBy http sink progress P) where
  wait-Keeping : (secs : ℕ) (w : World W) → P w.env → Keeping P (wait progress secs w)
  unfolding wait
  wait-Keeping secs w h = called P _ _ (kept.by_wait secs w.env h)

  report_percent-Keeping :
      (p : Option ℕ) (w : World W)
      → P w.env
      → Keeping P (report_percent digest http sink progress p w)
  unfolding report_percent report
  report_percent-Keeping none w h = record { holds = h }
  report_percent-Keeping (some p) w h = called P _ _ (kept.by_report downloading p w.env h)

  check_progress-Keeping :
      (expected : Option ℕ) (s : Copying S) (w : World W)
      → P w.env
      → Keeping P (check_progress digest http sink progress expected s w)
  unfolding check_progress
  check_progress-Keeping none s w h = record { holds = h }
  check_progress-Keeping (some total) s w h = elim (Bool-cases (ltb total s.written)) [
    | inl long ↦ rw long (record { holds = h })
    | inr fits ↦ rw fits (
        let t = Update.take s.throttle s.written total in
        Ensures-bind (report_percent-Keeping t.1 w h) (λ _ w1 h1. record { holds = h1 }))
  ]

  copy_chunk-Keeping :
      (expected : Option ℕ) (chunk : List ℕ) (s : Copying S) (w : World W)
      → P w.env
      → Keeping P (copy_chunk digest http sink progress expected chunk s w)
  unfolding copy_chunk sink_write tick
  copy_chunk-Keeping expected chunk s w h =
      Ensures-bind (called P (sink.write_chunk chunk w.env).0 _ (kept.by_write chunk w.env h))
        (λ _ w1 h1.
          Ensures-bind (called P (progress.on_tick w1.env).0 _ (kept.by_tick w1.env h1))
            (λ _ w2 h2. check_progress-Keeping expected _ w2 h2))

  got-Keeping :
      (rest : Copying S → Run W (Copying S)) (expected : Option ℕ) (s : Copying S)
      → ((s' : Copying S) (w : World W) → P w.env → Keeping P (rest s' w))
      → (chunk : List ℕ) (w : World W) → P w.env
      → Keeping P (got digest http sink progress rest expected s chunk w)
  unfolding got
  got-Keeping rest expected s ih [] w h = record { holds = h }
  got-Keeping rest expected s ih (b ∷ bs) w h =
      Ensures-bind (copy_chunk-Keeping expected (b ∷ bs) s w h) (λ s' w' h'. ih s' w' h')

  copy_loop-Keeping :
      (fuel : ℕ) (expected : Option ℕ) (s : Copying S) (w : World W)
      → P w.env
      → Keeping P (copy_loop digest http sink progress fuel expected s w)
  unfolding copy_loop http_read
  copy_loop-Keeping zero expected s w h = record { holds = tt }
  copy_loop-Keeping (suc fuel) expected s w h =
      Ensures-bind
        (called P (http.read_into chunk_size w.env).0 _ (kept.by_read chunk_size w.env h))
        (λ chunk w1 h1.
          got-Keeping (copy_loop digest http sink progress fuel expected) expected s
            (copy_loop-Keeping fuel expected) chunk w1 h1)

  try_again-Keeping :
      (backoff : ℕ) (next : Run W (Option ℕ)) (r : Option (Result (Option ℕ) × World W))
      → ((w : World W) → P w.env → Keeping P (next w))
      → Keeping P r
      → Keeping P (try_again http progress backoff next r)
  unfolding try_again
  try_again-Keeping backoff next none k h = record { holds = tt }
  try_again-Keeping backoff next (some (ok l, w)) k h = record { holds = h.holds }
  try_again-Keeping backoff next (some (err e, w)) k h = elim (Bool-cases (worth_retrying e)) [
    | inl worth ↦
        rw worth (Ensures-bind (wait-Keeping (wait_for e backoff) w h.holds) (λ _ w1 h1. k w1 h1))
    | inr not_worth ↦ rw not_worth (record { holds = h.holds })
  ]

  open_from-Keeping :
      (waits : List ℕ) (url : String) (w : World W)
      → P w.env
      → Keeping P (open_from http progress waits url w)
  unfolding open_from http_open
  open_from-Keeping [] url w h = called P _ _ (kept.by_open url w.env h)
  open_from-Keeping (backoff ∷ rest) url w h =
      try_again-Keeping backoff (open_from http progress rest url) _ (open_from-Keeping rest url)
        (called P (http.open_url url w.env).0 _ (kept.by_open url w.env h))

  check_size-Keeping :
      (expected : Option ℕ) (written : ℕ) (w : World W)
      → P w.env
      → Keeping P (check_size digest http sink progress expected written w)
  unfolding check_size
  check_size-Keeping none written w h = record { holds = h }
  check_size-Keeping (some n) written w h = elim (Bool-cases (written == n)) [
    | inl same ↦ rw same (record { holds = h })
    | inr other ↦ rw other (record { holds = h })
  ]

  check_nonempty-Keeping :
      (written : ℕ) (w : World W)
      → P w.env
      → Keeping P (check_nonempty digest http sink progress written w)
  unfolding check_nonempty
  check_nonempty-Keeping written w h = elim (Bool-cases (written == 0)) [
    | inl empty ↦ rw empty (record { holds = h })
    | inr some_bytes ↦ rw some_bytes (record { holds = h })
  ]

  check_checksum-Keeping :
      (checksum : Option String) (actual : String) (w : World W)
      → P w.env
      → Keeping P (check_checksum digest http sink progress checksum actual w)
  unfolding check_checksum
  check_checksum-Keeping none actual w h = record { holds = h }
  check_checksum-Keeping (some c) actual w h = elim (Bool-cases (matches c actual)) [
    | inl same ↦ rw same (record { holds = h })
    | inr other ↦ rw other (record { holds = h })
  ]

  verify-Keeping :
      (update : UpdatePayload) (expected : Option ℕ) (copied : ℕ × String) (w : World W)
      → P w.env
      → Keeping P (verify digest http sink progress update expected copied w)
  unfolding verify
  verify-Keeping update expected (written, actual) w h =
      Ensures-bind (check_size-Keeping expected written w h) (λ _ w1 h1.
        Ensures-bind (check_nonempty-Keeping written w1 h1) (λ _ w2 h2.
          Ensures-bind (check_checksum-Keeping update.checksum actual w2 h2)
            (λ _ w3 h3. record { holds = h3 })))

  download_image-Keeping :
      (update : UpdatePayload) (url : String) (fuel step : ℕ) (w : World W)
      → P w.env
      → Keeping P (download_image digest http sink progress fuel update url step w)
  unfolding download_image open_image copy
  download_image-Keeping update url fuel step w h =
      Ensures-bind (open_from-Keeping retry_waits url w h) (λ content_length w1 h1.
        Ensures-bind
          (Ensures-bind (copy_loop-Keeping fuel (or_else update.size content_length) _ w1 h1)
            (λ s w2 h2. record { holds = h2 }))
          (λ copied w2 h2. verify-Keeping update _ copied w2 h2))

  finish-Keeping :
      (r : Option (Result InstallReport × World W))
      → Keeping P r
      → Keeping P (finish digest http sink progress r)
  unfolding finish sink_commit sink_abort
  finish-Keeping none h = record { holds = tt }
  finish-Keeping (some (ok report, w)) h =
      Ensures-bind (called P (sink.commit_image w.env).0 _ (kept.by_commit w.env h.holds))
        (λ _ w1 h1. record { holds = h1 })
  finish-Keeping (some (err e, w)) h = record { holds = kept.by_abort w.env h.holds }

  install_from-Keeping :
      (update : UpdatePayload) (target : Option (String × String)) (fuel step : ℕ) (w : World W)
      → P w.env
      → Keeping P (install_from digest http sink progress fuel update target step w)
  unfolding install_from
  install_from-Keeping update none fuel step w h = record { holds = h }
  install_from-Keeping update (some (url, uuid)) fuel step w h =
      finish-Keeping _ (download_image-Keeping update url fuel step w h)

  pub install-Keeping :
      (fuel : ℕ) (update : UpdatePayload) (step : ℕ) (w : World W)
      → P w.env
      → Keeping P (install digest http sink progress fuel update step w)
  unfolding install
  install-Keeping fuel update step w h =
      install_from-Keeping update (actionable update) fuel step w h
