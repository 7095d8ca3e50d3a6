-- ===== src/Install/Terminates.antt =====
-- `install` of src/install.rs returns: the fuel of its loop is enough where the size is known.
use Prim.Native.Nat.{◌-◌}
use nerves_hub_link_esp.Base.{
  ℕ, zero, suc, ◌+◌, ◌%◌, ◌≤◌, ◌<◌, String, ◌≡◌, refl, inl, inr, Option, none, some, List, [], ◌∷◌,
  arith, length, Bool-cases, ltb, ◌==◌, or_else,
}
use nerves_hub_link_esp.Error.{Result, ok, err}
use nerves_hub_link_esp.Checksum.{Digest, matches}
use nerves_hub_link_esp.Update
use nerves_hub_link_esp.Update.{UpdatePayload, actionable, Stage, downloading}
use nerves_hub_link_esp.Install.{
  World, Run, HttpStream, ImageSink, Progress, pure, ◌>>◌, EndsIn, EndsIn-bind, EndsIn-answer,
  http_open, http_read, sink_write, sink_commit, tick, report, wait, worth_retrying, wait_for,
  try_again, open_from, open_image, retry_waits, Copying, report_percent, check_progress,
  copy_chunk, got, copy_loop, start_copy, copy, check_size, check_nonempty, check_checksum, verify,
  InstallReport, download_image, finish, install_from, install, u64_mod, chunk_size,
}

-- A read fills at most the buffer that it is given, as `Read::read` promises.
pub record IsBounded {W : Type 0} (http : HttpStream W) : Type 0 where
  pub within :
      (size : ℕ) (env : W) (chunk : List ℕ)
      → (http.read_into size env).0 ≡ ok chunk
      → length chunk ≤ size

-- A run that ends, in whatever way.
abbrev pub Returns : {W A : Type 0} → Option (Result A × World W) → Type 0
Returns = EndsIn (λ _. Unit {0})

module _ {W : Type 0} where
  http_open-Returns :
      (http : HttpStream W) (url : String) (w : World W) → Returns (http_open http url w)
  unfolding http_open
  http_open-Returns http url w = EndsIn-answer _ _ _ (λ _ _. tt)

  sink_write-Returns :
      (sink : ImageSink W) (chunk : List ℕ) (w : World W) → Returns (sink_write sink chunk w)
  unfolding sink_write
  sink_write-Returns sink chunk w = EndsIn-answer _ _ _ (λ _ _. tt)

  sink_commit-Returns : (sink : ImageSink W) (w : World W) → Returns (sink_commit sink w)
  unfolding sink_commit
  sink_commit-Returns sink w = EndsIn-answer _ _ _ (λ _ _. tt)

  tick-Returns : (progress : Progress W) (w : World W) → Returns (tick progress w)
  unfolding tick
  tick-Returns progress w = EndsIn-answer _ _ _ (λ _ _. tt)

  report-Returns :
      (progress : Progress W) (stage : Stage) (p : ℕ) (w : World W)
      → Returns (report progress stage p w)
  unfolding report
  report-Returns progress stage p w = EndsIn-answer _ _ _ (λ _ _. tt)

  wait-Returns : (progress : Progress W) (secs : ℕ) (w : World W) → Returns (wait progress secs w)
  unfolding wait
  wait-Returns progress secs w = EndsIn-answer _ _ _ (λ _ _. tt)

  -- A read brings a chunk that fits the buffer.
  http_read-EndsIn :
      (http : HttpStream W)
      → IsBounded http
      → (size : ℕ) (w : World W) → EndsIn (λ chunk. length chunk ≤ size) (http_read http size w)
  unfolding http_read
  http_read-EndsIn http bounded size w = EndsIn-answer _ _ _ (bounded.within size w.env)

module _ {W S : Type 0} (digest : Digest S) (http : HttpStream W) (sink : ImageSink W)
    (progress : Progress W) where
  -- The loop goes on only with a count that the size allows.
  abbrev Within : ℕ → ℕ → Copying S → Type 0
  Within written total s = (s.written ≡ written) × (s.written ≤ total)

  report_percent-EndsIn :
      (p : Option ℕ) (total : ℕ) (s : Copying S) (w : World W)
      → s.written ≤ total
      → EndsIn (Within s.written total) ((report_percent digest http sink progress p >> pure s) w)
  unfolding report_percent
  report_percent-EndsIn none total s w le = record { ends = (refl, le) }
  report_percent-EndsIn (some p) total s w le =
      EndsIn-bind (report-Returns progress downloading p w) (λ _ w' _. record { ends = (refl, le) })

  check_progress-EndsIn :
      (total : ℕ) (s : Copying S) (w : World W)
      → EndsIn (Within s.written total) (check_progress digest http sink progress (some total) s w)
  unfolding check_progress
  check_progress-EndsIn total s w = elim (Bool-cases (ltb total s.written)) [
    | inl long ↦ rw long (record { ends = tt })
    | inr fits ↦ rw fits (
        let t = Update.take s.throttle s.written total in
        report_percent-EndsIn t.1 total (record s { throttle = t.0 }) w (ground arith))
  ]

  copy_chunk-EndsIn :
      (total : ℕ) (chunk : List ℕ) (s : Copying S) (w : World W)
      → EndsIn
          (Within ((s.written + length chunk) % u64_mod) total)
          (copy_chunk digest http sink progress (some total) chunk s w)
  unfolding copy_chunk
  copy_chunk-EndsIn total chunk s w = EndsIn-bind (sink_write-Returns sink chunk w) (λ _ w1 _.
      EndsIn-bind (tick-Returns progress w1) (λ _ w2 _. check_progress-EndsIn total _ w2))

  got-Returns :
      (rest : Copying S → Run W (Copying S)) (total fuel : ℕ) (s : Copying S)
      → s.written ≤ total
      → total - s.written < suc fuel
      → total + chunk_size < u64_mod
      → ((s' : Copying S) (w : World W)
          → s'.written ≤ total
          → total - s'.written < fuel
          → Returns (rest s' w))
      → (chunk : List ℕ) (w : World W) → length chunk ≤ chunk_size
      → Returns (got digest http sink progress rest (some total) s chunk w)
  unfolding got
  got-Returns rest total fuel s le lt fits ih [] w b = record { ends = tt }
  got-Returns rest total fuel s le lt fits ih (c ∷ cs) w b =
      EndsIn-bind (copy_chunk-EndsIn total (c ∷ cs) s w)
        (λ s' w' (e, le'). ih s' w' le' (omega (arith, e)))

  copy_loop-Returns :
      IsBounded http
      → (total : ℕ) → total + chunk_size < u64_mod
      → (fuel : ℕ) (s : Copying S) (w : World W) → s.written ≤ total
      → total - s.written < fuel
      → Returns (copy_loop digest http sink progress fuel (some total) s w)
  unfolding copy_loop
  copy_loop-Returns bounded total fits zero s w le lt = absurd (omega arith)
  copy_loop-Returns bounded total fits (suc fuel) s w le lt =
      EndsIn-bind (http_read-EndsIn http bounded chunk_size w) (λ chunk w1 b.
        got-Returns (copy_loop digest http sink progress fuel (some total)) total fuel s le lt fits
          (copy_loop-Returns bounded total fits fuel) chunk w1 b)

  try_again-Returns :
      (backoff : ℕ) (next : Run W (Option ℕ)) (r : Option (Result (Option ℕ) × World W))
      → ((w : World W) → Returns (next w))
      → Returns r
      → Returns (try_again http progress backoff next r)
  unfolding try_again
  try_again-Returns backoff next none k h = absurd h.ends
  try_again-Returns backoff next (some (ok l, w)) k h = record { ends = tt }
  try_again-Returns backoff next (some (err e, w)) k h = elim (Bool-cases (worth_retrying e)) [
    | inl worth ↦
        rw worth (EndsIn-bind (wait-Returns progress (wait_for e backoff) w) (λ _ w1 _. k w1))
    | inr not_worth ↦ rw not_worth (record { ends = tt })
  ]

  open_from-Returns :
      (waits : List ℕ) (url : String) (w : World W) → Returns (open_from http progress waits url w)
  unfolding open_from
  open_from-Returns [] url w = http_open-Returns http url w
  open_from-Returns (backoff ∷ rest) url w =
      try_again-Returns backoff (open_from http progress rest url) _ (open_from-Returns rest url)
        (http_open-Returns http url w)

  check_size-Returns :
      (expected : Option ℕ) (written : ℕ) (w : World W)
      → Returns (check_size digest http sink progress expected written w)
  unfolding check_size
  check_size-Returns none written w = record { ends = tt }
  check_size-Returns (some n) written w = elim (Bool-cases (written == n)) [
    | inl same ↦ rw same (record { ends = tt })
    | inr other ↦ rw other (record { ends = tt })
  ]

  check_nonempty-Returns :
      (written : ℕ) (w : World W) → Returns (check_nonempty digest http sink progress written w)
  unfolding check_nonempty
  check_nonempty-Returns written w = elim (Bool-cases (written == 0)) [
    | inl empty ↦ rw empty (record { ends = tt })
    | inr some_bytes ↦ rw some_bytes (record { ends = tt })
  ]

  check_checksum-Returns :
      (checksum : Option String) (actual : String) (w : World W)
      → Returns (check_checksum digest http sink progress checksum actual w)
  unfolding check_checksum
  check_checksum-Returns none actual w = record { ends = tt }
  check_checksum-Returns (some c) actual w = elim (Bool-cases (matches c actual)) [
    | inl same ↦ rw same (record { ends = tt })
    | inr other ↦ rw other (record { ends = tt })
  ]

  verify-Returns :
      (update : UpdatePayload) (expected : Option ℕ) (copied : ℕ × String) (w : World W)
      → Returns (verify digest http sink progress update expected copied w)
  unfolding verify
  verify-Returns update expected (written, actual) w =
      EndsIn-bind (check_size-Returns expected written w) (λ _ w1 _.
        EndsIn-bind (check_nonempty-Returns written w1) (λ _ w2 _.
          EndsIn-bind (check_checksum-Returns update.checksum actual w2)
            (λ _ w3 _. record { ends = tt })))

  copy-Returns :
      IsBounded http
      → (expected : Option ℕ) (total fuel step : ℕ) (w : World W) → expected ≡ some total
      → total + chunk_size < u64_mod
      → total < fuel
      → Returns (copy digest http sink progress fuel expected step w)
  unfolding copy start_copy
  copy-Returns bounded expected total fuel step w e fits lt = rw e (
      EndsIn-bind (copy_loop-Returns bounded total fits fuel _ w (omega arith) (omega arith))
        (λ s w1 _. record { ends = tt }))

  download_image-Returns :
      IsBounded http
      → (update : UpdatePayload) (url : String) (total fuel step : ℕ) (w : World W)
      → update.size ≡ some total
      → total + chunk_size < u64_mod
      → total < fuel
      → Returns (download_image digest http sink progress fuel update url step w)
  unfolding download_image open_image
  download_image-Returns bounded update url total fuel step w e fits lt =
      EndsIn-bind (open_from-Returns retry_waits url w) (λ content_length w1 _.
        EndsIn-bind
          (copy-Returns bounded (or_else update.size content_length) total fuel step w1 (rw e) fits
            lt)
          (λ copied w2 _. verify-Returns update _ copied w2))

  finish-Returns :
      (r : Option (Result InstallReport × World W))
      → Returns r
      → Returns (finish digest http sink progress r)
  unfolding finish
  finish-Returns none h = absurd h.ends
  finish-Returns (some (ok report, w)) h =
      EndsIn-bind (sink_commit-Returns sink w) (λ _ w1 _. record { ends = tt })
  finish-Returns (some (err e, w)) h = record { ends = tt }

  install_from-Returns :
      IsBounded http
      → (update : UpdatePayload) (target : Option (String × String)) (total fuel step : ℕ)
        (w : World W)
      → update.size ≡ some total
      → total + chunk_size < u64_mod
      → total < fuel
      → Returns (install_from digest http sink progress fuel update target step w)
  unfolding install_from
  install_from-Returns bounded update none total fuel step w e fits lt = record { ends = tt }
  install_from-Returns bounded update (some (url, uuid)) total fuel step w e fits lt =
      finish-Returns _ (download_image-Returns bounded update url total fuel step w e fits lt)

  -- An installation whose update names its size returns, whatever the server sends and however the
  -- flash and the connection behave: every chunk that is not empty moves the count on, and a count
  -- past the size ends the download. More fuel than bytes is enough. The reads fit their buffer, and
  -- the size leaves room for a last chunk in a u64.
  pub install-Returns :
      IsBounded http
      → (update : UpdatePayload) (total fuel step : ℕ) (w : World W) → update.size ≡ some total
      → total + chunk_size < u64_mod
      → total < fuel
      → Returns (install digest http sink progress fuel update step w)
  unfolding install
  install-Returns bounded update total fuel step w e fits lt =
      install_from-Returns bounded update (actionable update) total fuel step w e fits lt
