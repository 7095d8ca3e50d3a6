-- ===== src/Install/Verified.antt =====
-- `install` of src/install.rs: what has been checked by the time an image is made bootable, and what
-- every failure leaves behind.
use nerves_hub_link_esp.Base.{
  ℕ, ◌%◌, String, ◌≡◌, ◌≢◌, refl, sym, ap, inl, inr, true, Option, none, some, List, [], ◌∷◌, arith,
  length, Bool-cases, ◌==◌, or_else,
}
use nerves_hub_link_esp.Error.{Error, Result, ok, err}
use nerves_hub_link_esp.Checksum.{Digest, matches, finalize_hex_upper}
use nerves_hub_link_esp.Update.{UpdatePayload, actionable}
use nerves_hub_link_esp.Install.{
  World, Run, Call, opened, committed, aborted, HttpStream, ImageSink, Progress, Post, Ensures,
  Ensures-call, Ensures-bind, Calls-Ensures, http_open-Calls, wait-Calls, sink_commit-Calls,
  sink_abort, worth_retrying, wait_for, try_again, open_from, open_image, retry_waits, Copying,
  InstallReport, copy, start_copy, check_size, check_nonempty, check_checksum, verify,
  download_image, finish, install_from, install, u64_mod,
}
use nerves_hub_link_esp.Install.Copy.{written_bytes, IsUnfinished, Faithful, copy_loop-Kept}

-- Nothing written yet.
abbrev Fresh : List Call → Type 0
Fresh cs = IsUnfinished cs × (written_bytes cs ≡ [])

module _ {W : Type 0} (http : HttpStream W) (progress : Progress W) where
  abbrev StillFresh : Option (Result (Option ℕ) × World W) → Type 0
  StillFresh = Ensures (λ _ w. Fresh w.calls) (λ _ w. IsUnfinished w.calls)

  try_again-Fresh :
      (backoff : ℕ) (next : Run W (Option ℕ)) (cs : List Call)
      (r : Option (Result (Option ℕ) × World W))
      → ((w : World W) → Fresh w.calls → StillFresh (next w))
      → Fresh cs
      → Post (λ _ w. w.calls ≡ cs) (λ _ w. w.calls ≡ cs) r
      → StillFresh (try_again http progress backoff next r)
  unfolding try_again written_bytes
  try_again-Fresh backoff next cs none k f n = record { holds = tt }
  try_again-Fresh backoff next cs (some (ok l, w)) k f n = record { holds = rw n f }
  try_again-Fresh backoff next cs (some (err e, w)) k f n = elim (Bool-cases (worth_retrying e)) [
    | inl worth ↦ rw worth (
        Ensures-call (wait-Calls progress (wait_for e backoff) w) (λ _ w1 e1. k w1 (rw (e1, n) f))
          (λ _ w1 e1. rw (e1, n) f.0))
    | inr not_worth ↦ rw not_worth (record { holds = rw n f.0 })
  ]

  open_from-Fresh :
      (waits : List ℕ) (url : String) (w : World W)
      → Fresh w.calls
      → StillFresh (open_from http progress waits url w)
  unfolding open_from written_bytes
  open_from-Fresh [] url w f =
      Calls-Ensures (http_open-Calls http url w) (λ _ w1 e. rw e f) (λ _ w1 e. rw e f.0)
  open_from-Fresh (backoff ∷ rest) url w f =
      try_again-Fresh backoff (open_from http progress rest url) (opened url ∷ w.calls) _
        (open_from-Fresh rest url) f (http_open-Calls http url w).noted

-- What `verify` has checked of a report, against the bytes that the sink was given.
pub record IsVerified {S : Type 0} (digest : Digest S) (update : UpdatePayload) (cs : List Call)
    (report : InstallReport) : Type 0 where
  pub counted : report.bytes ≡ length (written_bytes cs) % u64_mod
  pub hashed :
      report.checksum ≡ finalize_hex_upper digest (digest.update digest.new (written_bytes cs))
  pub nonempty : report.bytes ≢ 0
  pub sized : (total : ℕ) → update.size ≡ some total → report.bytes ≡ total
  pub matching :
      (expected : String)
      → update.checksum ≡ some expected
      → matches expected report.checksum ≡ true
  pub unfinished : IsUnfinished cs

module _ {W S : Type 0} (digest : Digest S) (http : HttpStream W) (sink : ImageSink W)
    (progress : Progress W) where
  check_size-Ensures :
      (expected : Option ℕ) (written : ℕ) (w : World W) (Q : Error → World W → Type 0)
      → ((e : Error) → Q e w)
      → Ensures
          (λ _ w'. (w' ≡ w) × ((total : ℕ) → expected ≡ some total → written ≡ total))
          Q
          (check_size digest http sink progress expected written w)
  unfolding check_size
  check_size-Ensures none written w Q q = record { holds = (refl, λ total e. cc) }
  check_size-Ensures (some n) written w Q q = elim (Bool-cases (written == n)) [
    | inl same ↦ rw same (record { holds = (refl, λ total e. ground arith) })
    | inr other ↦ rw other (record { holds = q _ })
  ]

  check_nonempty-Ensures :
      (written : ℕ) (w : World W) (Q : Error → World W → Type 0)
      → ((e : Error) → Q e w)
      → Ensures
          (λ _ w'. (w' ≡ w) × (written ≢ 0))
          Q
          (check_nonempty digest http sink progress written w)
  unfolding check_nonempty
  check_nonempty-Ensures written w Q q = elim (Bool-cases (written == 0)) [
    | inl empty ↦ rw empty (record { holds = q _ })
    | inr some_bytes ↦ rw some_bytes (record { holds = (refl, λ e. ground arith) })
  ]

  check_checksum-Ensures :
      (checksum : Option String) (actual : String) (w : World W) (Q : Error → World W → Type 0)
      → ((e : Error) → Q e w)
      → Ensures
          (λ _ w'.
            (w' ≡ w)
            × ((expected : String) → checksum ≡ some expected → matches expected actual ≡ true))
          Q
          (check_checksum digest http sink progress checksum actual w)
  unfolding check_checksum
  check_checksum-Ensures none actual w Q q = record { holds = (refl, λ expected e. cc) }
  check_checksum-Ensures (some c) actual w Q q = elim (Bool-cases (matches c actual)) [
    | inl same ↦ rw same (record { holds = (refl, λ expected e. ground arith) })
    | inr other ↦ rw other (record { holds = q _ })
  ]

  verify-Ensures :
      (update : UpdatePayload) (content_length : Option ℕ) (s : Copying S) (w : World W)
      → Faithful digest s w.calls
      → Ensures
          (λ report w'. IsVerified digest update w'.calls report)
          (λ _ w'. IsUnfinished w'.calls)
          (verify digest http sink progress update
            (or_else update.size content_length)
            (s.written, finalize_hex_upper digest s.hasher)
            w)
  unfolding verify
  verify-Ensures update content_length s w f =
      Ensures-bind
        (check_size-Ensures (or_else update.size content_length) s.written w _ (λ _. f.unfinished))
        (λ _ w1 (e1, sized).
          Ensures-bind (check_nonempty-Ensures s.written w1 _ (λ _. rw e1 f.unfinished))
            (λ _ w2 (e2, nonempty).
              Ensures-bind
                (check_checksum-Ensures update.checksum _ w2 _ (λ _. rw (e2, e1) f.unfinished))
                (λ _ w3 (e3, matching). record {
                  holds =
                      rw (e3, e2, e1)
                        (record {
                          counted = f.counted;
                          hashed = ap (finalize_hex_upper digest) f.hashed;
                          nonempty = nonempty;
                          sized = λ total e. sized total (ground (arith, e));
                          matching = matching;
                          unfinished = f.unfinished;
                        });
                })))

  start_copy-Faithful :
      (step : ℕ) (cs : List Call)
      → Fresh cs
      → Faithful digest (start_copy digest http sink progress step) cs
  unfolding start_copy
  start_copy-Faithful step cs f = record {
    hashed = rw f.1 (sym (digest.update-nil digest.new));
    counted = rw f.1;
    unfinished = f.0;
  }

  -- What `copy` returns is read off a state that is true of the calls.
  copy-Ensures :
      (fuel : ℕ) (expected : Option ℕ) (step : ℕ) (w : World W)
      → Fresh w.calls
      → Ensures
          (λ copied w'.
            (s : Copying S) × Faithful digest s w'.calls
            × (copied ≡ (s.written, finalize_hex_upper digest s.hasher)))
          (λ _ w'. IsUnfinished w'.calls)
          (copy digest http sink progress fuel expected step w)
  unfolding copy
  copy-Ensures fuel expected step w f =
      Ensures-bind
        (copy_loop-Kept digest http sink progress fuel expected _ w
          (start_copy-Faithful step w.calls f))
        (λ s w' kept. record { holds = (s, kept, refl) })

  -- What has been downloaded without an error has been verified.
  download_image-Ensures :
      (fuel : ℕ) (update : UpdatePayload) (url : String) (step : ℕ) (w : World W)
      → Fresh w.calls
      → Ensures
          (λ report w'. IsVerified digest update w'.calls report)
          (λ _ w'. IsUnfinished w'.calls)
          (download_image digest http sink progress fuel update url step w)
  unfolding download_image open_image
  download_image-Ensures fuel update url step w f =
      Ensures-bind (open_from-Fresh http progress retry_waits url w f) (λ content_length w1 f1.
        Ensures-bind (copy-Ensures fuel (or_else update.size content_length) step w1 f1)
          (λ copied w2 (s, kept, e). rw e (verify-Ensures update content_length s w2 kept)))

  -- How an installation that failed left the sink.
  pub data Failed (update : UpdatePayload) : List Call → Type 0 where
    not_started : actionable update ≡ none → Failed update []
    given_up : (cs : List Call) → IsUnfinished cs → Failed update (aborted ∷ cs)
    commit_refused :
        (cs : List Call) (report : InstallReport)
        → IsVerified digest update cs report
        → Failed update (committed ∷ cs)

  -- How one that succeeded left it.
  abbrev pub Installed : UpdatePayload → List Call → InstallReport → Type 0
  Installed update [] report = ⊥
  Installed update (c ∷ cs) report = (c ≡ committed) × IsVerified digest update cs report

  finish-Ensures :
      (update : UpdatePayload) (r : Option (Result InstallReport × World W))
      → Ensures
          (λ report w'. IsVerified digest update w'.calls report)
          (λ _ w'. IsUnfinished w'.calls)
          r
      → Ensures
          (λ report w'. Installed update w'.calls report)
          (λ _ w'. Failed update w'.calls)
          (finish digest http sink progress r)
  unfolding finish sink_abort
  finish-Ensures update none h = record { holds = tt }
  finish-Ensures update (some (ok report, w)) h =
      Ensures-call (sink_commit-Calls sink w) (λ _ w' e. record { holds = rw e (refl, h.holds) })
        (λ _ w' e. rw e (commit_refused w.calls report h.holds))
  finish-Ensures update (some (err e, w)) h = record { holds = given_up w.calls h.holds }

  install_from-Ensures :
      (fuel : ℕ) (update : UpdatePayload) (target : Option (String × String)) (step : ℕ) (env : W)
      → actionable update ≡ target
      → Ensures
          (λ report w'. Installed update w'.calls report)
          (λ _ w'. Failed update w'.calls)
          (install_from digest http sink progress fuel update target step
            (record { env = env; calls = [] }))
  unfolding install_from
  install_from-Ensures fuel update none step env e = record { holds = not_started e }
  install_from-Ensures fuel update (some (url, uuid)) step env e =
      finish-Ensures update
        (download_image digest http sink progress fuel update url step
          (record { env = env; calls = [] }))
        (download_image-Ensures fuel update url step _ (tt, (unfold written_bytes in refl)))

  -- However an installation comes out, for any network, flash and progress handler. If it succeeds,
  -- the last call was the commit, the only one, and before it the image was verified: the reported
  -- count and checksum are those of the bytes that the sink was given (the count as a u64), there
  -- is at least one byte, the count is the update's size if it has one, the checksum matches the
  -- update's if it has one, and nothing had been aborted. If it fails, then either the
  -- update was not actionable and nothing was called at all, or the last call was the abort and nothing was ever committed, or an image so
  -- verified was committed and the sink refused it.
  pub install-Ensures :
      (fuel : ℕ) (update : UpdatePayload) (step : ℕ) (env : W)
      → Post
          (λ report w'. Installed update w'.calls report)
          (λ _ w'. Failed update w'.calls)
          (install digest http sink progress fuel update step (record { env = env; calls = [] }))
  unfolding install
  install-Ensures fuel update step env =
      (install_from-Ensures fuel update (actionable update) step env refl).holds
