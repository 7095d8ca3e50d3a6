-- ===== src/Install/Copy.antt =====
-- The loop of `copy` in src/install.rs: what has been hashed and counted is what the sink was given.
use nerves_hub_link_esp.Base.{
  ℕ, zero, suc, ◌+◌, ◌%◌, ◌≡◌, ap, ◌∙◌, inl, inr, Option, none, some, List, [], ◌∷◌, ◌++◌, arith,
  length, length-append, Bool-cases, ltb,
}
use nerves_hub_link_esp.Error.{Result}
use nerves_hub_link_esp.Checksum.{Digest}
use nerves_hub_link_esp.Update
use nerves_hub_link_esp.Update.{Stage, downloading}
use nerves_hub_link_esp.Install.{
  World, Run, Call, wrote, committed, aborted, HttpStream, ImageSink, Progress, pure, ◌>>◌, Ensures,
  Ensures-call, Ensures-bind, report-Calls, tick-Calls, sink_write-Calls, http_read-Calls, Copying,
  report_percent, check_progress, copy_chunk, got, copy_loop, u64_mod, chunk_size,
}

-- The bytes that the sink was given, in order.
unfoldable pub written_bytes : List Call → List ℕ
written_bytes [] = []
written_bytes (wrote chunk ∷ cs) = written_bytes cs ++ chunk
written_bytes (_ ∷ cs) = written_bytes cs

-- Neither committed nor aborted.
abbrev pub IsUnfinished : List Call → Type 0
IsUnfinished [] = Unit {0}
IsUnfinished (committed ∷ cs) = ⊥
IsUnfinished (aborted ∷ cs) = ⊥
IsUnfinished (_ ∷ cs) = IsUnfinished cs

-- The hasher and the count after one more chunk.
chunk_step :
    {S : Type 0} (digest : Digest S) (s : Copying S) (cs : List Call) (chunk : List ℕ)
    → s.hasher ≡ digest.update digest.new (written_bytes cs)
    → s.written ≡ length (written_bytes cs) % u64_mod
    → (digest.update s.hasher chunk ≡ digest.update digest.new (written_bytes cs ++ chunk))
      × ((s.written + length chunk) % u64_mod ≡ length (written_bytes cs ++ chunk) % u64_mod)
chunk_step digest s cs chunk h c = (
  ap (λ k. digest.update k chunk) h ∙ digest.update-append digest.new (written_bytes cs) chunk,
  omega (arith, c, length-append (written_bytes cs) chunk),
)

-- The state of the loop is true of the calls so far.
pub record Faithful {S : Type 0} (digest : Digest S) (s : Copying S) (cs : List Call) : Type 0 where
  pub hashed : s.hasher ≡ digest.update digest.new (written_bytes cs)
  pub counted : s.written ≡ length (written_bytes cs) % u64_mod
  pub unfinished : IsUnfinished cs

module _ {W S : Type 0} (digest : Digest S) (http : HttpStream W) (sink : ImageSink W)
    (progress : Progress W) where
  -- How a step of the loop leaves the state and the calls, or the calls alone.
  abbrev pub Kept : Option (Result (Copying S) × World W) → Type 0
  Kept = Ensures (λ s w. Faithful digest s w.calls) (λ _ w. IsUnfinished w.calls)

  report_percent-Kept :
      (percent : Option ℕ) (s : Copying S) (w : World W)
      → Faithful digest s w.calls
      → Kept ((report_percent digest http sink progress percent >> pure s) w)
  unfolding report_percent written_bytes
  report_percent-Kept none s w f = record { holds = f }
  report_percent-Kept (some p) s w f =
      Ensures-call (report-Calls progress downloading p w)
        (λ _ w' e. record {
          holds =
              rw e (record { hashed = f.hashed; counted = f.counted; unfinished = f.unfinished });
        })
        (λ _ w' e. rw e f.unfinished)

  check_progress-Kept :
      (expected : Option ℕ) (s : Copying S) (w : World W)
      → Faithful digest s w.calls
      → Kept (check_progress digest http sink progress expected s w)
  unfolding check_progress
  check_progress-Kept none s w f = record { holds = f }
  check_progress-Kept (some total) s w f = elim (Bool-cases (ltb total s.written)) [
    | inl long ↦ rw long (record { holds = f.unfinished })
    | inr fits ↦ rw fits (
        let t = Update.take s.throttle s.written total in
        report_percent-Kept t.1 (record s { throttle = t.0 }) w
          (record { hashed = f.hashed; counted = f.counted; unfinished = f.unfinished }))
  ]

  copy_chunk-Kept :
      (expected : Option ℕ) (chunk : List ℕ) (s : Copying S) (w : World W)
      → Faithful digest s w.calls
      → Kept (copy_chunk digest http sink progress expected chunk s w)
  unfolding copy_chunk written_bytes
  copy_chunk-Kept expected chunk s w f =
      let next = chunk_step digest s w.calls chunk f.hashed f.counted in
      Ensures-call (sink_write-Calls sink chunk w)
        (λ _ w1 e1.
          Ensures-call (tick-Calls progress w1)
            (λ _ w2 e2. check_progress-Kept expected _ w2 (
              rw (e2, e1)
                (record { hashed = next.0; counted = next.1; unfinished = f.unfinished })))
            (λ _ w2 e2. rw (e2, e1) f.unfinished))
        (λ _ w1 e1. rw e1 f.unfinished)

  got-Kept :
      (rest : Copying S → Run W (Copying S)) (expected : Option ℕ) (s : Copying S)
      → ((s' : Copying S) (w : World W) → Faithful digest s' w.calls → Kept (rest s' w))
      → (chunk : List ℕ) (w : World W) → Faithful digest s w.calls
      → Kept (got digest http sink progress rest expected s chunk w)
  unfolding got
  got-Kept rest expected s ih [] w f = record { holds = f }
  got-Kept rest expected s ih (b ∷ bs) w f =
      Ensures-bind (copy_chunk-Kept expected (b ∷ bs) s w f) (λ s' w' f'. ih s' w' f')

  -- The loop keeps its state true of the calls, for as long as it runs.
  pub copy_loop-Kept :
      (fuel : ℕ) (expected : Option ℕ) (s : Copying S) (w : World W)
      → Faithful digest s w.calls
      → Kept (copy_loop digest http sink progress fuel expected s w)
  unfolding copy_loop written_bytes
  copy_loop-Kept zero expected s w f = record { holds = tt }
  copy_loop-Kept (suc fuel) expected s w f =
      Ensures-call (http_read-Calls http chunk_size w)
        (λ chunk w1 e.
          got-Kept (copy_loop digest http sink progress fuel expected) expected s
            (copy_loop-Kept fuel expected) chunk w1
            (rw e (record { hashed = f.hashed; counted = f.counted; unfinished = f.unfinished })))
        (λ _ w1 e. rw e f.unfinished)
