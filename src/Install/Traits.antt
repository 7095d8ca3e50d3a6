-- ===== src/Install/Traits.antt =====
-- The traits of src/install.rs (`HttpStream`, `ImageSink`, `Progress`) as parameters over a world of
-- any type, and the calls that the code makes of them, kept newest first beside that world.
use nerves_hub_link_esp.Base.{ℕ, String, ◌≡◌, refl, Option, none, some, List, ◌∷◌}
use nerves_hub_link_esp.Error.{Error, Result, ok, err}
use nerves_hub_link_esp.Update.{Stage}

pub data Call : Type 0 where
  opened : String → Call
  read_some : Call
  wrote : List ℕ → Call
  committed aborted ticked : Call
  reported : Stage → ℕ → Call
  waited : ℕ → Call

pub record World (W : Type 0) : Type 0 where
  pub env : W
  pub calls : List Call

-- An implementation of a trait is a function of the world, which it may change.
pub record HttpStream (W : Type 0) : Type 0 where
  pub open_url : String → W → Result (Option ℕ) × W
  pub read_into : ℕ → W → Result (List ℕ) × W

pub record ImageSink (W : Type 0) : Type 0 where
  pub write_chunk : List ℕ → W → Result (Unit {0}) × W
  pub commit_image : W → Result (Unit {0}) × W
  pub abort_image : W → W

pub record Progress (W : Type 0) : Type 0 where
  pub on_tick : W → Result (Unit {0}) × W
  pub on_report : Stage → ℕ → W → Result (Unit {0}) × W
  pub on_wait : ℕ → W → Result (Unit {0}) × W

-- `none` means that the fuel of a loop ran out.
abbrev pub Run : Type 0 → Type 0 → Type 0
Run W A = World W → Option (Result A × World W)

module _ {W A : Type 0} where
  abbrev pub pure : A → Run W A
  pure a w = some (ok a, w)

  abbrev pub fail : Error → Run W A
  fail e w = some (err e, w)

  -- A call of a trait: it is noted, and changes the world.
  abbrev calling : Call → (W → Result A × W) → Run W A
  calling c f w = let (r, env) = f w.env in some (r, record { env = env; calls = c ∷ w.calls })

-- `?`: an error ends the run, in the world that the failing call left.
abbrev pub after :
    {W A B : Type 0} → Option (Result A × World W) → (A → Run W B) → Option (Result B × World W)
after none f = none
after (some (ok a, w)) f = f a w
after (some (err e, w)) f = some (err e, w)

infixl 5 ◌>>=◌ ◌>>◌
abbrev pub ◌>>=◌ : {W A B : Type 0} → Run W A → (A → Run W B) → Run W B
◌>>=◌ m f w = after (m w) f

abbrev pub ◌>>◌ : {W A B : Type 0} → Run W A → Run W B → Run W B
m >> k = m >>= λ _. k

module _ {W : Type 0} where
  unfoldable pub http_open : HttpStream W → String → Run W (Option ℕ)
  http_open http url = calling (opened url) (http.open_url url)

  unfoldable pub http_read : HttpStream W → ℕ → Run W (List ℕ)
  http_read http size = calling read_some (http.read_into size)

  unfoldable pub sink_write : ImageSink W → List ℕ → Run W (Unit {0})
  sink_write sink chunk = calling (wrote chunk) (sink.write_chunk chunk)

  unfoldable pub sink_commit : ImageSink W → Run W (Unit {0})
  sink_commit sink = calling committed sink.commit_image

  unfoldable pub sink_abort : ImageSink W → World W → World W
  sink_abort sink w = record { env = sink.abort_image w.env; calls = aborted ∷ w.calls }

  unfoldable pub tick : Progress W → Run W (Unit {0})
  tick progress = calling ticked progress.on_tick

  unfoldable pub report : Progress W → Stage → ℕ → Run W (Unit {0})
  report progress stage percent =
      calling (reported stage percent) (progress.on_report stage percent)

  unfoldable pub wait : Progress W → ℕ → Run W (Unit {0})
  wait progress secs = calling (waited secs) (progress.on_wait secs)

-- What holds of a run that has ended: `P` of a value, `Q` of an error, with the world left behind.
abbrev pub Post {ℓ} :
    {W A : Type 0}
    → (A → World W → Type ℓ)
    → (Error → World W → Type ℓ)
    → Option (Result A × World W)
    → Type ℓ
Post P Q none = Unit
Post P Q (some (ok a, w)) = P a w
Post P Q (some (err e, w)) = Q e w

module _ {ℓ} {W A B : Type 0} where
  pub Post-after :
      (P : A → World W → Type ℓ) (P' : B → World W → Type ℓ) (Q : Error → World W → Type ℓ)
      (r : Option (Result A × World W)) (f : A → Run W B)
      → Post P Q r
      → ((a : A) (w : World W) → P a w → Post P' Q (f a w))
      → Post P' Q (after r f)
  Post-after P P' Q none f h k = h
  Post-after P P' Q (some (ok a, w)) f h k = k a w h
  Post-after P P' Q (some (err e, w)) f h k = h

module _ {ℓ κ} {W A : Type 0} where
  pub Post-mono :
      (P : A → World W → Type ℓ) (P' : A → World W → Type κ) (Q : Error → World W → Type ℓ)
      (Q' : Error → World W → Type κ) (r : Option (Result A × World W))
      → Post P Q r
      → ((a : A) (w : World W) → P a w → P' a w)
      → ((e : Error) (w : World W) → Q e w → Q' e w)
      → Post P' Q' r
  Post-mono P P' Q Q' none h p q = tt
  Post-mono P P' Q Q' (some (ok a, w)) h p q = p a w h
  Post-mono P P' Q Q' (some (err e, w)) h p q = q e w h

-- A run that ends, its fuel being enough, and if in a value then in one with `P`.
abbrev EndsWith : {W A : Type 0} → (A → Type 0) → Option (Result A × World W) → Type 0
EndsWith P none = ⊥
EndsWith P (some (ok a, w)) = P a
EndsWith P (some (err e, w)) = Unit {0}

pub record EndsIn {W A : Type 0} (P : A → Type 0) (r : Option (Result A × World W)) : Type 0 where
  pub ends : EndsWith P r

module _ {W A B : Type 0} where
  EndsWith-bind :
      (P : A → Type 0) (P' : B → Type 0) (r : Option (Result A × World W)) (f : A → Run W B)
      → EndsWith P r
      → ((a : A) (w : World W) → P a → EndsIn P' (f a w))
      → EndsIn P' (after r f)
  EndsWith-bind P P' none f h k = absurd h
  EndsWith-bind P P' (some (ok a, w)) f h k = k a w h
  EndsWith-bind P P' (some (err e, w)) f h k = record { ends = tt }

  pub EndsIn-bind :
      {P : A → Type 0} {P' : B → Type 0} {r : Option (Result A × World W)} {f : A → Run W B}
      → EndsIn P r
      → ((a : A) (w : World W) → P a → EndsIn P' (f a w))
      → EndsIn P' (after r f)
  EndsIn-bind {P} {P'} {r} {f} h k = EndsWith-bind P P' r f h.ends k

module _ {W A : Type 0} where
  -- A call of a trait always ends.
  pub EndsIn-answer :
      (P : A → Type 0) (r : Result A) (w : World W)
      → ((a : A) → r ≡ ok a → P a)
      → EndsIn P (some (r, w))
  EndsIn-answer P (ok a) w h = record { ends = h a refl }
  EndsIn-answer P (err e) w h = record { ends = tt }

-- Whatever a trait answers, its call is noted, and nothing else is.
pub record Calls {W A : Type 0} (cs : List Call) (r : Option (Result A × World W)) : Type 0 where
  pub noted : Post (λ _ w'. w'.calls ≡ cs) (λ _ w'. w'.calls ≡ cs) r

-- `Post`, as a statement of its own.
pub record Ensures {W A : Type 0} (P : A → World W → Type 0) (Q : Error → World W → Type 0)
    (r : Option (Result A × World W)) : Type 0 where
  pub holds : Post P Q r

module _ {W A : Type 0} where
  pub Calls-Ensures :
      {P : A → World W → Type 0} {Q : Error → World W → Type 0} {cs : List Call}
      {r : Option (Result A × World W)}
      → Calls cs r
      → ((a : A) (w : World W) → w.calls ≡ cs → P a w)
      → ((e : Error) (w : World W) → w.calls ≡ cs → Q e w)
      → Ensures P Q r
  Calls-Ensures {P} {Q} {cs} {r} c p q = record {
    holds = Post-mono (λ _ w. w.calls ≡ cs) P (λ _ w. w.calls ≡ cs) Q r c.noted p q;
  }

module _ {W A B : Type 0} where
  Ensures-noted :
      (P : B → World W → Type 0) (Q : Error → World W → Type 0) (cs : List Call)
      (r : Option (Result A × World W)) (f : A → Run W B)
      → Post (λ _ w'. w'.calls ≡ cs) (λ _ w'. w'.calls ≡ cs) r
      → ((a : A) (w : World W) → w.calls ≡ cs → Ensures P Q (f a w))
      → ((e : Error) (w : World W) → w.calls ≡ cs → Q e w)
      → Ensures P Q (after r f)
  Ensures-noted P Q cs none f h k q = record { holds = tt }
  Ensures-noted P Q cs (some (ok a, w)) f h k q = k a w h
  Ensures-noted P Q cs (some (err e, w)) f h k q = record { holds = q e w h }

  -- A call of a trait, then the rest of the block.
  pub Ensures-call :
      {P : B → World W → Type 0} {Q : Error → World W → Type 0} {cs : List Call}
      {r : Option (Result A × World W)} {f : A → Run W B}
      → Calls cs r
      → ((a : A) (w : World W) → w.calls ≡ cs → Ensures P Q (f a w))
      → ((e : Error) (w : World W) → w.calls ≡ cs → Q e w)
      → Ensures P Q (after r f)
  Ensures-call {P} {Q} {cs} {r} {f} c k q = Ensures-noted P Q cs r f c.noted k q

  -- Any run, then the rest of the block.
  pub Ensures-bind :
      {P : A → World W → Type 0} {P' : B → World W → Type 0} {Q : Error → World W → Type 0}
      {r : Option (Result A × World W)} {f : A → Run W B}
      → Ensures P Q r
      → ((a : A) (w : World W) → P a w → Ensures P' Q (f a w))
      → Ensures P' Q (after r f)
  Ensures-bind {P} {P'} {Q} {r} {f} h k = record {
    holds = Post-after P P' Q r f h.holds (λ a w p. (k a w p).holds);
  }

module _ {W : Type 0} where
  called :
      {A : Type 0} (r : Result A) (env : W) (cs : List Call)
      → Calls {W = W} {A = A} cs (some (r, record { env = env; calls = cs }))
  called (ok a) env cs = record { noted = refl }
  called (err e) env cs = record { noted = refl }

  pub http_open-Calls :
      (http : HttpStream W) (url : String) (w : World W)
      → Calls (opened url ∷ w.calls) (http_open http url w)
  unfolding http_open
  http_open-Calls http url w = called (http.open_url url w.env).0 _ _

  pub http_read-Calls :
      (http : HttpStream W) (n : ℕ) (w : World W) → Calls (read_some ∷ w.calls) (http_read http n w)
  unfolding http_read
  http_read-Calls http n w = called (http.read_into n w.env).0 _ _

  pub sink_write-Calls :
      (sink : ImageSink W) (chunk : List ℕ) (w : World W)
      → Calls (wrote chunk ∷ w.calls) (sink_write sink chunk w)
  unfolding sink_write
  sink_write-Calls sink chunk w = called (sink.write_chunk chunk w.env).0 _ _

  pub sink_commit-Calls :
      (sink : ImageSink W) (w : World W) → Calls (committed ∷ w.calls) (sink_commit sink w)
  unfolding sink_commit
  sink_commit-Calls sink w = called (sink.commit_image w.env).0 _ _

  pub tick-Calls :
      (progress : Progress W) (w : World W) → Calls (ticked ∷ w.calls) (tick progress w)
  unfolding tick
  tick-Calls progress w = called (progress.on_tick w.env).0 _ _

  pub report-Calls :
      (progress : Progress W) (stage : Stage) (percent : ℕ) (w : World W)
      → Calls (reported stage percent ∷ w.calls) (report progress stage percent w)
  unfolding report
  report-Calls progress stage percent w = called (progress.on_report stage percent w.env).0 _ _

  pub wait-Calls :
      (progress : Progress W) (secs : ℕ) (w : World W)
      → Calls (waited secs ∷ w.calls) (wait progress secs w)
  unfolding wait
  wait-Calls progress secs w = called (progress.on_wait secs w.env).0 _ _
