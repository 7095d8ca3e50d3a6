-- ===== src/Install/Retry.antt =====
-- `open` of src/install.rs: how often a download's start is tried, and how long it is waited for.
use nerves_hub_link_esp.Base.{
  ℕ, suc, ◌+◌, ◌≤◌, max, String, false, ◌≡◌, refl, ◌⊎◌, inl, inr, Option, none, some, List, [], ◌∷◌,
  arith, Bool-cases,
}
use nerves_hub_link_esp.Error.{Error, Result, ok, err, download_status}
use nerves_hub_link_esp.Install.{
  World, Call, opened, waited, HttpStream, Progress, Post, Post-mono, http_open, wait,
  worth_retrying, wait_for, try_again, open_from, open_image, retry_waits, after,
}

-- How many attempts the calls hold, and how many seconds of waiting.
pub attempts : List Call → ℕ
attempts [] = 0
attempts (opened url ∷ cs) = suc (attempts cs)
attempts (_ ∷ cs) = attempts cs

pub waiting : List Call → ℕ
waiting [] = 0
waiting (waited secs ∷ cs) = secs + waiting cs
waiting (_ ∷ cs) = waiting cs

-- A wait is never shorter than the backoff, and never longer than it and the cap of two minutes.
pub wait_for_bounds :
    (e : Error) (backoff : ℕ)
    → (backoff ≤ wait_for e backoff) × (wait_for e backoff ≤ max backoff 120)
unfolding wait_for
wait_for_bounds (download_status status none) backoff = omega arith
wait_for_bounds (download_status status (some secs)) backoff = omega arith
wait_for_bounds _ backoff = omega arith

abbrev budget : List ℕ → ℕ
budget [] = 0
budget (b ∷ bs) = max b 120 + budget bs

abbrev count : List ℕ → ℕ
count [] = 0
count (b ∷ bs) = suc (count bs)

-- The calls that `open` adds: attempts and waits, within what `waits` allows.
pub record Tried (waits : List ℕ) (before after : List Call) : Type 0 where
  pub once : suc (attempts before) ≤ attempts after
  pub at_most : attempts after ≤ suc (attempts before + count waits)
  pub patience : waiting after ≤ waiting before + budget waits

-- Why an error is given up on, the environment being `env` then: the last attempt's error is not worth
-- retrying, or it was the last one allowed; or the last wait gave this very error.
abbrev pub GaveUp : {W : Type 0} → Progress W → List ℕ → List Call → Error → W → List Call → Type 0
GaveUp progress waits before e env (opened url ∷ cs) =
    (worth_retrying e ≡ false) ⊎ (suc (attempts cs) ≡ suc (attempts before + count waits))
GaveUp {W} progress waits before e env (waited secs ∷ cs) =
    (at : W) × (progress.on_wait secs at ≡ (err e, env))
GaveUp progress waits before e env _ = ⊥

-- After an attempt and a wait, what the rest may add.
Tried-more :
    (backoff s : ℕ) (rest : List ℕ) (url : String) (before after : List Call)
    → s ≤ max backoff 120
    → Tried rest (waited s ∷ opened url ∷ before) after
    → Tried (backoff ∷ rest) before after
unfolding attempts waiting
Tried-more backoff s rest url before after le t = omega arith

GaveUp-more :
    {W : Type 0} (progress : Progress W) (env : W) (backoff s : ℕ) (rest : List ℕ) (url : String)
    (before : List Call) (e : Error) (after : List Call)
    → GaveUp progress rest (waited s ∷ opened url ∷ before) e env after
    → GaveUp progress (backoff ∷ rest) before e env after
unfolding attempts
GaveUp-more progress env backoff s rest url before e (opened u ∷ cs) (inl refused) = inl refused
GaveUp-more progress env backoff s rest url before e (opened u ∷ cs) (inr used) = inr (omega arith)
GaveUp-more progress env backoff s rest url before e (waited t ∷ cs) g = g
GaveUp-more progress env backoff s rest url before e _ g = g

module _ {W : Type 0} (http : HttpStream W) (progress : Progress W) where
  abbrev Outcome : List ℕ → List Call → Option (Result (Option ℕ) × World W) → Type 0
  Outcome waits before =
      Post (λ _ w'. Tried waits before w'.calls)
        (λ e w'. Tried waits before w'.calls × GaveUp progress waits before e w'.env w'.calls)

  after_wait :
      (backoff s : ℕ) (rest : List ℕ) (url : String) (before : List Call)
      → s ≤ max backoff 120
      → ((w : World W) → Outcome rest w.calls (open_from http progress rest url w))
      → (r : Result (Unit {0})) (env at : W) → progress.on_wait s at ≡ (r, env)
      → Outcome (backoff ∷ rest) before (
          after
            (some (r, record { env = env; calls = waited s ∷ opened url ∷ before }))
            (λ _. open_from http progress rest url))
  unfolding attempts waiting
  after_wait backoff s rest url before le ih (ok _) env at gave =
      Post-mono _ _ _ _ (open_from http progress rest url _)
        (ih (record { env = env; calls = waited s ∷ opened url ∷ before }))
        (λ a w t. Tried-more backoff s rest url before w.calls le t)
        (λ e w (t, g). (
          Tried-more backoff s rest url before w.calls le t,
          GaveUp-more progress w.env backoff s rest url before e w.calls g,
        ))
  after_wait backoff s rest url before le ih (err e) env at gave = (omega arith, (at, gave))

  after_try :
      (backoff : ℕ) (rest : List ℕ) (url : String) (before : List Call)
      → ((w : World W) → Outcome rest w.calls (open_from http progress rest url w))
      → (r : Result (Option ℕ)) (env : W)
      → Outcome (backoff ∷ rest) before (
          try_again http progress backoff
            (open_from http progress rest url)
            (some (r, record { env = env; calls = opened url ∷ before })))
  unfolding try_again attempts waiting wait
  after_try backoff rest url before ih (ok l) env = omega arith
  after_try backoff rest url before ih (err e) env = elim (Bool-cases (worth_retrying e)) [
    | inl worth ↦ rw worth (
        after_wait backoff (wait_for e backoff) rest url before (wait_for_bounds e backoff).1 ih _ _
          env refl)
    | inr not_worth ↦ rw not_worth (omega arith, inl not_worth)
  ]

  first_try :
      (url : String) (before : List Call) (r : Result (Option ℕ)) (env : W)
      → Outcome [] before (some (r, record { env = env; calls = opened url ∷ before }))
  unfolding attempts waiting
  first_try url before (ok l) env = omega arith
  first_try url before (err e) env = (omega arith, inr (omega arith))

  open_from-Tried :
      (waits : List ℕ) (url : String) (w : World W)
      → Outcome waits w.calls (open_from http progress waits url w)
  unfolding open_from http_open
  open_from-Tried [] url w = first_try url w.calls (http.open_url url w.env).0 _
  open_from-Tried (backoff ∷ rest) url w =
      after_try backoff rest url w.calls (open_from-Tried rest url) (http.open_url url w.env).0 _

  -- A download is asked for at least once and at most four times, and waited for six minutes at most
  -- between the attempts. An error comes back only when it is one that is not worth retrying, when
  -- the four attempts are used up, or when the wait itself failed, with that error.
  pub open_image-Tried :
      (url : String) (w : World W)
      → Post
          (λ _ w'. Tried retry_waits w.calls w'.calls)
          (λ e w'.
            Tried retry_waits w.calls w'.calls
            × GaveUp progress retry_waits w.calls e w'.env w'.calls)
          (open_image http progress url w)
  unfolding open_image
  open_image-Tried url w = open_from-Tried retry_waits url w
