-- ===== src/Logging/Batches.antt =====
-- What a batch of log lines holds (src/logging.rs, `LogBuffer::take_stamped`).
use nerves_hub_link_esp.Base.{
  ℕ, suc, ◌+◌, ◌-◌, ◌≤◌, ◌≡◌, refl, ap, sym, ◌∙◌, ◌⊎◌, inl, inr, Bool, true, false, not, ◌&&◌,
  Option, none, some, List, [], ◌∷◌, ◌++◌, arith, ltb, ◌==◌, length, length-append, append_assoc,
  append_nil, if_intro, if◌then◌else◌,
}
use nerves_hub_link_esp.Logging.Lines.{LogLine, Allocator, heap_cost, approximate_json_len, stamp}
use nerves_hub_link_esp.Logging.{
  LogBuffer, pop, pop_note, pop_from, dropped_note, Taken, take_lines, add_note, take_backlog,
  take_stamped, later,
}

unfoldable pub sizes : List LogLine → ℕ
sizes [] = 0
sizes (l ∷ ls) = approximate_json_len l + sizes ls

module _ (a : Allocator) where
  -- Lines stamped as they leave, from the `n`th of their batch on.
  unfoldable pub stamp_all : Option ℕ → ℕ → List LogLine → List LogLine
  unfolding later
  stamp_all now n [] = []
  stamp_all now n (l ∷ ls) = stamp a l (later a now n) ∷ stamp_all now (suc n) ls

  length-stamp_all :
      (now : Option ℕ) (n : ℕ) (ls : List LogLine) → length (stamp_all now n ls) ≡ length ls
  unfolding stamp_all
  length-stamp_all now n [] = refl
  length-stamp_all now n (l ∷ ls) = omega (arith, length-stamp_all now (suc n) ls)

  -- From lines `ls` and a part of a batch that has `size` bytes.
  record Took (max_lines max_bytes : ℕ) (now : Option ℕ) (ls batch : List LogLine) (size : ℕ)
      (t : Taken a) : Type 0 where
    taken : List LogLine
    split : ls ≡ taken ++ t.left
    stamped : t.batch ≡ batch ++ stamp_all now (length batch) taken
    few : length batch ≤ max_lines → length t.batch ≤ max_lines
    small :
        (length batch ≤ 1) ⊎ (size ≤ max_bytes)
        → (length t.batch ≤ 1) ⊎ (size + sizes taken ≤ max_bytes)
    drained : t.full ≡ false → suc (length t.batch) ≤ max_lines → t.left ≡ []

  Took-none :
      (max_lines max_bytes : ℕ) (now : Option ℕ) (ls batch : List LogLine) (size : ℕ) (held : ℕ)
      (full : Bool)
      → (full ≡ false → suc (length batch) ≤ max_lines → ls ≡ [])
      → Took max_lines max_bytes now ls batch size
          (record { left = ls; left_bytes = held; batch = batch; full = full })
  unfolding stamp_all sizes
  Took-none max_lines max_bytes now ls batch size held full d = record {
    taken = [];
    split = refl;
    stamped = sym (append_nil batch);
    few = λ h. h;
    small = λ h. ground arith;
    drained = d;
  }

  Took-one :
      (max_lines max_bytes : ℕ) (now : Option ℕ) (l : LogLine) (ls batch : List LogLine) (size : ℕ)
      (t : Taken a)
      → suc (length batch) ≤ max_lines
      → (length batch ≡ 0) ⊎ (size + approximate_json_len l ≤ max_bytes)
      → Took max_lines max_bytes now ls
          (batch ++ stamp a l (later a now (length batch)) ∷ [])
          (size + approximate_json_len l)
          t
      → Took max_lines max_bytes now (l ∷ ls) batch size t
  unfolding stamp_all sizes
  Took-one max_lines max_bytes now l ls batch size t room fits h =
      let s = stamp a l (later a now (length batch)) in
      let one : length (batch ++ s ∷ []) ≡ suc (length batch) =
        omega (arith, length-append batch (s ∷ [])) in
      record {
        taken = l ∷ h.taken;
        split = ap (λ k. l ∷ k) h.split;
        stamped =
            h.stamped
            ∙ append_assoc batch (s ∷ []) (stamp_all now (length (batch ++ s ∷ [])) h.taken)
            ∙ ap (λ n. batch ++ (s ∷ stamp_all now n h.taken)) one;
        few = λ k. h.few (omega (arith, one));
        small = λ k. small_lem (h.small (one_fits fits));
        drained = h.drained;
      }
    where
      one_fits :
          (length batch ≡ 0) ⊎ (size + approximate_json_len l ≤ max_bytes)
          → (length (batch ++ stamp a l (later a now (length batch)) ∷ []) ≤ 1)
            ⊎ (size + approximate_json_len l ≤ max_bytes)
      one_fits (inl e) =
          inl (omega (arith, length-append batch (stamp a l (later a now (length batch)) ∷ [])))
      one_fits (inr e) = inr e

      small_lem :
          (length t.batch ≤ 1) ⊎ (size + approximate_json_len l + sizes h.taken ≤ max_bytes)
          → (length t.batch ≤ 1) ⊎ (size + (approximate_json_len l + sizes h.taken) ≤ max_bytes)
      small_lem (inl e) = inl e
      small_lem (inr e) = inr (omega arith)

  take_lines-Took :
      (max_lines max_bytes : ℕ) (now : Option ℕ) (ls : List LogLine) (held : ℕ)
      (batch : List LogLine) (size : ℕ)
      → Took max_lines max_bytes now ls batch size
          (take_lines a max_lines max_bytes now ls held batch size)
  unfolding take_lines
  take_lines-Took max_lines max_bytes now [] held batch size =
      Took-none max_lines max_bytes now [] batch size held false (λ f m. refl)
  take_lines-Took max_lines max_bytes now (l ∷ ls) held batch size =
      let ih =
        take_lines-Took max_lines max_bytes now ls (held - heap_cost a l)
          (batch ++ stamp a l (later a now (length batch)) ∷ []) (size + approximate_json_len l) in
      if_intro (Took max_lines max_bytes now (l ∷ ls) batch size) (ltb (length batch) max_lines) _ _
        (λ more.
          if_intro (Took max_lines max_bytes now (l ∷ ls) batch size)
            (not (length batch == 0) && ltb max_bytes (size + approximate_json_len l)) _ _
            (λ over.
              Took-none max_lines max_bytes now (l ∷ ls) batch size held true
                (λ f m. absurd (ground arith)))
            (λ fits.
              Took-one max_lines max_bytes now l ls batch size _ (ground arith) (ground arith) ih))
        (λ enough.
          Took-none max_lines max_bytes now (l ∷ ls) batch size held false
            (λ f m. absurd (ground arith)))

  -- What joins a batch under the second lock, from a buffer that the first lock `left`, and the buffer
  -- after it: nothing; or, once the backlog had been emptied, what `pop` gives of the buffer as other
  -- tasks have made it.
  pub data Added (meanwhile : LogBuffer → LogBuffer) (left : LogBuffer)
      : List LogLine → LogBuffer → Type 0 where
    nothing : Added meanwhile left [] left
    none_popped :
        left.lines ≡ []
        → (pop a (meanwhile left)).1 ≡ none
        → Added meanwhile left [] (pop a (meanwhile left)).0
    popped :
        left.lines ≡ []
        → (l : LogLine) → (pop a (meanwhile left)).1 ≡ some l
        → Added meanwhile left (l ∷ []) (pop a (meanwhile left)).0

  -- A batch taken from lines: those `taken` under the first lock, and a `last` one under the second.
  pub record IsBatch (meanwhile : LogBuffer → LogBuffer) (max_lines max_bytes : ℕ) (now : Option ℕ)
      (lines : List LogLine) (dropped : ℕ) (r : LogBuffer × List LogLine) : Type 0 where
    pub taken : List LogLine
    pub left : LogBuffer
    pub last : List LogLine
    pub order : lines ≡ taken ++ left.lines
    pub same_count : left.dropped ≡ dropped
    pub stamped : r.1 ≡ stamp_all now 0 (taken ++ last)
    pub few : length r.1 ≤ max_lines
    pub small : (length taken ≤ 1) ⊎ (sizes taken ≤ max_bytes)
    pub added : Added meanwhile left last r.0
    pub noted :
        (meanwhile left).lines ≡ []
        → (last ≡ []) ⊎ (last ≡ dropped_note a (meanwhile left).dropped ∷ [])

  stamp_all-append_one :
      (now : Option ℕ) (n : ℕ) (ls : List LogLine) (l : LogLine)
      → stamp_all now n (ls ++ l ∷ [])
        ≡ stamp_all now n ls ++ stamp a l (later a now (n + length ls)) ∷ []
  unfolding stamp_all
  stamp_all-append_one now n [] l = ap (λ k. stamp a l (later a now k) ∷ []) (omega arith)
  stamp_all-append_one now n (m ∷ ls) l =
      ap (λ k. stamp a m (later a now n) ∷ k)
        (stamp_all-append_one now (suc n) ls l
          ∙ ap (λ k. stamp_all now (suc n) ls ++ stamp a l (later a now k) ∷ []) (omega arith))

  -- What `pop` gives of an empty backlog.
  record PopsNote (b : LogBuffer) (r : LogBuffer × Option LogLine) : Type 0 where
    which : (r.1 ≡ none) ⊎ (r.1 ≡ some (dropped_note a b.dropped))
    empty : r.0.lines ≡ []

  pop_from-empty :
      (b : LogBuffer) (ls : List LogLine) → b.lines ≡ [] → ls ≡ [] → PopsNote b (pop_from a b ls)
  unfolding pop_from pop_note
  pop_from-empty b [] e f = record {
    which =
        if_intro (λ o. (o ≡ none) ⊎ (o ≡ some (dropped_note a b.dropped))) (b.dropped == 0) none
          (some (dropped_note a b.dropped)) (λ z. inl refl) (λ z. inr refl);
    empty = e;
  }
  pop_from-empty b (l ∷ ls) e f = absurd (ground arith)

  pop-empty : (b : LogBuffer) → b.lines ≡ [] → PopsNote b (pop a b)
  unfolding pop
  pop-empty b e =
      if_intro (PopsNote b) b.poisoned (b, none) (pop_from a b b.lines)
        (λ p. record { which = inl refl; empty = e }) (λ p. pop_from-empty b b.lines e e)

  -- What the first lock gave.
  batch_lem :
      (meanwhile : LogBuffer → LogBuffer) (max_lines max_bytes : ℕ) (now : Option ℕ)
      (lines : List LogLine) (b b' : LogBuffer) (t : Taken a)
      → Took max_lines max_bytes now lines [] 0 t
      → b.lines ≡ t.left
      → Added meanwhile b [] b'
      → IsBatch meanwhile max_lines max_bytes now lines b.dropped (b', t.batch)
  batch_lem meanwhile max_lines max_bytes now lines b b' t k e added = record {
    taken = k.taken;
    left = b;
    last = [];
    order = k.split ∙ ap (λ z. k.taken ++ z) (sym e);
    same_count = refl;
    stamped = k.stamped ∙ ap (stamp_all now 0) (sym (append_nil k.taken));
    few = k.few (omega arith);
    small = small_lem (k.small (inl (omega arith)));
    added = added;
    noted = λ _. inl refl;
  }
    where
      small_lem :
          (length t.batch ≤ 1) ⊎ (0 + sizes k.taken ≤ max_bytes)
          → (length k.taken ≤ 1) ⊎ (sizes k.taken ≤ max_bytes)
      small_lem (inl e) = inl (omega (arith, ap length k.stamped, length-stamp_all now 0 k.taken))
      small_lem (inr e) = inr (omega arith)

  -- The backlog was emptied, and the batch has room for one more.
  last_lem :
      (meanwhile : LogBuffer → LogBuffer) (max_lines max_bytes : ℕ) (now : Option ℕ)
      (lines : List LogLine) (b : LogBuffer) (t : Taken a)
      → Took max_lines max_bytes now lines [] 0 t
      → b.lines ≡ t.left
      → t.left ≡ []
      → suc (length t.batch) ≤ max_lines
      → (o : Option LogLine) → (pop a (meanwhile b)).1 ≡ o
      → IsBatch meanwhile max_lines max_bytes now lines b.dropped
          (add_note a now t.batch ((pop a (meanwhile b)).0, o))
  unfolding add_note batch_lem
  last_lem meanwhile max_lines max_bytes now lines b t k e empty room none p =
      batch_lem meanwhile max_lines max_bytes now lines b (pop a (meanwhile b)).0 t k e
        (none_popped (e ∙ empty) p)
  last_lem meanwhile max_lines max_bytes now lines b t k e empty room (some l) p =
      let all : t.batch ≡ stamp_all now 0 k.taken = k.stamped in
      let count : length t.batch ≡ 0 + length k.taken =
        omega (arith, ap length all, length-stamp_all now 0 k.taken) in
      let plain = batch_lem meanwhile max_lines max_bytes now lines b b t k e nothing in
      record {
        taken = k.taken;
        left = b;
        last = l ∷ [];
        order = plain.order;
        same_count = refl;
        stamped =
            ap (λ z. z ++ stamp a l (later a now (length t.batch)) ∷ []) all
            ∙ ap (λ n. stamp_all now 0 k.taken ++ stamp a l (later a now n) ∷ []) count
            ∙ sym (stamp_all-append_one now 0 k.taken l);
        few = omega (arith, length-append t.batch (stamp a l (later a now (length t.batch)) ∷ []));
        small = plain.small;
        added = popped (e ∙ empty) l p;
        noted = λ gone. inr (note_of ((pop-empty (meanwhile b) gone).which));
      }
    where
      note_of :
          ((pop a (meanwhile b)).1 ≡ none)
            ⊎ ((pop a (meanwhile b)).1 ≡ some (dropped_note a (meanwhile b).dropped))
          → l ∷ [] ≡ dropped_note a (meanwhile b).dropped ∷ []
      note_of (inl q) = absurd (ground (arith, p))
      note_of (inr q) = ap (λ x. x ∷ []) (ground (arith, p))

  -- A batch is the oldest lines of the backlog, in order, each stamped a microsecond after the one
  -- before it where it had no time and there is a time to give; the backlog is left the rest in order. It
  -- has at most `max_lines` lines, and the lines taken under the first lock are at most one or at most
  -- `max_bytes` in all. Only once these have emptied the backlog can one more join them, as the last: what
  -- `pop` gives under the second lock, whatever other tasks did to the buffer in between. That is the
  -- note about dropped lines if the backlog is empty still; a line that was logged in between goes in
  -- its place, unchecked against `max_bytes`. The buffer's lock is not poisoned at first.
  pub take_stamped-IsBatch :
      (meanwhile : LogBuffer → LogBuffer) (b : LogBuffer) (max_lines max_bytes : ℕ) (now : Option ℕ)
      → b.poisoned ≡ false
      → IsBatch meanwhile max_lines max_bytes now b.lines b.dropped
          (take_stamped a meanwhile b max_lines max_bytes now)
  unfolding take_stamped take_backlog
  take_stamped-IsBatch meanwhile b max_lines max_bytes now p =
      let t : Taken a = take_lines a max_lines max_bytes now b.lines b.bytes [] 0 in
      let k : Took max_lines max_bytes now b.lines [] 0 t =
        take_lines-Took max_lines max_bytes now b.lines b.bytes [] 0 in
      let b' : LogBuffer = record b { lines = t.left; bytes = t.left_bytes } in
      let more : Bool = not t.full && ltb (length t.batch) max_lines in
      if_intro
        (λ (x : LogBuffer × List LogLine × Bool).
          IsBatch meanwhile max_lines max_bytes now b.lines b.dropped
            (if x.2 then add_note a now x.1 (pop a (meanwhile x.0)) else (x.0, x.1)))
        b.poisoned (b, [], false) (b', t.batch, more) (λ q. absurd (ground arith))
        (λ q.
          if_intro (IsBatch meanwhile max_lines max_bytes now b.lines b.dropped) more
            (add_note a now t.batch (pop a (meanwhile b'))) (b', t.batch)
            (λ note.
              last_lem meanwhile max_lines max_bytes now b.lines b' t k refl
                (k.drained (ground arith) (ground arith)) (ground arith) (pop a (meanwhile b')).1
                refl)
            (λ done. batch_lem meanwhile max_lines max_bytes now b.lines b' b' t k refl nothing))
