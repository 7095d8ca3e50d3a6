-- ===== src/Whenwhere/Reads.antt =====
-- What src/whenwhere.rs accepts as a position.
use Prim.Native.Char.{code}
use Prim.Native.String.{char_at}
use nerves_hub_link_esp.Base.{
  any, format, if◌then◌else◌, ◌==◌, ℕ, zero, suc, ◌+◌, ◌%◌, ◌≤◌, ◌<◌, min, String, Bool, true, ◌&&◌,
  ◌||◌, ◌≡◌, refl, sym, ap, ◌∙◌, Option, none, some, List, [], ◌∷◌, ◌++◌, ◌⊎◌, inl, inr, codes,
  text_of, chars, length, length-append, leb, ltb, leb→le, ltb→lt, eq_iff, if_intro, and_true,
  arith, all_below, all_below_sound,
}
use nerves_hub_link_esp.Frame.{is_utf8}
use nerves_hub_link_esp.Whenwhere.{
  Reading, Reader, Connection, Found, nonce, nonce_from, nonce_len, nonce_alphabet, nonce_header,
  max_reply, chunk_len, parse, and_go, parse_body, add_chunk, read_body, read_answer, with_nonce,
  read,
}

-- A digit, or a lowercase letter.
abbrev pub is_base36 : ℕ → Bool
is_base36 ch = (leb 48 ch && leb ch 57) || (leb 97 ch && leb ch 122)

abbrev pub AllBase36 : List ℕ → Type 0
AllBase36 [] = Unit {0}
AllBase36 (ch ∷ s) = (is_base36 ch ≡ true) × AllBase36 s

base36_table : all_below 36 (λ n. is_base36 (code (char_at nonce_alphabet n))) ≡ true
base36_table = refl

nonce_from-AllBase36 :
    (n : ℕ) (bytes : List ℕ)
    → AllBase36 (codes (nonce_from n bytes))
      × (length (codes (nonce_from n bytes)) ≡ min n (length bytes))
unfolding nonce_from
nonce_from-AllBase36 zero bytes = (tt, omega arith)
nonce_from-AllBase36 (suc n) [] = (tt, omega arith)
nonce_from-AllBase36 (suc n) (b ∷ bytes) =
    let (letters, many) = nonce_from-AllBase36 n bytes in
    (
      (
        all_below_sound 36 (λ n. is_base36 (code (char_at nonce_alphabet n))) (b % 36) base36_table
            (omega arith),
        letters,
      ),
      omega (arith, many),
    )

-- The chunks that were read from a world `at` on, put together, up to another world.
pub data ReadUpTo {W : Type 0} (c : Connection W) (at : W) : List ℕ → W → Type 0 where
  none_yet : ReadUpTo c at [] at
  and_chunk :
      (body : List ℕ) (b : ℕ) (bs : List ℕ) (w w' : W)
      → ReadUpTo c at body w
      → c.read_into chunk_len w ≡ (inr (b ∷ bs), w')
      → ReadUpTo c at (body ++ b ∷ bs) w'

module _ {Val F W : Type 0} (rd : Reader Val F) (c : Connection W) (url : String) (start : W) where
  -- The nonce that is sent, of the random bytes.
  abbrev pub sent : String
  sent = nonce (c.fill_random nonce_len start).0

  -- A lookup that gives a reading. A client was made, the request with the nonce sent, and the response
  -- begun, one after the other; it has a status of success and the very nonce that was sent. All the
  -- chunks read of it, up to the end, are together a body of limited size, and spell the reading.
  pub record Answers (reading : Reading F) (after : W) : Type 0 where
    pub asked : W
    pub requested : W
    pub at : W
    pub last : W
    pub body : List ℕ
    pub made : c.new_client (c.fill_random nonce_len start).1 ≡ (inr tt, asked)
    pub separator : String
    pub separates : (separator ≡ "?") ⊎ (separator ≡ "&")
    pub request :
        c.initiate_request (format (url ∷ separator ∷ "nonce=" ∷ sent ∷ [])) asked
        ≡ (inr tt, requested)
    pub response : c.initiate_response requested ≡ (inr tt, at)
    pub success : (200 ≤ c.status at) × (c.status at < 300)
    pub same_nonce : c.header nonce_header at ≡ some sent
    pub chunks : ReadUpTo c at body last
    pub all_read : c.read_into chunk_len last ≡ (inr [], after)
    pub short : length body ≤ max_reply
    pub is_text : is_utf8 body ≡ true
    pub spelled : parse rd (text_of (chars body)) sent (some sent) ≡ inr reading

  -- The lookup ended: in a reason, or in a reading that was answered as it should be.
  pub data Looked : Found F W → Type 0 where
    gave_up : (reason : String) (w : W) → Looked (some (inl reason, w))
    found :
        (reading : Reading F) (after : W)
        → Answers reading after
        → Looked (some (inr reading, after))

  and_go-Looked :
      {A : Type 0} (doing : String) (r : (String ⊎ A) × W) (f : A → W → Found F W)
      → ((a : A) (w : W) → r ≡ (inr a, w) → Looked (f a w))
      → Looked (and_go doing r f)
  unfolding and_go
  and_go-Looked doing (inl e, w) f k = gave_up _ w
  and_go-Looked doing (inr a, w) f k = k a w refl

  parse-nonce :
      (body : String) (returned : Option String) (reading : Reading F)
      → parse rd body sent returned ≡ inr reading
      → returned ≡ some sent
  unfolding parse
  parse-nonce body none reading e = absurd cc
  parse-nonce body (some returned) reading e = ground (arith, e, eq_iff returned sent)

  -- What joins the nonce to the URL.
  separator_of : String
  separator_of = if any (λ ch. ch == 63) (codes url) then "&" else "?"

  separator_of-kind : (separator_of ≡ "?") ⊎ (separator_of ≡ "&")
  unfolding separator_of
  separator_of-kind =
      if_intro (λ x. (x ≡ "?") ⊎ (x ≡ "&")) (any (λ ch. ch == 63) (codes url)) "&" "?"
        (λ _. inr refl) (λ _. inl refl)

  module _ (asked requested at : W)
      (made : c.new_client (c.fill_random nonce_len start).1 ≡ (inr tt, asked))
      (request : c.initiate_request (with_nonce rd c url sent) asked ≡ (inr tt, requested))
      (response : c.initiate_response requested ≡ (inr tt, at))
      (success : (200 ≤ c.status at) × (c.status at < 300)) where
    parsed-Looked :
        (last after : W) (body : List ℕ) (x : String ⊎ Reading F)
        → parse rd (text_of (chars body)) sent (c.header nonce_header at) ≡ x
        → ReadUpTo c at body last
        → c.read_into chunk_len last ≡ (inr [], after)
        → length body ≤ max_reply
        → is_utf8 body ≡ true
        → Looked (some (x, after))
    parsed-Looked last after body (inl reason) e chunks all short text = gave_up reason after
    parsed-Looked last after body (inr reading) e chunks all short text =
        let same = parse-nonce (text_of (chars body)) (c.header nonce_header at) reading e in
        found reading after (record {
          asked = asked;
          requested = requested;
          at = at;
          last = last;
          body = body;
          made = made;
          separator = separator_of;
          separates = separator_of-kind;
          request = unfold with_nonce in unfold separator_of in request;
          response = response;
          success = success;
          same_nonce = same;
          chunks = chunks;
          all_read = all;
          short = short;
          is_text = text;
          spelled = ap (λ h. parse rd (text_of (chars body)) sent h) (sym same) ∙ e;
        })

    add_chunk-Looked :
        (rest : List ℕ → W → Found F W) (body chunk : List ℕ) (last w : W)
        → ReadUpTo c at body last
        → c.read_into chunk_len last ≡ (inr chunk, w)
        → length body ≤ max_reply
        → ((longer : List ℕ) (w : W)
            → ReadUpTo c at longer w
            → suc (length body) ≤ length longer
            → length longer ≤ max_reply
            → Looked (rest longer w))
        → Looked
            (add_chunk rd c rest (parse_body rd c sent (c.header nonce_header at)) body chunk w)
    unfolding add_chunk parse_body
    add_chunk-Looked rest body [] last w chunks read short k =
        if_intro Looked (is_utf8 body) _ _
          (λ text. parsed-Looked last w body _ refl chunks read short text) (λ _. gave_up _ w)
    add_chunk-Looked rest body (b ∷ bs) last w chunks read short k =
        if_intro Looked (ltb max_reply (length (body ++ b ∷ bs))) _ _ (λ _. gave_up _ w)
          (λ fits.
            k (body ++ b ∷ bs) w (and_chunk body b bs last w chunks read)
              (omega (arith, length-append body (b ∷ bs))) (ground (arith, fits)))

    read_body-Looked :
        (fuel : ℕ) (body : List ℕ) (w : W)
        → ReadUpTo c at body w
        → length body ≤ max_reply
        → max_reply < length body + fuel
        → Looked (read_body rd c fuel (parse_body rd c sent (c.header nonce_header at)) body w)
    unfolding read_body
    read_body-Looked zero body w chunks short enough = absurd (omega arith)
    read_body-Looked (suc fuel) body w chunks short enough =
        and_go-Looked "reading the reply" (c.read_into chunk_len w) _ (λ chunk w' read.
          add_chunk-Looked (read_body rd c fuel (parse_body rd c sent (c.header nonce_header at)))
            body chunk w w' chunks read short
            (λ longer w'' more_read more fits.
              read_body-Looked fuel longer w'' more_read fits (omega arith)))

  -- A lookup always ends, its fuel being enough. It gives a reason why there is no reading, or a reading;
  -- and a reading only if the client was made, the request went out with the nonce in its URL, the response
  -- to it has a status of success and in its header the very nonce that was sent, and all the chunks that
  -- were read of it, up to its end, are together at most 4096 bytes of UTF-8 that `parse` reads as it.
  pub read-Looked : Looked (read rd c url start)
  unfolding read read_answer
  read-Looked =
      let (entropy, w1) = c.fill_random nonce_len start in
      and_go-Looked "http client" (c.new_client w1) _ (λ _ w2 made.
        and_go-Looked "request" (c.initiate_request (with_nonce rd c url sent) w2) _
          (λ _ w3 request. and_go-Looked "response" (c.initiate_response w3) _ (λ _ w4 response.
            if_intro Looked (leb 200 (c.status w4) && ltb (c.status w4) 300) _ _
              (λ both.
                let (least, most) = and_true _ _ both in
                read_body-Looked w2 w3 w4 made request response
                  (leb→le 200 (c.status w4) least, ltb→lt (c.status w4) 300 most)
                  (suc (suc max_reply)) [] w4 none_yet (omega arith) (omega arith))
              (λ _. gave_up _ w4))))

-- A nonce is made of digits and lowercase letters, one for each byte, up to thirty-one.
pub nonce-AllBase36 :
    (bytes : List ℕ)
    → AllBase36 (codes (nonce bytes)) × (length (codes (nonce bytes)) ≡ min 31 (length bytes))
unfolding nonce
nonce-AllBase36 bytes = nonce_from-AllBase36 nonce_len bytes
