-- ===== src/Whenwhere.antt =====
-- src/whenwhere.rs: a position from the whenwhere service. ESP-IDF's HTTP client and its random numbers
-- are parameters, and so are serde's values and f64.
pub mod Reads
mod Examples
use Prim.Native.String
use Prim.Native.String.{char_at}
use nerves_hub_link_esp.Base.{
  ℕ, zero, suc, ◌%◌, String, Bool, true, false, ◌&&◌, Option, none, some, List, [], ◌∷◌, ◌++◌, ◌⊎◌,
  inl, inr, any, codes, text_of, chars, length, leb, ltb, ◌==◌, or_else, str_eq, format, to_string,
  if◌then◌else◌,
}
use nerves_hub_link_esp.Extensions.Payloads.{Location}
use nerves_hub_link_esp.Frame.{is_utf8}
use nerves_hub_link_esp.Json.{Json}

abbrev pub default_url : String
default_url = "https://whenwhere.nerves-project.org/"

abbrev pub nonce_header : String
nonce_header = "x-nonce"

abbrev pub nonce_len : ℕ
nonce_len = 31

abbrev pub nonce_alphabet : String
nonce_alphabet = "0123456789abcdefghijklmnopqrstuvwxyz"

-- The most bytes of a reply, and the bytes of one read.
abbrev pub max_reply : ℕ
max_reply = 4096

abbrev pub chunk_len : ℕ
chunk_len = 256

-- `F` is f64.
pub record Reading (F : Type 0) : Type 0 where
  pub latitude : F
  pub longitude : F
  pub now : Option String
  pub time_zone : Option String
  pub city : Option String
  pub country : Option String

unfoldable pub location : {F : Type 0} → Reading F → Location F
location r = record {
  latitude = r.latitude;
  longitude = r.longitude;
  source = "geoip";
  accuracy = none;
}

-- The first `n` bytes, each as a character.
nonce_from : ℕ → List ℕ → String
nonce_from zero bytes = String.[]
nonce_from (suc n) [] = String.[]
nonce_from (suc n) (b ∷ bytes) = String.◌∷◌ (char_at nonce_alphabet (b % 36)) (nonce_from n bytes)

unfoldable pub nonce : List ℕ → String
unfolding nonce_from
nonce bytes = nonce_from nonce_len bytes

-- What is used of f64 and of serde_json: a number's value, a number spelled in a text that is trimmed
-- first, and the value that a text spells.
pub record Reader (Val F : Type 0) : Type 0 where
  pub json : Json Val
  pub as_f64 : Val → Option F
  pub parse_f64 : String → Option F
  pub from_str : String → String ⊎ Val

module _ {Val F : Type 0} (rd : Reader Val F) where
  text_number : Option String → Option F
  text_number none = none
  text_number (some s) = rd.parse_f64 s

  number_of : Option Val → Option F
  unfolding text_number
  number_of none = none
  number_of (some v) = or_else (rd.as_f64 v) (text_number (rd.json.as_str v))

  text_of_field : Option Val → Option String
  text_of_field none = none
  text_of_field (some v) = rd.json.as_str v

  placed : Val → Option F → Option F → String ⊎ Reading F
  unfolding text_of_field
  placed v (some latitude) (some longitude) = inr (record {
    latitude = latitude;
    longitude = longitude;
    now = text_of_field (rd.json.get v "now");
    time_zone = text_of_field (rd.json.get v "time_zone");
    city = text_of_field (rd.json.get v "city");
    country = text_of_field (rd.json.get v "country");
  })
  placed v _ _ = inl "the reply carried no position"

  read_value : String ⊎ Val → String ⊎ Reading F
  unfolding placed number_of
  read_value (inl e) = inl (format ("the reply was not JSON: " ∷ e ∷ []))
  read_value (inr v) =
      placed v (number_of (rd.json.get v "latitude")) (number_of (rd.json.get v "longitude"))

  unfoldable pub parse : String → String → Option String → String ⊎ Reading F
  unfolding read_value
  parse body sent_nonce none =
      inl (format ("the reply carried no " ∷ nonce_header ∷ " header" ∷ []))
  parse body sent_nonce (some returned) =
      if str_eq returned sent_nonce
      then read_value (rd.from_str body)
      else inl "the reply answered a different nonce"

-- ESP-IDF's connection, with the text that an error displays. A read of no bytes is the end of the reply.
pub record Connection (W : Type 0) : Type 0 where
  pub fill_random : ℕ → W → List ℕ × W
  pub new_client : W → (String ⊎ Unit {0}) × W
  pub initiate_request : String → W → (String ⊎ Unit {0}) × W
  pub initiate_response : W → (String ⊎ Unit {0}) × W
  pub status : W → ℕ
  pub header : String → W → Option String
  pub read_into : ℕ → W → (String ⊎ List ℕ) × W

-- What a lookup gives, and the world after it.
abbrev pub Found : Type 0 → Type 0 → Type 0
Found F W = Option ((String ⊎ Reading F) × W)

module _ {A F W : Type 0} where
  -- `map_err` with what was being done, and `?`.
  unfoldable pub and_go : String → (String ⊎ A) × W → (A → W → Found F W) → Found F W
  and_go doing (inl e, w) f = some (inl (format (doing ∷ ": " ∷ e ∷ [])), w)
  and_go doing (inr a, w) f = f a w

module _ {Val F W : Type 0} (rd : Reader Val F) (c : Connection W) where
  -- The body is read, and then its text is parsed.
  parse_body : String → Option String → List ℕ → W → Found F W
  unfolding parse is_utf8 text_of chars
  parse_body sent returned body w =
      if is_utf8 body
      then some (parse rd (text_of (chars body)) sent returned, w)
      else some (inl "the reply was not text", w)

  add_chunk : (List ℕ → W → Found F W) → (List ℕ → W → Found F W) → List ℕ → List ℕ → W → Found F W
  add_chunk rest finish body [] w = finish body w
  add_chunk rest finish body (b ∷ bs) w =
      let longer = body ++ b ∷ bs in
      if ltb max_reply (length longer)
      then some (inl "the reply was too large to be a whenwhere answer", w)
      else rest longer w

  -- None only when the fuel is used up.
  unfoldable pub read_body : ℕ → (List ℕ → W → Found F W) → List ℕ → W → Found F W
  unfolding add_chunk and_go
  read_body zero finish body w = none
  read_body (suc fuel) finish body w =
      and_go "reading the reply" (c.read_into chunk_len w)
        (add_chunk (read_body fuel finish) finish body)

  read_answer : ℕ → String → W → Found F W
  unfolding read_body parse_body
  read_answer fuel sent w =
      if leb 200 (c.status w) && ltb (c.status w) 300
      then read_body fuel (parse_body sent (c.header nonce_header w)) [] w
      else some (inl (format ("the service answered HTTP " ∷ to_string (c.status w) ∷ [])), w)

  unfoldable pub with_nonce : String → String → String
  with_nonce url sent =
      format (url ∷ (if any (λ ch. ch == 63) (codes url) then "&" else "?") ∷ "nonce=" ∷ sent ∷ [])

  -- A round of the loop reads a byte at least, so there are at most 4097 before the last.
  unfoldable pub read : String → W → Found F W
  unfolding nonce with_nonce and_go read_answer
  read url w =
      let (entropy, w) = c.fill_random nonce_len w in
      let sent = nonce entropy in
      and_go "http client" (c.new_client w) λ _ w.
        and_go "request" (c.initiate_request (with_nonce url sent) w) λ _ w.
          and_go "response" (c.initiate_response w) λ _ w. read_answer (suc (suc max_reply)) sent w

  -- A lookup that fails is no position.
  unfoldable pub locate : Found F W → Option (Location F)
  unfolding location
  locate none = none
  locate (some (inl reason, w)) = none
  locate (some (inr reading, w)) = some (location reading)
