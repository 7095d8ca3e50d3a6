-- ===== src/Whenwhere/Examples.antt =====
-- A lookup of src/whenwhere.rs, run against a service that answers as it should.
use nerves_hub_link_esp.Base.{
  ℕ, zero, suc, Option, none, some, List, [], ◌∷◌, inl, inr, ◌≡◌, refl, str_eq, if◌then◌else◌,
}
use nerves_hub_link_esp.Json.Samples.{Plain, fields, words, count, of_pairs, plain}
use nerves_hub_link_esp.Whenwhere.{Reader, Connection, default_url, read, locate}
use nerves_hub_link_esp.Whenwhere.Reads.{Looked, read-Looked}

abbrev auckland : Plain
auckland = fields (
    of_pairs (
      ("latitude", words "-36.88690")
      ∷ ("longitude", words "174.76900")
      ∷ ("city", words "Auckland")
      ∷ []))

abbrev whole_number : Plain → Option ℕ
whole_number (count n) = some n
whole_number _ = none

-- The degrees that the tests have, as whole numbers.
abbrev reader : Reader Plain ℕ
reader = record {
  json = plain;
  as_f64 = whole_number;
  parse_f64 = λ s.
      if str_eq s "-36.88690" then some 323 else if str_eq s "174.76900" then some 174 else none;
  from_str = λ s. if str_eq s "{}" then inr auckland else inl "unexpected text";
}

abbrev zeros : ℕ → List ℕ
zeros zero = []
zeros (suc n) = 0 ∷ zeros n

-- The body comes a byte at a time; the world counts what was read.
abbrev body_at : ℕ → List ℕ
body_at zero = 123 ∷ []
body_at (suc zero) = 125 ∷ []
body_at (suc (suc n)) = []

abbrev service : Connection ℕ
service = record {
  fill_random = λ n w. (zeros n, w);
  new_client = λ w. (inr tt, w);
  initiate_request = λ url w. (inr tt, w);
  initiate_response = λ w. (inr tt, w);
  status = λ w. 200;
  header = λ name w. some "0000000000000000000000000000000";
  read_into = λ n w. (inr (body_at w), suc w);
}

located :
    locate reader service (read reader service default_url 0)
    ≡ some (record { latitude = 323; longitude = 174; source = "geoip"; accuracy = none })
unfolding locate read
located = refl

-- Every reply of a service whose nonce is another's is refused.
abbrev portal : Connection ℕ
portal = record service { header = λ name w. some "0" }

refused : (read reader portal default_url 0) ≡ some (inl "the reply answered a different nonce", 3)
unfolding read
refused = refl

read-Looked_example : Looked reader service default_url 0 (read reader service default_url 0)
read-Looked_example = read-Looked reader service default_url 0
