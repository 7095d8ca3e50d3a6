-- ===== src/Console/Examples.antt =====
-- Runs of the terminal of src/console.rs.
use nerves_hub_link_esp.Base.{ℕ, ◌≡◌, refl, true, false, some, List, [], ◌∷◌, ◌++◌, arith, codes}
use nerves_hub_link_esp.Console.{empty_output, finish, new_reader, feed, parse}
use nerves_hub_link_esp.Console.Printed.{printed, write_all, Honest, finish-Honest}
use nerves_hub_link_esp.Console.Typing.{feed-IsLine, IsLine, AllLines}
use nerves_hub_link_esp.Console.Entering.{held, feed-line}
use nerves_hub_link_esp.Console.Parsing.{line_of, firsts, parse-line, ParsedWell, parse-ParsedWell}

abbrev writes : List (List ℕ)
writes = codes "uptime " ∷ codes "12 s" ∷ []

finish-Honest_example : Honest (printed writes) (finish (write_all empty_output writes))
finish-Honest_example = finish-Honest writes

feed_test :
    (feed new_reader (codes "hex" ++ (127 ∷ codes "ap" ++ (13 ∷ 10 ∷ [])))).lines
    ≡ codes "heap" ∷ []
unfolding feed
feed_test = refl

feed-IsLine_example :
    IsLine (feed new_reader (codes "heap" ++ 13 ∷ [])).reader.line
    × AllLines (feed new_reader (codes "heap" ++ 13 ∷ [])).lines
feed-IsLine_example =
    feed-IsLine new_reader (codes "heap" ++ 13 ∷ [])
      (record { bounded = omega arith; printable = tt })

feed-line_example :
    (feed (held [] true) (codes "up" ++ 13 ∷ []) ≡ record {
      reader = held [] true;
      echo = codes "up" ++ 13 ∷ 10 ∷ [];
      lines = codes "up" ∷ [];
    })
    × (feed (held [] true) (codes "up" ++ 13 ∷ 10 ∷ []) ≡ record {
      reader = held [] false;
      echo = codes "up" ++ 13 ∷ 10 ∷ [];
      lines = codes "up" ∷ [];
    })
feed-line_example = feed-line true (codes "up") (refl, (refl, tt)) (omega arith)

parse-line_example :
    parse ((32 ∷ []) ++ line_of ((codes "log", 32 ∷ 9 ∷ []) ∷ (codes "on", []) ∷ []))
    ≡ some (codes "log", firsts ((codes "on", []) ∷ []))
parse-line_example =
    parse-line (32 ∷ []) (codes "log") (32 ∷ 9 ∷ []) ((codes "on", []) ∷ []) (refl, tt)
      ((refl, (refl, (refl, tt))), (refl, (refl, tt)), ((refl, (refl, tt)), tt))

parse-ParsedWell_example : ParsedWell (codes " log on") (parse (codes " log on"))
parse-ParsedWell_example = parse-ParsedWell (codes " log on")
