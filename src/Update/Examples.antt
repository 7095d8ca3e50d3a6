-- ===== src/Update/Examples.antt =====
-- Runs of the progress throttle (src/update.rs).
use nerves_hub_link_esp.Base.{ℕ, ◌≡◌, refl, none, List, [], ◌∷◌}
use nerves_hub_link_esp.Update.{new, take}
use nerves_hub_link_esp.Update.Reports.{reports, Spaced, reports-new-Spaced}

abbrev counts : List ℕ
counts = 40 ∷ 60 ∷ 90 ∷ 500 ∷ 980 ∷ 1000 ∷ 1000 ∷ []

reports_test : reports (new 5) 1000 counts ≡ 4 ∷ 9 ∷ 50 ∷ 98 ∷ 100 ∷ []
unfolding reports new take
reports_test = refl

reports-new-Spaced_example : Spaced (new 5).step none (reports (new 5) 1000 counts)
reports-new-Spaced_example = reports-new-Spaced 5 1000 counts
