-- ===== src/Config/Examples.antt =====
-- Runs of src/config.rs.
use nerves_hub_link_esp.Base.{◌≡◌, refl, [], ◌∷◌, codes}
use nerves_hub_link_esp.Config.{Config, shared_secret, new, backoff_for}

abbrev config : Config
config =
    new "devices.nerves-hub.org"
      (shared_secret "device-1" (record { key = codes "nhp_key"; secret = codes "secret" }))

waits_test :
    (backoff_for config 0 ∷ backoff_for config 3 ∷ backoff_for config 8 ∷ []) ≡ 1 ∷ 10 ∷ 60 ∷ []
unfolding backoff_for
waits_test = refl
