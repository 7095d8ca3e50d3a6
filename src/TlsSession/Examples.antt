-- ===== src/TlsSession/Examples.antt =====
-- Runs of src/tls_session.rs.
use nerves_hub_link_esp.Base.{◌-◌, ◌≤◌, ◌≡◌, pos, List, [], ◌∷◌, arith}
use nerves_hub_link_esp.TlsSession.{full, resumed, rebase, saturating_sub}
use nerves_hub_link_esp.TlsSession.Clocks.{rebase-ages}
use nerves_hub_link_esp.TlsSession.Slot.{Use, forgets, stores, records}

-- A ticket of three seconds of age, on the wall clock, for a clock that booted a second ago.
rebase-ages_example :
    (saturating_sub (pos 1000) (rebase (pos 1755828637000) (pos 1755828640000) (pos 1000))
      ≡ pos (1755828640000 - 1755828637000))
    × (1755828637000 ≤ 1755828640000
        → rebase
            (rebase (pos 1755828637000) (pos 1755828640000) (pos 1000))
            (pos 1000)
            (pos 1755828640000)
          ≡ pos 1755828637000)
rebase-ages_example =
    rebase-ages 1755828637000 1755828640000 1000 (omega arith) (omega arith) (omega arith)

abbrev uses : List Use
uses = stores (7 ∷ 8 ∷ []) full ∷ forgets ∷ records resumed ∷ []
