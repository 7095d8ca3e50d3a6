-- ===== src/TlsSession/Slot.antt =====
-- What the slot of src/tls_session.rs offers to the next connection.
use nerves_hub_link_esp.Base.{ℕ, String, ◌≡◌, refl, Option, none, some, List, [], ◌∷◌}
use nerves_hub_link_esp.TlsSession.{Handshake, Inner, negotiated, forget, store, record_handshake}

-- What is done with a slot.
pub data Use : Type 0 where
  negotiates : String → Use
  forgets : Use
  stores : List ℕ → Handshake → Use
  records : Handshake → Use

unfoldable pub use_one : Inner → Use → Inner
use_one i (negotiates protocol) = negotiated i protocol
use_one i forgets = forget i
use_one i (stores session handshake) = store i session handshake
use_one i (records handshake) = record_handshake i handshake

unfoldable pub use_all : Inner → List Use → Inner
unfolding use_one
use_all i [] = i
use_all i (u ∷ us) = use_all (use_one i u) us

-- The last session stored and not forgotten, and the last handshake, told from the uses alone.
unfoldable pub kept : Option (List ℕ) → List Use → Option (List ℕ)
kept o [] = o
kept o (stores session handshake ∷ us) = kept (some session) us
kept o (forgets ∷ us) = kept none us
kept o (negotiates protocol ∷ us) = kept o us
kept o (records handshake ∷ us) = kept o us

unfoldable pub last_of : Option Handshake → List Use → Option Handshake
last_of o [] = o
last_of o (stores session handshake ∷ us) = last_of (some handshake) us
last_of o (records handshake ∷ us) = last_of (some handshake) us
last_of o (forgets ∷ us) = last_of o us
last_of o (negotiates protocol ∷ us) = last_of o us

-- Whatever is done with a slot, it holds the session stored last, unless that has been forgotten
-- since, or none has been stored and it holds what it held; and it tells of the last handshake, of
-- which forgetting the session takes nothing away.
use_all-kept :
    (i : Inner) (us : List Use)
    → ((use_all i us).saved ≡ kept i.saved us) × ((use_all i us).last ≡ last_of i.last us)
unfolding use_all kept last_of negotiated forget store record_handshake
use_all-kept i [] = (refl, refl)
use_all-kept i (negotiates protocol ∷ us) = use_all-kept (negotiated i protocol) us
use_all-kept i (forgets ∷ us) = use_all-kept (forget i) us
use_all-kept i (stores session handshake ∷ us) = use_all-kept (store i session handshake) us
use_all-kept i (records handshake ∷ us) = use_all-kept (record_handshake i handshake) us
