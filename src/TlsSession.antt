-- ===== src/TlsSession.antt =====
-- src/tls_session.rs: the slot that keeps a TLS session between connections, and the move of a ticket's
-- date from one clock to another. A clone of the slot is the slot: it is one state.
pub mod Clocks
pub mod Slot
mod Examples
use nerves_hub_link_esp.Base.{
  ℕ, suc, ◌+◌, ◌-◌, ◌^◌, min, ℤ, pos, negsuc, String, Option, none, some, List, [], ◌∷◌, leb,
  if◌then◌else◌,
}

pub data Handshake : Type 0 where
  resumed full : Handshake

pub record Inner : Type 0 where
  pub saved : Option (List ℕ)
  pub last : Option Handshake
  pub protocol : Option String

abbrev pub empty : Inner
empty = record { saved = none; last = none; protocol = none }

-- Empty bytes are no session.
unfoldable pub restore : List ℕ → Inner
restore [] = empty
restore (b ∷ bs) = record empty { saved = some (b ∷ bs) }

unfoldable pub negotiated : Inner → String → Inner
negotiated i protocol = record i { protocol = some protocol }

unfoldable pub forget : Inner → Inner
forget i = record i { saved = none }

unfoldable pub store : Inner → List ℕ → Handshake → Inner
store i session handshake = record i { saved = some session; last = some handshake }

unfoldable pub record_handshake : Inner → Handshake → Inner
record_handshake i handshake = record i { last = some handshake }

-- `i64::saturating_sub`; `negsuc n` is -(n + 1), and the least i64 is `negsuc (2 ^ 63 - 1)`.
unfoldable pub saturating_sub : ℤ → ℤ → ℤ
saturating_sub (pos a) (pos b) = if leb b a then pos (a - b) else negsuc (b - suc a)
saturating_sub (pos a) (negsuc b) = pos (min (a + suc b) (2 ^ 63 - 1))
saturating_sub (negsuc a) (pos b) = negsuc (min (a + b) (2 ^ 63 - 1))
saturating_sub (negsuc a) (negsuc b) = if leb a b then pos (b - a) else negsuc (a - suc b)

-- `max(0)`
at_least_zero : ℤ → ℤ
at_least_zero (pos n) = pos n
at_least_zero (negsuc n) = pos 0

unfoldable pub rebase : ℤ → ℤ → ℤ → ℤ
unfolding saturating_sub at_least_zero
rebase at from_now to_now = saturating_sub to_now (at_least_zero (saturating_sub from_now at))
