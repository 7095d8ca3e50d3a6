-- ===== src/Error.antt =====
-- src/error.rs: the errors of the agent, the reason text of each, and `Result`.
use nerves_hub_link_esp.Base.{ℕ, String, Option, [], ◌∷◌, format, to_string}

pub data Error : Type 0 where
  transport protocol join_refused metadata identity download : String → Error
  download_status : ℕ → Option ℕ → Error
  ota : String → Error
  checksum_mismatch : String → String → Error
  console : String → Error

-- `Display`, which `status_reason` passes on.
unfoldable pub status_reason : Error → String
status_reason (transport msg) = format ("transport error: " ∷ msg ∷ [])
status_reason (protocol msg) = format ("protocol error: " ∷ msg ∷ [])
status_reason (join_refused msg) = format ("join refused: " ∷ msg ∷ [])
status_reason (metadata msg) = format ("could not read firmware metadata: " ∷ msg ∷ [])
status_reason (identity msg) = format ("device identity unavailable: " ∷ msg ∷ [])
status_reason (download msg) = format ("download failed: " ∷ msg ∷ [])
status_reason (download_status status retry_after) =
    format ("download failed: firmware download returned HTTP " ∷ to_string status ∷ [])
status_reason (ota msg) = format ("ota failed: " ∷ msg ∷ [])
status_reason (checksum_mismatch expected actual) =
    format ("checksum mismatch: expected " ∷ expected ∷ ", got " ∷ actual ∷ [])
status_reason (console msg) = format (msg ∷ [])

pub data Result {ℓ} (A : Type ℓ) : Type ℓ where
  ok : A → Result A
  err : Error → Result A
