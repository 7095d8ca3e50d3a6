-- ===== src/Update.antt =====
-- src/update.rs: the update payload, the decision about it, and the throttle of progress reports.
pub mod Throttle
pub mod Reports
mod Examples
use nerves_hub_link_esp.Base.{
  ℕ, ℤ, ◌+◌, ◌*◌, ◌/◌, ◌%◌, min, max, String, Bool, true, false, not, ◌&&◌, Option, none, some,
  List, leb, ◌==◌, if◌then◌else◌,
}

pub record FirmwareMeta : Type 0 where
  pub uuid : String
  pub version : Option String
  pub product : Option String
  pub platform : Option String
  pub architecture : Option String

pub record UpdatePayload : Type 0 where
  pub update_available : Bool
  pub firmware_url : Option String
  pub firmware_meta : Option FirmwareMeta
  pub size : Option ℕ
  pub checksum : Option String
  pub partials_checksums : Option (List String)
  pub deployment_id : Option ℤ

url_and_uuid : Option String → Option FirmwareMeta → Option (String × String)
url_and_uuid (some url) (some meta) = some (url, meta.uuid)
url_and_uuid _ _ = none

-- The url and uuid, if the payload describes an update.
unfoldable pub actionable : UpdatePayload → Option (String × String)
unfolding url_and_uuid
actionable u = if not u.update_available then none else url_and_uuid u.firmware_url u.firmware_meta

pub data UpdateDecision : Type 0 where
  apply : UpdateDecision
  ignore : String → UpdateDecision
  reschedule : ℕ → String → UpdateDecision

pub data Stage : Type 0 where
  downloading updating : Stage

unfoldable pub stage_as_str : Stage → String
stage_as_str downloading = "downloading"
stage_as_str updating = "updating"

pub record ProgressThrottle : Type 0 where
  pub last_reported : Option ℕ
  pub step : ℕ

unfoldable pub new : ℕ → ProgressThrottle
new step = record { last_reported = none; step = max step 1 }

-- u8: the sum of the last report and the step stops at 255.
saturating_add_u8 : ℕ → ℕ → ℕ
saturating_add_u8 a b = min (a + b) 255

due : Option ℕ → ℕ → ℕ → Bool
unfolding saturating_add_u8
due none percent step = true
due (some last) percent step =
    if percent == 100 then true else leb (saturating_add_u8 last step) percent

repeats : Option ℕ → ℕ → Bool
repeats none percent = false
repeats (some last) percent = last == percent

-- The product is made in u128, where it fits; the quotient is cut to a byte.
unfoldable pub percent_of : ℕ → ℕ → ℕ
percent_of downloaded total = min downloaded total * 100 / total % 256

unfoldable pub take : ProgressThrottle → ℕ → ℕ → ProgressThrottle × Option ℕ
unfolding due repeats percent_of
take t downloaded total =
    if total == 0
    then (t, none)
    else let percent = percent_of downloaded total in
      if due t.last_reported percent t.step && not (repeats t.last_reported percent)
      then (record t { last_reported = some percent }, some percent)
      else (t, none)
