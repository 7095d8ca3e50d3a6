-- ===== src/Metadata.antt =====
-- src/metadata.rs: what a device says of its firmware when it joins. Reading it from the running
-- image calls ESP-IDF.
use nerves_hub_link_esp.Base.{
  ℕ, String, Bool, Option, none, some, List, [], ◌∷◌, ◌++◌, ◌==◌, if◌then◌else◌,
}
use nerves_hub_link_esp.Json.{Json}

pub record FirmwareMetadata : Type 0 where
  pub project_name : String
  pub version : String
  pub app_elf_sha256 : String
  pub idf_ver : String
  pub chip_id : ℕ

unfoldable pub chip_name : ℕ → Option String
chip_name id =
    if id == 0x0000
    then some "esp32"
    else if id == 0x0002
    then some "esp32s2"
    else if id == 0x0005
    then some "esp32c3"
    else if id == 0x0009
    then some "esp32s3"
    else if id == 0x000C
    then some "esp32c2"
    else if id == 0x000D
    then some "esp32c6"
    else if id == 0x0010
    then some "esp32h2"
    else if id == 0x0012
    then some "esp32p4"
    else if id == 0x0017
    then some "esp32c5"
    else none

pub record BootReport : Type 0 where
  pub firmware_validated : Bool
  pub firmware_auto_revert_detected : Bool

module _ {Val : Type 0} (js : Json Val) where
  boot_payload : BootReport → Val
  boot_payload b = js.object (
      ("firmware_validated", js.boolean b.firmware_validated)
      ∷ ("firmware_auto_revert_detected", js.boolean b.firmware_auto_revert_detected)
      ∷ [])

  downloading_entry : Option String → List (String × Val)
  downloading_entry none = []
  downloading_entry (some uuid) = ("currently_downloading_uuid", js.string uuid) ∷ []

  unfoldable pub join_params : FirmwareMetadata → String → Option String → BootReport → Val
  unfolding boot_payload downloading_entry
  join_params m device_api_version currently_downloading_uuid boot = js.object (
      ("device_api_version", js.string device_api_version)
        ∷ ("update_tool", js.string "esp-idf")
        ∷ ("esp_idf_project_name", js.string m.project_name)
        ∷ ("esp_idf_version", js.string m.version)
        ∷ ("esp_idf_app_elf_sha256", js.string m.app_elf_sha256)
        ∷ ("esp_idf_ver", js.string m.idf_ver)
        ∷ ("esp_idf_chip_id", js.number m.chip_id)
        ∷ downloading_entry currently_downloading_uuid
      ++ ("meta", boot_payload boot) ∷ [])
