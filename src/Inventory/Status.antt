-- ===== src/Inventory/Status.antt =====
-- internal/inventory/collector_windows.go: the small functions that clean and name what Windows answers.
use it_portal_agent.Prelude.{
  ℕ, ◌%◌, ◌^◌, String, Bool, true, false, ◌||◌, Option, none, some, List, [], ◌∷◌, ◌++◌, ◌==◌,
  if◌then◌else◌,
}
use it_portal_agent.Text.{Text, text, is_empty}
use it_portal_agent.Text.Case.{to_lower}
use it_portal_agent.Text.Search.{contains}
use it_portal_agent.Text.Space.{trim_space}
use it_portal_agent.Inventory.Rows.{Machine}

-- `clean`
abbrev pub clean : Text → Text
clean value = trim_space value

-- `cleanStrings`
unfoldable pub clean_strings : List Text → List Text
clean_strings [] = []
clean_strings (value ∷ values) =
    let rest = clean_strings values in if is_empty (clean value) then rest else clean value ∷ rest

-- `boolStatus`
unfoldable pub bool_status : Bool → Bool → Text
bool_status enabled false = text "unknown"
bool_status true true = text "enabled"
bool_status false true = text "disabled"

-- `normalizeStorageType`
unfoldable pub normalize_storage_type : (Text → Text) → Text → Text → Text
normalize_storage_type lower_unicode media_type model =
    let value = to_lower lower_unicode (media_type ++ (text " " ++ model)) in
    if contains value (text "nvme")
    then text "NVMe"
    else if contains value (text "ssd") || contains value (text "solid")
    then text "SSD"
    else if contains value (text "hdd") || contains value (text "hard")
    then text "HDD"
    else text "unknown"

-- `driveTypeName`
unfoldable pub drive_type_name : ℕ → Text
drive_type_name value =
    if value == 3
    then text "fixed"
    else if value == 2
    then text "removable"
    else if value == 4
    then text "network"
    else if value == 5
    then text "optical"
    else text "unknown"

-- `networkStatus`
unfoldable pub network_status : ℕ → Text
network_status value =
    if value == 2 then text "up" else if value == 7 then text "down" else text "unknown"

module _ (machine : Machine) where
  -- `registryDWORD`: `none` is a value that was not found.
  unfoldable pub registry_dword : String → String → Option ℕ
  registry_dword path name = elim (machine.registry_integer path name) [
    | none ↦ none
    | some value ↦ some (value % 2 ^ 32)
  ]

  -- `registryString`
  unfoldable pub registry_string : String → String → Text
  registry_string path name = elim (machine.registry_string path name) [
    | none ↦ []
    | some value ↦ clean value
  ]

  -- `timezone`
  unfoldable pub timezone : Text
  timezone =
      let value =
        registry_string "SYSTEM\\CurrentControlSet\\Control\\TimeZoneInformation"
          "TimeZoneKeyName" in
      if is_empty value then machine.location else value

-- `collectSMARTStatus`
unfoldable pub failure_predicted : List Bool → Bool
failure_predicted [] = false
failure_predicted (value ∷ values) = value || failure_predicted values

unfoldable pub collect_smart_status : Option (List Bool) → Text
collect_smart_status none = text "unknown"
collect_smart_status (some values) =
    if is_empty values
    then text "unknown"
    else if failure_predicted values
    then text "failure"
    else text "healthy"
