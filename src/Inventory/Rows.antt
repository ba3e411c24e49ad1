-- ===== src/Inventory/Rows.antt =====
-- internal/inventory/collector_windows.go: the rows that its WMI queries and its registry readings
-- give, at one moment. Unsigned integers are natural numbers below the bound of their width.
use it_portal_agent.Prelude.{ℕ, String, Bool, Option, List}
use it_portal_agent.Text.{Text}

pub record ComputerSystem : Type 0 where
  pub name : Text
  pub manufacturer : Text
  pub model : Text
  pub domain : Text
  pub user_name : Text
  pub part_of_domain : Bool
  pub total_physical_memory : ℕ

pub record ComputerSystemProduct : Type 0 where
  pub uuid : Text
  pub name : Text
  pub vendor : Text

pub record SystemEnclosure : Type 0 where
  pub smbios_asset_tag : Text
  pub serial_number : Text

pub record BiosRow : Type 0 where
  pub manufacturer : Text
  pub smbios_bios_version : Text
  pub serial_number : Text
  pub release_date : Text

pub record BaseBoard : Type 0 where
  pub manufacturer : Text
  pub product : Text
  pub serial_number : Text

pub record OperatingSystemRow : Type 0 where
  pub caption : Text
  pub version : Text
  pub build_number : Text
  pub os_architecture : Text
  pub install_date : Text
  pub last_boot_up_time : Text
  pub free_physical_memory : ℕ
  pub total_visible_memory_size : ℕ

pub record Processor : Type 0 where
  pub name : Text
  pub manufacturer : Text
  pub socket_designation : Text
  pub number_of_logical_processors : ℕ
  pub number_of_cores : ℕ
  pub thread_count : ℕ
  pub max_clock_speed : ℕ

pub record PhysicalMemory : Type 0 where
  pub device_locator : Text
  pub manufacturer : Text
  pub part_number : Text
  pub capacity : ℕ
  pub speed : ℕ

pub record LogicalDisk : Type 0 where
  pub device_id : Text
  pub file_system : Text
  pub media_type : ℕ
  pub size : ℕ
  pub free_space : ℕ
  pub drive_type : ℕ

pub record DiskDrive : Type 0 where
  pub device_id : Text
  pub model : Text
  pub serial_number : Text
  pub media_type : Text
  pub status : Text
  pub size : ℕ

pub record AdapterConfiguration : Type 0 where
  pub description : Text
  pub mac_address : Text
  pub dhcp_server : Text
  pub ip_address : List Text
  pub default_ip_gateway : List Text
  pub dns_server_search_order : List Text
  pub dhcp_enabled : Bool

pub record AdapterDetail : Type 0 where
  pub name : Text
  pub mac_address : Text
  pub speed : ℕ
  pub net_connection_status : ℕ

pub record DesktopMonitor : Type 0 where
  pub name : Text
  pub pnp_device_id : Text
  pub screen_width : ℕ
  pub screen_height : ℕ

pub record VideoController : Type 0 where
  pub name : Text
  pub driver_version : Text
  pub current_horizontal_resolution : ℕ
  pub current_vertical_resolution : ℕ

pub record Tpm : Type 0 where
  pub is_enabled : Bool
  pub is_activated : Bool
  pub spec_version : Text

pub record DefenderStatus : Type 0 where
  pub am_service_enabled : Bool
  pub antispyware_enabled : Bool
  pub antivirus_enabled : Bool
  pub real_time_protection_enabled : Bool

-- What Windows answers. A list is what a query left in its slice; where the program looks at the
-- error of the query, `none` is one.
pub record Machine : Type 0 where
  pub systems : List ComputerSystem
  pub products : List ComputerSystemProduct
  pub enclosures : List SystemEnclosure
  pub bios : List BiosRow
  pub boards : List BaseBoard
  pub operating_systems : List OperatingSystemRow
  pub processors : List Processor
  pub memory : List PhysicalMemory
  pub logical_disks : List LogicalDisk
  pub physical_disks : List DiskDrive
  pub adapters : List AdapterConfiguration
  pub adapter_details : List AdapterDetail
  pub monitors : List DesktopMonitor
  pub gpus : List VideoController
  pub tpms : Option (List Tpm)
  -- `ProtectionStatus` of each volume
  pub volumes : Option (List ℕ)
  pub defender : Option (List DefenderStatus)
  -- `PredictFailure` of each disk
  pub smart : Option (List Bool)
  -- `GetIntegerValue` and `GetStringValue` of a path and a name, where the key opens
  pub registry_integer : String → String → Option ℕ
  pub registry_string : String → String → Option Text
  -- `time.Now().Location().String()`
  pub location : Text
