-- ===== src/Inventory/Types.antt =====
-- internal/inventory/types.go: the snapshot of the hardware and what is sent with it.
--
-- Unsigned integers are natural numbers; what computes them keeps their width. Times are in
-- nanoseconds. `F` is `float64`.
use it_portal_agent.Prelude.{ℕ, String, Bool, List}
use it_portal_agent.Text.{Text}

pub record General : Type 0 where
  pub computer_name : Text
  pub machine_uuid : Text
  pub serial_number : Text
  pub asset_tag : Text
  pub manufacturer : Text
  pub model : Text
  pub product_name : Text

pub record OperatingSystem : Type 0 where
  pub edition : Text
  pub version : Text
  pub build_number : Text
  pub architecture : Text
  pub install_date : Text
  pub last_boot_time : Text
  pub domain : Text
  pub workgroup : Text
  pub timezone : Text

pub record Cpu : Type 0 where
  pub model : Text
  pub manufacturer : Text
  pub socket : Text
  pub logical_cores : ℕ
  pub physical_cores : ℕ
  pub threads : ℕ
  pub clock_mhz : ℕ

pub record MemoryModule : Type 0 where
  pub locator : Text
  pub manufacturer : Text
  pub part_number : Text
  pub capacity : ℕ
  pub speed_mhz : ℕ

pub record Memory (F : Type 0) : Type 0 where
  pub total_bytes : ℕ
  pub used_bytes : ℕ
  pub available_bytes : ℕ
  pub total_gb : F
  pub used_gb : F
  pub available_gb : F
  pub usage_percent : F
  pub slots : ℕ
  pub modules : List MemoryModule

pub record StorageDevice (F : Type 0) : Type 0 where
  pub device_id : Text
  pub type : Text
  pub model : Text
  pub serial_number : Text
  pub health : Text
  pub smart_status : Text
  pub total_bytes : ℕ
  pub free_bytes : ℕ
  pub used_bytes : ℕ
  pub capacity_gb : F
  pub used_gb : F
  pub free_gb : F
  pub filesystem : Text
  pub drive_type : Text

pub record DiskInventory (F : Type 0) : Type 0 where
  pub total_bytes : ℕ
  pub used_bytes : ℕ
  pub free_bytes : ℕ
  pub total_gb : F
  pub used_gb : F
  pub free_gb : F
  pub model : Text
  pub type : Text
  pub serial_number : Text
  pub health : Text
  pub smart_status : Text
  pub devices : List (StorageDevice F)

pub record NetworkAdapter : Type 0 where
  pub name : Text
  pub description : Text
  pub ip_address : List Text
  pub mac_address : Text
  pub gateway : List Text
  pub dns : List Text
  pub dhcp : Bool
  pub dhcp_server : Text
  pub link_speed : ℕ
  pub status : Text

pub record Motherboard : Type 0 where
  pub manufacturer : Text
  pub product : Text
  pub serial_number : Text

pub record Bios : Type 0 where
  pub manufacturer : Text
  pub version : Text
  pub serial_number : Text
  pub release_date : Text

pub record SecurityState : Type 0 where
  pub available : Bool
  pub enabled : Bool
  pub status : Text

pub record Security : Type 0 where
  pub tpm : SecurityState
  pub secure_boot : SecurityState
  pub bit_locker : SecurityState
  pub defender : SecurityState
  pub firewall : SecurityState

pub record Monitor : Type 0 where
  pub name : Text
  pub manufacturer : Text
  pub serial_number : Text
  pub width : ℕ
  pub height : ℕ

pub record Gpu : Type 0 where
  pub name : Text
  pub driver_version : Text
  pub width : ℕ
  pub height : ℕ

pub record Users : Type 0 where
  pub current : Text
  pub last : Text

pub record Hardware (F : Type 0) : Type 0 where
  pub general : General
  pub operating_system : OperatingSystem
  pub cpu : Cpu
  pub ram : Memory F
  pub disk : DiskInventory F
  pub storage : List (StorageDevice F)
  pub nic : List NetworkAdapter
  pub network : List NetworkAdapter
  pub motherboard : Motherboard
  pub bios : Bios
  pub security : Security
  pub monitor : List Monitor
  pub gpu : List Gpu
  pub users : Users
  pub serial_number : Text

pub record AssetLinkHints : Type 0 where
  pub serial_number : Text
  pub machine_uuid : Text
  pub hostname : Text
  pub existing_agent_uuid : Text
  pub priority : List Text
  pub action : Text

pub record HardwareChange : Type 0 where
  pub section : Text
  pub type : Text
  pub detail : Text

pub record HealthAssessment (F : Type 0) : Type 0 where
  pub cpu : F
  pub memory : F
  pub disk : F
  pub heartbeat : F
  pub portal_latency : F
  pub security : F
  pub tpm : F
  pub bit_locker : F
  pub defender : F
  pub firewall : F
  pub overall : F
  pub status : Text
  pub explanations : List Text

pub record Payload (F : Type 0) : Type 0 where
  pub timestamp : ℕ
  pub agent_uuid : Text
  pub agent_version : Text
  pub hostname : Text
  pub fingerprint : Text
  pub changed_items : ℕ
  pub changes : List HardwareChange
  pub asset_link : AssetLinkHints
  pub health : HealthAssessment F
  pub hardware : Hardware F

pub record HistoryEvent : Type 0 where
  pub timestamp : ℕ
  pub fingerprint : Text
  pub changes : List HardwareChange

pub record Report : Type 0 where
  pub collect_duration : ℕ
  pub upload_duration : ℕ
  pub duration : ℕ
  pub payload_size : ℕ
  pub hardware_count : ℕ
  pub changed_items : ℕ
  pub skipped_items : ℕ
  pub fingerprint : Text
  pub queued : Bool
  pub result : String
