-- ===== src/Inventory/Changes.antt =====
-- internal/inventory/intelligence.go: the changes between two snapshots, and the count of the hardware.
--
-- `reflect.DeepEqual` compares the values of a section; `same` decides whether two numbers of `F` are
-- equal. The only such number that is compared and not reset before is the size of the memory, which
-- is no NaN. After the resets an empty slice is always nil.
pub mod Diff
use native.Mathlib.Decide.{ℕ_discrete}
use it_portal_agent.Prelude.{
  ℕ, ◌+◌, Bool, true, false, not, ◌||◌, Option, none, some, List, [], ◌∷◌, if◌then◌else◌, length,
}
use it_portal_agent.FloatingPoint.{Floats}
use it_portal_agent.Text.{Text, text, text_eq, is_empty}
use it_portal_agent.Inventory.Types.{
  General, OperatingSystem, Cpu, Memory, StorageDevice, NetworkAdapter, Motherboard, Bios, Security,
  Monitor, Gpu, Hardware, HardwareChange, AssetLinkHints,
}
use it_portal_agent.Inventory.Identity.{normalized_hardware}

pub General-discrete : Discrete General
General-discrete = hlevel (ℕ_discrete)

pub OperatingSystem-discrete : Discrete OperatingSystem
OperatingSystem-discrete = hlevel (ℕ_discrete)

pub Cpu-discrete : Discrete Cpu
Cpu-discrete = hlevel (ℕ_discrete)

pub Memory-discrete : {F : Type 0} → Discrete F → Discrete (Memory F)
Memory-discrete same = hlevel (ℕ_discrete, same)

pub StorageDevice-discrete : {F : Type 0} → Discrete F → Discrete (List (StorageDevice F))
StorageDevice-discrete same = hlevel (ℕ_discrete, same)

pub NetworkAdapter-discrete : Discrete (List NetworkAdapter)
NetworkAdapter-discrete = hlevel (ℕ_discrete)

pub Motherboard-discrete : Discrete Motherboard
Motherboard-discrete = hlevel (ℕ_discrete)

pub Bios-discrete : Discrete Bios
Bios-discrete = hlevel (ℕ_discrete)

pub Security-discrete : Discrete Security
Security-discrete = hlevel (ℕ_discrete)

pub Monitor-discrete : Discrete (List Monitor)
Monitor-discrete = hlevel (ℕ_discrete)

pub Gpu-discrete : Discrete (List Gpu)
Gpu-discrete = hlevel (ℕ_discrete)

abbrev pub decided {ℓ} : {P : Type ℓ} → Dec P → Bool
decided (yes p) = true
decided (no p) = false

-- `reflect.DeepEqual`
unfoldable pub deep_equal {ℓ} : {A : Type ℓ} → Discrete A → A → A → Bool
deep_equal d a b = decided (d a b)

-- The detail of a changed section.
unfoldable pub detail_of : Text → Text
detail_of name =
    if text_eq name (text "memory")
    then text "Memory modules or capacity changed"
    else if text_eq name (text "storage")
    then text "Disk inventory changed"
    else if text_eq name (text "bios")
    then text "BIOS version or identity changed"
    else if text_eq name (text "operatingSystem")
    then text "Windows version or build changed"
    else if text_eq name (text "network")
    then text "Network adapter identity changed"
    else text "Section changed"

-- The loop over the sections, each with the result of its comparison.
unfoldable pub changes_of : List (Text × Bool) → List HardwareChange
changes_of [] = []
changes_of ((name, equal) ∷ sections) =
    let rest = changes_of sections in
    if equal
    then rest
    else record { section = name; type = text "changed"; detail = detail_of name } ∷ rest

module _ {F : Type 0} (same : Discrete F) where
  -- The sections of two snapshots in normal form.
  abbrev pub sections_of : Hardware F → Hardware F → List (Text × Bool)
  sections_of l r =
      (text "general", deep_equal General-discrete l.general r.general)
      ∷ (
        text "operatingSystem",
        deep_equal OperatingSystem-discrete l.operating_system r.operating_system,
      )
      ∷ (text "cpu", deep_equal Cpu-discrete l.cpu r.cpu)
      ∷ (text "memory", deep_equal (Memory-discrete same) l.ram r.ram)
      ∷ (text "storage", deep_equal (StorageDevice-discrete same) l.storage r.storage)
      ∷ (text "network", deep_equal NetworkAdapter-discrete l.nic r.nic)
      ∷ (text "motherboard", deep_equal Motherboard-discrete l.motherboard r.motherboard)
      ∷ (text "bios", deep_equal Bios-discrete l.bios r.bios)
      ∷ (text "security", deep_equal Security-discrete l.security r.security)
      ∷ (text "display", deep_equal Monitor-discrete l.monitor r.monitor)
      ∷ (text "gpu", deep_equal Gpu-discrete l.gpu r.gpu)
      ∷ []

  -- `DiffHardware`
  unfoldable pub diff_hardware :
      Floats F → (Text → Text) → Option (Hardware F) → Hardware F → List HardwareChange
  diff_hardware fl lower_unicode none current =
      record {
        section = text "hardware";
        type = text "initial";
        detail = text "Initial hardware snapshot";
      }
      ∷ []
  diff_hardware fl lower_unicode (some previous) current = changes_of (
      sections_of (normalized_hardware fl lower_unicode previous)
        (normalized_hardware fl lower_unicode current))

-- One for a thing that has a name.
abbrev counted : Bool → ℕ
counted present = if present then 1 else 0

-- `HardwareCount`
unfoldable pub hardware_count : {F : Type 0} → Hardware F → ℕ
hardware_count h =
    counted (not (is_empty h.cpu.model))
    + counted (not (is_empty h.general.machine_uuid) || not (is_empty h.general.serial_number))
    + (length h.ram.modules
        + length h.disk.devices
        + length h.storage
        + length h.nic
        + length h.monitor
        + length h.gpu)
    + counted (not (is_empty h.motherboard.product))
    + counted (not (is_empty h.bios.version))

-- `BuildAssetLinkHints`
unfoldable pub build_asset_link_hints : {F : Type 0} → Hardware F → Text → Text → AssetLinkHints
build_asset_link_hints h agent_uuid hostname = record {
  serial_number = h.general.serial_number;
  machine_uuid = h.general.machine_uuid;
  hostname = hostname;
  existing_agent_uuid = agent_uuid;
  priority =
      text "serialNumber" ∷ text "machineUuid" ∷ text "hostname" ∷ text "existingAgentUuid" ∷ [];
  action = text "suggest";
}
