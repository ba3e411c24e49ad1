-- ===== src/Inventory/Identity.antt =====
-- internal/inventory/intelligence.go: what of a snapshot identifies the machine, and its fingerprint.
--
-- `lower_unicode` is `strings.ToLower` for texts that are not ASCII.
pub mod Stability
use it_portal_agent.Prelude.{◌≡◌, refl, ℕ, Bool, Option, List, [], ◌++◌, map}
use it_portal_agent.FloatingPoint.{Floats}
use it_portal_agent.Sorting.{sort}
use it_portal_agent.Text.{Text, text}
use it_portal_agent.Text.Case.{to_lower}
use it_portal_agent.Text.Numbers.{hex}
use it_portal_agent.Text.Order.{text_lt}
use it_portal_agent.World.{
  Reply, answer, failure, Result, ok, err, IsPlain, wrap, external, Env, Context,
}
use it_portal_agent.Inventory.Types.{
  Hardware, Memory, MemoryModule, DiskInventory, StorageDevice, NetworkAdapter, Payload,
  HardwareChange, HistoryEvent,
}

-- The order of `sort.Slice` by a text.
abbrev pub by_key {ℓ} : {A : Type ℓ} → (A → Text) → A → A → Bool
by_key key a b = text_lt (key a) (key b)

module _ (lower_unicode : Text → Text) where
  -- `memoryKey`
  unfoldable pub memory_key : MemoryModule → Text
  memory_key value = to_lower lower_unicode (value.locator ++ (text "|" ++ value.part_number))

  -- `storageKey`
  unfoldable pub storage_key : {F : Type 0} → StorageDevice F → Text
  storage_key value =
      to_lower lower_unicode
        (value.device_id ++ (text "|" ++ (value.serial_number ++ (text "|" ++ value.model))))

  -- `networkKey`
  unfoldable pub network_key : NetworkAdapter → Text
  network_key value = to_lower lower_unicode (value.mac_address ++ (text "|" ++ value.name))

-- The resets of the loop over the network adapters.
unfoldable pub stable_adapter : NetworkAdapter → NetworkAdapter
stable_adapter a = record a {
  ip_address = [];
  gateway = [];
  dns = [];
  dhcp_server = [];
  status = [];
}

module _ {F : Type 0} (fl : Floats F) where
  abbrev float_zero : F
  float_zero = fl.of_nat 0

  -- The resets of the loops over the storage devices.
  unfoldable pub stable_device : StorageDevice F → StorageDevice F
  stable_device d = record d {
    free_bytes = 0;
    used_bytes = 0;
    used_gb = float_zero;
    free_gb = float_zero;
    capacity_gb = float_zero;
  }

  -- The resets of the memory's and the disks' totals; the modules and devices come in order.
  unfoldable pub stable_memory : (Text → Text) → Memory F → Memory F
  stable_memory lower_unicode m = record m {
    used_bytes = 0;
    available_bytes = 0;
    used_gb = float_zero;
    available_gb = float_zero;
    usage_percent = float_zero;
    modules = sort (by_key (memory_key lower_unicode)) m.modules;
  }

  unfoldable pub stable_disk : (Text → Text) → DiskInventory F → DiskInventory F
  stable_disk lower_unicode d = record d {
    free_bytes = 0;
    used_bytes = 0;
    total_gb = float_zero;
    used_gb = float_zero;
    free_gb = float_zero;
    devices = sort (by_key (storage_key lower_unicode)) (map stable_device d.devices);
  }

  -- `normalizedHardware`
  unfoldable pub normalized_hardware : (Text → Text) → Hardware F → Hardware F
  normalized_hardware lower_unicode h =
      let adapters = sort (by_key (network_key lower_unicode)) (map stable_adapter h.nic) in
      record h {
        users = record { current = []; last = [] };
        operating_system = record h.operating_system { last_boot_time = [] };
        ram = stable_memory lower_unicode h.ram;
        disk = stable_disk lower_unicode h.disk;
        storage = sort (by_key (storage_key lower_unicode)) (map stable_device h.storage);
        nic = adapters;
        network = adapters;
        monitor = sort (by_key (λ m. m.name)) h.monitor;
        gpu = sort (by_key (λ g. g.name)) h.gpu;
      }

-- What the inventory takes from outside: the codecs, and the collector of the platform.
pub record Tools (F : Type 0) : Type 0 where
  pub lower_unicode : Text → Text
  pub upper_unicode : Text → Text
  -- `Collect`, which runs at one moment
  pub collect : Context → ℕ → Reply (Hardware F)
  pub marshal_hardware : Hardware F → Reply Text
  pub unmarshal_hardware : Text → Option (Hardware F)
  pub marshal_payload : Payload F → Reply Text
  pub marshal_changes : List HardwareChange → Reply Text
  pub marshal_timeline : List HistoryEvent → Reply Text
  -- the elements of a stored timeline that `json.Unmarshal` leaves in the slice, errors included
  pub unmarshal_timeline : Text → List HistoryEvent
  -- `fmt.Sscanf` with %f
  pub scan_float : Text → Option F

module _ {F : Type 0} (fl : Floats F) (tools : Tools F) (env : Env) where
  abbrev hashed : Reply Text → Result Text
  hashed (answer bytes) = ok (hex (env.sha256 bytes))
  hashed (failure t) = err (wrap "marshal fingerprint" (external t))

  -- `Fingerprint`
  unfoldable pub fingerprint : Hardware F → Result Text
  fingerprint h = hashed (tools.marshal_hardware (normalized_hardware fl tools.lower_unicode h))

  pub fingerprint-IsPlain : (h : Hardware F) → IsPlain (fingerprint h)
  unfolding fingerprint
  fingerprint-IsPlain h = go (tools.marshal_hardware (normalized_hardware fl tools.lower_unicode h))
    where
      go : (r : Reply Text) → IsPlain (hashed r)
      go (answer bytes) = tt
      go (failure t) = refl
