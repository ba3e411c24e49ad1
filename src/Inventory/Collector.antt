-- ===== src/Inventory/Collector.antt =====
-- internal/inventory/collector_windows.go: `Collect`, which turns what Windows answers into a snapshot.
--
-- Where a query gives no row, its step does nothing; the program drops the errors of these queries.
pub mod Consistent
use it_portal_agent.Prelude.{ℕ, ◌%◌, ◌^◌, String, List, [], ◌∷◌, map, length, if◌then◌else◌}
use it_portal_agent.FloatingPoint.{Floats}
use it_portal_agent.Inventory.Devices.{
  with_processors, memory_module, configured_adapter, with_details, desktop_monitor,
  video_controller,
}
use it_portal_agent.Inventory.Disks.{
  visible_memory, counted_memory, add_logical_disks, with_used, add_physical_disks, total_disks,
}
use it_portal_agent.Inventory.Rows.{
  Machine, ComputerSystem, ComputerSystemProduct, SystemEnclosure, BiosRow, BaseBoard,
  OperatingSystemRow,
}
use it_portal_agent.Inventory.Security.{no_state, collect_security}
use it_portal_agent.Inventory.Status.{clean, registry_string, timezone, collect_smart_status}
use it_portal_agent.Inventory.Types.{DiskInventory, StorageDevice, Hardware}
use it_portal_agent.Text.{Text, text, is_empty}
use it_portal_agent.World.{Reply, answer, failure, Context}

-- A text that is there already, or else the other.
abbrev pub first_text : Text → Text → Text
first_text a b = if is_empty a then b else a

module _ {F : Type 0} (fl : Floats F) where
  abbrev pub float_zero : F
  float_zero = fl.of_nat 0

  -- `Hardware{}`
  abbrev pub no_hardware : Hardware F
  no_hardware = record {
    general = record {
      computer_name = [];
      machine_uuid = [];
      serial_number = [];
      asset_tag = [];
      manufacturer = [];
      model = [];
      product_name = [];
    };
    operating_system = record {
      edition = [];
      version = [];
      build_number = [];
      architecture = [];
      install_date = [];
      last_boot_time = [];
      domain = [];
      workgroup = [];
      timezone = [];
    };
    cpu = record {
      model = [];
      manufacturer = [];
      socket = [];
      logical_cores = 0;
      physical_cores = 0;
      threads = 0;
      clock_mhz = 0;
    };
    ram = record {
      total_bytes = 0;
      used_bytes = 0;
      available_bytes = 0;
      total_gb = float_zero;
      used_gb = float_zero;
      available_gb = float_zero;
      usage_percent = float_zero;
      slots = 0;
      modules = [];
    };
    disk = record {
      total_bytes = 0;
      used_bytes = 0;
      free_bytes = 0;
      total_gb = float_zero;
      used_gb = float_zero;
      free_gb = float_zero;
      model = [];
      type = [];
      serial_number = [];
      health = [];
      smart_status = [];
      devices = [];
    };
    storage = [];
    nic = [];
    network = [];
    motherboard = record { manufacturer = []; product = []; serial_number = [] };
    bios = record { manufacturer = []; version = []; serial_number = []; release_date = [] };
    security = record {
      tpm = no_state;
      secure_boot = no_state;
      bit_locker = no_state;
      defender = no_state;
      firewall = no_state;
    };
    monitor = [];
    gpu = [];
    users = record { current = []; last = [] };
    serial_number = [];
  }

  -- The step of `Win32_ComputerSystem`.
  unfoldable pub with_system : List ComputerSystem → Hardware F → Hardware F
  with_system [] h = h
  with_system (s ∷ systems) h = record h {
    general = record h.general {
      computer_name = clean s.name;
      manufacturer = clean s.manufacturer;
      model = clean s.model;
    };
    operating_system = record h.operating_system {
      domain = clean s.domain;
      workgroup = if s.part_of_domain then h.operating_system.workgroup else clean s.domain;
    };
    users = record h.users { current = clean s.user_name };
    ram = record h.ram { total_bytes = s.total_physical_memory };
  }

  -- The step of `Win32_ComputerSystemProduct`.
  unfoldable pub with_product : List ComputerSystemProduct → Hardware F → Hardware F
  with_product [] h = h
  with_product (p ∷ products) h = record h {
    general = record h.general {
      machine_uuid = clean p.uuid;
      product_name = first_text h.general.product_name (clean p.name);
      manufacturer = first_text h.general.manufacturer (clean p.vendor);
    };
  }

  -- The step of `Win32_SystemEnclosure`.
  unfoldable pub with_enclosure : List SystemEnclosure → Hardware F → Hardware F
  with_enclosure [] h = h
  with_enclosure (e ∷ enclosures) h = record h {
    general = record h.general {
      asset_tag = clean e.smbios_asset_tag;
      serial_number = first_text h.general.serial_number (clean e.serial_number);
    };
  }

  -- The step of `Win32_BIOS`.
  unfoldable pub with_bios : List BiosRow → Hardware F → Hardware F
  with_bios [] h = h
  with_bios (b ∷ bios) h = record h {
    bios = record {
      manufacturer = clean b.manufacturer;
      version = clean b.smbios_bios_version;
      serial_number = clean b.serial_number;
      release_date = clean b.release_date;
    };
    general = record h.general {
      serial_number = first_text h.general.serial_number (clean b.serial_number);
    };
  }

  -- The step of `Win32_BaseBoard`.
  unfoldable pub with_board : List BaseBoard → Hardware F → Hardware F
  with_board [] h = h
  with_board (b ∷ boards) h = record h {
    motherboard = record {
      manufacturer = clean b.manufacturer;
      product = clean b.product;
      serial_number = clean b.serial_number;
    };
  }

  -- The step of `Win32_OperatingSystem`.
  unfoldable pub with_operating_system : Text → List OperatingSystemRow → Hardware F → Hardware F
  with_operating_system zone [] h = h
  with_operating_system zone (os ∷ systems) h = record h {
    operating_system = record {
      edition = clean os.caption;
      version = clean os.version;
      build_number = clean os.build_number;
      architecture = clean os.os_architecture;
      install_date = clean os.install_date;
      last_boot_time = clean os.last_boot_up_time;
      domain = h.operating_system.domain;
      workgroup = h.operating_system.workgroup;
      timezone = zone;
    };
    ram = visible_memory fl os h.ram;
  }

  -- The steps up to the memory's size, from the empty snapshot.
  unfoldable pub identify_machine : Machine → Hardware F
  identify_machine m =
      let identified = with_bios m.bios (
        with_enclosure m.enclosures
          (with_product m.products (with_system m.systems no_hardware))) in
      let h = with_operating_system (timezone m) m.operating_systems (
        with_board m.boards
          (record identified { serial_number = identified.general.serial_number })) in
      record h {
        operating_system = record h.operating_system {
          timezone = first_text h.operating_system.timezone (timezone m);
        };
        ram = counted_memory fl h.ram;
      }

  module _ (lower_unicode : Text → Text) where
    -- The disks, and the list of the physical ones.
    unfoldable pub collect_disks :
        Machine → DiskInventory F → DiskInventory F × List (StorageDevice F)
    collect_disks m i =
        let (disk, storage) =
          add_physical_disks fl lower_unicode (collect_smart_status m.smart) m.physical_disks
            (with_used fl (add_logical_disks fl lower_unicode m.logical_disks i), []) in
        (total_disks fl disk, storage)

    -- `Collect`, where the context is not done.
    unfoldable pub collect_hardware : Machine → Hardware F
    collect_hardware m =
        let h = identify_machine m in
        let (disk, storage) = collect_disks m h.disk in
        let adapters = with_details m.adapter_details (map configured_adapter m.adapters) in
        let logon : String =
          "SOFTWARE\\Microsoft\\Windows\\CurrentVersion\\Authentication\\LogonUI" in
        record h {
          cpu = with_processors m.processors h.cpu;
          ram = record h.ram {
            slots = length m.memory % 2 ^ 32;
            modules = map memory_module m.memory;
          };
          disk = disk;
          storage = storage;
          nic = adapters;
          network = adapters;
          monitor = map desktop_monitor m.monitors;
          gpu = map video_controller m.gpus;
          security = collect_security m;
          users = record h.users {
            last =
                first_text (registry_string m logon "LastLoggedOnUser")
                  (registry_string m logon "LastLoggedOnDisplayName");
          };
        }

    -- `Collect`, of what Windows answers at a moment.
    unfoldable pub collect : (ℕ → Machine) → Context → ℕ → Reply (Hardware F)
    collect machine ctx n =
        if ctx n then failure (text "context canceled") else answer (collect_hardware (machine n))
