-- ===== src/Inventory/Disks.antt =====
-- internal/inventory/collector_windows.go: the memory, the logical disks and the physical ones.
--
-- Sums and products of `uint64` are taken modulo 2^64.
pub mod Balanced
use it_portal_agent.Prelude.{
  ◌+◌, ◌-◌, ◌*◌, ◌%◌, ◌^◌, ◌&&◌, List, [], ◌∷◌, ◌++◌, ltb, leb, ◌==◌, if◌then◌else◌,
}
use it_portal_agent.FloatingPoint.{Floats, bytes_to_gb}
use it_portal_agent.Inventory.Rows.{OperatingSystemRow, LogicalDisk, DiskDrive}
use it_portal_agent.Inventory.Status.{clean, normalize_storage_type, drive_type_name}
use it_portal_agent.Inventory.Types.{Memory, StorageDevice, DiskInventory}
use it_portal_agent.Text.{Text, is_empty}
use it_portal_agent.Text.Numbers.{print_decimal}
use it_portal_agent.Text.Search.{has_prefix}

module _ {F : Type 0} (fl : Floats F) where
  -- The sizes of the memory in gigabytes.
  abbrev with_gigabytes : Memory F → Memory F
  with_gigabytes m = record m {
    total_gb = bytes_to_gb fl m.total_bytes;
    available_gb = bytes_to_gb fl m.available_bytes;
    used_gb = bytes_to_gb fl m.used_bytes;
    usage_percent =
        if ltb 0 m.total_bytes
        then fl.times (fl.divided (fl.of_nat m.used_bytes) (fl.of_nat m.total_bytes))
            (fl.of_nat 100)
        else m.usage_percent;
  }

  -- The memory from a row of `Win32_OperatingSystem`, whose sizes are in KiB.
  unfoldable pub visible_memory : OperatingSystemRow → Memory F → Memory F
  visible_memory os m =
      let available = (os.free_physical_memory * 1024) % 2 ^ 64 in
      let total = (os.total_visible_memory_size * 1024) % 2 ^ 64 in
      if ltb 0 os.total_visible_memory_size
      then with_gigabytes (record m {
        available_bytes = available;
        total_bytes = total;
        used_bytes = if ltb available total then total - available else m.used_bytes;
      })
      else m

  -- A memory whose size is known and whose gigabytes are not counted yet.
  unfoldable pub counted_memory : Memory F → Memory F
  counted_memory m =
      if ltb 0 m.total_bytes && fl.equal m.total_gb (fl.of_nat 0) then with_gigabytes m else m

  -- What is used of the disks.
  unfoldable pub with_used : DiskInventory F → DiskInventory F
  with_used i = record i {
    used_bytes =
        if leb i.free_bytes i.total_bytes then i.total_bytes - i.free_bytes else i.used_bytes;
  }

  -- The gigabytes of the disks.
  unfoldable pub total_disks : DiskInventory F → DiskInventory F
  total_disks i = record i {
    total_gb = bytes_to_gb fl i.total_bytes;
    used_gb = bytes_to_gb fl i.used_bytes;
    free_gb = bytes_to_gb fl i.free_bytes;
  }

  module _ (lower_unicode : Text → Text) where
    -- The device of a logical disk.
    unfoldable pub logical_device : LogicalDisk → StorageDevice F
    logical_device d =
        let used = if leb d.free_space d.size then d.size - d.free_space else 0 in
        record {
          device_id = clean d.device_id;
          type = normalize_storage_type lower_unicode (print_decimal d.media_type) [];
          model = [];
          serial_number = [];
          health = [];
          smart_status = [];
          total_bytes = d.size;
          free_bytes = d.free_space;
          used_bytes = used;
          capacity_gb = bytes_to_gb fl d.size;
          used_gb = bytes_to_gb fl used;
          free_gb = bytes_to_gb fl d.free_space;
          filesystem = clean d.file_system;
          drive_type = drive_type_name d.drive_type;
        }

    -- The body of the loop over the logical disks, which passes over those without a size.
    unfoldable pub add_logical_disk : LogicalDisk → DiskInventory F → DiskInventory F
    add_logical_disk d i = if d.size == 0 then i else record i {
      devices = i.devices ++ (logical_device d ∷ []);
      total_bytes = (i.total_bytes + d.size) % 2 ^ 64;
      free_bytes = (i.free_bytes + d.free_space) % 2 ^ 64;
    }

    unfoldable pub add_logical_disks : List LogicalDisk → DiskInventory F → DiskInventory F
    add_logical_disks [] i = i
    add_logical_disks (d ∷ disks) i = add_logical_disks disks (add_logical_disk d i)

    -- The logical device takes over what is known of the physical disk its identifier begins with.
    unfoldable pub identified : Text → DiskDrive → StorageDevice F → StorageDevice F
    identified smart_status d device =
        if has_prefix device.device_id d.device_id
        then record device {
          model = clean d.model;
          serial_number = clean d.serial_number;
          health = clean d.status;
          smart_status = smart_status;
          type = normalize_storage_type lower_unicode d.media_type d.model;
        }
        else device

    unfoldable pub identify : Text → DiskDrive → List (StorageDevice F) → List (StorageDevice F)
    identify smart_status d [] = []
    identify smart_status d (device ∷ devices) =
        identified smart_status d device ∷ identify smart_status d devices

    -- The device of a physical disk.
    unfoldable pub physical_device : Text → DiskDrive → StorageDevice F
    physical_device smart_status d = record {
      device_id = clean d.device_id;
      type = normalize_storage_type lower_unicode d.media_type d.model;
      model = clean d.model;
      serial_number = clean d.serial_number;
      health = clean d.status;
      smart_status = smart_status;
      total_bytes = d.size;
      free_bytes = 0;
      used_bytes = 0;
      capacity_gb = bytes_to_gb fl d.size;
      used_gb = fl.of_nat 0;
      free_gb = fl.of_nat 0;
      filesystem = [];
      drive_type = [];
    }

    -- The first physical disk with a model stands for the disks as a whole.
    unfoldable pub with_main_disk : Text → DiskDrive → DiskInventory F → DiskInventory F
    with_main_disk smart_status d i =
        if is_empty i.model
        then record i {
          model = clean d.model;
          type = normalize_storage_type lower_unicode d.media_type d.model;
          serial_number = clean d.serial_number;
          health = clean d.status;
          smart_status = smart_status;
        }
        else i

    -- The body of the loop over the physical disks, on the logical devices and the list of the
    -- physical ones.
    unfoldable pub add_physical_disk :
        Text
        → DiskDrive
        → DiskInventory F × List (StorageDevice F)
        → DiskInventory F × List (StorageDevice F)
    add_physical_disk smart_status d (i, storage) =
        let i' : DiskInventory F = record i { devices = identify smart_status d i.devices } in
        if ltb 0 d.size
        then (with_main_disk smart_status d i', storage ++ (physical_device smart_status d ∷ []))
        else (i', storage)

    unfoldable pub add_physical_disks :
        Text
        → List DiskDrive
        → DiskInventory F × List (StorageDevice F)
        → DiskInventory F × List (StorageDevice F)
    add_physical_disks smart_status [] found = found
    add_physical_disks smart_status (d ∷ disks) found =
        add_physical_disks smart_status disks (add_physical_disk smart_status d found)
