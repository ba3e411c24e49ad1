-- ===== src/Tests/Machine.antt =====
-- One machine as Windows describes it.
use it_portal_agent.Prelude.{ℕ, false, none, some, [], ◌∷◌}
use it_portal_agent.Inventory.Rows.{Machine}
use it_portal_agent.Text.{text}
use it_portal_agent.Text.Numbers.{print_decimal}

-- A machine with one processor, two logical disks on one physical disk and one adapter.
abbrev pub machine : ℕ → Machine
machine moment = record {
  systems =
      record {
        name = text " HOST ";
        manufacturer = text "Vendor";
        model = text "Model 1";
        domain = text "WORKGROUP";
        user_name = text "user";
        part_of_domain = false;
        total_physical_memory = 8192;
      }
      ∷ [];
  products = record { uuid = text "4C4C"; name = text "Product"; vendor = text "Vendor" } ∷ [];
  enclosures = record { smbios_asset_tag = text "T1"; serial_number = [] } ∷ [];
  bios =
      record {
        manufacturer = text "Vendor";
        smbios_bios_version = text "1.0";
        serial_number = text "S1";
        release_date = text "20240101";
      }
      ∷ [];
  boards = [];
  operating_systems =
      record {
        caption = text "Windows 11";
        version = text "10.0";
        build_number = text "22631";
        os_architecture = text "64-bit";
        install_date = text "20240102";
        last_boot_up_time = print_decimal moment;
        free_physical_memory = moment;
        total_visible_memory_size = 16;
      }
      ∷ [];
  processors =
      record {
        name = text "CPU";
        manufacturer = text "Vendor";
        socket_designation = text "U3E1";
        number_of_logical_processors = 8;
        number_of_cores = 4;
        thread_count = 8;
        max_clock_speed = 2400;
      }
      ∷ [];
  memory = [];
  logical_disks =
      record {
        device_id = text "C:";
        file_system = text "NTFS";
        media_type = 12;
        size = 1000;
        free_space = 400;
        drive_type = 3;
      }
      ∷ record {
        device_id = text "D:";
        file_system = [];
        media_type = 11;
        size = 0;
        free_space = 0;
        drive_type = 5;
      }
      ∷ [];
  physical_disks =
      record {
        device_id = text "PHYSICALDRIVE0";
        model = text "Disk NVMe";
        serial_number = text "D1";
        media_type = text "Fixed hard disk media";
        status = text "OK";
        size = 2000;
      }
      ∷ [];
  adapters = [];
  adapter_details =
      record {
        name = text "Ethernet";
        mac_address = text "00:01";
        speed = 1000;
        net_connection_status = 2;
      }
      ∷ [];
  monitors = [];
  gpus = [];
  tpms = none;
  volumes = some (2 ∷ 1 ∷ []);
  defender = none;
  smart = some (false ∷ []);
  registry_integer = λ path name. some 1;
  registry_string = λ path name. none;
  location = text "UTC";
}
