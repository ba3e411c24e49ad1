-- ===== src/Inventory/Devices.antt =====
-- internal/inventory/collector_windows.go: processors, memory modules, network adapters, monitors and
-- graphics cards from the rows of their queries. Sums keep the width of their type.
use it_portal_agent.Prelude.{
  ◌+◌, ◌%◌, ◌^◌, Bool, false, not, ◌&&◌, ◌||◌, List, [], ◌∷◌, ◌++◌, ltb, if◌then◌else◌,
}
use it_portal_agent.Inventory.Rows.{
  Processor, PhysicalMemory, AdapterConfiguration, AdapterDetail, DesktopMonitor, VideoController,
}
use it_portal_agent.Inventory.Status.{clean, clean_strings, network_status}
use it_portal_agent.Inventory.Types.{Cpu, MemoryModule, NetworkAdapter, Monitor, Gpu}
use it_portal_agent.Text.{text, text_eq, is_empty}

-- `Win32_Processor`: the last processor gives the names, the counts add up, the clock is the fastest.
unfoldable pub add_processor : Cpu → Processor → Cpu
add_processor c p = record {
  model = clean p.name;
  manufacturer = clean p.manufacturer;
  socket = clean p.socket_designation;
  logical_cores = (c.logical_cores + p.number_of_logical_processors) % 2 ^ 32;
  physical_cores = (c.physical_cores + p.number_of_cores) % 2 ^ 32;
  threads = (c.threads + p.thread_count) % 2 ^ 32;
  clock_mhz = if ltb c.clock_mhz p.max_clock_speed then p.max_clock_speed else c.clock_mhz;
}

unfoldable pub with_processors : List Processor → Cpu → Cpu
with_processors [] c = c
with_processors (p ∷ processors) c = with_processors processors (add_processor c p)

-- `Win32_PhysicalMemory`
unfoldable pub memory_module : PhysicalMemory → MemoryModule
memory_module m = record {
  locator = clean m.device_locator;
  manufacturer = clean m.manufacturer;
  part_number = clean m.part_number;
  capacity = m.capacity;
  speed_mhz = m.speed;
}

-- `Win32_NetworkAdapterConfiguration`
unfoldable pub configured_adapter : AdapterConfiguration → NetworkAdapter
configured_adapter a = record {
  name = clean a.description;
  description = clean a.description;
  ip_address = clean_strings a.ip_address;
  mac_address = clean a.mac_address;
  gateway = clean_strings a.default_ip_gateway;
  dns = clean_strings a.dns_server_search_order;
  dhcp = a.dhcp_enabled;
  dhcp_server = clean a.dhcp_server;
  link_speed = 0;
  status = text "up";
}

-- The row of `Win32_NetworkAdapter` is about the adapter.
unfoldable pub is_same_adapter : AdapterDetail → NetworkAdapter → Bool
is_same_adapter d a =
    (not (is_empty (clean d.mac_address)) && text_eq (clean d.mac_address) a.mac_address)
    || (not (is_empty a.description) && text_eq (clean d.name) a.description)

-- The loop over the adapters for one row.
unfoldable pub update_adapters : AdapterDetail → List NetworkAdapter → List NetworkAdapter
update_adapters d [] = []
update_adapters d (a ∷ adapters) =
    let rest = update_adapters d adapters in
    if is_same_adapter d a
    then record a {
      name = clean d.name;
      link_speed = d.speed;
      status = network_status d.net_connection_status;
    }
      ∷ rest
    else a ∷ rest

-- `matched`
unfoldable pub is_matched : AdapterDetail → List NetworkAdapter → Bool
is_matched d [] = false
is_matched d (a ∷ adapters) = is_same_adapter d a || is_matched d adapters

-- An adapter of which only the row of `Win32_NetworkAdapter` is known.
unfoldable pub new_adapter : AdapterDetail → NetworkAdapter
new_adapter d = record {
  name = clean d.name;
  description = [];
  ip_address = [];
  mac_address = clean d.mac_address;
  gateway = [];
  dns = [];
  dhcp = false;
  dhcp_server = [];
  link_speed = d.speed;
  status = network_status d.net_connection_status;
}

unfoldable pub add_detail : AdapterDetail → List NetworkAdapter → List NetworkAdapter
add_detail d adapters =
    if not (is_matched d adapters) && not (is_empty (clean d.name))
    then update_adapters d adapters ++ (new_adapter d ∷ [])
    else update_adapters d adapters

unfoldable pub with_details : List AdapterDetail → List NetworkAdapter → List NetworkAdapter
with_details [] adapters = adapters
with_details (d ∷ details) adapters = with_details details (add_detail d adapters)

-- `Win32_DesktopMonitor`
unfoldable pub desktop_monitor : DesktopMonitor → Monitor
desktop_monitor m = record {
  name = clean m.name;
  manufacturer = [];
  serial_number = clean m.pnp_device_id;
  width = m.screen_width;
  height = m.screen_height;
}

-- `Win32_VideoController`
unfoldable pub video_controller : VideoController → Gpu
video_controller g = record {
  name = clean g.name;
  driver_version = clean g.driver_version;
  width = g.current_horizontal_resolution;
  height = g.current_vertical_resolution;
}
