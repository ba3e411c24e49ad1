-- ===== src/Inventory/Identity/Stability.antt =====
-- `Fingerprint` of internal/inventory/intelligence.go forgets the volatile values of a snapshot and
-- the order in which Windows lists the parts of the machine.
use mathlib.Core.List.{Permᴰ}
use it_portal_agent.Prelude.{
  ◌≡◌, ◌≢◌, refl, inl, inr, List, [], ◌∷◌, map, Bool-cases, All-map, Pairwise,
}
use it_portal_agent.FloatingPoint.{Floats}
use it_portal_agent.Sorting.{sort}
use it_portal_agent.Sorting.Laws.{IsOrder, Apart, sort-eq_of_perm}
use it_portal_agent.Sorting.Reordered.{Reordered, sort-Reordered}
use it_portal_agent.Text.{Text, text_eq, text_eq_iff}
use it_portal_agent.Text.Order.{text_lt, text_lt_trans, text_lt_irrefl, text_lt_total}
use it_portal_agent.World.{Env}
use it_portal_agent.Inventory.Types.{
  OperatingSystem, Memory, StorageDevice, DiskInventory, NetworkAdapter, Hardware,
}
use it_portal_agent.Inventory.Identity.{
  Tools, by_key, memory_key, storage_key, network_key, stable_adapter, stable_device, stable_memory,
  stable_disk, normalized_hardware, fingerprint,
}

module _ {ℓ} {A : Type ℓ} (key : A → Text) where
  by_key-IsOrder : IsOrder (by_key key)
  by_key-IsOrder = record {
    trans = λ a b c. text_lt_trans (key a) (key b) (key c);
    irrefl = λ a. text_lt_irrefl (key a);
  }

  by_key-Apart : (a b : A) → key a ≢ key b → Apart (by_key key) a b
  by_key-Apart a b n = elim (Bool-cases (text_eq (key a) (key b))) [
    | inl e ↦ absurd (n ((text_eq_iff (key a) (key b)).0 e))
    | inr e ↦ elim (Bool-cases (text_lt (key a) (key b))) [
      | inl h ↦ inl h
      | inr h ↦ inr (text_lt_total (key a) (key b) e h)
    ]
  ]

  -- No two elements have the same key.
  abbrev pub IsKeyed : List A → Type 0
  IsKeyed = Pairwise (λ a b. key a ≢ key b)

  IsKeyed-Apart : (l : List A) → IsKeyed l → Pairwise (Apart (by_key key)) l
  IsKeyed-Apart [] h = tt
  IsKeyed-Apart (a ∷ l) h = (
    All-map (λ b. key a ≢ key b) (Apart (by_key key) a) (by_key-Apart a) l h.0,
    IsKeyed-Apart l h.1,
  )

  sort-perm : {l m : List A} → Permᴰ l m → IsKeyed l → sort (by_key key) l ≡ sort (by_key key) m
  sort-perm {l = l} p h = sort-eq_of_perm (by_key key) by_key-IsOrder p (IsKeyed-Apart l h)

-- The same adapter: its addresses and its state may differ.
pub record SameAdapter (a b : NetworkAdapter) : Type 0 where
  pub name : a.name ≡ b.name
  pub description : a.description ≡ b.description
  pub mac_address : a.mac_address ≡ b.mac_address
  pub dhcp : a.dhcp ≡ b.dhcp
  pub link_speed : a.link_speed ≡ b.link_speed

stable_adapter-SameAdapter :
    (a b : NetworkAdapter) → SameAdapter a b → stable_adapter a ≡ stable_adapter b
unfolding stable_adapter
stable_adapter-SameAdapter a b h = λ i. record {
  name = h.name i;
  description = h.description i;
  ip_address = [];
  mac_address = h.mac_address i;
  gateway = [];
  dns = [];
  dhcp = h.dhcp i;
  dhcp_server = [];
  link_speed = h.link_speed i;
  status = [];
}

-- The same Windows: the time of the last boot may differ.
pub record SameSystem (a b : OperatingSystem) : Type 0 where
  pub edition : a.edition ≡ b.edition
  pub version : a.version ≡ b.version
  pub build_number : a.build_number ≡ b.build_number
  pub architecture : a.architecture ≡ b.architecture
  pub install_date : a.install_date ≡ b.install_date
  pub domain : a.domain ≡ b.domain
  pub workgroup : a.workgroup ≡ b.workgroup
  pub timezone : a.timezone ≡ b.timezone

module _ {F : Type 0} where
  -- The same device: what is used and free on it may differ.
  pub record SameDevice (a b : StorageDevice F) : Type 0 where
    pub device_id : a.device_id ≡ b.device_id
    pub type : a.type ≡ b.type
    pub model : a.model ≡ b.model
    pub serial_number : a.serial_number ≡ b.serial_number
    pub health : a.health ≡ b.health
    pub smart_status : a.smart_status ≡ b.smart_status
    pub total_bytes : a.total_bytes ≡ b.total_bytes
    pub filesystem : a.filesystem ≡ b.filesystem
    pub drive_type : a.drive_type ≡ b.drive_type

  -- The same memory: how much of it is used may differ, and the order of the modules.
  pub record SameMemory (a b : Memory F) : Type 0 where
    pub total_bytes : a.total_bytes ≡ b.total_bytes
    pub total_gb : a.total_gb ≡ b.total_gb
    pub slots : a.slots ≡ b.slots
    pub modules : Permᴰ a.modules b.modules

  -- The same disks: what is used of them may differ, and the order of the devices.
  pub record SameDisk (a b : DiskInventory F) : Type 0 where
    pub total_bytes : a.total_bytes ≡ b.total_bytes
    pub model : a.model ≡ b.model
    pub type : a.type ≡ b.type
    pub serial_number : a.serial_number ≡ b.serial_number
    pub health : a.health ≡ b.health
    pub smart_status : a.smart_status ≡ b.smart_status
    pub devices : Reordered SameDevice a.devices b.devices

  -- Two snapshots of the same machine: users, the time of the last boot, what is used of the memory
  -- and the disks and the addresses of the network may differ, and the order of every list.
  pub record SameMachine (h k : Hardware F) : Type 0 where
    pub general : h.general ≡ k.general
    pub operating_system : SameSystem h.operating_system k.operating_system
    pub cpu : h.cpu ≡ k.cpu
    pub ram : SameMemory h.ram k.ram
    pub disk : SameDisk h.disk k.disk
    pub storage : Reordered SameDevice h.storage k.storage
    pub nic : Reordered SameAdapter h.nic k.nic
    pub motherboard : h.motherboard ≡ k.motherboard
    pub bios : h.bios ≡ k.bios
    pub security : h.security ≡ k.security
    pub monitor : Permᴰ h.monitor k.monitor
    pub gpu : Permᴰ h.gpu k.gpu
    pub serial_number : h.serial_number ≡ k.serial_number

  module _ (fl : Floats F) (tools : Tools F) where
    -- The keys of the sorts tell the parts of a snapshot apart.
    pub record IsDistinct (h : Hardware F) : Type 0 where
      pub modules : IsKeyed (memory_key tools.lower_unicode) h.ram.modules
      pub devices : IsKeyed (storage_key tools.lower_unicode) h.disk.devices
      pub storage : IsKeyed (storage_key tools.lower_unicode) h.storage
      pub nic : IsKeyed (network_key tools.lower_unicode) h.nic
      pub monitor : IsKeyed (λ m. m.name) h.monitor
      pub gpu : IsKeyed (λ g. g.name) h.gpu

    stable_device-SameDevice :
        (a b : StorageDevice F) → SameDevice a b → stable_device fl a ≡ stable_device fl b
    unfolding stable_device
    stable_device-SameDevice a b h = λ i. record {
      device_id = h.device_id i;
      type = h.type i;
      model = h.model i;
      serial_number = h.serial_number i;
      health = h.health i;
      smart_status = h.smart_status i;
      total_bytes = h.total_bytes i;
      free_bytes = 0;
      used_bytes = 0;
      capacity_gb = fl.of_nat 0;
      used_gb = fl.of_nat 0;
      free_gb = fl.of_nat 0;
      filesystem = h.filesystem i;
      drive_type = h.drive_type i;
    }

    sort_devices :
        (l m : List (StorageDevice F))
        → Reordered SameDevice l m
        → IsKeyed (storage_key tools.lower_unicode) l
        → sort (by_key (storage_key tools.lower_unicode)) (map (stable_device fl) l)
          ≡ sort (by_key (storage_key tools.lower_unicode)) (map (stable_device fl) m)
    unfolding stable_device storage_key
    sort_devices l m p h =
        let key : StorageDevice F → Text = storage_key tools.lower_unicode in
        sort-Reordered (by_key key) (by_key-IsOrder key) (stable_device fl) stable_device-SameDevice
          p (IsKeyed-Apart key l h)

    sort_adapters :
        (l m : List NetworkAdapter)
        → Reordered SameAdapter l m
        → IsKeyed (network_key tools.lower_unicode) l
        → sort (by_key (network_key tools.lower_unicode)) (map stable_adapter l)
          ≡ sort (by_key (network_key tools.lower_unicode)) (map stable_adapter m)
    unfolding stable_adapter network_key
    sort_adapters l m p h =
        let key = network_key tools.lower_unicode in
        sort-Reordered (by_key key) (by_key-IsOrder key) stable_adapter stable_adapter-SameAdapter p
          (IsKeyed-Apart key l h)

    normalized_hardware-SameMachine :
        (h k : Hardware F)
        → SameMachine h k
        → IsDistinct h
        → normalized_hardware fl tools.lower_unicode h
          ≡ normalized_hardware fl tools.lower_unicode k
    unfolding normalized_hardware stable_memory stable_disk
    normalized_hardware-SameMachine h k s d =
        let nic = sort_adapters h.nic k.nic s.nic d.nic in
        let modules = sort-perm (memory_key tools.lower_unicode) s.ram.modules d.modules in
        let devices = sort_devices h.disk.devices k.disk.devices s.disk.devices d.devices in
        let storage = sort_devices h.storage k.storage s.storage d.storage in
        let monitor = sort-perm (λ m. m.name) s.monitor d.monitor in
        let gpu = sort-perm (λ g. g.name) s.gpu d.gpu in
        λ i. record {
          general = s.general i;
          operating_system = record {
            edition = s.operating_system.edition i;
            version = s.operating_system.version i;
            build_number = s.operating_system.build_number i;
            architecture = s.operating_system.architecture i;
            install_date = s.operating_system.install_date i;
            last_boot_time = [];
            domain = s.operating_system.domain i;
            workgroup = s.operating_system.workgroup i;
            timezone = s.operating_system.timezone i;
          };
          cpu = s.cpu i;
          ram = record {
            total_bytes = s.ram.total_bytes i;
            used_bytes = 0;
            available_bytes = 0;
            total_gb = s.ram.total_gb i;
            used_gb = fl.of_nat 0;
            available_gb = fl.of_nat 0;
            usage_percent = fl.of_nat 0;
            slots = s.ram.slots i;
            modules = modules i;
          };
          disk = record {
            total_bytes = s.disk.total_bytes i;
            used_bytes = 0;
            free_bytes = 0;
            total_gb = fl.of_nat 0;
            used_gb = fl.of_nat 0;
            free_gb = fl.of_nat 0;
            model = s.disk.model i;
            type = s.disk.type i;
            serial_number = s.disk.serial_number i;
            health = s.disk.health i;
            smart_status = s.disk.smart_status i;
            devices = devices i;
          };
          storage = storage i;
          nic = nic i;
          network = nic i;
          motherboard = s.motherboard i;
          bios = s.bios i;
          security = s.security i;
          monitor = monitor i;
          gpu = gpu i;
          users = record { current = []; last = [] };
          serial_number = s.serial_number i;
        }

    -- Two snapshots of the same machine have one fingerprint: it does not change with the users, the
    -- time of the last boot, what is used of memory and disks and the addresses of the network, nor
    -- with the order in which modules, devices, adapters, monitors and graphics cards are listed,
    -- where the keys of the sorts tell these apart.
    pub fingerprint-SameMachine :
        (env : Env) (h k : Hardware F)
        → SameMachine h k
        → IsDistinct h
        → fingerprint fl tools env h ≡ fingerprint fl tools env k
    unfolding fingerprint
    fingerprint-SameMachine env h k s d = rw (normalized_hardware-SameMachine h k s d) refl
