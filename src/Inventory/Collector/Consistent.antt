-- ===== src/Inventory/Collector/Consistent.antt =====
-- The numbers of a snapshot of internal/inventory/collector_windows.go fit together.
use it_portal_agent.Prelude.{
  ◌+◌, ◌%◌, ◌^◌, ◌≤◌, ◌<◌, ◌≡◌, refl, ap, sym, ◌∙◌, List, [], ◌∷◌, map, arith, length, All,
}
use mathlib.Core.Path.{subst}
use it_portal_agent.FloatingPoint.{Floats}
use it_portal_agent.Inventory.Collector.{
  no_hardware, with_system, with_product, with_enclosure, with_bios, with_board,
  with_operating_system, identify_machine, collect_disks, collect_hardware,
}
use it_portal_agent.Inventory.Disks.Balanced.{sum_of, IsInventory, disks-IsInventory}
use it_portal_agent.Inventory.Devices.{add_processor, with_processors, memory_module}
use it_portal_agent.Inventory.Disks.{visible_memory, counted_memory, total_disks}
use it_portal_agent.Inventory.Rows.{
  Machine, ComputerSystem, ComputerSystemProduct, SystemEnclosure, BiosRow, BaseBoard,
  OperatingSystemRow, Processor,
}
use it_portal_agent.Inventory.Types.{Cpu, Memory, DiskInventory, Hardware}
use it_portal_agent.Inventory.Status.{timezone, collect_smart_status}
use it_portal_agent.Text.{Text}

-- The counts of the processors are the sums of the rows', in 32 bits.
abbrev pub IsCounted : List Processor → Cpu → Cpu → Type 0
IsCounted processors before c =
    (c.logical_cores
      ≡ (before.logical_cores + sum_of (λ p. p.number_of_logical_processors) processors) % 2 ^ 32)
    × (c.physical_cores
        ≡ (before.physical_cores + sum_of (λ p. p.number_of_cores) processors) % 2 ^ 32)
    × (c.threads ≡ (before.threads + sum_of (λ p. p.thread_count) processors) % 2 ^ 32)

abbrev IsNarrow : Cpu → Type 0
IsNarrow c = (c.logical_cores < 2 ^ 32) × (c.physical_cores < 2 ^ 32) × (c.threads < 2 ^ 32)

with_processors-IsCounted :
    (processors : List Processor) (c : Cpu)
    → IsNarrow c
    → IsCounted processors c (with_processors processors c)
unfolding with_processors add_processor
with_processors-IsCounted [] c h = (omega arith, omega arith, omega arith)
with_processors-IsCounted (p ∷ processors) c h =
    let rest =
      with_processors-IsCounted processors (add_processor c p)
        (omega arith, omega arith, omega arith) in
    (omega (arith, rest.0), omega (arith, rest.1), omega (arith, rest.2))

module _ {F : Type 0} (fl : Floats F) where
  -- The step leaves the memory and the disks alone.
  abbrev Keeps : Hardware F → Hardware F → Type 0
  Keeps h k = (k.ram ≡ h.ram) × (k.disk ≡ h.disk) × (k.cpu ≡ h.cpu)

  with_product-Keeps :
      (l : List ComputerSystemProduct) (h : Hardware F) → Keeps h (with_product fl l h)
  unfolding with_product
  with_product-Keeps [] h = (refl, refl, refl)
  with_product-Keeps (p ∷ l) h = (refl, refl, refl)

  with_enclosure-Keeps :
      (l : List SystemEnclosure) (h : Hardware F) → Keeps h (with_enclosure fl l h)
  unfolding with_enclosure
  with_enclosure-Keeps [] h = (refl, refl, refl)
  with_enclosure-Keeps (e ∷ l) h = (refl, refl, refl)

  with_bios-Keeps : (l : List BiosRow) (h : Hardware F) → Keeps h (with_bios fl l h)
  unfolding with_bios
  with_bios-Keeps [] h = (refl, refl, refl)
  with_bios-Keeps (b ∷ l) h = (refl, refl, refl)

  with_board-Keeps : (l : List BaseBoard) (h : Hardware F) → Keeps h (with_board fl l h)
  unfolding with_board
  with_board-Keeps [] h = (refl, refl, refl)
  with_board-Keeps (b ∷ l) h = (refl, refl, refl)

  with_system-unused :
      (l : List ComputerSystem) (h : Hardware F)
      → ((with_system fl l h).ram.used_bytes ≡ h.ram.used_bytes)
        × ((with_system fl l h).disk ≡ h.disk)
        × ((with_system fl l h).cpu ≡ h.cpu)
  unfolding with_system
  with_system-unused [] h = (refl, refl, refl)
  with_system-unused (s ∷ l) h = (refl, refl, refl)

  with_operating_system-within :
      (zone : Text) (l : List OperatingSystemRow) (h : Hardware F)
      → h.ram.used_bytes ≡ 0
      → ((with_operating_system fl zone l h).ram.used_bytes
          ≤ (with_operating_system fl zone l h).ram.total_bytes)
        × ((with_operating_system fl zone l h).disk ≡ h.disk)
        × ((with_operating_system fl zone l h).cpu ≡ h.cpu)
  unfolding with_operating_system visible_memory
  with_operating_system-within zone [] h e = (omega arith, refl, refl)
  with_operating_system-within zone (os ∷ l) h e = (ground arith, refl, refl)

  counted_memory-within :
      (m : Memory F)
      → m.used_bytes ≤ m.total_bytes
      → (counted_memory fl m).used_bytes ≤ (counted_memory fl m).total_bytes
  unfolding counted_memory
  counted_memory-within m h = ground arith

  -- What the first steps give: no more memory is used than there is, and the disks and the processor
  -- are still empty.
  identify_machine-within :
      (m : Machine)
      → ((identify_machine fl m).ram.used_bytes ≤ (identify_machine fl m).ram.total_bytes)
        × ((identify_machine fl m).disk ≡ (no_hardware fl).disk)
        × ((identify_machine fl m).cpu ≡ (no_hardware fl).cpu)
  unfolding identify_machine
  identify_machine-within m =
      let h1 : Hardware F = with_system fl m.systems (no_hardware fl) in
      let h2 : Hardware F = with_product fl m.products h1 in
      let h3 : Hardware F = with_enclosure fl m.enclosures h2 in
      let h4 : Hardware F = with_bios fl m.bios h3 in
      let h5 : Hardware F = record h4 { serial_number = h4.general.serial_number } in
      let h6 : Hardware F = with_board fl m.boards h5 in
      let k1 = with_system-unused m.systems (no_hardware fl) in
      let k2 = with_product-Keeps m.products h1 in
      let k3 = with_enclosure-Keeps m.enclosures h2 in
      let k4 = with_bios-Keeps m.bios h3 in
      let k6 = with_board-Keeps m.boards h5 in
      let ram = k6.0 ∙ k4.0 ∙ k3.0 ∙ k2.0 in
      let w =
        with_operating_system-within (timezone m) m.operating_systems h6
          (ap (λ r. r.used_bytes) ram ∙ k1.0) in
      (
        counted_memory-within _ w.0,
        w.1 ∙ k6.1 ∙ k4.1 ∙ k3.1 ∙ k2.1 ∙ k1.1,
        w.2 ∙ k6.2 ∙ k4.2 ∙ k3.2 ∙ k2.2 ∙ k1.2,
      )

  length-map {ℓ κ} :
      {A : Type ℓ} {B : Type κ} (f : A → B) (l : List A) → length (map f l) ≡ length l
  length-map f [] = refl
  length-map f (a ∷ l) = omega (arith, length-map f l)

  module _ (lower_unicode : Text → Text) where
    -- The numbers of a snapshot fit together with each other and with the rows they are taken from.
    pub record IsConsistent (m : Machine) (h : Hardware F) : Type 0 where
      memory : h.ram.used_bytes ≤ h.ram.total_bytes
      slots : h.ram.slots ≡ length h.ram.modules % 2 ^ 32
      processors : IsCounted m.processors (no_hardware fl).cpu h.cpu
      disk : IsInventory fl lower_unicode m.logical_disks h.disk
      storage : All (λ d. 0 < d.total_bytes) h.storage
      network : h.network ≡ h.nic

    collect_disks-IsInventory :
        (m : Machine) (i : DiskInventory F)
        → i ≡ (no_hardware fl).disk
        → IsInventory fl lower_unicode m.logical_disks (collect_disks fl lower_unicode m i).0
          × All (λ d. 0 < d.total_bytes) (collect_disks fl lower_unicode m i).1
    unfolding collect_disks total_disks
    collect_disks-IsInventory m i e =
        let found =
          disks-IsInventory fl lower_unicode (collect_smart_status m.smart) m.logical_disks
            m.physical_disks i _ _ (ap (λ k. k.devices) e) (ap (λ k. k.total_bytes) e)
            (ap (λ k. k.free_bytes) e) (ap (λ k. k.used_bytes) e) refl in
        (
          record {
            devices = found.0.devices;
            total = found.0.total;
            free = found.0.free;
            used = found.0.used;
            whole = found.0.whole;
          },
          found.1,
        )

    -- The numbers of a snapshot that `Collect` returns fit together: no more memory and no more of any
    -- disk is used than there is, used and free make the whole of every disk that Windows does not
    -- report as fuller of free space than it is large, the totals are the sums over the processors, in
    -- 32 bits, and over the logical disks, in 64 bits, the slots are counted, and the two lists of
    -- network adapters are the same.
    pub collect_hardware-IsConsistent :
        (m : Machine) → IsConsistent m (collect_hardware fl lower_unicode m)
    unfolding collect_hardware
    collect_hardware-IsConsistent m =
        let first = identify_machine-within m in
        let disks = collect_disks-IsInventory m (identify_machine fl m).disk first.1 in
        record {
          memory = first.0;
          slots = ap (λ n. n % 2 ^ 32) (sym (length-map memory_module m.memory));
          processors =
              subst
                (λ c. IsCounted m.processors (no_hardware fl).cpu (with_processors m.processors c))
                (sym first.2)
                (with_processors-IsCounted m.processors (no_hardware fl).cpu
                  (omega arith, omega arith, omega arith));
          disk = disks.0;
          storage = disks.1;
          network = refl;
        }
