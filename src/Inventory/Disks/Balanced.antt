-- ===== src/Inventory/Disks/Balanced.antt =====
-- The sizes of the disks of internal/inventory/collector_windows.go fit together.
use it_portal_agent.Prelude.{
  ℕ, ◌+◌, ◌%◌, ◌^◌, ◌≤◌, ◌<◌, ◌≡◌, refl, sym, ◌∙◌, false, inl, inr, List, [], ◌∷◌, arith, ltb, ◌==◌,
  All, All-append, Bool-cases, if◌then◌else◌,
}
use mathlib.Core.Path.{subst}
use it_portal_agent.FloatingPoint.{Floats}
use it_portal_agent.Inventory.Disks.{
  logical_device, add_logical_disk, add_logical_disks, with_used, identified, identify,
  physical_device, with_main_disk, add_physical_disk, add_physical_disks,
}
use it_portal_agent.Inventory.Rows.{LogicalDisk, DiskDrive}
use it_portal_agent.Inventory.Types.{StorageDevice, DiskInventory}
use it_portal_agent.Text.{Text, is_empty}
use it_portal_agent.Text.Search.{has_prefix}

-- The sum of a number of each row.
abbrev pub sum_of {ℓ} : {A : Type ℓ} → (A → ℕ) → List A → ℕ
sum_of f [] = 0
sum_of f (a ∷ l) = f a + sum_of f l

-- The free space of a logical disk that has a size.
abbrev pub counted_free : LogicalDisk → ℕ
counted_free d = if d.size == 0 then 0 else d.free_space

module _ {F : Type 0} (fl : Floats F) (lower_unicode : Text → Text) where
  -- A device with a size, of which no more is used than there is, and used and free make the whole
  -- where Windows says that no more is free than there is.
  abbrev pub IsBalanced : StorageDevice F → Type 0
  IsBalanced d =
      (0 < d.total_bytes)
      × (d.used_bytes ≤ d.total_bytes)
      × (d.free_bytes ≤ d.total_bytes → d.used_bytes + d.free_bytes ≡ d.total_bytes)

  -- The disks as a whole: their sizes are the sums of the logical disks', in 64 bits, and no more is
  -- used than there is.
  pub record IsInventory (disks : List LogicalDisk) (i : DiskInventory F) : Type 0 where
    pub devices : All IsBalanced i.devices
    pub total : i.total_bytes ≡ sum_of (λ d. d.size) disks % 2 ^ 64
    pub free : i.free_bytes ≡ sum_of counted_free disks % 2 ^ 64
    pub used : i.used_bytes ≤ i.total_bytes
    pub whole : i.free_bytes ≤ i.total_bytes → i.used_bytes + i.free_bytes ≡ i.total_bytes

  logical_device-IsBalanced :
      (d : LogicalDisk) → (d.size == 0) ≡ false → IsBalanced (logical_device fl lower_unicode d)
  unfolding logical_device
  logical_device-IsBalanced d h = (ground arith, ground arith, λ q. ground arith)

  add_logical_disk-devices :
      (d : LogicalDisk) (i : DiskInventory F)
      → All IsBalanced i.devices
      → All IsBalanced (add_logical_disk fl lower_unicode d i).devices
  unfolding add_logical_disk
  add_logical_disk-devices d i h = elim (Bool-cases (d.size == 0)) [
    | inl e ↦ rw (e, All) h
    | inr e ↦ rw (e, All) (All-append IsBalanced i.devices _ h (logical_device-IsBalanced d e, tt))
  ]

  add_logical_disks-devices :
      (disks : List LogicalDisk) (i : DiskInventory F)
      → All IsBalanced i.devices
      → All IsBalanced (add_logical_disks fl lower_unicode disks i).devices
  unfolding add_logical_disks
  add_logical_disks-devices [] i h = h
  add_logical_disks-devices (d ∷ disks) i h =
      add_logical_disks-devices disks _ (add_logical_disk-devices d i h)

  add_logical_disk-sums :
      (d : LogicalDisk) (i : DiskInventory F)
      → i.total_bytes < 2 ^ 64
      → i.free_bytes < 2 ^ 64
      → ((add_logical_disk fl lower_unicode d i).total_bytes ≡ (i.total_bytes + d.size) % 2 ^ 64)
        × ((add_logical_disk fl lower_unicode d i).free_bytes
            ≡ (i.free_bytes + counted_free d) % 2 ^ 64)
        × ((add_logical_disk fl lower_unicode d i).used_bytes ≡ i.used_bytes)
  unfolding add_logical_disk
  add_logical_disk-sums d i h k = elim (Bool-cases (d.size == 0)) [
    | inl e ↦ rw e (ground arith, ground arith, refl)
    | inr e ↦ rw e (refl, refl, refl)
  ]

  add_logical_disks-sums :
      (disks : List LogicalDisk) (i : DiskInventory F)
      → i.total_bytes < 2 ^ 64
      → i.free_bytes < 2 ^ 64
      → ((add_logical_disks fl lower_unicode disks i).total_bytes
          ≡ (i.total_bytes + sum_of (λ d. d.size) disks) % 2 ^ 64)
        × ((add_logical_disks fl lower_unicode disks i).free_bytes
            ≡ (i.free_bytes + sum_of counted_free disks) % 2 ^ 64)
        × ((add_logical_disks fl lower_unicode disks i).used_bytes ≡ i.used_bytes)
  unfolding add_logical_disks
  add_logical_disks-sums [] i h k = (omega arith, omega arith, refl)
  add_logical_disks-sums (d ∷ disks) i h k =
      let step = add_logical_disk-sums d i h k in
      let rest =
        add_logical_disks-sums disks (add_logical_disk fl lower_unicode d i) (omega (arith, step.0))
          (omega (arith, step.1)) in
      (omega (arith, rest.0, step.0), omega (arith, rest.1, step.1), rest.2 ∙ step.2)

  identified-IsBalanced :
      (smart_status : Text) (p : DiskDrive) (d : StorageDevice F)
      → IsBalanced d
      → IsBalanced (identified fl lower_unicode smart_status p d)
  unfolding identified
  identified-IsBalanced smart_status p d h =
      elim (Bool-cases (has_prefix d.device_id p.device_id)) [ inl e ↦ rw e h | inr e ↦ rw e h ]

  identify-IsBalanced :
      (smart_status : Text) (p : DiskDrive) (devices : List (StorageDevice F))
      → All IsBalanced devices
      → All IsBalanced (identify fl lower_unicode smart_status p devices)
  unfolding identify
  identify-IsBalanced smart_status p [] h = h
  identify-IsBalanced smart_status p (d ∷ devices) h =
      (identified-IsBalanced smart_status p d h.0, identify-IsBalanced smart_status p devices h.1)

  -- What the loop over the physical disks keeps of the logical ones, and the disks that it finds.
  abbrev IsFound : DiskInventory F → DiskInventory F × List (StorageDevice F) → Type 0
  IsFound i (k, storage) =
      All IsBalanced k.devices
      × (k.total_bytes ≡ i.total_bytes)
      × (k.free_bytes ≡ i.free_bytes)
      × (k.used_bytes ≡ i.used_bytes)
      × All (λ d. 0 < d.total_bytes) storage

  with_main_disk-IsFound :
      (smart_status : Text) (p : DiskDrive) (i k : DiskInventory F)
      (storage : List (StorageDevice F))
      → IsFound i (k, storage)
      → IsFound i (with_main_disk fl lower_unicode smart_status p k, storage)
  unfolding with_main_disk
  with_main_disk-IsFound smart_status p i k storage h = elim (Bool-cases (is_empty k.model)) [
    | inl e ↦ rw (e, All) h
    | inr e ↦ rw (e, All) h
  ]

  add_physical_disk-IsFound :
      (smart_status : Text) (p : DiskDrive) (i k : DiskInventory F)
      (storage : List (StorageDevice F))
      → IsFound i (k, storage)
      → IsFound i (add_physical_disk fl lower_unicode smart_status p (k, storage))
  unfolding add_physical_disk
  add_physical_disk-IsFound smart_status p i k storage h =
      let devices = identify-IsBalanced smart_status p k.devices h.0 in
      elim (Bool-cases (ltb 0 p.size)) [
        | inl e ↦ rw e (
            with_main_disk-IsFound smart_status p i _ _ (
              devices,
              h.1,
              h.2,
              h.3,
              All-append (λ d. 0 < d.total_bytes) storage
                  (physical_device fl lower_unicode smart_status p ∷ []) h.4
                  (unfold physical_device in ground arith, tt),
            ))
        | inr e ↦ rw e (devices, h.1, h.2, h.3, h.4)
      ]

  pub add_physical_disks-IsFound :
      (smart_status : Text) (disks : List DiskDrive) (i k : DiskInventory F)
      (storage : List (StorageDevice F))
      → IsFound i (k, storage)
      → IsFound i (add_physical_disks fl lower_unicode smart_status disks (k, storage))
  unfolding add_physical_disks
  add_physical_disks-IsFound smart_status [] i k storage h = h
  add_physical_disks-IsFound smart_status (p ∷ disks) i k storage h =
      let found = add_physical_disk fl lower_unicode smart_status p (k, storage) in
      add_physical_disks-IsFound smart_status disks i found.0 found.1
        (add_physical_disk-IsFound smart_status p i k storage h)

  -- `with_used` counts what is used.
  abbrev IsUsed : DiskInventory F → DiskInventory F → Type 0
  IsUsed i k =
      (k.total_bytes ≡ i.total_bytes)
      × (k.free_bytes ≡ i.free_bytes)
      × (k.used_bytes ≤ i.total_bytes)
      × (i.free_bytes ≤ i.total_bytes → k.used_bytes + i.free_bytes ≡ i.total_bytes)

  with_used-IsUsed : (i : DiskInventory F) → i.used_bytes ≡ 0 → IsUsed i (with_used fl i)
  unfolding with_used
  with_used-IsUsed i h = (refl, refl, ground arith, λ q. ground arith)

  with_used-devices :
      (i : DiskInventory F) → All IsBalanced i.devices → All IsBalanced (with_used fl i).devices
  unfolding with_used
  with_used-devices i h = h

  -- The loops over the disks, from no device: every device is balanced, the sizes of the whole fit
  -- together, and every listed physical disk has a size.
  pub disks-IsInventory :
      (smart_status : Text) (logical : List LogicalDisk) (physical : List DiskDrive)
      (i k : DiskInventory F) (storage : List (StorageDevice F))
      → i.devices ≡ []
      → i.total_bytes ≡ 0
      → i.free_bytes ≡ 0
      → i.used_bytes ≡ 0
      → add_physical_disks fl lower_unicode smart_status physical
          (with_used fl (add_logical_disks fl lower_unicode logical i), [])
        ≡ (k, storage)
      → IsInventory logical k × All (λ d. 0 < d.total_bytes) storage
  disks-IsInventory smart_status logical physical i k storage empty total free used e =
      let l : DiskInventory F = add_logical_disks fl lower_unicode logical i in
      let sums = add_logical_disks-sums logical i (omega arith) (omega arith) in
      let devices = add_logical_disks-devices logical i (subst (All IsBalanced) (sym empty) tt) in
      let all = with_used-IsUsed l (sums.2 ∙ used) in
      let found = subst (IsFound (with_used fl l)) e (
        add_physical_disks-IsFound smart_status physical (with_used fl l) (with_used fl l) []
          (with_used-devices l devices, refl, refl, refl, tt)) in
      (
        record {
          devices = found.0;
          total = omega (arith, found.1, all.0, sums.0, total);
          free = omega (arith, found.2, all.1, sums.1, free);
          used = omega (arith, found.1, found.3, all.0, all.2);
          whole = λ h. omega (arith, found.1, found.2, found.3, all.0, all.1, all.3);
        },
        found.4,
      )
