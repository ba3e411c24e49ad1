-- ===== src/Inventory/Changes/Diff.antt =====
-- What `DiffHardware` of internal/inventory/intelligence.go reports.
use it_portal_agent.Prelude.{
  ◌≡◌, ◌↔◌, ◌≢◌, refl, Bool, true, false, not, ◌||◌, ◌&&◌, some, List, [], ◌∷◌, arith, ◌∙◌, inl,
  inr, Bool-cases, All,
}
use it_portal_agent.FloatingPoint.{Floats}
use it_portal_agent.Text.{Text, text, text_eq}
use it_portal_agent.Inventory.Types.{Hardware, HardwareChange, DiskInventory}
use it_portal_agent.Inventory.Identity.{normalized_hardware}
use it_portal_agent.Inventory.Changes.{
  decided, deep_equal, changes_of, sections_of, diff_hardware, General-discrete,
  OperatingSystem-discrete, Cpu-discrete, Memory-discrete, StorageDevice-discrete,
  NetworkAdapter-discrete, Motherboard-discrete, Bios-discrete, Security-discrete, Monitor-discrete,
  Gpu-discrete,
}

decided_iff {ℓ} : {P : Type ℓ} (d : Dec P) → (decided d ≡ true) ↔ P
decided_iff (yes p) = (λ h. p, λ h. refl)
decided_iff (no p) = (λ h. absurd (cc), λ h. absurd (p h))

deep_equal_iff {ℓ} : {A : Type ℓ} (d : Discrete A) (a b : A) → (deep_equal d a b ≡ true) ↔ (a ≡ b)
unfolding deep_equal
deep_equal_iff d a b = decided_iff (d a b)

-- The section is among the changes.
pub reports : Text → List HardwareChange → Bool
reports name [] = false
reports name (c ∷ changes) = text_eq name c.section || reports name changes

-- Some section of that name was found different.
abbrev differs : Text → List (Text × Bool) → Bool
differs name [] = false
differs name ((n, equal) ∷ sections) = (text_eq name n && not equal) || differs name sections

reports-changes_of :
    (name : Text) (sections : List (Text × Bool))
    → reports name (changes_of sections) ≡ differs name sections
unfolding reports changes_of
reports-changes_of name [] = refl
reports-changes_of name ((n, equal) ∷ sections) = ground (arith, reports-changes_of name sections)

changes_of-eq-nil :
    (sections : List (Text × Bool)) → (changes_of sections ≡ []) ↔ All (λ s. s.1 ≡ true) sections
unfolding changes_of
changes_of-eq-nil [] = (λ h. tt, λ h. refl)
changes_of-eq-nil ((n, true) ∷ sections) =
    (λ h. (refl, (changes_of-eq-nil sections).0 h), λ h. (changes_of-eq-nil sections).1 h.1)
changes_of-eq-nil ((n, false) ∷ sections) = (λ h. absurd (cc), λ h. absurd (cc))

module _ {F : Type 0} (same : Discrete F) where
  -- Of two values a change is reported under the name exactly where they differ.
  abbrev pub IsExact {ℓ} : Text → List HardwareChange → {A : Type ℓ} → A → A → Type ℓ
  IsExact name changes a b = (reports name changes ≡ true) ↔ (a ≢ b)

  exact_lem {ℓ} :
      {A : Type ℓ} (d : Discrete A) (a b : A) (reported : Bool)
      → reported ≡ (not (deep_equal d a b) || false)
      → (reported ≡ true) ↔ (a ≢ b)
  exact_lem d a b reported h = elim (Bool-cases (deep_equal d a b)) [
    | inl e ↦ (λ r. absurd (cc (r, rw e at h)), λ n. absurd (n ((deep_equal_iff d a b).0 e)))
    | inr e ↦ (λ r q. cc ((deep_equal_iff d a b).1 q, e), λ n. rw e at h)
  ]

  -- What the changes say of two snapshots in normal form.
  pub record IsDiff (l r : Hardware F) (changes : List HardwareChange) : Type 0 where
    general : IsExact (text "general") changes l.general r.general
    operating_system :
        IsExact (text "operatingSystem") changes l.operating_system r.operating_system
    cpu : IsExact (text "cpu") changes l.cpu r.cpu
    memory : IsExact (text "memory") changes l.ram r.ram
    storage : IsExact (text "storage") changes l.storage r.storage
    network : IsExact (text "network") changes l.nic r.nic
    motherboard : IsExact (text "motherboard") changes l.motherboard r.motherboard
    bios : IsExact (text "bios") changes l.bios r.bios
    security : IsExact (text "security") changes l.security r.security
    display : IsExact (text "display") changes l.monitor r.monitor
    gpu : IsExact (text "gpu") changes l.gpu r.gpu

  module _ (l r : Hardware F) where
    abbrev changes : List HardwareChange
    changes = changes_of (sections_of same l r)

    reported_lem {ℓ} :
        {A : Type ℓ} (name : Text) (d : Discrete A) (a b : A)
        → differs name (sections_of same l r) ≡ (not (deep_equal d a b) || false)
        → IsExact name changes a b
    reported_lem name d a b h =
        exact_lem d a b (reports name changes) (reports-changes_of name (sections_of same l r) ∙ h)

    diff_lem : IsDiff l r changes
    unfolding text_eq
    diff_lem = record {
      general = reported_lem (text "general") General-discrete l.general r.general refl;
      operating_system =
          reported_lem (text "operatingSystem") OperatingSystem-discrete l.operating_system
            r.operating_system refl;
      cpu = reported_lem (text "cpu") Cpu-discrete l.cpu r.cpu refl;
      memory = reported_lem (text "memory") (Memory-discrete same) l.ram r.ram refl;
      storage =
          reported_lem (text "storage") (StorageDevice-discrete same) l.storage r.storage refl;
      network = reported_lem (text "network") NetworkAdapter-discrete l.nic r.nic refl;
      motherboard =
          reported_lem (text "motherboard") Motherboard-discrete l.motherboard r.motherboard refl;
      bios = reported_lem (text "bios") Bios-discrete l.bios r.bios refl;
      security = reported_lem (text "security") Security-discrete l.security r.security refl;
      display = reported_lem (text "display") Monitor-discrete l.monitor r.monitor refl;
      gpu = reported_lem (text "gpu") Gpu-discrete l.gpu r.gpu refl;
    }

  -- Between two snapshots a change is reported for exactly those of the eleven sections whose normal
  -- forms differ.
  pub diff_hardware-IsDiff :
      (fl : Floats F) (lower_unicode : Text → Text) (previous current : Hardware F)
      → IsDiff
          (normalized_hardware fl lower_unicode previous)
          (normalized_hardware fl lower_unicode current)
          (diff_hardware same fl lower_unicode (some previous) current)
  unfolding diff_hardware
  diff_hardware-IsDiff fl lower_unicode previous current =
      diff_lem (normalized_hardware fl lower_unicode previous)
        (normalized_hardware fl lower_unicode current)

  self {ℓ} : {A : Type ℓ} (d : Discrete A) (a : A) → deep_equal d a a ≡ true
  self d a = (deep_equal_iff d a a).1 refl

  -- A snapshot that differs from the one before in the inventory of the disks alone, or in its serial
  -- number alone, has no changes.
  pub disk_change_unreported :
      (fl : Floats F) (lower_unicode : Text → Text) (h : Hardware F) (d : DiskInventory F)
      (n : Text)
      → diff_hardware same fl lower_unicode (some h) (record h { disk = d; serial_number = n }) ≡ []
  unfolding diff_hardware normalized_hardware
  disk_change_unreported fl lower_unicode h d n =
      let k : Hardware F = normalized_hardware fl lower_unicode h in
      (changes_of-eq-nil (sections_of same k k)).1 (
        self General-discrete k.general,
        (
          self OperatingSystem-discrete k.operating_system,
          (
            self Cpu-discrete k.cpu,
            (
              self (Memory-discrete same) k.ram,
              (
                self (StorageDevice-discrete same) k.storage,
                (
                  self NetworkAdapter-discrete k.nic,
                  (
                    self Motherboard-discrete k.motherboard,
                    (
                      self Bios-discrete k.bios,
                      (
                        self Security-discrete k.security,
                        (self Monitor-discrete k.monitor, (self Gpu-discrete k.gpu, tt)),
                      ),
                    ),
                  ),
                ),
              ),
            ),
          ),
        ),
      )
