-- ===== src/Inventory/Security.antt =====
-- internal/inventory/collector_windows.go: `collectSecurity`.
pub mod Honest
use it_portal_agent.Prelude.{
  ℕ, Bool, true, false, not, ◌&&◌, ◌||◌, Option, none, some, List, [], ◌∷◌, ◌==◌, if◌then◌else◌,
}
use it_portal_agent.Text.{Text, is_empty}
use it_portal_agent.Inventory.Types.{SecurityState, Security}
use it_portal_agent.Inventory.Rows.{Machine, Tpm, DefenderStatus}
use it_portal_agent.Inventory.Status.{clean, bool_status, registry_dword}

-- `SecurityState{}`
abbrev pub no_state : SecurityState
no_state = record { available = false; enabled = false; status = [] }

-- The TPM behind its query.
unfoldable pub tpm_state : Option (List Tpm) → SecurityState
tpm_state none = no_state
tpm_state (some []) = no_state
tpm_state (some (t ∷ tpms)) = record {
  available = true;
  enabled = t.is_enabled && t.is_activated;
  status = clean t.spec_version;
}

-- Secure Boot and its value in the registry.
unfoldable pub secure_boot_state : Option ℕ → SecurityState
secure_boot_state none = record {
  available = false;
  enabled = false;
  status = bool_status false false;
}
secure_boot_state (some value) = record {
  available = true;
  enabled = value == 1;
  status = bool_status (value == 1) true;
}

-- The loop over the volumes, which ends at a protected one.
unfoldable pub some_protected : List ℕ → Bool
some_protected [] = false
some_protected (status ∷ volumes) =
    let rest = some_protected volumes in if status == 1 then true else rest

-- BitLocker behind its query.
unfoldable pub bit_locker_state : Option (List ℕ) → SecurityState
bit_locker_state none = no_state
bit_locker_state (some volumes) = record {
  available = not (is_empty volumes);
  enabled = some_protected volumes;
  status = bool_status (some_protected volumes) true;
}

-- Defender by its value in the registry.
unfoldable pub defender_by_registry : Option ℕ → SecurityState
defender_by_registry none = record {
  available = true;
  enabled = true;
  status = bool_status true true;
}
defender_by_registry (some disable) = record {
  available = true;
  enabled = disable == 0;
  status = bool_status (disable == 0) true;
}

-- Defender behind its query, which counts more than the registry.
unfoldable pub defender_state : SecurityState → Option (List DefenderStatus) → SecurityState
defender_state by_registry none = by_registry
defender_state by_registry (some []) = by_registry
defender_state by_registry (some (d ∷ defender)) =
    let enabled =
      d.am_service_enabled
      && (d.antispyware_enabled && (d.antivirus_enabled && d.real_time_protection_enabled)) in
    record { available = true; enabled = enabled; status = bool_status enabled true }

-- The firewall and its value in the registry.
unfoldable pub firewall_state : Option ℕ → SecurityState
firewall_state none = record {
  available = false;
  enabled = false;
  status = bool_status false false;
}
firewall_state (some value) = record {
  available = true;
  enabled = not (value == 0);
  status = bool_status (not (value == 0)) true;
}

-- `collectSecurity`
unfoldable pub collect_security : Machine → Security
collect_security machine = record {
  tpm = tpm_state machine.tpms;
  secure_boot = secure_boot_state (
      registry_dword machine "SYSTEM\\CurrentControlSet\\Control\\SecureBoot\\State"
        "UEFISecureBootEnabled");
  bit_locker = bit_locker_state machine.volumes;
  defender =
      defender_state
        (defender_by_registry
          (registry_dword machine "SOFTWARE\\Microsoft\\Windows Defender" "DisableAntiSpyware"))
        machine.defender;
  firewall = firewall_state (
      registry_dword machine
        "SYSTEM\\CurrentControlSet\\Services\\SharedAccess\\Parameters\\FirewallPolicy\\StandardProfile"
        "EnableFirewall");
}
