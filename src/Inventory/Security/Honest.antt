-- ===== src/Inventory/Security/Honest.antt =====
-- What `collectSecurity` of internal/inventory/collector_windows.go says of each part.
use it_portal_agent.Prelude.{
  ℕ, ◌≡◌, ◌↔◌, ◌⊎◌, refl, sym, Bool, true, false, if◌then◌else◌, Option, none, some, List, [], ◌∷◌,
  arith, inl, inr,
}
use mathlib.Core.Option.{some-injective}
use mathlib.Core.Path.{subst}
use it_portal_agent.Text.{Text, text}
use it_portal_agent.Inventory.Types.{SecurityState, Security}
use it_portal_agent.Inventory.Rows.{Machine, Tpm, DefenderStatus}
use it_portal_agent.Inventory.Status.{bool_status}
use it_portal_agent.Inventory.Security.{
  tpm_state, secure_boot_state, some_protected, bit_locker_state, defender_by_registry,
  defender_state, firewall_state, collect_security,
}

-- A part that is enabled is available.
abbrev pub IsPossible : SecurityState → Type 0
IsPossible s = s.enabled ≡ true → s.available ≡ true

-- What the flags mean.
abbrev pub status_text : Bool → Bool → Text
status_text available enabled =
    if available then (if enabled then text "enabled" else text "disabled") else text "unknown"

-- A part is possible, and its status says what its two flags say.
abbrev pub IsNamed : SecurityState → Type 0
IsNamed s = IsPossible s × (s.status ≡ status_text s.available s.enabled)

bool_status_lem :
    (enabled available : Bool) → bool_status enabled available ≡ status_text available enabled
unfolding bool_status
bool_status_lem enabled false = refl
bool_status_lem true true = refl
bool_status_lem false true = refl

-- A volume is protected.
abbrev pub SomeProtected : List ℕ → Type 0
SomeProtected [] = ⊥
SomeProtected (status ∷ volumes) = (status ≡ 1) ⊎ SomeProtected volumes

some_protected_iff : (volumes : List ℕ) → (some_protected volumes ≡ true) ↔ SomeProtected volumes
unfolding some_protected
some_protected_iff [] = (λ h. absurd (cc), λ h. absurd h)
some_protected_iff (status ∷ volumes) = (
  λ h. ground (arith, some_protected_iff volumes),
  λ h. elim h [ inl e ↦ ground arith | inr q ↦ ground (arith, (some_protected_iff volumes).1 q) ],
)

-- What is said of the parts. A part that is enabled is available; the status of all but the TPM and
-- BitLocker says the same as the flags; Defender is always there; and BitLocker is enabled exactly where
-- its query answered with a protected volume.
pub record IsHonest (machine : Machine) (s : Security) : Type 0 where
  tpm : IsPossible s.tpm
  secure_boot : IsNamed s.secure_boot
  bit_locker : IsPossible s.bit_locker
  defender : IsNamed s.defender
  firewall : IsNamed s.firewall
  present : s.defender.available ≡ true
  protected :
      (s.bit_locker.enabled ≡ true)
      ↔ ((volumes : List ℕ) × (machine.volumes ≡ some volumes) × SomeProtected volumes)

tpm_state-IsPossible : (tpms : Option (List Tpm)) → IsPossible (tpm_state tpms)
unfolding tpm_state
tpm_state-IsPossible none h = h
tpm_state-IsPossible (some []) h = h
tpm_state-IsPossible (some (t ∷ tpms)) h = refl

secure_boot_state-IsNamed : (value : Option ℕ) → IsNamed (secure_boot_state value)
unfolding secure_boot_state
secure_boot_state-IsNamed none = (λ h. h, bool_status_lem _ _)
secure_boot_state-IsNamed (some value) = (λ h. refl, bool_status_lem _ _)

firewall_state-IsNamed : (value : Option ℕ) → IsNamed (firewall_state value)
unfolding firewall_state
firewall_state-IsNamed none = (λ h. h, bool_status_lem _ _)
firewall_state-IsNamed (some value) = (λ h. refl, bool_status_lem _ _)

bit_locker_state-IsPossible : (volumes : Option (List ℕ)) → IsPossible (bit_locker_state volumes)
unfolding bit_locker_state some_protected
bit_locker_state-IsPossible none h = h
bit_locker_state-IsPossible (some []) h = h
bit_locker_state-IsPossible (some (status ∷ volumes)) h = refl

-- Defender's state names itself, and is there.
abbrev IsPresent : SecurityState → Type 0
IsPresent s = IsNamed s × (s.available ≡ true)

defender_by_registry-IsPresent : (value : Option ℕ) → IsPresent (defender_by_registry value)
unfolding defender_by_registry
defender_by_registry-IsPresent none = ((λ h. refl, bool_status_lem _ _), refl)
defender_by_registry-IsPresent (some value) = ((λ h. refl, bool_status_lem _ _), refl)

defender_state-IsPresent :
    (s : SecurityState) (found : Option (List DefenderStatus))
    → IsPresent s
    → IsPresent (defender_state s found)
unfolding defender_state
defender_state-IsPresent s none h = h
defender_state-IsPresent s (some []) h = h
defender_state-IsPresent s (some (d ∷ found)) h = ((λ q. refl, bool_status_lem _ _), refl)

bit_locker_state_iff :
    (found : Option (List ℕ))
    → ((bit_locker_state found).enabled ≡ true)
      ↔ ((volumes : List ℕ) × (found ≡ some volumes) × SomeProtected volumes)
unfolding bit_locker_state
bit_locker_state_iff none = (λ h. absurd (cc), λ h. absurd (cc h.1))
bit_locker_state_iff (some volumes) = (
  λ h. (volumes, refl, (some_protected_iff volumes).0 h),
  λ h. (some_protected_iff volumes).1 (subst SomeProtected (sym (some-injective _ _ h.1)) h.2),
)

-- What `collectSecurity` says holds together, whatever Windows answers: a part is enabled only where it
-- is available, the status of Secure Boot, Defender and the firewall says what their flags say, Defender
-- is always available, and BitLocker is enabled exactly where its query answered with a protected
-- volume.
pub collect_security-IsHonest : (machine : Machine) → IsHonest machine (collect_security machine)
unfolding collect_security
collect_security-IsHonest machine =
    let defender = defender_state-IsPresent _ machine.defender (defender_by_registry-IsPresent _) in
    record {
      tpm = tpm_state-IsPossible machine.tpms;
      secure_boot = secure_boot_state-IsNamed _;
      bit_locker = bit_locker_state-IsPossible machine.volumes;
      defender = defender.0;
      firewall = firewall_state-IsNamed _;
      present = defender.1;
      protected = bit_locker_state_iff machine.volumes;
    }
