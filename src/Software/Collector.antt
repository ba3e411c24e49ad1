-- ===== src/Software/Collector.antt =====
-- internal/software/collector_windows.go: the installed software from the registry's answers.
--
-- A view of the registry that cannot be opened or listed is `none`, and so is a key below it that cannot
-- be opened. A value is `none` where `GetStringValue` fails.
pub mod Found
use it_portal_agent.Prelude.{
  ℕ, ◌+◌, String, Bool, true, false, ◌||◌, Option, none, some, List, [], ◌∷◌, ◌++◌, ◌==◌, length,
  if◌then◌else◌,
}
use it_portal_agent.Software.{Installation, normalize_and_deduplicate}
use it_portal_agent.Text.{Text, text, text_eq, is_empty}
use it_portal_agent.Text.Space.{trim_space}
use it_portal_agent.World.{Reply, answer, failure}

-- The values of a key, by their names.
abbrev pub Key : Type 0
Key = String → Option Text

-- `registrySource`, with what the registry gives for it: the names of the keys below, and the keys.
pub record RegistrySource : Type 0 where
  pub path : Text
  pub source : Text
  pub scope : Text
  pub subkeys : Option (List (Text × Option Key))

-- What the three views of the registry give.
pub record Registry : Type 0 where
  pub machine_64 : Option (List (Text × Option Key))
  pub machine_32 : Option (List (Text × Option Key))
  pub user : Option (List (Text × Option Key))

-- `sources`
unfoldable pub sources : Registry → List RegistrySource
sources r =
    record {
      path = text "SOFTWARE\\Microsoft\\Windows\\CurrentVersion\\Uninstall";
      source = text "REGISTRY_MACHINE_64";
      scope = text "MACHINE";
      subkeys = r.machine_64;
    }
    ∷ record {
      path = text "SOFTWARE\\Microsoft\\Windows\\CurrentVersion\\Uninstall";
      source = text "REGISTRY_MACHINE_32";
      scope = text "MACHINE";
      subkeys = r.machine_32;
    }
    ∷ record {
      path = text "Software\\Microsoft\\Windows\\CurrentVersion\\Uninstall";
      source = text "REGISTRY_USER";
      scope = text "USER";
      subkeys = r.user;
    }
    ∷ []

-- `stringValue` without its error, which is `mustStringValue`.
unfoldable pub string_value : Key → String → Text
string_value key name = elim (key name) [ none ↦ [] | some value ↦ trim_space value ]

-- The architecture, which stands for that of the view where it is not given.
unfoldable pub architecture_of : Text → Text → Text
architecture_of source architecture =
    if is_empty architecture
    then (if text_eq source (text "REGISTRY_MACHINE_64")
        then text "x64"
        else if text_eq source (text "REGISTRY_MACHINE_32")
        then text "x86"
        else [])
    else architecture

-- `parse_date` is `time.ParseInLocation("20060102", value, time.Local)`.
module _ (parse_date : Text → Option ℕ) where
  -- `parseInstallDate`; 0 is the zero time.
  unfoldable pub parse_install_date : Text → ℕ
  parse_install_date value =
      if length value == 8 then elim (parse_date value) [ none ↦ 0 | some t ↦ t ] else 0

  -- The date that is kept: not the zero time.
  unfoldable pub install_date_of : ℕ → Option ℕ
  install_date_of date = if date == 0 then none else some date

  -- `readRegistryItem` from the values of the key on.
  unfoldable pub registry_item : RegistrySource → Text → Key → Text → Installation
  registry_item s name key display_name = record {
    name = display_name;
    display_name = display_name;
    version = string_value key "DisplayVersion";
    publisher = string_value key "Publisher";
    architecture = architecture_of s.source (string_value key "Architecture");
    install_date = install_date_of (parse_install_date (string_value key "InstallDate"));
    install_location = string_value key "InstallLocation";
    uninstall_string = string_value key "UninstallString";
    quiet_uninstall_string = string_value key "QuietUninstallString";
    registry_key = s.path ++ (text "\\" ++ name);
    source = s.source;
    scope = s.scope;
    evidence = text "Windows Registry";
    first_seen = 0;
    last_seen = 0;
  }

  -- `readRegistryItem` from the display name on: a blank one gives no item.
  unfoldable pub named_item : RegistrySource → Text → Key → Option Text → Option Installation
  named_item s name key none = none
  named_item s name key (some display_name) =
      if is_empty (trim_space display_name)
      then none
      else some (registry_item s name key display_name)

  -- `readRegistryItem`
  unfoldable pub read_registry_item : RegistrySource → Text → Option Key → Option Installation
  read_registry_item s name none = none
  read_registry_item s name (some key) = named_item s name key (key "DisplayName")

  -- The loop over the names.
  unfoldable pub read_items : RegistrySource → List (Text × Option Key) → List Installation
  read_items s [] = []
  read_items s ((name, key) ∷ subkeys) =
      let rest = read_items s subkeys in
      elim (read_registry_item s name key) [ none ↦ rest | some item ↦ item ∷ rest ]

  -- `readRegistrySource`: `none` is an error.
  unfoldable pub read_registry_source : RegistrySource → Option (List Installation)
  read_registry_source s = elim s.subkeys [
    | none ↦ none
    | some subkeys ↦ some (read_items s subkeys)
  ]

  -- The loop over the sources; `done` says whether the context is done when a source has its turn. A
  -- source with an error is passed over.
  unfoldable pub read_sources : (ℕ → Bool) → ℕ → List RegistrySource → Reply (List Installation)
  read_sources done n [] = answer []
  read_sources done n (s ∷ rest) =
      let later = read_sources done (n + 1) rest in
      if done n then failure (text "context canceled") else elim later [
        | failure t ↦ failure t
        | answer items ↦ elim (read_registry_source s) [
          | none ↦ answer items
          | some found ↦ answer (found ++ items)
        ]
      ]

  module _ (sha256 lower_unicode : Text → Text) where
    -- `collectWindows`
    unfoldable pub collect_windows : Registry → (ℕ → Bool) → Reply (List Installation)
    collect_windows r done = elim (read_sources done 0 (sources r)) [
      | failure t ↦ failure t
      | answer items ↦ answer (normalize_and_deduplicate sha256 lower_unicode items)
    ]
