-- ===== src/Software/Collector/Found.antt =====
-- What `collectWindows` of internal/software/collector_windows.go finds.
use it_portal_agent.Prelude.{
  ℕ, ◌≡◌, Bool, true, false, ◌&&◌, ◌||◌, Option, none, some, List, [], ◌∷◌, ◌++◌, All,
}
use it_portal_agent.Software.{Installation, normalize_installation, clean}
use it_portal_agent.Software.Collector.{
  Key, RegistrySource, Registry, sources, string_value, read_registry_source,
}
use it_portal_agent.Software.Entries.{IsInventory}
use it_portal_agent.Text.{Text, text, text_eq}
use it_portal_agent.World.{Reply, answer}

-- The record has the display name and the version that the key gives.
shows : Option Text → Text → Installation → Bool
shows none version i = false
shows (some display) version i =
    text_eq i.display_name (clean display) && text_eq i.version (clean version)

-- Among the keys below `path` there is one that can be opened, is named as the record's registry key
-- says, and gives its display name and its version.
pub has_entry : Text → List (Text × Option Key) → Installation → Bool
has_entry path [] i = false
has_entry path ((name, none) ∷ subkeys) i = has_entry path subkeys i
has_entry path ((name, some key) ∷ subkeys) i =
    (text_eq i.registry_key (clean (path ++ (text "\\" ++ name)))
      && shows (key "DisplayName") (string_value key "DisplayVersion") i)
    || has_entry path subkeys i

-- The view can be read, and has an entry for the record.
abbrev pub is_entry_of : Text → Option (List (Text × Option Key)) → Installation → Bool
is_entry_of path none i = false
is_entry_of path (some subkeys) i = has_entry path subkeys i

-- The record names the registry as its evidence and one of the three views with its scope, and that
-- view has an entry for it.
abbrev pub is_from : Registry → Installation → Bool
is_from r i =
    text_eq i.evidence (text "Windows Registry")
    && ((text_eq i.source (text "REGISTRY_MACHINE_64")
          && text_eq i.scope (text "MACHINE")
          && is_entry_of (text "SOFTWARE\\Microsoft\\Windows\\CurrentVersion\\Uninstall")
              r.machine_64 i)
        || (text_eq i.source (text "REGISTRY_MACHINE_32")
            && text_eq i.scope (text "MACHINE")
            && is_entry_of (text "SOFTWARE\\Microsoft\\Windows\\CurrentVersion\\Uninstall")
                r.machine_32 i)
        || (text_eq i.source (text "REGISTRY_USER")
            && text_eq i.scope (text "USER")
            && is_entry_of (text "Software\\Microsoft\\Windows\\CurrentVersion\\Uninstall") r.user
                i))

-- A record that a source gives, which has an entry for it.
abbrev IsItem : RegistrySource → List (Text × Option Key) → Installation → Type 0
IsItem s subkeys i =
    (i.evidence ≡ text "Windows Registry")
    × (i.source ≡ s.source)
    × (i.scope ≡ s.scope)
    × (has_entry s.path subkeys (normalize_installation i) ≡ true)

-- What a source of the registry gives, is from the registry.
abbrev IsKnown : Registry → RegistrySource → Type 0
IsKnown r s =
    (subkeys : List (Text × Option Key)) (i : Installation)
    → s.subkeys ≡ some subkeys
    → IsItem s subkeys i
    → is_from r (normalize_installation i) ≡ true

module _ (parse_date : Text → Option ℕ) where
  -- The item, if there is one, has an entry.
  abbrev IsKept : RegistrySource → List (Text × Option Key) → Option Installation → Type 0
  IsKept s subkeys none = Unit
  IsKept s subkeys (some i) = IsItem s subkeys i

  -- Each normal form is from the registry.
  abbrev AllKept : Registry → List Installation → Type 0
  AllKept r = All (λ i. is_from r (normalize_installation i) ≡ true)

  -- What is found in a view, which is nothing where it cannot be read.
  abbrev pub view : RegistrySource → List Installation
  view s = elim (read_registry_source parse_date s) [ none ↦ [] | some l ↦ l ]

  abbrev pub views : List RegistrySource → List Installation
  views [] = []
  views (s ∷ l) = view s ++ views l

  module _ (sha256 lower_unicode : Text → Text) where
    -- What `collectWindows` returns for the registry.
    pub record IsFound (r : Registry) (out : Reply (List Installation)) : Type 0 where
      pub result : List Installation
      pub returns : out ≡ answer result
      pub inventory : IsInventory sha256 lower_unicode (views (sources r)) result
      pub registered : All (λ i. is_from r i ≡ true) result
