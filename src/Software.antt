-- ===== src/Software.antt =====
-- internal/software/models.go and normalize.go: the records of installed software, their normal form
-- and the list without duplicates.
--
-- `sha256` is the hash, and `lower_unicode` is `strings.ToLower` for texts that are not ASCII.
pub mod Order
pub mod Entries
pub mod Iteration
pub mod Engine
pub mod Collector
use it_portal_agent.Prelude.{
  ℕ, ◌+◌, Bool, true, false, ◌&&◌, ◌||◌, Option, List, [], ◌∷◌, map, ◌==◌, ltb, leb, if◌then◌else◌,
  length,
}
use it_portal_agent.Text.{Text, text, text_eq, is_empty}
use it_portal_agent.Text.Space.{trim_space, fields, join}
use it_portal_agent.Text.Case.{to_lower}
use it_portal_agent.Text.Numbers.{hex}
use it_portal_agent.Text.Order.{text_lt}
use it_portal_agent.Sorting.{sort}

-- `Installation`. Times are in nanoseconds.
pub record Installation : Type 0 where
  pub name : Text
  pub display_name : Text
  pub version : Text
  pub publisher : Text
  pub architecture : Text
  pub install_date : Option ℕ
  pub install_location : Text
  pub uninstall_string : Text
  pub quiet_uninstall_string : Text
  pub registry_key : Text
  pub source : Text
  pub scope : Text
  pub evidence : Text
  pub first_seen : ℕ
  pub last_seen : ℕ

-- `clean`
unfoldable pub clean : Text → Text
clean value = join (text " ") (fields (trim_space value))

-- `NormalizeInstallation`: each of the two names stands in for the other where that is empty.
unfoldable pub normalize_installation : Installation → Installation
normalize_installation item =
    let name = clean item.name in
    let display = clean item.display_name in
    let display_name = if is_empty display then name else display in
    record item {
      name = if is_empty name then display_name else name;
      display_name = display_name;
      version = clean item.version;
      publisher = clean item.publisher;
      architecture = clean item.architecture;
      install_location = clean item.install_location;
      uninstall_string = clean item.uninstall_string;
      quiet_uninstall_string = clean item.quiet_uninstall_string;
      registry_key = clean item.registry_key;
      source = clean item.source;
      scope = clean item.scope;
      evidence = clean item.evidence;
    }

-- `sourceRank`
unfoldable pub source_rank : Text → ℕ
source_rank source =
    if text_eq source (text "REGISTRY_MACHINE_64")
    then 3
    else if text_eq source (text "REGISTRY_MACHINE_32")
    then 2
    else if text_eq source (text "REGISTRY_USER")
    then 1
    else 0

-- The test by which a later record takes the place of an earlier one.
unfoldable pub replaces : Installation → Installation → Bool
replaces item existing =
    ltb (source_rank existing.source) (source_rank item.source)
    || ltb (length existing.install_location) (length item.install_location)

-- The map from fingerprints, as its entries in the order in which they were made.
abbrev pub Entries : Type 0
Entries = List (Text × Installation)

-- The map's update for one record: overwrite the entry of the fingerprint, if the record replaces it,
-- or else make one.
unfoldable pub add_entry : Text → Installation → Entries → Entries
add_entry f item [] = (f, item) ∷ []
add_entry f item ((g, existing) ∷ m) =
    let rest = add_entry f item m in
    if text_eq f g
    then (g, if replaces item existing then item else existing) ∷ m
    else (g, existing) ∷ rest

module _ (sha256 lower_unicode : Text → Text) where
  -- `Normalize`
  unfoldable pub normalize : Text → Text
  unfolding to_lower
  normalize value = to_lower lower_unicode (clean value)

  -- `Fingerprint`
  unfoldable pub fingerprint : Installation → Text
  unfolding normalize
  fingerprint item =
      let i = normalize_installation item in
      hex (
        sha256 (
          join (text "|") (
            normalize i.name
            ∷ normalize i.publisher
            ∷ normalize i.version
            ∷ normalize i.architecture
            ∷ [])))

  -- The first loop of `NormalizeAndDeduplicate`.
  unfoldable pub deduplicate : List Installation → Entries → Entries
  deduplicate [] m = m
  deduplicate (item ∷ items) m =
      let i = normalize_installation item in
      deduplicate items (if is_empty i.name then m else add_entry (fingerprint i) i m)

  -- The order of the result.
  unfoldable pub less : Installation → Installation → Bool
  less a b =
      let left = normalize a.name in
      let right = normalize b.name in
      if text_eq left right then text_lt (fingerprint a) (fingerprint b) else text_lt left right

  -- `NormalizeAndDeduplicate`, where the map is gone through in the order of its entries.
  unfoldable pub normalize_and_deduplicate : List Installation → List Installation
  normalize_and_deduplicate items = sort less (map (λ (f, item). item) (deduplicate items []))
