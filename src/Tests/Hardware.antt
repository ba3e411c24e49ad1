-- ===== src/Tests/Hardware.antt =====
-- The theorems on the hardware inventory, at two snapshots of one machine.
use mathlib.Core.List.{Permᴰ}
use native.Mathlib.Decide.{ℕ_discrete}
use it_portal_agent.Prelude.{
  ℕ, ◌*◌, ◌/◌, ◌≡◌, ◌≢◌, ◌⊎◌, inl, inr, refl, true, false, none, some, List, [], ◌∷◌, arith, length,
}
use it_portal_agent.Prelude.Assoc.{lookup}
use it_portal_agent.Text.Numbers.{hex}
use it_portal_agent.FloatingPoint.{Floats}
use it_portal_agent.Inventory.Changes.{diff_hardware}
use it_portal_agent.Inventory.Changes.Diff.{IsDiff, diff_hardware-IsDiff, disk_change_unreported}
use it_portal_agent.Inventory.Collector.{no_hardware, collect_hardware}
use it_portal_agent.Inventory.Collector.Consistent.{IsConsistent, collect_hardware-IsConsistent}
use it_portal_agent.Inventory.Engine.{run_once}
use it_portal_agent.Inventory.Persistence.{extend_timeline, stored_timeline, persist_timeline}
use it_portal_agent.Inventory.Engine.Outcome.{run_once-IsReport}
use it_portal_agent.Inventory.Engine.Reported.{last_fingerprint, IsConcluded}
use it_portal_agent.Inventory.Engine.Timeline.{IsExtended, timeline, persist_timeline-IsExtended}
use it_portal_agent.Inventory.Engine.Unchanged.{IsSkipped, run_once-IsSkipped}
use it_portal_agent.Inventory.Health.{calculate_health_v2}
use it_portal_agent.Inventory.Health.Bounds.{
  IsRounding, IsScored, is_weight, calculate_health_v2-IsScored,
}
use it_portal_agent.Inventory.Identity.{Tools, fingerprint, normalized_hardware, storage_key}
use it_portal_agent.Inventory.Identity.Stability.{SameMachine, IsDistinct, fingerprint-SameMachine}
use it_portal_agent.Inventory.Security.{collect_security}
use it_portal_agent.Inventory.Security.Honest.{IsHonest, collect_security-IsHonest}
use it_portal_agent.Inventory.Types.{Hardware, StorageDevice, HistoryEvent}
use it_portal_agent.Sorting.Reordered.{Reordered}
use it_portal_agent.Sync.{flush}
use it_portal_agent.Text.{Text, text, text_eq, text_eq_iff}
use it_portal_agent.Text.Case.{to_lower}
use it_portal_agent.World.{answer, World, background}
use it_portal_agent.Tests.{env, engine, waiting, fresh, setting}
use it_portal_agent.Tests.Agent.{floats, outside}
use it_portal_agent.Tests.Machine.{machine}

abbrev device : Text → ℕ → StorageDevice ℕ
device id free = record {
  device_id = id;
  type = text "NVMe";
  model = text "Disk";
  serial_number = id;
  health = text "OK";
  smart_status = text "healthy";
  total_bytes = 1000;
  free_bytes = free;
  used_bytes = 1000;
  capacity_gb = 0;
  used_gb = 0;
  free_gb = free;
  filesystem = [];
  drive_type = [];
}

-- A snapshot with a user and two disks.
abbrev snapshot : Text → List (StorageDevice ℕ) → Hardware ℕ
snapshot user storage = record (no_hardware floats) {
  general = record (no_hardware floats).general {
    computer_name = text "PC";
    serial_number = text "S1";
  };
  users = record { current = user; last = [] };
  storage = storage;
  serial_number = text "S1";
}

abbrev last : Hardware ℕ
last = snapshot (text "a") (device (text "0") 10 ∷ device (text "1") 20 ∷ [])

-- The same machine, with another user, and the disks in the other order with other free space.
abbrev found : Hardware ℕ
found = snapshot (text "b") (device (text "1") 30 ∷ device (text "0") 40 ∷ [])

abbrev event : HistoryEvent
event = record { timestamp = env.now 0; fingerprint = text "f1"; changes = [] }

abbrev read_timeline : Text → List HistoryEvent
read_timeline [] = []
read_timeline (n ∷ t) = event ∷ []

abbrev pub tools : Tools ℕ
tools = record {
  lower_unicode = λ t. t;
  upper_unicode = λ t. t;
  collect = λ ctx n. answer found;
  marshal_hardware = λ h. answer h.serial_number;
  unmarshal_hardware = λ t. none;
  marshal_payload = λ p. answer p.hostname;
  marshal_changes = λ c. answer [];
  marshal_timeline = λ l. answer (length l ∷ []);
  unmarshal_timeline = read_timeline;
  scan_float = λ t. none;
}

same_machine : SameMachine last found
same_machine = record {
  general = refl;
  operating_system = record {
    edition = refl;
    version = refl;
    build_number = refl;
    architecture = refl;
    install_date = refl;
    domain = refl;
    workgroup = refl;
    timezone = refl;
  };
  cpu = refl;
  ram = record { total_bytes = refl; total_gb = refl; slots = refl; modules = Permᴰ.nil };
  disk = record {
    total_bytes = refl;
    model = refl;
    type = refl;
    serial_number = refl;
    health = refl;
    smart_status = refl;
    devices = Reordered.nil;
  };
  storage =
      Reordered.swap
        (record {
          device_id = refl;
          type = refl;
          model = refl;
          serial_number = refl;
          health = refl;
          smart_status = refl;
          total_bytes = refl;
          filesystem = refl;
          drive_type = refl;
        })
        (record {
          device_id = refl;
          type = refl;
          model = refl;
          serial_number = refl;
          health = refl;
          smart_status = refl;
          total_bytes = refl;
          filesystem = refl;
          drive_type = refl;
        });
  nic = Reordered.nil;
  motherboard = refl;
  bios = refl;
  security = refl;
  monitor = Permᴰ.nil;
  gpu = Permᴰ.nil;
  serial_number = refl;
}

different : (s t : Text) → text_eq s t ≡ false → s ≢ t
different s t h e = cc (h, (text_eq_iff s t).1 e)

distinct : IsDistinct floats tools last
unfolding storage_key to_lower text_eq
distinct = record {
  modules = tt;
  devices = tt;
  storage = ((different _ _ refl, tt), (tt, tt));
  nic = tt;
  monitor = tt;
  gpu = tt;
}

fingerprint-SameMachine_example :
    fingerprint floats tools env last ≡ fingerprint floats tools env found
fingerprint-SameMachine_example =
    fingerprint-SameMachine floats tools env last found same_machine distinct

diff_hardware-IsDiff_example :
    IsDiff ℕ_discrete
      (normalized_hardware floats (λ t. t) last)
      (normalized_hardware floats (λ t. t) found)
      (diff_hardware ℕ_discrete floats (λ t. t) (some last) found)
diff_hardware-IsDiff_example = diff_hardware-IsDiff ℕ_discrete floats (λ t. t) last found

disk_change_unreported_example :
    diff_hardware ℕ_discrete floats
      (λ t. t)
      (some last)
      (record last { disk = record last.disk { total_bytes = 5 }; serial_number = text "S2" })
    ≡ []
disk_change_unreported_example =
    disk_change_unreported ℕ_discrete floats (λ t. t) last (record last.disk { total_bytes = 5 })
      (text "S2")

run_once-IsReport_example :
    IsConcluded floats tools env engine background
      (last_fingerprint waiting)
      false
      (run_once floats tools outside env ℕ_discrete (text "0.2.0") engine background waiting)
run_once-IsReport_example =
    run_once-IsReport floats tools outside env (λ n. refl) ℕ_discrete (text "0.2.0") engine
      background waiting

-- An agent whose last snapshot has the fingerprint of the machine.
abbrev known : World
known = record fresh {
  config =
      ("agent_uuid", setting (text "uuid-1"))
      ∷ ("inventory_last_fingerprint", setting (text "02"))
      ∷ [];
}

run_once-IsSkipped_example :
    IsSkipped
      (flush env engine background (record known { tick = 2 })).1
      (run_once floats tools outside env ℕ_discrete (text "0.2.0") engine background known)
unfolding lookup hex normalized_hardware fingerprint
run_once-IsSkipped_example =
    run_once-IsSkipped floats tools outside env ℕ_discrete (text "0.2.0") (λ n. refl) engine
      background known last found (text "uuid-1") (text "host") (text "02") refl tt tt refl
      (λ e. absurd (cc)) (λ n. refl) (λ n. refl) refl refl same_machine distinct

persist_timeline-IsExtended_example :
    IsExtended
      (timeline floats tools fresh)
      event
      (timeline floats tools (persist_timeline floats tools outside env [] (text "f1") fresh).1)
persist_timeline-IsExtended_example =
    persist_timeline-IsExtended floats tools outside env [] (text "f1") (1 ∷ []) fresh (λ n. refl)
      (unfold extend_timeline stored_timeline lookup in record { marshal = refl; unmarshal = refl })

collect_hardware-IsConsistent_example :
    IsConsistent floats (λ t. t) (machine 5) (collect_hardware floats (λ t. t) (machine 5))
collect_hardware-IsConsistent_example = collect_hardware-IsConsistent floats (λ t. t) (machine 5)

collect_security-IsHonest_example : IsHonest (machine 5) (collect_security (machine 5))
collect_security-IsHonest_example = collect_security-IsHonest (machine 5)

-- Numbers that keep the integers, with weights in hundredths.
abbrev percents : Floats ℕ
percents = record floats { hundredths = λ n. n; times = λ x y. x * y / 100 }

weights : (n : ℕ) → is_weight percents n ≡ true → (n ≡ 10) ⊎ ((n ≡ 15) ⊎ (n ≡ 20))
weights n h = ground arith

rounding : IsRounding percents
rounding = record {
  number = λ m n v h k l. (ground arith, ground arith);
  of_nat = λ m k n h l b. (ground arith, ground arith);
  plus = λ a b c d x y h p q. (ground arith, ground arith);
  minus = λ a b c v h k p. (ground arith, ground arith);
  times = λ n v h p. elim (weights n h) [
    | inl e ↦ rw e (ground arith, ground arith)
    | inr q ↦ elim q [
      | inl e ↦ rw e (ground arith, ground arith)
      | inr e ↦ rw e (ground arith, ground arith)
    ]
  ];
  divided = λ v p. (ground arith, ground arith);
}

calculate_health_v2-IsScored_example : IsScored percents rounding (
    calculate_health_v2 percents
      (λ t. t)
      90
      40
      120
      (text "ONLINE")
      300
      (collect_security (machine 5)))
calculate_health_v2-IsScored_example =
    calculate_health_v2-IsScored percents rounding (λ t. t) 90 40 120 (text "ONLINE") 300
      (collect_security (machine 5)) refl refl refl
