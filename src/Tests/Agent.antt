-- ===== src/Tests/Agent.antt =====
-- Registration, its loop and the list of installed software.
use mathlib.Core.List.{Permᴰ}
use it_portal_agent.Prelude.{
  map, ℕ, ◌/◌, ◌-◌, ◌*◌, ◌==◌, ◌+◌, ltb, leb, ◌≡◌, refl, none, List, [], ◌∷◌,
}
use it_portal_agent.Prelude.Assoc.{insert}
use it_portal_agent.Config.Files.{save, write_file}
use it_portal_agent.HttpClient.{second, do_request, attempts, attempt, sign_attempt, exchange}
use it_portal_agent.Security.{set_header}
use it_portal_agent.Storage.{put, put_secret, protect_secret}
use it_portal_agent.Bootstrap.{
  PortalResponse, Service, save_configuration, put_unless_empty, put_secret_unless_empty,
  save_registration, register, registration_payload, machine_uuid, os_version, request,
  read_response, registration_time, complete_registration, ensure_registered,
}
use it_portal_agent.Bootstrap.Saving.{IsSaved, save_configuration-IsSaved}
use it_portal_agent.Bootstrap.Registration.{
  IsRegistered, register-IsRegistered, registration_cut_short,
}
use it_portal_agent.App.{bootstrap_with_retry}
use it_portal_agent.App.Retry.{IsOutcome, bootstrap_with_retry-IsOutcome}
use it_portal_agent.Software.{Installation, Entries, less, deduplicate, normalize_and_deduplicate}
use it_portal_agent.Software.Iteration.{iteration_order_irrelevant}
use it_portal_agent.Sorting.{sort}
use it_portal_agent.Software.Entries.{item_of, IsInventory, normalize_and_deduplicate-IsInventory}
use it_portal_agent.Text.{Text, text}
use it_portal_agent.Text.Space.{trim_space, trim_left, trim_right, trim_slashes}
use it_portal_agent.World.{
  answer, failure, external, wrap, ok, err, Env, World, background, IsQuiet,
}
use it_portal_agent.Text.Numbers.{print_decimal}
use it_portal_agent.FloatingPoint.{Floats}
use it_portal_agent.Heartbeat.{Outside, send_heartbeat}
use it_portal_agent.Heartbeat.Report.{IsReported, send_heartbeat-IsReported}
use it_portal_agent.Tests.{engine, env, codec, service, waiting, fresh}

abbrev response : PortalResponse
response = record {
  agent_uuid = text "uuid-1";
  agent_token = text "token";
  configuration = text "{}";
  policy = [];
  registration_time = [];
  configuration_version = text "7";
}

save_configuration-IsSaved_example :
    IsSaved env codec response fresh (save_configuration env codec response fresh).1
save_configuration-IsSaved_example = save_configuration-IsSaved env codec response fresh (
    unfold save_configuration put_unless_empty put_secret_unless_empty put_secret protect_secret
      put in
    refl)

-- The same outside, where data protection fails.
abbrev locked : Env
locked = record env { protect = λ n t. failure (text "locked") }

abbrev half : World
half = (save_registration locked codec response fresh).1

registration_cut_short_example :
    ((save_registration locked codec response fresh).0
      ≡ err (
          wrap "protect agent_token"
            (wrap "Windows data protection operation failed" (external (text "locked")))))
    × ((ensure_registered locked codec service half).0 ≡ ok service)
    × (IsQuiet half (ensure_registered locked codec service half).1)
registration_cut_short_example =
    registration_cut_short locked codec service response fresh half
      (wrap "protect agent_token"
        (wrap "Windows data protection operation failed" (external (text "locked"))))
      (unfold put in refl) (unfold put put_secret protect_secret in refl) refl refl refl

abbrev registered_service : Service
registered_service = record service { config = record service.config { enrollment_key = [] } }

abbrev later : World
later = record fresh { tick = 20 }

register-IsRegistered_example :
    IsRegistered env codec registered_service (register env codec service later).1
register-IsRegistered_example = register-IsRegistered env codec service registered_service later (
    unfold register registration_payload machine_uuid os_version request read_response
      registration_time complete_registration save_registration save_configuration put_unless_empty
      put_secret_unless_empty put_secret protect_secret put save write_file do_request attempts
      attempt sign_attempt exchange set_header insert trim_space trim_left trim_right
      trim_slashes in
    refl)

bootstrap_with_retry-IsOutcome_example :
    IsOutcome env codec background 2
      (bootstrap_with_retry env codec background 2 second service fresh).0
      (bootstrap_with_retry env codec background 2 second service fresh).1
bootstrap_with_retry-IsOutcome_example =
    bootstrap_with_retry-IsOutcome env codec background 2 service fresh

abbrev installation : Text → Text → Text → Installation
installation name source location = record {
  name = name;
  display_name = name;
  version = text "1.0";
  publisher = text "Vendor";
  architecture = text "x64";
  install_date = none;
  install_location = location;
  uninstall_string = [];
  quiet_uninstall_string = [];
  registry_key = [];
  source = source;
  scope = [];
  evidence = [];
  first_seen = 0;
  last_seen = 0;
}

abbrev pub hash : Text → Text
hash t = t

abbrev found : List Installation
found =
    installation (text "  Tool   A ") (text "REGISTRY_USER") (text "C:/Users")
    ∷ installation (text "tool a") (text "REGISTRY_MACHINE_64") (text "C:")
    ∷ installation (text "Editor") (text "REGISTRY_MACHINE_32") []
    ∷ installation (text " ") [] []
    ∷ []

normalize_and_deduplicate-IsInventory_example :
    IsInventory hash hash found (normalize_and_deduplicate hash hash found)
normalize_and_deduplicate-IsInventory_example =
    normalize_and_deduplicate-IsInventory hash hash found

-- The first two entries in the other order.
abbrev swapped : Entries → Entries
swapped [] = []
swapped (a ∷ []) = a ∷ []
swapped (a ∷ b ∷ l) = b ∷ a ∷ l

swapped-perm : (l : Entries) → Permᴰ l (swapped l)
swapped-perm [] = Permᴰ.nil
swapped-perm (a ∷ []) = Permᴰ.cons refl Permᴰ.nil
swapped-perm (a ∷ b ∷ l) = Permᴰ.swap refl refl

iteration_order_irrelevant_example :
    sort (less hash hash) (map (item_of hash hash) (swapped (deduplicate hash hash found [])))
    ≡ normalize_and_deduplicate hash hash found
iteration_order_irrelevant_example =
    iteration_order_irrelevant hash hash found (swapped (deduplicate hash hash found []))
      (swapped-perm (deduplicate hash hash found []))

abbrev pub floats : Floats ℕ
floats = record {
  of_nat = λ n. n;
  hundredths = λ n. 0;
  less = ltb;
  at_least = λ x y. leb y x;
  equal = ◌==◌;
  plus = λ x y. x + y;
  minus = λ x y. x - y;
  times = λ x y. x * y;
  divided = λ x y. x / y;
  truncated = λ x. x;
}

abbrev pub outside : Outside ℕ
outside = record {
  metrics_output = λ n. none;
  marshal = λ p. answer p.hostname;
  format_float = print_decimal;
  parse_object = λ t. none;
  parse_duration = λ t. none;
  goos = text "windows";
  goarch = text "amd64";
}

send_heartbeat-IsReported_example :
    IsReported (send_heartbeat floats outside env engine background (text "0.2.0") waiting)
send_heartbeat-IsReported_example =
    send_heartbeat-IsReported floats outside env (λ n. refl) engine background (text "0.2.0")
      waiting
