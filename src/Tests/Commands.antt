-- ===== src/Tests/Commands.antt =====
-- The command line, the service and the software collector.
use native.Mathlib.Decide.{ℕ_discrete}
use it_portal_agent.Prelude.{ℕ, refl, true, none, some, List, [], ◌∷◌}
use it_portal_agent.App.Commands.{Program, inventory_command, software_command, print_status}
use it_portal_agent.App.Commands.Accepted.{
  IsInventoryAccepted, IsSoftwareAccepted, inventory_command-IsAccepted,
  software_command-IsAccepted,
}
use it_portal_agent.App.Commands.Shown.{IsShown, print_status-IsShown}
use it_portal_agent.Software.Collector.{Key, Registry}
use it_portal_agent.Tests.{env, codec, service, waiting, fresh}
use it_portal_agent.Tests.Agent.{floats, outside}
use it_portal_agent.Tests.Hardware
use it_portal_agent.Tests.Inventory
use it_portal_agent.Text.{Text, text}
use it_portal_agent.WindowsService.{
  ChangeRequest, interrogate, stop, shutdown, other, running, pending_status, Handler, execute,
  install, run_sc, sc_result,
}
use it_portal_agent.WindowsService.Installed.{IsInstalled, install-IsInstalled}
use it_portal_agent.Config.Files.{
  load_or_create, ensure_directories, parse_or_create, save, write_file,
}
use it_portal_agent.WindowsService.Life.{IsExecuted, execute-IsExecuted}
use it_portal_agent.World.{answer}

abbrev program : Program ℕ
program = record {
  hardware = Hardware.tools;
  software = Inventory.tools;
  outside = outside;
  codec = codec;
  same = ℕ_discrete;
  logger_error = λ level. none;
  manager = record {
    executable = λ n. answer (text "agent.exe");
    absolute = λ path. answer path;
    sc = λ n arguments. ([], none);
    is_service = λ n. answer true;
    serve_error = λ n is_service. none;
  };
  config_path = text "config.yaml";
  quoted = λ t. t;
}

inventory_command-IsAccepted_example :
    IsInventoryAccepted (inventory_command floats program env service waiting)
inventory_command-IsAccepted_example =
    inventory_command-IsAccepted floats program env service waiting (λ n. refl)

software_command-IsAccepted_example :
    IsSoftwareAccepted (software_command floats program env service waiting)
software_command-IsAccepted_example =
    software_command-IsAccepted floats program env service waiting (λ n. refl)

print_status-IsShown_example :
    IsShown floats program env waiting (print_status floats program env service waiting)
print_status-IsShown_example = print_status-IsShown floats program env service waiting (λ n. refl)

-- A status request, one that the service does not know, and a shutdown before another stop.
abbrev requests : List ChangeRequest
requests =
    record { cmd = interrogate; current_status = pending_status running }
    ∷ record { cmd = other; current_status = pending_status running }
    ∷ record { cmd = shutdown; current_status = pending_status running }
    ∷ record { cmd = stop; current_status = pending_status running }
    ∷ []

abbrev handler : Handler
handler = record { has_stop = true; has_start = true }

execute-IsExecuted_example : IsExecuted handler requests (execute handler requests)
execute-IsExecuted_example = execute-IsExecuted handler requests

abbrev key : Text → Key
key name = λ value. some name

-- A registry of which one view cannot be read.
abbrev registry : Registry
registry = record {
  machine_64 = some ((text "{1}", some (key (text "Tool"))) ∷ (text "{2}", none) ∷ []);
  machine_32 = none;
  user =
      some
        ((text "Editor", some (key (text "Editor"))) ∷ (text "Blank", some (key (text " "))) ∷ []);
}

install-IsInstalled_example :
    IsInstalled env program.manager fresh (install program.manager env fresh).1
unfolding install load_or_create ensure_directories parse_or_create save write_file run_sc sc_result
install-IsInstalled_example = install-IsInstalled env program.manager fresh refl
