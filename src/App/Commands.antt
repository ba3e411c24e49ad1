-- ===== src/App/Commands.antt =====
-- internal/app/app.go: the commands of the command line, but those of the service itself.
--
-- What a command prints is a value; a report that is printed beside an error is left out.
-- `logger_error` says whether `logger.New` refuses the log level.
pub mod Accepted
pub mod Shown
use it_portal_agent.Prelude.{
  ℕ, ◌*◌, ◌-◌, Bool, true, false, ◌&&◌, not, Option, none, some, List, [], ◌∷◌, ◌++◌, ltb,
  if◌then◌else◌,
}
use it_portal_agent.FloatingPoint.{Floats}
use it_portal_agent.Config.{Config}
use it_portal_agent.Config.Files.{load_or_create}
use it_portal_agent.Heartbeat.{Outside, configured_interval, outlasts}
use it_portal_agent.HttpClient.{second}
use it_portal_agent.Bootstrap
use it_portal_agent.Bootstrap.{Service, Codec, or_empty, ensure_registered, reload_config}
use it_portal_agent.Inventory.Engine as HardwareEngine
use it_portal_agent.Inventory.Identity
use it_portal_agent.Software.Engine as SoftwareEngine
use it_portal_agent.Inventory.Types
use it_portal_agent.Storage.{get, text_or_empty, queue_size, open_database}
use it_portal_agent.Sync
use it_portal_agent.Text.{Text, text, text_eq, is_empty}
use it_portal_agent.Text.Case.{to_lower}
use it_portal_agent.WindowsService.{
  Manager, install, uninstall_service, start_service, stop_service, restart, run_handler,
}
use it_portal_agent.World.{
  Err, external, is_queued, Result, ok, err, Env, Context, background, Action, ◌>>=◌, ◌>>◌, pure,
  raise, catch, observe,
}

-- The lines of `printStatus`.
pub record StatusLines : Type 0 where
  pub registered : Bool
  pub status : Bootstrap.Status
  pub heartbeat_state : Text
  pub last_heartbeat : Text
  pub latency : Text
  pub health : Text
  pub queue_size : ℕ
  pub last_error : Text

-- What a command prints.
pub data Printed : Type 0 where
  nothing : Printed
  line : Text → Printed
  status_lines : StatusLines → Printed
  hardware_report : Types.Report → Printed
  software_report : SoftwareEngine.Report → Printed

-- What the program takes from outside.
pub record Program (F : Type 0) : Type 0 where
  pub hardware : Identity.Tools F
  pub software : SoftwareEngine.Tools F
  pub outside : Outside F
  pub codec : Codec
  pub same : Discrete F
  pub logger_error : Text → Option Text
  pub manager : Manager
  -- `config.Path()`
  pub config_path : Text
  -- `%q`
  pub quoted : Text → Text

module _ {F : Type 0} (fl : Floats F) (p : Program F) (env : Env) where
  -- The state of the heartbeat behind the parsing of its time.
  unfoldable pub state_since : Option ℕ → Action Text
  state_since none = pure (text "PENDING")
  state_since (some parsed) = do
    now ← observe env.now
    interval ← configured_interval fl p.outside env
    pure (if outlasts (now - parsed) interval then text "OFFLINE" else text "ONLINE")

  -- `heartbeatState` of `printStatus`
  unfoldable pub heartbeat_state : Bool → Text → Action Text
  heartbeat_state registered last =
      if registered && not (is_empty last)
      then state_since (env.parse_time last)
      else pure (text "PENDING")

  -- `printStatus`
  unfoldable pub print_status : Service → Action StatusLines
  print_status s = do
    status ← Bootstrap.status env p.codec s
    last_heartbeat ← get env "heartbeat_last_success"
    latency ← get env "heartbeat_last_latency_ms"
    health ← get env "heartbeat_last_health"
    last_error ← get env "heartbeat_last_error"
    size ← queue_size env
    state ← heartbeat_state status.registered (or_empty last_heartbeat)
    pure (record {
      registered = status.registered;
      status = status;
      heartbeat_state = state;
      last_heartbeat = or_empty last_heartbeat;
      latency = or_empty latency;
      health = or_empty health;
      queue_size = size;
      last_error = or_empty last_error;
    })

  -- `initialize`, and `bootstrap.New` behind it.
  unfoldable pub initialize : Action Service
  initialize = do
    cfg ← load_or_create env
    elim (p.logger_error cfg.log_level) [
      | some t ↦ raise (external t)
      | none ↦ (do open_database env; pure (Bootstrap.new env p.codec cfg (text "0.2.0")))
    ]

  -- `withBootstrap`
  abbrev pub with_bootstrap {ℓ} : {A : Type ℓ} → (Service → Action A) → Action A
  with_bootstrap action = do s ← initialize; action s

  -- The engine of a command.
  abbrev pub transport : ℕ → Service → Sync.Engine
  transport timeout s = Sync.new env p.software.lower_unicode (record {
    portal_url = s.config.portal_url;
    proxy = s.config.proxy;
    tls_validate = s.config.tls_validation;
    compression = [];
    timeout = timeout;
    retry_delay = second;
  })

  -- The end of an inventory command: a report that was queued is no error.
  unfoldable pub accept {ℓ} : {A : Type ℓ} → A × Option Err → Action A
  accept (r, none) = pure r
  accept (r, some x) = if is_queued x then pure r else raise x

  -- The command `inventory`
  unfoldable pub inventory_command : Service → Action Types.Report
  inventory_command s = do
    run ←
        HardwareEngine.run_once fl p.hardware p.outside env p.same (text "0.2.0")
          (transport (30 * second) s) background
    accept run

  -- The command `software`
  unfoldable pub software_command : Service → Action SoftwareEngine.Report
  software_command s = do
    run ← SoftwareEngine.run_once fl p.software env (transport (60 * second) s) background
    accept run

  -- Prints nothing.
  abbrev silently {ℓ} : {A : Type ℓ} → Action A → Action Printed
  silently m = do m; pure nothing

  -- `runService`. The registration loop and the engines run beside the handler.
  unfoldable pub run_service : Action Printed
  run_service = silently (with_bootstrap (λ s. run_handler p.manager))

  -- The `switch` of `Run`, on the first argument and its lower case.
  unfoldable pub dispatch : Text → Text → Action Printed
  dispatch argument name =
      if text_eq name (text "install")
      then silently (install p.manager env)
      else if text_eq name (text "uninstall")
      then silently (uninstall_service p.manager)
      else if text_eq name (text "start")
      then silently (start_service p.manager)
      else if text_eq name (text "stop")
      then silently (stop_service p.manager)
      else if text_eq name (text "restart")
      then silently (restart p.manager)
      else if text_eq name (text "version")
      then pure (line (text "0.2.0"))
      else if text_eq name (text "config")
      then pure (line p.config_path)
      else if text_eq name (text "register")
      then silently (with_bootstrap (ensure_registered env p.codec))
      else if text_eq name (text "reload-config")
      then silently (with_bootstrap (reload_config env p.codec))
      else if text_eq name (text "status")
      then with_bootstrap (λ s. do lines ← print_status s; pure (status_lines lines))
      else if text_eq name (text "inventory")
      then with_bootstrap (λ s. do r ← inventory_command s; pure (hardware_report r))
      else if text_eq name (text "software")
      then with_bootstrap (λ s. do r ← software_command s; pure (software_report r))
      else raise (
          external (
            text "unknown command "
            ++ (p.quoted argument
                ++ text
                    "; valid commands: install, uninstall, start, stop, restart, register, status, inventory, software, reload-config, version, config")))

  -- `Run`
  unfoldable pub run : List Text → Action Printed
  run [] = run_service
  run (argument ∷ arguments) = dispatch argument (to_lower p.hardware.lower_unicode argument)
