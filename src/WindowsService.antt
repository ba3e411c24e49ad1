-- ===== src/WindowsService.antt =====
-- internal/windowsservice/service.go: the handler of the service manager's requests, and the commands
-- that install and control the service.
--
-- The channels of `Execute` are the list of the requests, which ends where the channel is closed, and
-- the list of what the handler does. `start` runs beside the loop.
pub mod Life
pub mod Installed
use it_portal_agent.Prelude.{
  ℕ, Bool, true, false, Option, none, some, List, [], ◌∷◌, ◌++◌, if◌then◌else◌,
}
use it_portal_agent.Config.Files.{load_or_create}
use it_portal_agent.Text.{Text, text}
use it_portal_agent.World.{
  wrap, external, Reply, result, Result, ok, err, Env, Action, ◌>>=◌, ◌>>◌, pure, raise, annotate,
  observe, observe_result,
}

-- `svc.State` and `svc.Status`, as far as the handler sets them; the manager's own statuses have a number.
pub data ServiceState : Type 0 where
  start_pending : ServiceState
  running : ServiceState
  stop_pending : ServiceState
  current : ℕ → ServiceState

pub record ServiceStatus : Type 0 where
  pub state : ServiceState
  -- `AcceptStop | AcceptShutdown`
  pub accepts : Bool

-- `svc.Cmd`
pub data Command : Type 0 where
  interrogate : Command
  stop : Command
  shutdown : Command
  other : Command

-- `svc.ChangeRequest`
pub record ChangeRequest : Type 0 where
  pub cmd : Command
  pub current_status : ServiceStatus

-- `Handler`: whether its functions are there.
pub record Handler : Type 0 where
  pub has_stop : Bool
  pub has_start : Bool

-- What the handler does: it reports a status, starts the agent, or calls `stop`.
pub data Deed : Type 0 where
  reported : ServiceStatus → Deed
  started : Deed
  stopped : Deed

abbrev pub pending_status : ServiceState → ServiceStatus
pending_status state = record { state = state; accepts = false }

abbrev pub when : Bool → Deed → List Deed
when true deed = deed ∷ []
when false deed = []

-- The `switch` of the loop, before the requests that are left.
unfoldable pub handle : Handler → Command → ServiceStatus → List Deed → List Deed
handle h interrogate current_status rest = reported current_status ∷ rest
handle h stop current_status rest = reported (pending_status stop_pending) ∷ when h.has_stop stopped
handle h shutdown current_status rest =
    reported (pending_status stop_pending) ∷ when h.has_stop stopped
handle h other current_status rest = rest

-- The loop over the requests.
unfoldable pub serve : Handler → List ChangeRequest → List Deed
serve h [] = []
serve h (r ∷ requests) = let rest = serve h requests in handle h r.cmd r.current_status rest

-- `Execute`
unfoldable pub execute : Handler → List ChangeRequest → List Deed
execute h requests =
    reported (pending_status start_pending)
    ∷ (when h.has_start started
        ++ (reported (record { state = running; accepts = true }) ∷ serve h requests))

-- The program's path; `sc.exe`: its output, and its error; `svc.IsWindowsService()`; and the error of
-- `svc.Run`, for a service, or of `debug.Run`.
pub record Manager : Type 0 where
  pub executable : ℕ → Reply Text
  pub absolute : Text → Reply Text
  pub sc : ℕ → List Text → Text × Option Text
  pub is_service : ℕ → Reply Bool
  pub serve_error : ℕ → Bool → Option Text

-- `runSC` behind the call.
unfoldable pub sc_result : Text × Option Text → Action (Unit {0})
sc_result (output, none) = pure tt
sc_result (output, some t) =
    raise (wrap "service command failed" (external (t ++ (text ": " ++ output))))

-- The arguments of `sc.exe` that create the service for a path, and those that describe it.
abbrev pub create_arguments : Text → List Text
create_arguments path =
    text "create"
    ∷ text "ITPortalAgent"
    ∷ text "binPath="
    ∷ (text "\"" ++ (path ++ text "\""))
    ∷ text "start="
    ∷ text "auto"
    ∷ text "DisplayName="
    ∷ text "IT Portal Agent"
    ∷ []

abbrev pub description_arguments : List Text
description_arguments =
    text "description" ∷ text "ITPortalAgent" ∷ text "Enterprise IT Inventory Agent" ∷ []

module _ (m : Manager) where
  -- `runSC`
  unfoldable pub run_sc : List Text → Action (Unit {0})
  run_sc arguments = do answer ← observe (λ n. m.sc n arguments); sc_result answer

  -- `Uninstall`, `Start` and `Stop`
  abbrev pub uninstall_service : Action (Unit {0})
  uninstall_service = run_sc (text "delete" ∷ text "ITPortalAgent" ∷ [])

  abbrev pub start_service : Action (Unit {0})
  start_service = run_sc (text "start" ∷ text "ITPortalAgent" ∷ [])

  abbrev pub stop_service : Action (Unit {0})
  stop_service = run_sc (text "stop" ∷ text "ITPortalAgent" ∷ [])

  -- `Restart`
  unfoldable pub restart : Action (Unit {0})
  restart = do stop_service; start_service

  -- `Install`
  unfoldable pub install : Env → Action (Unit {0})
  install env = do
    executable ← annotate "resolve executable" (observe_result m.executable)
    path ← annotate "resolve executable path" (λ w. (result (m.absolute executable), w))
    load_or_create env
    run_sc (create_arguments path)
    run_sc description_arguments

  -- The end of `Run`.
  abbrev run_result : Option Text → Action (Unit {0})
  run_result none = pure tt
  run_result (some t) = raise (external t)

  -- `Run`, whose handler runs beside it.
  unfoldable pub run_handler : Action (Unit {0})
  run_handler = do
    is_service ← annotate "detect service context" (observe_result m.is_service)
    failed ← observe (λ n. m.serve_error n is_service)
    run_result failed
